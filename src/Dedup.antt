-- ===== src/Dedup.antt =====
-- pkg/dedup: the two sets of seen keys. The mutex makes each call one step.
pub mod GenSet
pub mod TtlSet
