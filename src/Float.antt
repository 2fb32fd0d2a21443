-- ===== src/Float.antt =====
-- Go's float64: the interface, its laws, and an instance that runs.
mod Defs
mod FixedPoint
pub use Defs.*
pub use FixedPoint.{Fixed, fixed_float, Fixed-IsOrdered, Fixed-IsRounded}
unfoldable pub use FixedPoint.{add_fixed, sub_fixed, mul_fixed, div_fixed, neg_fixed}
