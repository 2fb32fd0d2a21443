-- ===== src/Notifier/Approval/Keyed.antt =====
-- What waits under a key and what was decided on it, through one decision and one posting.
use lobster_roll.Prelude.{
  ℕ, ◌+◌, ◌≤◌, ◌≡◌, Bool, false, List, [], ◌∷◌, ◌++◌, Option, none, some, GoString, codes, ◌≟◌,
  bytes_eq, lookup, delete, lookup-insert, lookup-delete, if◌then◌else◌, insert, arith, beq_refl,
  eq_of_beq, beq_of_eq,
}
use lobster_roll.Bus.{OrderProposal, OrderDecision}
use lobster_roll.Notifier.Approval.{
  Pending, Manager, proposal_key, or_zero, register, posted, answer, decide,
}

module _ {ℓ} {F : Type ℓ} (sha256 : List ℕ → List ℕ) where
  abbrev pub key_of : OrderProposal F → GoString
  key_of p = proposal_key sha256 p.id

  -- The decisions on a key.
  pub decided : GoString → List (OrderDecision F) → ℕ
  decided k [] = 0
  decided k (d ∷ ds) = (if key_of d.proposal ≟ k then 1 else 0) + decided k ds

  pub decided-append :
      (k : GoString) (ds es : List (OrderDecision F))
      → decided k (ds ++ es) ≡ decided k ds + decided k es
  unfolding decided
  decided-append k [] es = omega arith
  decided-append k (d ∷ ds) es = omega (arith, decided-append k ds es)

  abbrev pub waits : Option (Pending F) → ℕ
  waits none = 0
  waits (some p) = 1

  abbrev pub waiting : GoString → Manager F → ℕ
  waiting k m = waits (lookup k m.pend)

  -- What waits under a key is a proposal of that key.
  abbrev pub IsKeyed : Manager F → Type ℓ
  IsKeyed m = (k : GoString) (p : Pending F) → lookup k m.pend ≡ some p → key_of p.proposal ≡ k

  module _ (chat_id : GoString) where
    pub decide-decided :
        (k action key username : GoString) (m : Manager F) (p : Pending F) (accepted : Bool)
        → IsKeyed m
        → lookup key m.pend ≡ some p
        → let n = decide sha256 chat_id m action key username p accepted in
          decided k n.decisions + waiting k n ≤ decided k m.decisions + waiting k m
    unfolding decide answer decided
    decide-decided k action key username m p accepted keyed h =
        let d : OrderDecision F = record {
          proposal = p.proposal;
          approved = action ≟ codes "a";
          by = codes "telegram:" ++ username;
        } in
        ground (
          arith,
          lookup-delete key k m.pend,
          lookup-insert key k p (delete key m.pend),
          decided-append k m.decisions (d ∷ []),
          keyed key p h,
          eq_of_beq key k,
          beq_of_eq key k,
        )

    pub decide-IsKeyed :
        (action key username : GoString) (m : Manager F) (p : Pending F) (accepted : Bool)
        → IsKeyed m
        → lookup key m.pend ≡ some p
        → IsKeyed (decide sha256 chat_id m action key username p accepted)
    unfolding decide answer
    decide-IsKeyed action key username m p accepted keyed h k q e = ground (
      arith,
      lookup-delete key k m.pend,
      lookup-insert key k p (delete key m.pend),
      keyed key p h,
      keyed k q,
      eq_of_beq key k,
    )

  module _ (chat_id : GoString) (zero_pending : Pending F) where
    pub posted-decided :
        (k : GoString) (m : Manager F) (p : OrderProposal F) (sent : Option ℕ)
        → let n = posted sha256 chat_id zero_pending (register sha256 chat_id m p) p sent in
          m.halted ≡ false
          → decided k n.decisions + waiting k n
            ≤ decided k m.decisions + waiting k m + (if key_of p ≟ k then 1 else 0)
    unfolding posted register or_zero
    posted-decided k m p none h = ground (
      arith,
      lookup-delete (key_of p) k
          (insert (key_of p) (record { proposal = p; message_id = 0 }) m.pend),
      lookup-insert (key_of p) k (record { proposal = p; message_id = 0 }) m.pend,
    )
    posted-decided k m p (some i) h =
        let first : Pending F = record { proposal = p; message_id = 0 } in
        let last : Pending F = record { proposal = p; message_id = i } in
        ground (
          arith,
          lookup-insert (key_of p) (key_of p) first m.pend,
          beq_refl (key_of p),
          lookup-insert (key_of p) k last (insert (key_of p) first m.pend),
          lookup-insert (key_of p) k first m.pend,
        )

    pub posted-IsKeyed :
        (m : Manager F) (p : OrderProposal F) (sent : Option ℕ)
        → m.halted ≡ false
        → IsKeyed m
        → IsKeyed (posted sha256 chat_id zero_pending (register sha256 chat_id m p) p sent)
    unfolding posted register or_zero
    posted-IsKeyed m p none h keyed k q e = ground (
      arith,
      lookup-delete (key_of p) k
          (insert (key_of p) (record { proposal = p; message_id = 0 }) m.pend),
      lookup-insert (key_of p) k (record { proposal = p; message_id = 0 }) m.pend,
      keyed k q,
    )
    posted-IsKeyed m p (some i) h keyed k q e =
        let first : Pending F = record { proposal = p; message_id = 0 } in
        let last : Pending F = record { proposal = p; message_id = i } in
        ground (
          arith,
          lookup-insert (key_of p) (key_of p) first m.pend,
          beq_refl (key_of p),
          lookup-insert (key_of p) k last (insert (key_of p) first m.pend),
          lookup-insert (key_of p) k first m.pend,
          eq_of_beq (key_of p) k,
          keyed k q,
        )
