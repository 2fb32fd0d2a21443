-- ===== src/Notifier/Approval/Ghost.antt =====
-- What one tap does, and what taps do that interrupt the posting of their proposal.
use mathlib.Core.List.{append_assoc}
use lobster_roll.Prelude.{
  ap, ℕ, ◌≡◌, ◌∙◌, Bool, true, false, List, [], ◌∷◌, ◌++◌, none, some, GoString, codes, ◌≟◌,
  bytes_eq, lookup, delete, lookup-insert, lookup-delete, if◌then◌else◌, arith, beq_refl, eq_of_beq,
}
use lobster_roll.Bus.{OrderProposal, OrderDecision}
use lobster_roll.Notifier.Approval.{
  CallbackQuery, Pending, Manager, parse_callback, may_act, or_zero, register, posted, answer,
  decide, claim, parsed, handle_callback,
}
use lobster_roll.Notifier.Approval.Keyed.{key_of}

module _ {ℓ} {F : Type ℓ} (sha256 : List ℕ → List ℕ) (chat_id : GoString) where
  abbrev pub decision_of : GoString → CallbackQuery → OrderProposal F → OrderDecision F
  decision_of action cb p = record {
    proposal = p;
    approved = action ≟ codes "a";
    by = codes "telegram:" ++ cb.username;
  }

  handle_callback-decide :
      (m : Manager F) (cb : CallbackQuery) (action key : GoString) (p : Pending F) (accepted : Bool)
      → may_act chat_id cb.chat ≡ true
      → parse_callback cb.content ≡ some (action, key)
      → lookup key m.pend ≡ some p
      → handle_callback sha256 chat_id m cb accepted
        ≡ decide sha256 chat_id m action key cb.username p accepted
  unfolding handle_callback parsed claim
  handle_callback-decide m cb action key p accepted may e h = rw (may, e, h)

  decide-claims :
      (m : Manager F) (cb : CallbackQuery) (action key : GoString) (p : Pending F) (accepted : Bool)
      → lookup key m.pend ≡ some p
      → (k : GoString)
      → let n = decide sha256 chat_id m action key cb.username p accepted in
        (n.decisions ≡ (
          if accepted then m.decisions ++ decision_of action cb p.proposal ∷ [] else m.decisions))
        × (lookup k n.pend
            ≡ (if accepted then (if key ≟ k then none else lookup k m.pend) else lookup k m.pend))
  unfolding decide answer
  decide-claims m cb action key p accepted h k = ground (
    arith,
    lookup-delete key k m.pend,
    lookup-insert key k p (delete key m.pend),
    eq_of_beq key k,
  )

  -- An operator's tap on a waiting proposal: if the publication succeeds, the decision is published
  -- with the proposal, approved exactly for the action `a`, and nothing waits under the key; if it
  -- fails, nothing is published and the proposal waits as before. Other keys are not touched.
  pub handle_callback-claims :
      (m : Manager F) (cb : CallbackQuery) (action key : GoString) (p : Pending F) (accepted : Bool)
      → may_act chat_id cb.chat ≡ true
      → parse_callback cb.content ≡ some (action, key)
      → lookup key m.pend ≡ some p
      → (k : GoString)
      → let n = handle_callback sha256 chat_id m cb accepted in
        (n.decisions ≡ (
          if accepted then m.decisions ++ decision_of action cb p.proposal ∷ [] else m.decisions))
        × (lookup k n.pend
            ≡ (if accepted then (if key ≟ k then none else lookup k m.pend) else lookup k m.pend))
  handle_callback-claims m cb action key p accepted may e h k =
      rw (handle_callback-decide m cb action key p accepted may e h)
        (decide-claims m cb action key p accepted h k)

  register-waits :
      (m : Manager F) (p : OrderProposal F)
      → m.halted ≡ false
      → (lookup (key_of sha256 p) (register sha256 chat_id m p).pend
          ≡ some (record { proposal = p; message_id = 0 }))
        × ((register sha256 chat_id m p).decisions ≡ m.decisions)
  unfolding register
  register-waits m p h =
      let first : Pending F = record { proposal = p; message_id = 0 } in
      ground (
        arith,
        beq_refl (key_of sha256 p),
        lookup-insert (key_of sha256 p) (key_of sha256 p) first m.pend,
      )

  posted-zero :
      (zero_pending : Pending F) (m : Manager F) (p : OrderProposal F) (i : ℕ)
      → lookup (key_of sha256 p) m.pend ≡ none
      → let n = posted sha256 chat_id zero_pending m p (some i) in
        (lookup (key_of sha256 p) n.pend ≡ some (record zero_pending { message_id = i }))
        × (n.decisions ≡ m.decisions)
  unfolding posted or_zero
  posted-zero zero_pending m p i h =
      let key = key_of sha256 p in
      let noted : Pending F = record zero_pending { message_id = i } in
      ground (arith, h, beq_refl key, lookup-insert key key noted m.pend)

  -- While posting is not halted, an operator's tap on a proposal that comes between the sending of its
  -- buttons and the note of their message, and whose decision is published, leaves an entry behind
  -- with the zero proposal: the same tap once more publishes a second decision, on that one.
  pub handle_callback-ghost :
      (zero_pending : Pending F) (m : Manager F) (p : OrderProposal F) (cb : CallbackQuery)
      → (action : GoString) (message_id : ℕ) → m.halted ≡ false
      → may_act chat_id cb.chat ≡ true
      → parse_callback cb.content ≡ some (action, key_of sha256 p)
      → let tapped = handle_callback sha256 chat_id (register sha256 chat_id m p) cb true in
        let noted = posted sha256 chat_id zero_pending tapped p (some message_id) in
        (handle_callback sha256 chat_id noted cb true).decisions
        ≡ m.decisions ++ decision_of action cb p ∷ decision_of action cb zero_pending.proposal ∷ []
  handle_callback-ghost zero_pending m p cb action i h may e =
      let first = register sha256 chat_id m p in
      let tapped = handle_callback sha256 chat_id first cb true in
      let noted = posted sha256 chat_id zero_pending tapped p (some i) in
      let (waits, kept) = register-waits m p h in
      let (published, gone) =
        handle_callback-claims first cb action (key_of sha256 p)
          (record { proposal = p; message_id = 0 }) true may e waits (key_of sha256 p) in
      let (left, same) =
        posted-zero zero_pending tapped p i (gone ∙ ground (arith, beq_refl (key_of sha256 p))) in
      let (again, _) =
        handle_callback-claims noted cb action (key_of sha256 p)
          (record zero_pending { message_id = i }) true may e left (key_of sha256 p) in
      again
      ∙ ap (λ ds. ds ++ decision_of action cb zero_pending.proposal ∷ [])
          (same ∙ published ∙ ap (λ ds. ds ++ decision_of action cb p ∷ []) kept)
      ∙ append_assoc m.decisions (decision_of action cb p ∷ [])
          (decision_of action cb zero_pending.proposal ∷ [])
