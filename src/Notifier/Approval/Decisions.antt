-- ===== src/Notifier/Approval/Decisions.antt =====
-- A proposal is decided at most once for each time that it is posted, when posting is not interrupted.
use lobster_roll.Prelude.{
  ℕ, ◌+◌, ◌≤◌, ◌≡◌, refl, sym, ◌∙◌, ap, Bool, not, List, [], ◌∷◌, Option, none, some, GoString, ◌≟◌,
  bytes_eq, ℤ, lookup, if◌then◌else◌, if_cases, arith,
}
use lobster_roll.Bus.{OrderProposal}
use lobster_roll.Notifier.Approval.{
  CallbackQuery, Pending, Manager, parse_callback, may_act, on_proposal, answer, claim, parsed,
  handle_callback, control, handle_command,
}
use lobster_roll.Notifier.Approval.Keyed.{
  key_of, decided, waiting, IsKeyed, decide-decided, decide-IsKeyed, posted-decided, posted-IsKeyed,
}

module _ {ℓ} {F : Type ℓ} (sha256 : List ℕ → List ℕ) where
  module _ (chat_id : GoString) (zero_pending : Pending F) where
    -- One operation, with whether its call of Telegram or the bus succeeds.
    pub data Step : Type ℓ where
      proposes : OrderProposal F → Option ℕ → Step
      taps : CallbackQuery → Bool → Step
      commands : GoString → ℤ → GoString → Bool → Step

    pub step : Manager F → Step → Manager F
    step m (proposes p sent) = on_proposal sha256 chat_id zero_pending m p sent
    step m (taps cb accepted) = handle_callback sha256 chat_id m cb accepted
    step m (commands text chat username accepted) =
        handle_command sha256 chat_id m text chat username accepted

    pub run : Manager F → List Step → Manager F
    unfolding step
    run m [] = m
    run m (s ∷ ss) = run (step m s) ss

    pub proposals : GoString → List Step → ℕ
    proposals k [] = 0
    proposals k (proposes p sent ∷ ss) = (if key_of sha256 p ≟ k then 1 else 0) + proposals k ss
    proposals k (taps cb accepted ∷ ss) = proposals k ss
    proposals k (commands text chat username accepted ∷ ss) = proposals k ss

    -- What an operation may do to the decisions on a key and to what waits under it: the bound is the
    -- number of proposals of that key that it posts.
    Bounded : GoString → ℕ → Manager F → Manager F → Type 0
    Bounded k bound m n =
        decided sha256 k n.decisions + waiting sha256 k n
        ≤ decided sha256 k m.decisions + waiting sha256 k m + bound

    claim-lem :
        (k action key username : GoString) (m : Manager F) (o : Option (Pending F))
        (accepted : Bool)
        → IsKeyed sha256 m
        → lookup key m.pend ≡ o
        → let n = claim sha256 chat_id m action key username o accepted in
          Bounded k 0 m n × IsKeyed sha256 n
    unfolding Bounded claim answer
    claim-lem k action key username m none accepted keyed h = (omega arith, keyed)
    claim-lem k action key username m (some p) accepted keyed h =
        let b = decide-decided sha256 chat_id k action key username m p accepted keyed h in
        (omega (arith, b), decide-IsKeyed sha256 chat_id action key username m p accepted keyed h)

    parsed-lem :
        (k username : GoString) (m : Manager F) (o : Option (GoString × GoString)) (accepted : Bool)
        → IsKeyed sha256 m
        → let n = parsed sha256 chat_id m username o accepted in Bounded k 0 m n × IsKeyed sha256 n
    unfolding Bounded parsed answer
    parsed-lem k username m none accepted keyed = (omega arith, keyed)
    parsed-lem k username m (some (action, key)) accepted keyed =
        claim-lem k action key username m (lookup key m.pend) accepted keyed refl

    handle_callback-lem :
        (k : GoString) (m : Manager F) (cb : CallbackQuery) (accepted : Bool)
        → IsKeyed sha256 m
        → let n = handle_callback sha256 chat_id m cb accepted in Bounded k 0 m n × IsKeyed sha256 n
    unfolding Bounded handle_callback answer
    handle_callback-lem k m cb accepted keyed =
        if_cases (λ n. Bounded k 0 m n × IsKeyed sha256 n) (not (may_act chat_id cb.chat)) _ _
          (λ _. (omega arith, keyed))
          (λ _. parsed-lem k cb.username m (parse_callback cb.content) accepted keyed)

    handle_command-lem :
        (k text : GoString) (m : Manager F) (chat : ℤ) (username : GoString) (accepted : Bool)
        → let n = handle_command sha256 chat_id m text chat username accepted in
          (n.decisions ≡ m.decisions) × (n.pend ≡ m.pend)
    unfolding handle_command control
    handle_command-lem k text m chat username accepted = ground arith

    on_proposal-lem :
        (k : GoString) (m : Manager F) (p : OrderProposal F) (sent : Option ℕ)
        → IsKeyed sha256 m
        → let n = on_proposal sha256 chat_id zero_pending m p sent in
          Bounded k (if key_of sha256 p ≟ k then 1 else 0) m n × IsKeyed sha256 n
    unfolding on_proposal Bounded
    on_proposal-lem k m p sent keyed =
        if_cases (λ n. Bounded k (if key_of sha256 p ≟ k then 1 else 0) m n × IsKeyed sha256 n)
          m.halted _ _ (λ _. (omega arith, keyed))
          (λ h. (
            posted-decided sha256 chat_id zero_pending k m p sent h,
            posted-IsKeyed sha256 chat_id zero_pending m p sent h keyed,
          ))

    step-lem :
        (k : GoString) (m : Manager F) (s : Step)
        → IsKeyed sha256 m
        → Bounded k (proposals k (s ∷ [])) m (step m s) × IsKeyed sha256 (step m s)
    unfolding step proposals Bounded
    step-lem k m (proposes p sent) keyed =
        let (b, n) = on_proposal-lem k m p sent keyed in (omega (arith, b), n)
    step-lem k m (taps cb accepted) keyed =
        let (b, n) = handle_callback-lem k m cb accepted keyed in (omega (arith, b), n)
    step-lem k m (commands text chat username accepted) keyed =
        let (d, e) = handle_command-lem k text m chat username accepted in
        (ground (arith, d, e), λ j q h. keyed j q (ap (lookup j) (sym e) ∙ h))

    proposals-cons :
        (k : GoString) (s : Step) (ss : List Step)
        → proposals k (s ∷ ss) ≡ proposals k (s ∷ []) + proposals k ss
    unfolding proposals
    proposals-cons k (proposes p sent) ss = omega arith
    proposals-cons k (taps cb accepted) ss = omega arith
    proposals-cons k (commands text chat username accepted) ss = omega arith

    run-lem :
        (k : GoString) (ss : List Step) (m : Manager F)
        → IsKeyed sha256 m
        → Bounded k (proposals k ss) m (run m ss)
    unfolding run Bounded proposals
    run-lem k [] m keyed = omega arith
    run-lem k (s ∷ ss) m keyed =
        let (b, n) = step-lem k m s keyed in
        omega (arith, b, run-lem k ss (step m s) n, proposals-cons k s ss)

    -- From a state with no proposal pending, after any run of proposals, taps and commands that do not
    -- interrupt one another, the decisions on a key are at most as many as before and one for each
    -- proposal with that key: each is decided at most once, however often a button is tapped.
    pub run-decided :
        (k : GoString) (ss : List Step) (m : Manager F)
        → m.pend ≡ []
        → decided sha256 k (run m ss).decisions ≤ decided sha256 k m.decisions + proposals k ss
    unfolding Bounded lookup
    run-decided k ss m e =
        let keyed : IsKeyed sha256 m = λ j q h. absurd (ground (arith, e, h)) in
        ground (arith, run-lem k ss m keyed, e)
