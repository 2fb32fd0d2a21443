-- ===== src/Notifier/Approval/Callbacks.antt =====
-- The data of a button.
use lobster_roll.Prelude.{
  ℕ, ◌≡◌, ◌≢◌, ◌↔◌, ◌⊎◌, inl, inr, ◌∙◌, ap, [], ◌∷◌, ◌++◌, Option, none, some, GoString, codes,
  bytes_eq, ◌==◌, Bool-cases, sym, arith, eq_of_beq, beq_of_eq,
}
use lobster_roll.Notifier.Approval.{onto, split_first, checked_parts, parse_callback}

-- What a button's data may start with.
abbrev pub IsAction : GoString → Type 0
IsAction action = (action ≡ codes "a") ⊎ (action ≡ codes "r")

some-pair :
    {x y a b : GoString}
    → ◌≡◌ {A = Option (GoString × GoString)} (some (x, y)) (some (a, b))
    → (x ≡ a) × (y ≡ b)
some-pair h = (ground arith, ground arith)

onto-some :
    (c : ℕ) (o : Option (GoString × GoString)) (a b : GoString)
    → onto c o ≡ some (a, b)
    → (x : GoString) × (o ≡ some (x, b)) × (a ≡ c ∷ x)
unfolding onto
onto-some c none a b h = absurd cc
onto-some c (some (x, y)) a b h = (x, ground arith, ground arith)

split_first-some : (sep : ℕ) (s a b : GoString) → split_first sep s ≡ some (a, b) → s ≡ a ++ sep ∷ b
unfolding split_first
split_first-some sep [] a b h = absurd cc
split_first-some sep (c ∷ cs) a b h = elim (Bool-cases (c == sep)) [
  | inl e ↦
      let (same, rest) = some-pair {x = []} {y = cs} {a = a} {b = b} (ground (arith, h, e)) in
      rw (sym same, sym rest) (ap (λ x. x ∷ cs) (ground arith))
  | inr ne ↦
      let (x, o, e) = onto-some c (split_first sep cs) a b (ground (arith, h, ne)) in
      rw e (ap (◌∷◌ c) (split_first-some sep cs x b o))
]

checked_parts_iff :
    (parts : Option (GoString × GoString)) (action key : GoString)
    → (checked_parts parts ≡ some (action, key))
      ↔ ((parts ≡ some (action, key)) × IsAction action × (key ≢ []))
unfolding checked_parts
checked_parts_iff none action key = (λ h. absurd cc, λ (h, _, _). absurd cc)
checked_parts_iff (some (a, k)) action key = (
  λ h.
      ground
        (arith, eq_of_beq a (codes "a"), eq_of_beq a (codes "r"), eq_of_beq k [], beq_of_eq k []),
  λ h. ground (arith, beq_of_eq a (codes "a"), beq_of_eq a (codes "r"), eq_of_beq k []),
)

action-split :
    (action key : GoString)
    → IsAction action
    → split_first b':' (action ++ b':' ∷ key) ≡ some (action, key)
unfolding split_first onto
action-split action key (inl e) = rw e
action-split action key (inr e) = rw e

-- A text parses to an action and a key exactly if it is the action, a colon and the key, the action
-- is `a` or `r`, and the key is not empty.
pub parse_callback_iff :
    (s action key : GoString)
    → (parse_callback s ≡ some (action, key))
      ↔ ((s ≡ action ++ b':' ∷ key) × IsAction action × (key ≢ []))
unfolding parse_callback
parse_callback_iff s action key =
    let (there, back) = checked_parts_iff (split_first b':' s) action key in
    (
      λ h. let (e, a, k) = there h in (split_first-some b':' s action key e, a, k),
      λ (e, a, k). back (ap (split_first b':') e ∙ action-split action key a, a, k),
    )
