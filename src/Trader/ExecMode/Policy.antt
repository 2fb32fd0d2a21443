-- ===== src/Trader/ExecMode/Policy.antt =====
-- What a parsed execution policy lets through without approval.
use lobster_roll.Prelude.{
  ◌≡◌, refl, ◌⊎◌, inl, inr, false, Option, none, some, GoString, codes, ◌≟◌, bytes_eq, to_lower,
  trim_space, strip_prefix, arith, Bool-cases, eq_of_beq,
}
use lobster_roll.Float.{Float, IsOrdered, ◌≤?◌, nought}
use lobster_roll.Trader.ExecMode.{
  ExecutionPolicy, mode_approval, mode_auto, mode_auto_below, policy, requires_approval,
  parse_ceiling, parse_below, parse_execution_mode,
}

-- The normalised setting that the code compares.
abbrev pub normal : GoString → GoString
normal s = trim_space (to_lower s)

abbrev pub prefix : GoString
prefix = codes "auto_below:"

module _ {ℓ} {F : Type ℓ} ⦃d : Float F⦄ (parse_float : GoString → Option F) where
  parse_ceiling-policy :
      (o : Option F) (p : ExecutionPolicy F)
      → parse_ceiling o ≡ policy p
      → (p.mode ≡ mode_auto_below) × (o ≡ some p.ceiling_usd) × ((p.ceiling_usd ≤? nought) ≡ false)
  unfolding parse_ceiling
  parse_ceiling-policy none p h = cc
  parse_ceiling-policy (some v) p h = ground arith

  below-policy :
      (o : Option GoString) (p : ExecutionPolicy F)
      → parse_below parse_float o ≡ policy p
      → (raw : GoString) × (o ≡ some raw)
        × (p.mode ≡ mode_auto_below)
        × (parse_float raw ≡ some p.ceiling_usd)
        × ((p.ceiling_usd ≤? nought) ≡ false)
  unfolding parse_below
  below-policy none p h = cc
  below-policy (some raw) p h =
      let (m, v, c) = parse_ceiling-policy (parse_float raw) p h in (raw, refl, m, v, c)

  -- If a setting is accepted, then its trimmed, lower-case form is "approval" with the mode that
  -- always asks, or "auto" with the mode that never asks, or "auto_below:" and a number that
  -- `ParseFloat` reads as the ceiling and that is not `<= 0`.
  pub parse_execution_mode-policy :
      (s : GoString) (p : ExecutionPolicy F)
      → parse_execution_mode parse_float s ≡ policy p
      → ((normal s ≡ codes "approval") × (p.mode ≡ mode_approval))
        ⊎ ((normal s ≡ codes "auto") × (p.mode ≡ mode_auto))
        ⊎ ((raw : GoString) × (strip_prefix prefix (normal s) ≡ some raw)
            × (p.mode ≡ mode_auto_below)
            × (parse_float raw ≡ some p.ceiling_usd)
            × ((p.ceiling_usd ≤? nought) ≡ false))
  unfolding parse_execution_mode
  parse_execution_mode-policy s p h = elim (Bool-cases (normal s ≟ codes "approval")) [
    | inl a ↦ inl (eq_of_beq (normal s) (codes "approval") a, ground arith)
    | inr a ↦ elim (Bool-cases (normal s ≟ codes "auto")) [
      | inl b ↦ inr (inl (eq_of_beq (normal s) (codes "auto") b, ground arith))
      | inr b ↦ inr (inr (below-policy (strip_prefix prefix (normal s)) p (ground arith)))
    ]
  ]

  not_literal :
      (n l raw : GoString)
      → strip_prefix prefix l ≡ none
      → strip_prefix prefix n ≡ some raw
      → (n ≟ l) ≡ false
  not_literal n l raw h k = ground (arith, eq_of_beq n l)

  module _ (order : IsOrdered F) where
    -- If `ParseFloat` reads the ceiling of an "auto_below:" setting as NaN, the setting is accepted,
    -- and then no trade of any size needs approval.
    pub nan_ceiling_never_asks :
        (s raw : GoString) (v size : F)
        → strip_prefix prefix (normal s) ≡ some raw
        → parse_float raw ≡ some v
        → (v ≤? v) ≡ false
        → let p : ExecutionPolicy F = record { mode = mode_auto_below; ceiling_usd = v } in
          (parse_execution_mode parse_float s ≡ policy p) × (requires_approval p size ≡ false)
    unfolding parse_execution_mode requires_approval strip_prefix
    nan_ceiling_never_asks s raw v size e f n = (
      ground (
        arith,
        not_literal (normal s) (codes "approval") raw refl e,
        not_literal (normal s) (codes "auto") raw refl e,
        order.le-IsNumber_left v nought,
      ),
      ground (arith, order.le-IsNumber_left v size),
    )
