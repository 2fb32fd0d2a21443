-- ===== src/Trader/ExecMode.antt =====
-- pkg/config/execmode.go: whether a trade needs human approval. `strconv.ParseFloat` is a parameter.
pub mod Policy
mod Tests
use lobster_roll.Prelude.{
  ◌≡◌, Bool, true, false, Option, none, some, GoString, codes, ◌≟◌, bytes_eq, to_lower, trim_space,
  strip_prefix, if◌then◌else◌,
}
use lobster_roll.Float.{Float, ◌≤?◌, nought}

pub data ExecutionMode : Type 0 where
  mode_approval mode_auto mode_auto_below : ExecutionMode

pub record ExecutionPolicy {ℓ} (F : Type ℓ) : Type ℓ where
  pub mode : ExecutionMode
  pub ceiling_usd : F

pub data ParseError : Type 0 where
  invalid_ceiling ceiling_not_positive unknown_mode : ParseError

pub data Parsed {ℓ} (F : Type ℓ) : Type ℓ where
  policy : ExecutionPolicy F → Parsed F
  failed : ParseError → Parsed F

module _ {ℓ} {F : Type ℓ} ⦃d : Float F⦄ where
  pub requires_approval : ExecutionPolicy F → F → Bool
  requires_approval p size_usd = elim p.mode [
    | mode_auto ↦ false
    | mode_auto_below ↦ p.ceiling_usd ≤? size_usd
    | mode_approval ↦ true
  ]

  pub parse_ceiling : Option F → Parsed F
  parse_ceiling none = failed invalid_ceiling
  parse_ceiling (some v) =
      if v ≤? nought
      then failed ceiling_not_positive
      else policy (record { mode = mode_auto_below; ceiling_usd = v })

  pub parse_below : (GoString → Option F) → Option GoString → Parsed F
  unfolding parse_ceiling
  parse_below parse_float none = failed unknown_mode
  parse_below parse_float (some raw) = parse_ceiling (parse_float raw)

  pub parse_trimmed : (GoString → Option F) → GoString → Parsed F
  unfolding parse_below
  parse_trimmed parse_float s =
      if s ≟ codes "approval"
      then policy (record { mode = mode_approval; ceiling_usd = nought })
      else if s ≟ codes "auto"
      then policy (record { mode = mode_auto; ceiling_usd = nought })
      else parse_below parse_float (strip_prefix (codes "auto_below:") s)

  pub parse_execution_mode : (GoString → Option F) → GoString → Parsed F
  unfolding parse_trimmed
  parse_execution_mode parse_float s = parse_trimmed parse_float (trim_space (to_lower s))
