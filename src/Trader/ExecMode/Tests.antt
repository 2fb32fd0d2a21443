-- ===== src/Trader/ExecMode/Tests.antt =====
-- Settings parsed, and the theorems on the policy at concrete settings. The stand-in for
-- `ParseFloat` reads "25" and "nan".
use lobster_roll.Prelude.{
  ◌≡◌, refl, ◌⊎◌, false, Option, none, some, GoString, codes, ◌≟◌, bytes_eq, bytes_beq,
  strip_prefix, pos, trim_space, to_lower, if◌then◌else◌,
}
use lobster_roll.Float.{Fixed, fixed_float, Fixed-IsOrdered, ◌≤?◌, nought}
use lobster_roll.Trader.ExecMode.{
  ExecutionPolicy, mode_approval, mode_auto, mode_auto_below, policy, parse_execution_mode,
  requires_approval,
}
use lobster_roll.Trader.ExecMode.Policy.{
  parse_execution_mode-policy, nan_ceiling_never_asks, normal, prefix,
}

reads : GoString → Option Fixed
unfolding bytes_beq
reads s =
    if s ≟ codes "25"
    then some (some (pos 25_000_000))
    else if s ≟ codes "nan"
    then some none
    else none

abbrev up_to_25 : ExecutionPolicy Fixed
up_to_25 = record { mode = mode_auto_below; ceiling_usd = some (pos 25_000_000) }

parses : parse_execution_mode reads (codes " Auto_Below:25") ≡ policy up_to_25
unfolding parse_execution_mode reads bytes_beq strip_prefix trim_space to_lower
parses = refl

parse_execution_mode-policy_run :
    ((normal (codes " Auto_Below:25") ≡ codes "approval") × (up_to_25.mode ≡ mode_approval))
    ⊎ ((normal (codes " Auto_Below:25") ≡ codes "auto") × (up_to_25.mode ≡ mode_auto))
    ⊎ ((raw : GoString) × (strip_prefix prefix (normal (codes " Auto_Below:25")) ≡ some raw)
        × (up_to_25.mode ≡ mode_auto_below)
        × (reads raw ≡ some up_to_25.ceiling_usd)
        × ((up_to_25.ceiling_usd ≤? nought) ≡ false))
parse_execution_mode-policy_run =
    parse_execution_mode-policy reads (codes " Auto_Below:25") up_to_25 parses

abbrev nan_policy : ExecutionPolicy Fixed
nan_policy = record { mode = mode_auto_below; ceiling_usd = none }

nan_ceiling_never_asks_example :
    (parse_execution_mode reads (codes "auto_below:nan") ≡ policy nan_policy)
    × (requires_approval nan_policy (some (pos 9_000_000_000)) ≡ false)
unfolding reads bytes_beq strip_prefix trim_space to_lower
nan_ceiling_never_asks_example =
    nan_ceiling_never_asks reads Fixed-IsOrdered (codes "auto_below:nan") (codes "nan") none
      (some (pos 9_000_000_000)) refl refl refl
