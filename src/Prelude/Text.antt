-- ===== src/Prelude/Text.antt =====
-- Texts beyond ASCII: the UTF-8 bytes of a literal; `strings.Join`; and numbers and dates as `fmt` and
-- `time` print them.
use Prim.Native.Nat.{ℕ, suc, ◌+◌, ◌-◌, ◌*◌, ◌/◌, ◌%◌}
use Prim.Native.Char.{code}
use Prim.Native.String.{String}
use mathlib.Core.List.{List, [], ◌∷◌, ◌++◌}
use lobster_roll.Prelude.Tests.{ltb, if◌then◌else◌}
use lobster_roll.Prelude.Keys.{GoString, decimal}
use lobster_roll.Prelude.Int.{ℤ, pos, negsuc}

abbrev utf8_code : ℕ → GoString
utf8_code c =
    if ltb c 128
    then c ∷ []
    else if ltb c 2_048
    then (192 + c / 64) ∷ (128 + c % 64) ∷ []
    else if ltb c 65_536
    then (224 + c / 4_096) ∷ (128 + c / 64 % 64) ∷ (128 + c % 64) ∷ []
    else (240 + c / 262_144) ∷ (128 + c / 4_096 % 64) ∷ (128 + c / 64 % 64) ∷ (128 + c % 64) ∷ []

abbrev pub utf8 : String → GoString
utf8 String.[] = []
utf8 (String.◌∷◌ c s) = utf8_code (code c) ++ utf8 s

unfoldable pub join_rest : GoString → List GoString → GoString
join_rest sep [] = []
join_rest sep (x ∷ xs) = sep ++ x ++ join_rest sep xs

-- `strings.Join`.
unfoldable pub join_strings : GoString → List GoString → GoString
unfolding join_rest
join_strings sep [] = []
join_strings sep (x ∷ xs) = x ++ join_rest sep xs

-- `%d`.
unfoldable pub decimal_ℤ : ℤ → GoString
decimal_ℤ (pos n) = decimal n
decimal_ℤ (negsuc n) = b'-' ∷ decimal (suc n)

-- `%02d`.
unfoldable pub two_digits : ℕ → GoString
two_digits n = if ltb n 10 then b'0' ∷ decimal n else decimal n

-- `%04d`.
unfoldable pub four_digits : ℕ → GoString
unfolding two_digits
four_digits n =
    if ltb n 100
    then b'0' ∷ b'0' ∷ two_digits n
    else if ltb n 1_000
    then b'0' ∷ decimal n
    else decimal n

-- A day after 0000-03-01, in years that begin in March: the year and the day in it.
year_day : ℕ → ℕ × ℕ
year_day days =
    let era = days / 146_097 in
    let doe = days % 146_097 in
    let yoe = (doe - doe / 1_460 + doe / 36_524 - doe / 146_096) / 365 in
    (400 * era + yoe, doe - (365 * yoe + yoe / 4 - yoe / 100))

-- The date of a day since 1970-01-01: year, month and day.
unfoldable pub civil : ℕ → ℕ × ℕ × ℕ
unfolding year_day
civil days =
    let (year, doy) = year_day (days + 719_468) in
    let month = (5 * doy + 2) / 153 in
    let day = doy - (153 * month + 2) / 5 + 1 in
    if ltb month 10 then (year, month + 3, day) else (year + 1, month - 9, day)

-- `time.Unix(secs, 0).UTC().Format("2006-01-02 15:04 UTC")`.
unfoldable pub utc_minutes : ℕ → GoString
unfolding civil four_digits two_digits
utc_minutes secs =
    let (year, month, day) = civil (secs / 86_400) in
    four_digits year
    ++ b'-' ∷ two_digits month
    ++ b'-' ∷ two_digits day
    ++ b' ' ∷ two_digits (secs % 86_400 / 3_600)
    ++ b':' ∷ two_digits (secs % 3_600 / 60)
    ++ b' ' ∷ b'U' ∷ b'T' ∷ b'C' ∷ []
