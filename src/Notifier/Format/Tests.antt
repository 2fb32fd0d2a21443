-- ===== src/Notifier/Format/Tests.antt =====
-- Runs of the formatting.
use lobster_roll.Prelude.{
  ◌/◌, ◌≡◌, refl, none, some, codes, utf8, ℤ, pos, negsuc, decimal, decimal_ℤ, has, nat_eq,
  utc_minutes, not, strip_prefix,
}
use lobster_roll.Float.{Fixed, fixed_float, neg_fixed, div_fixed}
use lobster_roll.Notifier.Format.{Display, abbrev_money, shorten_middle, shorten_hex}

-- Whole numbers only.
abbrev whole : Fixed → ℤ
whole none = pos 0
whole (some (pos n)) = pos (n / 1_000_000)
whole (some (negsuc n)) = negsuc (n / 1_000_000)

abbrev pub display : Display Fixed
display = record {
  fixed = λ n v. decimal_ℤ (whole v);
  signed_fixed = λ n v. decimal_ℤ (whole v);
  truncate = whole;
  is_rational = λ s. not (has b'x' s);
  product_text = λ s t. s;
}

date : utc_minutes 1_709_209_920 ≡ codes "2024-02-29 12:32 UTC"
unfolding utc_minutes decimal
date = refl

money :
    (abbrev_money display (some (negsuc 31_000_000_000_000)) ≡ codes "$31M")
    × (shorten_middle (codes "1234567890") 4 4 ≡ utf8 "1234…7890")
    × (shorten_hex (codes "0x1234567890abcdef") ≡ utf8 "0x1234…cdef")
unfolding abbrev_money shorten_middle shorten_hex neg_fixed decimal_ℤ div_fixed decimal strip_prefix
money = (refl, refl, refl)
