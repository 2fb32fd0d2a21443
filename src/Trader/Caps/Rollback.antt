-- ===== src/Trader/Caps/Rollback.antt =====
-- What `Release` undoes, in exact arithmetic: the fixed-point instance of the floats.
use lobster_roll.Prelude.{
  ◌≡◌, refl, ◌∙◌, ap, Bool, true, false, ℤ, pos, ◌≤ℤ◌, some, GoString, arith, ◌-ℤ◌, if◌then◌else◌,
  int_laws, bytes_lt,
}
use lobster_roll.Float.{
  Float, Fixed, fixed_float, add_fixed, sub_fixed, neg_fixed, ◌<?◌, ◌⊕◌, ◌⊖◌, nought,
}
use lobster_roll.Trader.Caps.{Caps, allowed, reserve, release, roll_day, signed}

module _ {ℓ} {F : Type ℓ} ⦃d : Float F⦄ where
  reserve-parts :
      (key : GoString) (size : F) (buy save_ok : Bool) (c : Caps F)
      → (reserve key size buy save_ok c).1 ≡ allowed
      → let after = (reserve key size buy save_ok c).0 in
        (after.day_spent ≡ (roll_day key c).day_spent ⊕ size)
        × (after.open_exposure ≡ c.open_exposure ⊕ signed size buy)
        × (after.day_key ≡ (roll_day key c).day_key)
  unfolding reserve
  reserve-parts key size buy save_ok c h = ground arith

  buy-within :
      (key : GoString) (size : F) (save_ok : Bool) (c : Caps F)
      → (reserve key size true save_ok c).1 ≡ allowed
      → (c.max_open_exposure <? (reserve key size true save_ok c).0.open_exposure) ≡ false
  unfolding reserve
  buy-within key size save_ok c h = ground arith

  reserve-limit :
      (key : GoString) (size : F) (buy save_ok : Bool) (c : Caps F)
      → (reserve key size buy save_ok c).0.max_open_exposure ≡ c.max_open_exposure
  unfolding reserve
  reserve-limit key size buy save_ok c = ground arith

  release-parts :
      (size : F) (buy save_ok : Bool) (c : Caps F)
      → let after = release size buy save_ok c in
        (after.day_spent ≡ (if c.day_spent ⊖ size <? nought then nought else c.day_spent ⊖ size))
        × (after.open_exposure ≡ c.open_exposure ⊖ signed size buy)
  unfolding release
  release-parts size buy save_ok c = ground arith

add-sub : (a b : ℤ) → sub_fixed (add_fixed (some a) (some b)) (some b) ≡ some a
unfolding add_fixed sub_fixed
add-sub a b = ground arith

signed-some : (z : ℤ) (buy : Bool) → (w : ℤ) × (signed {F = Fixed} (some z) buy ≡ some w)
unfolding signed neg_fixed
signed-some z true = (z, refl)
signed-some z false = (pos 0 -ℤ z, refl)

rolled-spent :
    (later : GoString) (c : Caps Fixed)
    → bytes_lt c.day_key later ≡ true
    → (roll_day later c).day_spent ≡ nought
unfolding roll_day
rolled-spent later c h = ground arith

zero-add_fixed : (z : ℤ) → add_fixed nought (some z) ≡ some z
unfolding add_fixed
zero-add_fixed z = ground arith

floor :
    (a b : ℤ)
    → a ≤ℤ b
    → (if sub_fixed (some a) (some b) <? nought then nought else sub_fixed (some a) (some b))
      ≡ nought
unfolding sub_fixed
floor a b h = ground arith

-- The exposure after a sell, a buy, and the release of the sell.
sell-cancel :
    (e a b : ℤ)
    → some e
        ⊕ signed {F = Fixed} (some a) false
        ⊕ signed {F = Fixed} (some b) true
        ⊖ signed {F = Fixed} (some a) false
      ≡ some e ⊕ some b
unfolding signed add_fixed sub_fixed neg_fixed
sell-cancel e a b = ap some (omega int_laws)

module _ (c : Caps Fixed) (key : GoString) (size : ℤ) (save save' buy : Bool) where
  -- In exact arithmetic, releasing an allowed reservation with no call between them restores the
  -- rolled day's spend, if that is a number not below zero, and the open exposure, if that is a
  -- number.
  pub release-reserve :
      (spent exposure : ℤ)
      → (roll_day key c).day_spent ≡ some spent
      → pos 0 ≤ℤ spent
      → c.open_exposure ≡ some exposure
      → (reserve key (some size) buy save c).1 ≡ allowed
      → let after = release (some size) buy save' (reserve key (some size) buy save c).0 in
        (after.day_spent ≡ some spent) × (after.open_exposure ≡ some exposure)
  release-reserve spent exposure s p e h =
      let mid = (reserve key (some size) buy save c).0 in
      let (day, open_, _) = reserve-parts key (some size) buy save c h in
      let (day', open') = release-parts (some size) buy save' mid in
      let (w, sw) = signed-some size buy in
      (
        rw (day', day, s, add-sub spent size) (ground arith),
        rw (open', open_, e, sw) (add-sub exposure w),
      )

  -- A reservation of one day that is released after a reservation of a later day is subtracted from
  -- the later day's spend: if the later one is not larger, the later day's spend becomes zero, as
  -- though nothing had been committed on it.
  pub release_after_midnight :
      (later : GoString) (size' : ℤ) (buy' save'' : Bool)
      → let c₁ = (reserve key (some size) buy save c).0 in
        let c₂ = (reserve later (some size') buy' save'' c₁).0 in
        (reserve key (some size) buy save c).1 ≡ allowed
        → (reserve later (some size') buy' save'' c₁).1 ≡ allowed
        → bytes_lt (roll_day key c).day_key later ≡ true
        → size' ≤ℤ size
        → (c₂.day_spent ≡ some size') × ((release (some size) buy save' c₂).day_spent ≡ nought)
  release_after_midnight later size' buy' save'' h k l small =
      let c₁ = (reserve key (some size) buy save c).0 in
      let c₂ = (reserve later (some size') buy' save'' c₁).0 in
      let (_, _, key₁) = reserve-parts key (some size) buy save c h in
      let (day₂, _, _) = reserve-parts later (some size') buy' save'' c₁ k in
      let rolled : (roll_day later c₁).day_spent ≡ nought = rolled-spent later c₁ (rw key₁ l) in
      let only : c₂.day_spent ≡ some size' = rw (day₂, rolled) (zero-add_fixed size') in
      (only, (release-parts (some size) buy save' c₂).0 ∙ rw only (floor size' size small))

-- The open-exposure cap is checked when a buy is reserved, and not when a sell is released: if a
-- sell and then a buy are reserved, and the exposure before them plus the buy is above the cap, then
-- the exposure is above the cap once the sell is released, though it was not before.
pub release_sell_exceeds :
    (c : Caps Fixed) (key key' : GoString) (sold bought exposure : ℤ) (s₁ s₂ s₃ : Bool)
    → let c₁ = (reserve key (some sold) false s₁ c).0 in
      let c₂ = (reserve key' (some bought) true s₂ c₁).0 in
      c.open_exposure ≡ some exposure
      → (reserve key (some sold) false s₁ c).1 ≡ allowed
      → (reserve key' (some bought) true s₂ c₁).1 ≡ allowed
      → (c.max_open_exposure <? some exposure ⊕ some bought) ≡ true
      → ((c.max_open_exposure <? c₂.open_exposure) ≡ false)
        × ((c.max_open_exposure <? (release (some sold) false s₃ c₂).open_exposure) ≡ true)
release_sell_exceeds c key key' sold bought exposure s₁ s₂ s₃ e h k over =
    let c₁ = (reserve key (some sold) false s₁ c).0 in
    let c₂ = (reserve key' (some bought) true s₂ c₁).0 in
    let (_, open₁, _) = reserve-parts key (some sold) false s₁ c h in
    let (_, open₂, _) = reserve-parts key' (some bought) true s₂ c₁ k in
    let (_, open₃) = release-parts (some sold) false s₃ c₂ in
    (
      rw (reserve-limit key (some sold) false s₁ c) at (buy-within key' (some bought) s₂ c₁ k),
      rw (open₃, open₂, open₁, e, sell-cancel exposure sold bought) over,
    )
