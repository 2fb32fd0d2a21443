-- ===== src/Dedup/GenSet.antt =====
-- pkg/dedup/genset.go: a set of keys bounded by a rotation of two generations. A Go map used as a
-- set is the list of its keys.
pub mod Retention
mod Tests
use lobster_roll.Prelude.{
  ℕ, ◌+◌, Bool, true, false, List, [], ◌∷◌, Eq, has, ltb, leb, length, if◌then◌else◌,
}

pub record GenSet {ℓ} (K : Type ℓ) : Type ℓ where
  pub cur : List K
  pub old : List K
  pub max : ℕ

pub new_gen_sized {ℓ} : {K : Type ℓ} → ℕ → GenSet K
new_gen_sized max = record { cur = []; old = []; max = if ltb max 1 then 1 else max }

pub default_gen_size : ℕ
default_gen_size = 200_000

pub new_gen {ℓ} : {K : Type ℓ} → GenSet K
unfolding new_gen_sized default_gen_size
new_gen = new_gen_sized default_gen_size

pub len {ℓ} : {K : Type ℓ} → GenSet K → ℕ
len s = length s.cur + length s.old

module _ {ℓ} {K : Type ℓ} ⦃e : Eq K⦄ where
  -- Record a new key, and start a new generation when the current one is full.
  pub record_key : K → GenSet K → GenSet K
  record_key key s =
      let cur : List K = key ∷ s.cur in
      if leb s.max (length cur) then record s { old = cur; cur = [] } else record s { cur = cur }

  pub add : GenSet K → K → GenSet K × Bool
  unfolding record_key
  add s key =
      if has key s.cur
      then (s, false)
      else if has key s.old
      then (s, false)
      else (record_key key s, true)

  pub add_all : GenSet K → List K → GenSet K
  add_all s [] = s
  add_all s (k ∷ ks) = add_all (add s k).0 ks
