-- ===== src/Base/Maps.antt =====
-- `std::map` and `std::set` of the sources, where no order of theirs is observed: a list with one
-- entry for a key.
use Prim.Native.Nat.{ℕ}
use mathlib.Core.Path.{◌≡◌, refl}
use mathlib.Core.Bool.{Bool, true, false, ◌&&◌}
use mathlib.Core.Option.{Option, none, some}
use mathlib.Core.List.{List, [], ◌∷◌}
use native.Mathlib.Omega.{arith}
use network_etc.Base.Tests.{◌==◌, if◌then◌else◌, ==_refl}
use network_etc.Base.Lists.{Bytes}

-- A test for equality.
pub record Eq {ℓ} (K : Type ℓ) : Type ℓ where
  pub same : K → K → Bool
  pub eq_of_same : (a b : K) → same a b ≡ true → a ≡ b
  pub same_refl : (a : K) → same a a ≡ true

pub nat_sound : (a b : ℕ) → (a == b) ≡ true → a ≡ b
nat_sound a b h = ground arith

instance abbrev pub nat_eq : Eq ℕ
nat_eq = record { same = ◌==◌; eq_of_same = nat_sound; same_refl = ==_refl }

abbrev pub bytes_same : Bytes → Bytes → Bool
bytes_same [] [] = true
bytes_same [] (y ∷ ys) = false
bytes_same (x ∷ xs) [] = false
bytes_same (x ∷ xs) (y ∷ ys) = x == y && bytes_same xs ys

pub bytes_sound : (xs ys : Bytes) → bytes_same xs ys ≡ true → xs ≡ ys
bytes_sound [] [] h = refl
bytes_sound [] (y ∷ ys) h = cc
bytes_sound (x ∷ xs) [] h = cc
bytes_sound (x ∷ xs) (y ∷ ys) h = ground (arith, bytes_sound xs ys)

pub bytes_refl : (xs : Bytes) → bytes_same xs xs ≡ true
bytes_refl [] = refl
bytes_refl (x ∷ xs) = ground (arith, bytes_refl xs)

instance abbrev pub bytes_eq : Eq Bytes
bytes_eq = record { same = bytes_same; eq_of_same = bytes_sound; same_refl = bytes_refl }

abbrev pub Map {ℓ κ} : Type ℓ → Type κ → Type (ℓ ⊔ κ)
Map K V = List (K × V)

module _ {ℓ κ} {K : Type ℓ} {V : Type κ} ⦃e : Eq K⦄ where
  -- `find`
  abbrev pub lookup : K → Map K V → Option V
  lookup k [] = none
  lookup k ((j, v) ∷ m) = if e.same k j then some v else lookup k m

  -- `m[k] = v`
  abbrev pub put : K → V → Map K V → Map K V
  put k v [] = (k, v) ∷ []
  put k v ((j, w) ∷ m) = if e.same k j then (k, v) ∷ m else (j, w) ∷ put k v m

  -- `erase`
  abbrev pub erase : K → Map K V → Map K V
  erase k [] = []
  erase k ((j, w) ∷ m) = let rest = erase k m in if e.same k j then rest else (j, w) ∷ rest

  pub lookup-put :
      (q k : K) (v : V) (m : Map K V)
      → lookup q (put k v m) ≡ (if e.same q k then some v else lookup q m)
  lookup-put q k v [] = ground arith
  lookup-put q k v ((j, w) ∷ m) = ground (
    arith,
    lookup-put q k v m,
    e.eq_of_same q k,
    e.eq_of_same q j,
    e.eq_of_same k j,
    e.same_refl q,
    e.same_refl j,
  )

  pub lookup-erase :
      (q k : K) (m : Map K V) → lookup q (erase k m) ≡ (if e.same q k then none else lookup q m)
  lookup-erase q k [] = ground arith
  lookup-erase q k ((j, w) ∷ m) = ground (
    arith,
    lookup-erase q k m,
    e.eq_of_same q k,
    e.eq_of_same q j,
    e.eq_of_same k j,
    e.same_refl q,
    e.same_refl j,
  )

  pub erase_missing : (k : K) (m : Map K V) → lookup k m ≡ none → erase k m ≡ m
  erase_missing k [] h = refl
  erase_missing k ((j, w) ∷ m) h = ground (arith, erase_missing k m)

  -- A key that was put where it was not, and erased, leaves the map.
  pub erase-put : (k : K) (v : V) (m : Map K V) → lookup k m ≡ none → erase k (put k v m) ≡ m
  erase-put k v [] h = ground (arith, e.same_refl k)
  erase-put k v ((j, w) ∷ m) h = ground (arith, erase-put k v m, erase_missing k m)
