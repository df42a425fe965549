-- ===== src/SessionManager/Expecting.antt =====
-- How often `CheckOne` answers after so many calls of `Expect`.
use network_etc.Base.{
  Option, ◌^◌, ◌<◌, ltb, ◌>>=◌, ℕ, zero, suc, ◌+◌, ◌-◌, ◌≡◌, refl, ap, Bool, true, false, none,
  some, arith, List, [], ◌∷◌, ◌++◌, Bytes,
}
use network_etc.Base.Maps.{Map, lookup, put, erase, bytes_eq, bytes_refl, lookup-put, lookup-erase}
use network_etc.SessionManager.{Manager, expect, check_one}

-- So many calls of `Expect`, and the answers of so many calls of `CheckOne`.
pub expect_all : ℕ → Manager → Bytes → Option Manager
expect_all zero m name = some m
expect_all (suc k) m name = expect_all k m name >>= λ m'. expect m' name

pub answers : ℕ → Manager → Bytes → List Bool
answers zero m name = []
answers (suc k) m name = let r = check_one m name in r.1 ∷ answers k r.0 name

abbrev pub trues : ℕ → List Bool
trues zero = []
trues (suc k) = true ∷ trues k

lookup-put_self : (name : Bytes) (n : ℕ) (m : Map Bytes ℕ) → lookup name (put name n m) ≡ some n
lookup-put_self name n m = ground (arith, lookup-put name name n m, bytes_refl name)

expected :
    (k : ℕ) (m : Manager) (name : Bytes)
    → lookup name m.expecting ≡ none
    → suc k < 2 ^ 31
    → (m' : Manager) × (expect_all (suc k) m name ≡ some m')
      × (lookup name m'.expecting ≡ some (suc k))
unfolding expect_all expect
expected zero m name h small =
    let m' : Manager = record m { expecting = put name 1 m.expecting } in
    (m', rw (h, expect) refl, lookup-put_self name 1 m.expecting)
expected (suc k) m name h small =
    let (b, e, l) = expected k m name h (omega arith) in
    let one_more : suc k + 1 ≡ suc (suc k) = omega arith in
    let fits : ltb (suc k + 1) (2 ^ 31) ≡ true = ground arith in
    let m' : Manager = record b { expecting = put name (suc (suc k)) b.expecting } in
    (
      m',
      rw e (rw (l, expect) (rw fits (rw one_more refl))),
      lookup-put_self name (suc (suc k)) b.expecting,
    )

module _ (m : Manager) (name : Bytes) where
  -- One call of `CheckOne` at each count.
  check_one_more :
      (n : ℕ)
      → lookup name m.expecting ≡ some (n + 3)
      → check_one m name ≡ (record m { expecting = put name (n + 2) m.expecting }, true)
  unfolding check_one
  check_one_more n h =
      let e : n + 3 - 1 ≡ n + 2 = omega arith in rw (h, check_one) (rw e (ground arith))

  check_one_two :
      lookup name m.expecting ≡ some 2
      → check_one m name ≡ (record m { expecting = put name 1 m.expecting }, false)
  unfolding check_one
  check_one_two h = rw (h, check_one) refl

  check_one_last :
      lookup name m.expecting ≡ some 1
      → check_one m name ≡ (record m { expecting = erase name m.expecting }, true)
  unfolding check_one
  check_one_last h = rw (h, check_one) refl

  check_one-none : lookup name m.expecting ≡ none → check_one m name ≡ (m, false)
  unfolding check_one
  check_one-none h = rw (h, check_one) refl

erased : (name : Bytes) (m : Map Bytes ℕ) → lookup name (erase name m) ≡ none
erased name m = ground (arith, lookup-erase name name m, bytes_refl name)

last_answers :
    (m : Manager) (name : Bytes)
    → lookup name m.expecting ≡ some 2
    → answers 3 m name ≡ false ∷ true ∷ false ∷ []
unfolding answers
last_answers m name h =
    let m₁ : Manager = record m { expecting = put name 1 m.expecting } in
    let m₂ : Manager = record m₁ { expecting = erase name m₁.expecting } in
    rw (check_one_two m name h) (
      rw (check_one_last m₁ name (lookup-put_self name 1 m.expecting))
        (rw (check_one-none m₂ name (erased name m₁.expecting)) refl))

counted_down :
    (k : ℕ) (m : Manager) (name : Bytes)
    → lookup name m.expecting ≡ some (k + 2)
    → answers (k + 3) m name ≡ trues k ++ (false ∷ true ∷ false ∷ [])
unfolding answers
counted_down zero m name h = last_answers m name h
counted_down (suc k) m name h =
    let m₁ : Manager = record m { expecting = put name (k + 2) m.expecting } in
    let e : suc k + 2 ≡ k + 3 = omega arith in
    let f : suc k + 3 ≡ suc (k + 3) = omega arith in
    rw f (
      rw (check_one_more m name k (rw e at h))
        (ap (λ l. true ∷ l) (counted_down k m₁ name (lookup-put_self name (k + 2) m.expecting))))

-- After at least two and fewer than 2 ^ 31 calls of `Expect` for a group that was not expected,
-- `CheckOne` answers yes until two are left, then no, yes for the last, and no behind it.
pub expect_all-answers :
    (k : ℕ) (m : Manager) (name : Bytes)
    → lookup name m.expecting ≡ none
    → k + 2 < 2 ^ 31
    → (m' : Manager) × (expect_all (k + 2) m name ≡ some m')
      × (answers (k + 3) m' name ≡ trues k ++ (false ∷ true ∷ false ∷ []))
expect_all-answers k m name h small =
    let e : suc (suc k) ≡ k + 2 = omega arith in
    let (m', all, l) = expected (suc k) m name h (omega arith) in
    (m', rw e at all, counted_down k m' name (rw e at l))
