-- ===== src/Memblock/Contents.antt =====
-- The bytes that a block holds, the invariant of its fields, and what copies do to the contents.
use network_etc.Base.{
  ℕ, zero, suc, ◌+◌, ◌≤◌, ◌≡◌, refl, sym, ap, ◌∙◌, some, List, [], ◌∷◌, ◌++◌, Bytes, length, take,
  drop, arith, append_assoc, length-append, length-take, length-drop,
}
use network_etc.Memblock.{Memblock, splice, fetch}

-- `ToString`: the bytes from the read pointer on.
abbrev pub contents : Memblock → Bytes
contents m = take m.size (drop m.read_pt m.store)

pub record IsValid (m : Memblock) : Type 0 where
  pub allocated : length m.store ≡ m.capacity
  pub spans : m.read_pt + m.size ≡ m.write_pt
  pub fits : m.write_pt ≤ m.capacity

module _ {ℓ} {A : Type ℓ} where
  take-nil : (n : ℕ) → take {A = A} n [] ≡ []
  take-nil zero = refl
  take-nil (suc n) = refl

  drop-nil : (n : ℕ) → drop {A = A} n [] ≡ []
  drop-nil zero = refl
  drop-nil (suc n) = refl

  take-drop : (n r : ℕ) (xs : List A) → take n (drop r xs) ≡ drop r (take (r + n) xs)
  take-drop n zero xs = ap (λ k. take k xs) (omega arith)
  take-drop n (suc r) [] = take-nil n ∙ sym (ap (drop (suc r)) (take-nil (suc r + n)))
  take-drop n (suc r) (x ∷ xs) =
      let e : suc r + n ≡ suc (r + n) = omega arith in rw e (take-drop n r xs)

  drop-append_le : (r : ℕ) (xs ys : List A) → r ≤ length xs → drop r (xs ++ ys) ≡ drop r xs ++ ys
  drop-append_le zero xs ys h = refl
  drop-append_le (suc r) [] ys h = absurd (omega arith)
  drop-append_le (suc r) (x ∷ xs) ys h = drop-append_le r xs ys (omega arith)

  pub take-append_eq : (n : ℕ) (xs ys : List A) → length xs ≡ n → take n (xs ++ ys) ≡ xs
  take-append_eq zero [] ys h = refl
  take-append_eq zero (x ∷ xs) ys h = absurd (omega arith)
  take-append_eq (suc n) [] ys h = absurd (omega arith)
  take-append_eq (suc n) (x ∷ xs) ys h = ap (λ l. x ∷ l) (take-append_eq n xs ys (omega arith))

  -- The first `n` elements, and the `k` behind them.
  pub take-append :
      (n k t : ℕ) (xs : List A) → t ≡ n + k → take n xs ++ take k (drop n xs) ≡ take t xs
  take-append zero k t xs h = ap (λ i. take i xs) (omega arith)
  take-append (suc n) k zero xs h = absurd (omega arith)
  take-append (suc n) k (suc t) [] h = take-nil k
  take-append (suc n) k (suc t) (x ∷ xs) h = ap (λ l. x ∷ l) (take-append n k t xs (omega arith))

  pub drop-drop : (a b : ℕ) (xs : List A) → drop a (drop b xs) ≡ drop (b + a) xs
  drop-drop a zero xs = ap (λ k. drop k xs) (omega arith)
  drop-drop a (suc b) [] = drop-nil a ∙ sym (drop-nil (suc b + a))
  drop-drop a (suc b) (x ∷ xs) =
      let e : suc b + a ≡ suc (b + a) = omega arith in rw e (drop-drop a b xs)

  pub drop-take : (a n : ℕ) (xs : List A) → drop a (take (a + n) xs) ≡ take n (drop a xs)
  drop-take a n xs = sym (take-drop n a xs)

-- A copy within the allocation succeeds, and changes no length.
pub splice_lem :
    (store : Bytes) (at : ℕ) (bs : Bytes)
    → at + length bs ≤ length store
    → splice store at bs ≡ some (take at store ++ (bs ++ drop (at + length bs) store))
unfolding splice
splice_lem store at bs h = ground arith

pub length-splice :
    (store : Bytes) (at : ℕ) (bs : Bytes)
    → at + length bs ≤ length store
    → length (take at store ++ (bs ++ drop (at + length bs) store)) ≡ length store
length-splice store at bs h = omega (
  arith,
  length-append (take at store) (bs ++ drop (at + length bs) store),
  length-append bs (drop (at + length bs) store),
  length-take at store,
  length-drop (at + length bs) store,
)

pub fetch_lem :
    (store : Bytes) (at n : ℕ)
    → at + n ≤ length store
    → fetch store at n ≡ some (take n (drop at store))
unfolding fetch
fetch_lem store at n h = ground arith

pub length-window :
    (store : Bytes) (at n : ℕ) → at + n ≤ length store → length (take n (drop at store)) ≡ n
length-window store at n h = omega (arith, length-take n (drop at store), length-drop at store)

-- Bytes that are put behind a window extend it.
pub window-append :
    (store bs rest : Bytes) (at n : ℕ)
    → at + n ≤ length store
    → take (n + length bs) (drop at (take (at + n) store ++ (bs ++ rest)))
      ≡ take n (drop at store) ++ bs
window-append store bs rest at n h =
    let window = take n (drop at store) in
    rw
      (
        drop-append_le at (take (at + n) store) (bs ++ rest)
            (omega (arith, length-take (at + n) store)),
        drop-take at n store,
        ← append_assoc window bs rest,
      )
      (take-append_eq _ (window ++ bs) rest
        (omega (arith, length-append window bs, length-window store at n h)))
