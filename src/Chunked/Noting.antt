-- ===== src/Chunked/Noting.antt =====
-- The array of the chunks while they are noted.
use network_etc.Base.{
  ℕ, zero, suc, ◌+◌, ◌≡◌, ◌≤◌, refl, ap, List, [], ◌∷◌, length, take, drop, arith,
}
use network_etc.Imf
use network_etc.Chunked.{Chunk}

-- The array after chunks are noted from the place `n` on.
abbrev pub put_all : List Chunk → ℕ → List Chunk → List Chunk
put_all table n [] = table
put_all table n (c ∷ cs) = put_all (Imf.set table n c) (n + 1) cs

put_all-behind :
    (cs : List Chunk) (x : Chunk) (xs : List Chunk) (n : ℕ)
    → put_all (x ∷ xs) (suc n) cs ≡ x ∷ put_all xs n cs
put_all-behind [] x xs n = refl
put_all-behind (c ∷ cs) x xs n =
    let e : suc n + 1 ≡ suc (n + 1) = omega arith in
    rw e (put_all-behind cs x (Imf.set xs n c) (n + 1))

-- What was noted can be read back.
pub read_back :
    (table : List Chunk) (n : ℕ) (cs : List Chunk)
    → n + length cs ≤ length table
    → take (length cs) (drop n (put_all table n cs)) ≡ cs
read_back table n [] h = refl
read_back [] n (c ∷ cs) h = absurd (omega arith)
read_back (x ∷ xs) zero (c ∷ cs) h =
    let one : 0 + 1 ≡ suc 0 = refl in
    rw (put_all-behind cs c xs 0) (ap (λ l. c ∷ l) (read_back xs zero cs (omega arith)))
read_back (x ∷ xs) (suc n) (c ∷ cs) h =
    rw (put_all-behind (c ∷ cs) x xs n) (read_back xs n (c ∷ cs) (omega arith))
