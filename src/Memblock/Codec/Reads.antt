-- ===== src/Memblock/Codec/Reads.antt =====
-- What the wider reads give, and how many elements a vector gets.
use mathlib.Core.Path.{subst}
use network_etc.Base.{
  ℕ, zero, suc, ◌+◌, ◌*◌, ◌%◌, ◌^◌, ◌≡◌, ◌∙◌, refl, sym, ap, Bool, true, false, Option, some, none,
  List, [], ◌∷◌, ◌++◌, length, arith, length-append, ◌>>=◌, ltb, if◌then◌else◌,
}
use network_etc.Memblock.{Memblock, set_read}
use network_etc.Memblock.Codec.{
  moved, read32, read64, read_each, keep_reading, sized, read_vector, word, peek, shift_in, widen,
}

bind_some :
    {A B : Type 0} (o : Option A) (f : A → Option B) {b : B}
    → (o >>= f) ≡ some b
    → (a : A) × (o ≡ some a) × (f a ≡ some b)
bind_some none f e = absurd (ground (arith, e))
bind_some (some a) f e = (a, refl, e)

keep_reading-length :
    (rest : List ℕ → Memblock → Option (Memblock × List ℕ × Bool)) (k : ℕ) (vec vec' : List ℕ)
    (r : Memblock × Option ℕ) (m' : Memblock)
    → ((v w : List ℕ) (a b : Memblock) → rest v a ≡ some (b, w, true) → length w ≡ length v + k)
    → keep_reading rest vec r ≡ some (m', vec', true)
    → length vec' ≡ length vec + suc k
unfolding keep_reading
keep_reading-length rest k vec vec' (m, none) m' ih e = absurd (ground (arith, e))
keep_reading-length rest k vec vec' (m, some x) m' ih e =
    omega (arith, ih (vec ++ (x ∷ [])) vec' m m' e, length-append vec (x ∷ []))

read_each-length :
    (read_one : Memblock → Option (Memblock × Option ℕ)) (k : ℕ) (vec vec' : List ℕ)
    (m m' : Memblock)
    → read_each read_one k vec m ≡ some (m', vec', true)
    → length vec' ≡ length vec + k
unfolding read_each
read_each-length read_one zero vec vec' m m' e =
    let same : vec ≡ vec' = ground (arith, e) in rw same (omega arith)
read_each-length read_one (suc k) vec vec' m m' e =
    let (r, _, e') = bind_some (read_one m) (keep_reading (read_each read_one k) vec) e in
    keep_reading-length (read_each read_one k) k vec vec' r m'
      (λ v w a b. read_each-length read_one k v w a b) e'

sized-length :
    (read_one : Memblock → Option (Memblock × Option ℕ)) (vec vec' : List ℕ)
    (r : Memblock × Option ℕ) (m' : Memblock)
    → sized (read_each read_one) vec r ≡ some (m', vec', true)
    → (size : ℕ) × (r.1 ≡ some size) × (length vec' ≡ length vec + size)
unfolding sized
sized-length read_one vec vec' (m, none) m' e = absurd (ground (arith, e))
sized-length read_one vec vec' (m, some size) m' e =
    (size, refl, read_each-length read_one size vec vec' m m' e)

-- Where `Read` of a vector does not report -1, `Read(uint32_t&)` gave a size, and the vector has
-- grown by as many elements, whatever the overload for its elements does.
pub read_vector-length :
    (read_one : Memblock → Option (Memblock × Option ℕ)) (vec vec' : List ℕ) (m m' : Memblock)
    → read_vector read_one vec m ≡ some (m', vec', true)
    → (m₁ : Memblock) × (size : ℕ) × (read32 m ≡ some (m₁, some size))
      × (length vec' ≡ length vec + size)
unfolding read_vector
read_vector-length read_one vec vec' m m' e =
    let ((m₁, got), e₁, e₂) = bind_some (read32 m) (sized (read_each read_one) vec) e in
    let (size, some_size, grown) = sized-length read_one vec vec' (m₁, got) m' e₂ in
    (m₁, size, e₁ ∙ ap (λ g. some (m₁, g)) some_size, grown)

word-low32 : (m : Memblock) (n : ℕ) → word 32 m ≡ some n → n % 256 ≡ 0
unfolding word
word-low32 m n e =
    let (b₀, _, f₀) = bind_some (peek m 0) _ e in
    let (b₁, _, f₁) = bind_some (peek m 1) _ f₀ in
    let (b₂, _, f₂) = bind_some (peek m 2) _ f₁ in
    let (b₃, _, f₃) = bind_some (peek m 3) _ f₂ in
    let x = shift_in 32 (shift_in 32 (shift_in 32 (widen 32 b₀) b₁) b₂) b₃ in
    let same : x * 256 % 2 ^ 32 ≡ n = ground (arith, f₃) in omega (arith, same)

word-low64 : (m : Memblock) (n : ℕ) → word 64 m ≡ some n → n % 256 ≡ 0
unfolding word
word-low64 m n e =
    let (b₀, _, f₀) = bind_some (peek m 0) _ e in
    let (b₁, _, f₁) = bind_some (peek m 1) _ f₀ in
    let (b₂, _, f₂) = bind_some (peek m 2) _ f₁ in
    let (b₃, _, f₃) = bind_some (peek m 3) _ f₂ in
    let x = shift_in 64 (shift_in 64 (shift_in 64 (widen 64 b₀) b₁) b₂) b₃ in
    let same : x * 256 % 2 ^ 64 ≡ n = ground (arith, f₃) in omega (arith, same)

-- What a read that goes through has found.
read_found :
    (short : Bool) (got : Option ℕ) (m after m' : Memblock) (n : ℕ)
    → let nothing : Option (Memblock × Option ℕ) = some (m, none) in
      let all : Option (Memblock × Option ℕ) = got >>= (λ k. some (after, some k)) in
      (if short then nothing else all) ≡ some (m', some n) → (m' ≡ after) × (got ≡ some n)
read_found true got m after m' n e = absurd (ground (arith, e))
read_found false none m after m' n e = absurd (ground (arith, e))
read_found false (some k) m after m' n e = ground (arith, e)

-- The number that a `Read(uint32_t&)` gives is a multiple of 256, since it is shifted once more after
-- its last byte; the block is left as it was, and the next read gives the same number again.
pub read32-low :
    (m m' : Memblock) (n : ℕ)
    → read32 m ≡ some (m', some n)
    → (n % 256 ≡ 0) × (m' ≡ m) × (read32 m' ≡ some (m', some n))
unfolding read32
read32-low m m' n e =
    let (same, found) = read_found (ltb m.size 2) (word 32 m) m m m' n e in
    (word-low32 m n found, same, subst (λ k. read32 k ≡ some (m', some n)) (sym same) e)

-- The number that a `Read(uint64_t&)` gives is a multiple of 256 too; the block is left as `SetRead(8)`
-- leaves it.
pub read64-low :
    (m m' : Memblock) (n : ℕ)
    → read64 m ≡ some (m', some n)
    → (n % 256 ≡ 0) × (m' ≡ moved (set_read m 8))
unfolding read64
read64-low m m' n e =
    let (same, found) = read_found (ltb m.size 2) (word 64 m) m (moved (set_read m 8)) m' n e in
    (word-low64 m n found, same)
