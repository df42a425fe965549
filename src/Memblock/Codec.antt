-- ===== src/Memblock/Codec.antt =====
-- netfram/Memblock.cpp: the overloads of `Write` and `Read` for integers and vectors, with the
-- pointer moves of the source. `char` is signed, as on the machines the makefiles are for. `none` is
-- an access outside the allocation.
pub mod Bytewise
pub mod ByteReads
pub mod Wide
pub mod Reads
use Prim.Native.Nat.{bit_or}
use network_etc.Base.{
  ℕ, zero, suc, ◌+◌, ◌-◌, ◌*◌, ◌/◌, ◌%◌, ◌^◌, Bool, true, false, Option, none, some, List, [], ◌∷◌,
  ◌++◌, Bytes, length, take, drop, ltb, ◌==◌, if◌then◌else◌, u32, ◌>>=◌,
}
use network_etc.Memblock.{Memblock, splice, set_write, set_read, expand}

-- `mpcWritePt[i] = (unsigned char)n`
pub poke : ℕ → ℕ → Memblock → Option Memblock
poke i n m = do
  store ← splice m.store (m.write_pt + i) ((n % 256) ∷ [])
  some (record m { store = store })

-- `SetWrite` and `SetRead`, whose results the overloads do not look at.
abbrev pub moved : Memblock × Bool → Memblock
moved (m, _) = m

module _ (alloc : ℕ → Bytes) where
  pub write8 : ℕ → Memblock → Option Memblock
  write8 n m = do m₁ ← expand alloc m 1; m₂ ← poke 0 n m₁; some (moved (set_write m₂ 1))

  pub write16 : ℕ → Memblock → Option Memblock
  write16 n m = do
    m₁ ← expand alloc m 2
    m₂ ← poke 1 n m₁
    m₃ ← poke 0 (n / 256) m₂
    some (moved (set_write m₃ 2))

  unfoldable pub write32 : ℕ → Memblock → Option Memblock
  write32 n m = do
    m₁ ← expand alloc m 4
    m₂ ← poke 3 n m₁
    m₃ ← poke 2 (n / 256) m₂
    m₄ ← poke 1 (n / 256) (moved (set_write m₃ 2))
    m₅ ← poke 0 (n / 256 / 256) m₄
    some (moved (set_write m₅ 4))

  unfoldable pub write64 : ℕ → Memblock → Option Memblock
  write64 n m = do
    m₁ ← expand alloc m 8
    m₂ ← poke 7 n m₁
    m₃ ← poke 6 (n / 256) m₂
    m₄ ← poke 5 (n / 256) (moved (set_write m₃ 2))
    m₅ ← poke 4 (n / 256 / 256) m₄
    m₆ ← poke 3 (n / 256 / 256) m₅
    m₇ ← poke 2 (n / 256 / 256 / 256) m₆
    m₈ ← poke 1 (n / 256 / 256 / 256) (moved (set_write m₇ 2))
    m₉ ← poke 0 (n / 256 / 256 / 256 / 256) m₈
    some (moved (set_write m₉ 8))

-- The loop over a vector, with the overload for its elements.
pub write_each : (ℕ → Memblock → Option Memblock) → List ℕ → Memblock → Option Memblock
write_each write_one [] m = some m
write_each write_one (x ∷ xs) m = write_one x m >>= write_each write_one xs

-- The overloads for vectors: the size, then the elements.
unfoldable pub write_vector :
    (ℕ → Bytes) → (ℕ → Memblock → Option Memblock) → List ℕ → Memblock → Option Memblock
unfolding write_each
write_vector alloc write_one xs m =
    let size = length xs % u32 in write32 alloc size m >>= write_each write_one (take size xs)

head : Bytes → Option ℕ
head [] = none
head (b ∷ _) = some b

-- `mpcReadPt[i]`
unfoldable pub peek : Memblock → ℕ → Option ℕ
unfolding head
peek m i = head (drop (m.read_pt + i) m.store)

-- A `char` in an unsigned integer of `w` bits.
abbrev pub widen : ℕ → ℕ → ℕ
widen w b = if ltb b 128 then b else b + 2 ^ w - 256

-- `num <<= 8; num |= mpcReadPt[i]`
abbrev pub shift_in : ℕ → ℕ → ℕ → ℕ
shift_in w num b = bit_or (num * 256 % 2 ^ w) (widen w b)

-- What a read gives: `none` is -1.
pub read8 : Memblock → Option (Memblock × Option ℕ)
read8 m =
    if ltb m.size 1 then some (m, none) else do b ← peek m 0; some (moved (set_read m 1), some b)

pub read16 : Memblock → Option (Memblock × Option ℕ)
read16 m = if ltb m.size 2 then some (m, none) else do
  b₀ ← peek m 0
  b₁ ← peek m 1
  some (moved (set_write m 2), some (shift_in 16 (widen 16 b₀) b₁))

-- The four bytes that the wider overloads read, and the last shift.
word : ℕ → Memblock → Option ℕ
word w m = do
  b₀ ← peek m 0
  b₁ ← peek m 1
  b₂ ← peek m 2
  b₃ ← peek m 3
  some (shift_in w (shift_in w (shift_in w (widen w b₀) b₁) b₂) b₃ * 256 % 2 ^ w)

unfoldable pub read32 : Memblock → Option (Memblock × Option ℕ)
unfolding word
read32 m = if ltb m.size 2 then some (m, none) else do n ← word 32 m; some (m, some n)

-- `au64Num = mpcReadPt[0]` in the middle drops the first four bytes that were read, and the same
-- four are read again.
unfoldable pub read64 : Memblock → Option (Memblock × Option ℕ)
unfolding word
read64 m =
    if ltb m.size 2 then some (m, none) else do n ← word 64 m; some (moved (set_read m 8), some n)

-- One turn of the loop below, behind the read of an element.
keep_reading :
    (List ℕ → Memblock → Option (Memblock × List ℕ × Bool))
    → List ℕ
    → Memblock × Option ℕ
    → Option (Memblock × List ℕ × Bool)
keep_reading rest vec (m, none) = some (m, [], false)
keep_reading rest vec (m, some x) = rest (vec ++ (x ∷ [])) m

-- The loop of a vector's read: the block, the vector, and false for -1, where the vector is cleared.
unfoldable pub read_each :
    (Memblock → Option (Memblock × Option ℕ))
    → ℕ
    → List ℕ
    → Memblock
    → Option (Memblock × List ℕ × Bool)
unfolding keep_reading
read_each read_one zero vec m = some (m, vec, true)
read_each read_one (suc k) vec m = read_one m >>= keep_reading (read_each read_one k) vec

sized :
    (ℕ → List ℕ → Memblock → Option (Memblock × List ℕ × Bool))
    → List ℕ
    → Memblock × Option ℕ
    → Option (Memblock × List ℕ × Bool)
sized each vec (m, none) = some (m, vec, false)
sized each vec (m, some size) = each size vec m

unfoldable pub read_vector :
    (Memblock → Option (Memblock × Option ℕ))
    → List ℕ
    → Memblock
    → Option (Memblock × List ℕ × Bool)
unfolding sized read_each
read_vector read_one vec m = read32 m >>= sized (read_each read_one) vec
