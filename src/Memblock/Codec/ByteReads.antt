-- ===== src/Memblock/Codec/ByteReads.antt =====
-- What the overloads that read one and two bytes do to the contents of a block.
use network_etc.Base.{
  ℕ, zero, suc, ◌+◌, ◌-◌, ◌≤◌, ◌<◌, ◌≡◌, refl, ap, sym, some, [], ◌∷◌, Bytes, length, take, drop,
  arith,
}
use network_etc.Memblock.{Memblock, set_write, set_read}
use network_etc.Memblock.Contents.{contents, IsValid}
use network_etc.Memblock.Codec.{peek, read8, read16, shift_in, widen}

-- There is a byte at each place of a string.
byte_at : (p : ℕ) (s : Bytes) → p < length s → (b : ℕ) × (drop p s ≡ b ∷ drop (suc p) s)
byte_at p [] h = absurd (omega arith)
byte_at zero (x ∷ s) h = (x, refl)
byte_at (suc p) (x ∷ s) h = byte_at p s (omega arith)

peek_lem :
    (m : Memblock) (i : ℕ)
    → m.read_pt + i < length m.store
    → (b : ℕ) × (peek m i ≡ some b)
      × (drop (m.read_pt + i) m.store ≡ b ∷ drop (suc (m.read_pt + i)) m.store)
unfolding peek
peek_lem m i h = let (b, e) = byte_at (m.read_pt + i) m.store h in (b, rw e refl, e)

take_front : (n : ℕ) (b : ℕ) (s : Bytes) → 0 < n → take n (b ∷ s) ≡ b ∷ take (n - 1) s
take_front zero b s h = absurd (omega arith)
take_front (suc n) b s h = let e : suc n - 1 ≡ n = omega arith in rw e refl

take-take_le : (n k : ℕ) (s : Bytes) → n ≤ k → take n (take k s) ≡ take n s
take-take_le zero k s h = refl
take-take_le (suc n) zero s h = absurd (omega arith)
take-take_le (suc n) (suc k) [] h = refl
take-take_le (suc n) (suc k) (x ∷ s) h = ap (λ l. x ∷ l) (take-take_le n k s (omega arith))

-- `Read(uint8_t&)` on a valid block that is not empty takes the first byte off the contents and
-- leaves a valid block.
pub read8-head :
    (m : Memblock)
    → IsValid m
    → 0 < m.size
    → (m' : Memblock) × (b : ℕ) × (read8 m ≡ some (m', some b))
      × IsValid m'
      × (b ∷ contents m' ≡ contents m)
unfolding read8 peek set_read
read8-head m v h =
    let (b, e, split) = peek_lem m 0 (omega (arith, v.allocated, v.spans, v.fits)) in
    let p : m.read_pt + 0 ≡ m.read_pt = omega arith in
    let q : m.read_pt + 1 ≡ suc m.read_pt = omega arith in
    let split' : drop m.read_pt m.store ≡ b ∷ drop (m.read_pt + 1) m.store = rw q (rw p at split) in
    (
      record m { read_pt = m.read_pt + 1; size = m.size - 1 },
      b,
      ground (arith, e),
      record { allocated = v.allocated; spans = omega (arith, v.spans); fits = v.fits },
      rw split' (sym (take_front m.size b (drop (m.read_pt + 1) m.store) h)),
    )

-- `Read(uint16_t&)` on a valid block of two bytes or more, with room for two behind the write
-- pointer, leaves the read pointer and the bytes where they are, and the size grows by two.
pub read16-grows :
    (m : Memblock)
    → IsValid m
    → 2 ≤ m.size
    → m.write_pt + 2 ≤ m.capacity
    → (m' : Memblock) × (n : ℕ) × (read16 m ≡ some (m', some n))
      × (m'.read_pt ≡ m.read_pt)
      × (m'.size ≡ m.size + 2)
      × (take m.size (contents m') ≡ contents m)
unfolding read16 peek set_write
read16-grows m v h room =
    let (b₀, e₀, _) = peek_lem m 0 (omega (arith, v.allocated, v.spans, v.fits)) in
    let (b₁, e₁, _) = peek_lem m 1 (omega (arith, v.allocated, v.spans, v.fits)) in
    (
      record m { write_pt = m.write_pt + 2; size = m.size + 2 },
      shift_in 16 (widen 16 b₀) b₁,
      ground (arith, e₀, e₁),
      refl,
      refl,
      take-take_le m.size (m.size + 2) (drop m.read_pt m.store) (omega arith),
    )
