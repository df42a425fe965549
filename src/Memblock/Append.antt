-- ===== src/Memblock/Append.antt =====
-- `Write(char const*, size_t)` appends to the contents, and overruns a block that grew too little.
use network_etc.Base.{
  ℕ, ◌+◌, ◌-◌, ◌*◌, ◌^◌, ◌≤◌, ◌<◌, ◌≡◌, ◌∙◌, ap, none, some, Bytes, length, arith, ◌++◌, append-nil,
  take, drop, min,
}
use native.Mathlib.Decide.{dec_lt}
use network_etc.Memblock.{Memblock, put, write, read_bytes}
use network_etc.Memblock.Contents.{
  contents, IsValid, length-splice, window-append, take-append, length-window, drop-drop,
}
use network_etc.Memblock.Grow.{
  compact-Keeps, expand-Keeps, expand_overrun, window-size, compact_total,
}

put-append :
    (m : Memblock) (bs : Bytes)
    → IsValid m
    → m.write_pt + length bs ≤ m.capacity
    → (m' : Memblock) × (put m bs ≡ some m') × IsValid m' × (contents m' ≡ contents m ++ bs)
unfolding put
put-append m bs v h = (
  record m {
    store = take m.write_pt m.store ++ (bs ++ drop (m.write_pt + length bs) m.store);
    write_pt = m.write_pt + length bs;
    size = m.size + length bs;
  },
  ground arith,
  record {
    allocated = length-splice m.store m.write_pt bs (omega arith) ∙ v.allocated;
    spans = omega arith;
    fits = h;
  },
  rw (← v.spans) (window-append m.store bs _ m.read_pt m.size (omega arith)),
)

put_overrun :
    (m : Memblock) (bs : Bytes) → IsValid m → m.capacity < m.size + length bs → put m bs ≡ none
unfolding put
put_overrun m bs v h = ground arith

-- What `Read` leaves: `n` bytes fewer, from the front.
abbrev advance : Memblock → ℕ → Memblock
advance m n = record m { read_pt = m.read_pt + n; size = m.size - n }

advance-split :
    (m : Memblock) (n : ℕ)
    → IsValid m
    → n ≤ m.size
    → take n (drop m.read_pt m.store) ++ contents (advance m n) ≡ contents m
advance-split m n v h =
    let rest : m.size ≡ n + (m.size - n) = omega arith in
    rw (← drop-drop n m.read_pt m.store)
      (take-append n (m.size - n) m.size (drop m.read_pt m.store) (omega arith))

-- `Read(char*, size_t)` on a valid block that is not empty takes bytes off the front of the
-- contents: as many as were asked for, or all that there are; it leaves a valid block.
pub read_bytes-split :
    (m : Memblock) (n : ℕ)
    → IsValid m
    → 0 < m.size
    → (m' : Memblock) × (bs : Bytes) × (read_bytes m n ≡ some (m', some bs))
      × IsValid m'
      × (bs ++ contents m' ≡ contents m)
      × (length bs ≡ min n m.size)
unfolding read_bytes
read_bytes-split m n v h = elim (dec_lt m.size n) [
  | yes short ↦ (
    record m { read_pt = m.write_pt; size = 0 },
    contents m,
    ground arith,
    record { allocated = v.allocated; spans = omega arith; fits = v.fits },
    append-nil (contents m),
    omega (arith, window-size m v),
  )
  | no long ↦ (
    advance m n,
    take n (drop m.read_pt m.store),
    ground arith,
    record { allocated = v.allocated; spans = omega arith; fits = v.fits },
    advance-split m n v (omega arith),
    omega (arith, length-window m.store m.read_pt n (omega arith)),
  )
]

module _ (alloc : ℕ → Bytes) (full : (n : ℕ) → length (alloc n) ≡ n) where
  -- On a valid block with an allocation below 2 ^ 59 bytes, a write that brings the size to at
  -- most four times the capacity succeeds: it appends the bytes to the contents, and leaves a
  -- valid block.
  pub write-append :
      (m : Memblock) (bs : Bytes)
      → IsValid m
      → 0 < m.capacity
      → m.capacity < 2 ^ 59
      → m.size + length bs ≤ m.capacity * 4
      → (m' : Memblock) × (write alloc m bs ≡ some m')
        × IsValid m'
        × (contents m' ≡ contents m ++ bs)
  unfolding write
  write-append m bs v p q h =
      let (m₁, e₁, k₁, room) = expand-Keeps alloc full m (length bs) v p q h in
      let (m₂, e₂, k₂, direct) = compact-Keeps m₁ (length bs) k₁.valid room in
      let (m₃, e₃, v₃, c₃) = put-append m₂ bs k₂.valid direct in
      (m₃, rw (e₁, e₂) e₃, v₃, c₃ ∙ ap (λ l. l ++ bs) (k₂.same ∙ k₁.same))

  -- On a valid block with an allocation below 2 ^ 59 bytes, a write that brings the size beyond four
  -- times the capacity, but below 2 ^ 63, copies past the end of the allocation.
  pub write_overrun :
      (m : Memblock) (bs : Bytes)
      → IsValid m
      → 0 < m.capacity
      → m.capacity < 2 ^ 59
      → m.capacity * 4 < m.size + length bs
      → m.size + length bs < 2 ^ 63
      → write alloc m bs ≡ none
  unfolding write
  write_overrun m bs v p q h r =
      let (m₁, e₁, k₁, short) = expand_overrun alloc full m (length bs) v p q h r in
      let (m₂, e₂, k₂, same) = compact_total m₁ (length bs) k₁.valid in
      rw (e₁, e₂) (put_overrun m₂ bs k₂.valid (omega (arith, k₂.size_eq)))
