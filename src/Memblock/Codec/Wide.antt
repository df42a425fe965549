-- ===== src/Memblock/Codec/Wide.antt =====
-- How far the wider writes move the pointers, and what the loop over a vector of bytes writes.
use network_etc.Base.{
  ℕ, ◌+◌, ◌/◌, ◌%◌, ◌^◌, ◌≤◌, ◌<◌, ◌≡◌, ◌∙◌, refl, sym, ap, some, List, [], ◌∷◌, ◌++◌, map, Bytes,
  length, take, arith, append_assoc, append-nil, u32,
}
use network_etc.Memblock.{Memblock, set_write}
use network_etc.Memblock.Contents.{contents, IsValid}
use network_etc.Memblock.Grow.{expand_fits}
use network_etc.Memblock.Codec.{poke, moved, write8, write32, write64, write_each, write_vector}
use network_etc.Memblock.Codec.Bytewise.{stored, length-stored, poke_lem, write8-moves}

-- From `m` to `m'` both ends of the contents' room move on by `k`, and the block stays valid.
pub record Advanced (k : ℕ) (m m' : Memblock) : Type 0 where
  pub valid : IsValid m'
  pub write_end : m'.write_pt ≡ m.write_pt + k
  pub size_end : m'.size ≡ m.size + k
  pub room_end : m'.capacity ≡ m.capacity

-- A byte stored in the room of a block.
poke-Advanced :
    (i n : ℕ) (m : Memblock)
    → IsValid m
    → m.write_pt + i < m.capacity
    → (m' : Memblock) × (poke i n m ≡ some m') × Advanced 0 m m'
poke-Advanced i n m v h = (
  record m { store = stored (m.write_pt + i) (n % 256) m.store },
  poke_lem i n m (omega (arith, v.allocated)),
  record {
    valid = record {
      allocated = length-stored (m.write_pt + i) (n % 256) m.store ∙ v.allocated;
      spans = v.spans;
      fits = v.fits;
    };
    write_end = omega arith;
    size_end = omega arith;
    room_end = refl;
  },
)

set_write-Advanced :
    (k : ℕ) (m : Memblock)
    → IsValid m
    → m.write_pt + k ≤ m.capacity
    → Advanced k m (moved (set_write m k))
unfolding set_write
set_write-Advanced k m v h = ground arith

start : (m : Memblock) → IsValid m → Advanced 0 m m
start m v = record { valid = v; write_end = omega arith; size_end = omega arith; room_end = refl }

-- A store, and a move of the pointer, on the way from `a`.
poked :
    {k : ℕ} {a m : Memblock} (i n : ℕ)
    → Advanced k a m
    → a.write_pt + k + i < a.capacity
    → (m' : Memblock) × (poke i n m ≡ some m') × Advanced k a m'
poked {k} {a} {m} i n x h =
    let (m', e, y) = poke-Advanced i n m x.valid (omega (arith, x.write_end, x.room_end)) in
    (
      m',
      e,
      record {
        valid = y.valid;
        write_end = omega (arith, x.write_end, y.write_end);
        size_end = omega (arith, x.size_end, y.size_end);
        room_end = y.room_end ∙ x.room_end;
      },
    )

stepped :
    {k : ℕ} {a m : Memblock} (l : ℕ)
    → Advanced k a m
    → a.write_pt + k + l ≤ a.capacity
    → Advanced (k + l) a (moved (set_write m l))
stepped {k} {a} {m} l x h =
    let y = set_write-Advanced l m x.valid (omega (arith, x.write_end, x.room_end)) in
    record {
      valid = y.valid;
      write_end = omega (arith, x.write_end, y.write_end);
      size_end = omega (arith, x.size_end, y.size_end);
      room_end = y.room_end ∙ x.room_end;
    }

take_all : (xs : List ℕ) → take (length xs) xs ≡ xs
take_all [] = refl
take_all (x ∷ xs) = ap (λ l. x ∷ l) (take_all xs)

module _ (alloc : ℕ → Bytes) (full : (n : ℕ) → length (alloc n) ≡ n) where
  -- `Write(uint32_t)` on a valid block below 2 ^ 59 bytes, with room for six bytes behind the write
  -- pointer, takes up six bytes, where the number has four.
  pub write32-Advanced :
      (n : ℕ) (m : Memblock)
      → IsValid m
      → m.capacity < 2 ^ 59
      → m.write_pt + 6 ≤ m.capacity
      → (m' : Memblock) × (write32 alloc n m ≡ some m') × Advanced 6 m m'
  unfolding write32
  write32-Advanced n m v small h =
      let (m₁, e₁, a₁) = poked 3 n (start m v) (omega arith) in
      let (m₂, e₂, a₂) = poked 2 (n / 256) a₁ (omega arith) in
      let b₂ = stepped 2 a₂ (omega arith) in
      let (m₃, e₃, a₃) = poked 1 (n / 256) b₂ (omega arith) in
      let (m₄, e₄, a₄) = poked 0 (n / 256 / 256) a₃ (omega arith) in
      (
        moved (set_write m₄ 4),
        rw (expand_fits alloc full m 4 v small (omega (arith, v.spans)), e₁, e₂, e₃, e₄) refl,
        stepped 4 a₄ (omega arith),
      )

  -- `Write(uint64_t)` on a valid block below 2 ^ 59 bytes, with room for twelve bytes behind the write
  -- pointer, takes up twelve bytes, where the number has eight.
  pub write64-Advanced :
      (n : ℕ) (m : Memblock)
      → IsValid m
      → m.capacity < 2 ^ 59
      → m.write_pt + 12 ≤ m.capacity
      → (m' : Memblock) × (write64 alloc n m ≡ some m') × Advanced 12 m m'
  unfolding write64
  write64-Advanced n m v small h =
      let n₁ = n / 256 in
      let n₂ = n / 256 / 256 in
      let n₃ = n / 256 / 256 / 256 in
      let n₄ = n / 256 / 256 / 256 / 256 in
      let (m₁, e₁, a₁) = poked 7 n (start m v) (omega arith) in
      let (m₂, e₂, a₂) = poked 6 n₁ a₁ (omega arith) in
      let b₂ = stepped 2 a₂ (omega arith) in
      let (m₃, e₃, a₃) = poked 5 n₁ b₂ (omega arith) in
      let (m₄, e₄, a₄) = poked 4 n₂ a₃ (omega arith) in
      let (m₅, e₅, a₅) = poked 3 n₂ a₄ (omega arith) in
      let (m₆, e₆, a₆) = poked 2 n₃ a₅ (omega arith) in
      let b₆ = stepped 2 a₆ (omega arith) in
      let (m₇, e₇, a₇) = poked 1 n₃ b₆ (omega arith) in
      let (m₈, e₈, a₈) = poked 0 n₄ a₇ (omega arith) in
      (
        moved (set_write m₈ 8),
        rw
            (
              expand_fits alloc full m 8 v small (omega (arith, v.spans)),
              e₁,
              e₂,
              e₃,
              e₄,
              e₅,
              e₆,
              e₇,
              e₈,
            )
            refl,
        stepped 8 a₈ (omega arith),
      )

  write_each-write8 :
      (xs : List ℕ) (m : Memblock)
      → IsValid m
      → m.capacity < 2 ^ 59
      → m.write_pt + length xs ≤ m.capacity
      → (m' : Memblock) × (write_each (write8 alloc) xs m ≡ some m')
        × IsValid m'
        × (contents m' ≡ contents m ++ map (λ x. x % 256) xs)
  unfolding write_each
  write_each-write8 [] m v small h = (m, refl, v, sym (append-nil (contents m)))
  write_each-write8 (x ∷ xs) m v small h =
      let (m₁, e, v₁, c₁, p₁, q₁) = write8-moves alloc full x m v small (omega arith) in
      let (m₂, e₂, v₂, c₂) =
        write_each-write8 xs m₁ v₁ (omega (arith, q₁)) (omega (arith, p₁, q₁)) in
      (
        m₂,
        rw e e₂,
        v₂,
        c₂
            ∙ ap (λ l. l ++ map (λ y. y % 256) xs) c₁
            ∙ append_assoc (contents m) (x % 256 ∷ []) (map (λ y. y % 256) xs),
      )

  write_vector_lem :
      (xs : List ℕ) (m m₁ m₂ : Memblock)
      → length xs < u32
      → write32 alloc (length xs) m ≡ some m₁
      → write_each (write8 alloc) xs m₁ ≡ some m₂
      → write_vector alloc (write8 alloc) xs m ≡ some m₂
  unfolding write_vector
  write_vector_lem xs m m₁ m₂ fits e e' =
      let size : length xs % u32 ≡ length xs = omega arith in rw (size, e, take_all xs) e'

  -- `Write` of a vector of bytes on a valid block below 2 ^ 59 bytes, with room for the vector and six
  -- bytes more behind the write pointer: the size of the vector takes up six bytes, and the elements
  -- stand behind them in their order.
  pub write_vector-write8 :
      (xs : List ℕ) (m : Memblock)
      → IsValid m
      → m.capacity < 2 ^ 59
      → length xs < u32
      → m.write_pt + 6 + length xs ≤ m.capacity
      → (m₁ : Memblock) × (m' : Memblock) × (write32 alloc (length xs) m ≡ some m₁)
        × Advanced 6 m m₁
        × (write_vector alloc (write8 alloc) xs m ≡ some m')
        × IsValid m'
        × (contents m' ≡ contents m₁ ++ map (λ x. x % 256) xs)
  write_vector-write8 xs m v small fits h =
      let (m₁, e₁, a₁) = write32-Advanced (length xs) m v small (omega arith) in
      let (m₂, e₂, v₂, c₂) =
        write_each-write8 xs m₁ a₁.valid (omega (arith, a₁.room_end))
          (omega (arith, a₁.write_end, a₁.room_end)) in
      (m₁, m₂, e₁, a₁, write_vector_lem xs m m₁ m₂ fits e₁ e₂, v₂, c₂)
