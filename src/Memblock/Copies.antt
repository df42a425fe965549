-- ===== src/Memblock/Copies.antt =====
-- The copies of a block: within itself, and into another; and the moves of its pointers.
use network_etc.Base.{
  ℕ, ◌+◌, ◌-◌, ◌≤◌, ◌<◌, ◌≡◌, ◌↔◌, ◌∙◌, refl, true, some, Bytes, length, drop, arith, ◌++◌,
}
use network_etc.Memblock.{Memblock, shrink, clone, set_write_at, set_read_at}
use network_etc.Memblock.Contents.{
  contents, IsValid, fetch_lem, splice_lem, length-splice, take-append_eq,
}
use network_etc.Memblock.Grow.{Keeps, window-size}

-- `Shrink` leaves the capacity.
pub shrink-capacity : (m m' : Memblock) → shrink m ≡ some m' → m'.capacity ≡ m.capacity
unfolding shrink
shrink-capacity m m' h = ground arith

-- `Shrink` of a valid block succeeds, keeps the contents and the size, leaves a valid block, and
-- puts the read pointer at the front.
pub shrink-Keeps :
    (m : Memblock)
    → IsValid m
    → (m' : Memblock) × (shrink m ≡ some m') × Keeps m m' × (m'.read_pt ≡ 0)
unfolding shrink
shrink-Keeps m v =
    let room : 0 + length (contents m) ≤ length m.store =
      omega (arith, window-size m v, v.allocated, v.spans, v.fits) in
    let bs = contents m in
    let s = bs ++ drop (0 + length bs) m.store in
    let size = window-size m v in
    (
      record m { store = s; read_pt = 0; write_pt = m.size },
      ground (
        arith,
        fetch_lem m.store m.read_pt m.size (omega (arith, v.allocated, v.spans, v.fits)),
        splice_lem m.store 0 bs room,
      ),
      record {
        valid = record {
          allocated = length-splice m.store 0 bs room ∙ v.allocated;
          spans = omega arith;
          fits = omega (arith, v.spans, v.fits);
        };
        same = take-append_eq m.size bs (drop (0 + length bs) m.store) size;
        size_eq = refl;
      },
      refl,
    )

module _ (alloc : ℕ → Bytes) (full : (n : ℕ) → length (alloc n) ≡ n) where
  -- `Clone` of a valid block with an allocation makes a valid block of the same capacity and
  -- contents, read from its front.
  pub clone-contents :
      (m : Memblock)
      → IsValid m
      → 0 < m.capacity
      → (m' : Memblock) × (clone alloc m ≡ some (m', true))
        × IsValid m'
        × (contents m' ≡ contents m)
        × (m'.capacity ≡ m.capacity)
        × (m'.read_pt ≡ 0)
  unfolding clone
  clone-contents m v h =
      let bs = contents m in
      let size = window-size m v in
      let span : m.write_pt - m.read_pt ≡ m.size = omega (arith, v.spans) in
      let room : 0 + length bs ≤ length (alloc m.capacity) =
        omega (arith, size, full m.capacity, v.spans, v.fits) in
      let s = bs ++ drop (0 + length bs) (alloc m.capacity) in
      (
        record {
          store = s;
          capacity = m.capacity;
          read_pt = 0;
          write_pt = length bs;
          size = length bs;
          flag = m.flag;
        },
        rw (span, fetch_lem m.store m.read_pt m.size (omega (arith, v.allocated, v.spans, v.fits)))
            (ground (arith, splice_lem (alloc m.capacity) 0 bs room, size, v.spans, v.fits)),
        record {
          allocated = length-splice (alloc m.capacity) 0 bs room ∙ full m.capacity;
          spans = omega arith;
          fits = omega (arith, size, v.spans, v.fits);
        },
        take-append_eq (length bs) bs (drop (0 + length bs) (alloc m.capacity)) refl,
        refl,
        refl,
      )

-- `SetRead(char*)` on a valid block accepts the first place of the block and no other.
pub set_read_at_iff : (m : Memblock) (p : ℕ) → IsValid m → ((set_read_at m p).1 ≡ true) ↔ (p ≡ 0)
unfolding set_read_at
set_read_at_iff m p v = ((λ h. ground arith), (λ h. ground arith))

-- `SetWrite(char*)` on a valid block accepts the places from the read pointer to the end and no
-- other, and leaves a valid block in either case.
pub set_write_at-IsValid :
    (m : Memblock) (p : ℕ)
    → IsValid m
    → IsValid (set_write_at m p).0
      × (((set_write_at m p).1 ≡ true) ↔ ((m.read_pt ≤ p) × (p ≤ m.capacity)))
unfolding set_write_at
set_write_at-IsValid m p v = (ground arith, ((λ h. ground arith), (λ h. ground arith)))
