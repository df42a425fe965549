-- ===== src/Memblock/Codec/Bytewise.antt =====
-- What the overloads that write one and two bytes do to the contents of a block.
use network_etc.Base.{
  ℕ, zero, suc, ◌+◌, ◌/◌, ◌%◌, ◌^◌, ◌≤◌, ◌<◌, ◌≡◌, ◌∙◌, refl, ap, some, [], ◌∷◌, ◌++◌, Bytes,
  length, take, drop, arith,
}
use network_etc.Memblock.{Memblock, splice, set_write}
use network_etc.Memblock.Contents.{contents, IsValid, splice_lem, window-append}
use network_etc.Memblock.Grow.{expand_fits}
use network_etc.Memblock.Codec.{poke, write8, write16}

-- The store after a byte is put at `p`.
pub stored : ℕ → ℕ → Bytes → Bytes
stored p b [] = []
stored zero b (x ∷ s) = b ∷ s
stored (suc p) b (x ∷ s) = x ∷ stored p b s

pub length-stored : (p b : ℕ) (s : Bytes) → length (stored p b s) ≡ length s
unfolding stored
length-stored zero b [] = refl
length-stored (suc p) b [] = refl
length-stored zero b (x ∷ s) = refl
length-stored (suc p) b (x ∷ s) = ap suc (length-stored p b s)

stored_once : (p b : ℕ) (s : Bytes) → p < length s → stored p b s ≡ take p s ++ (b ∷ drop (suc p) s)
unfolding stored
stored_once zero b [] h = absurd (omega arith)
stored_once (suc p) b [] h = absurd (omega arith)
stored_once zero b (x ∷ s) h = refl
stored_once (suc p) b (x ∷ s) h = ap (λ l. x ∷ l) (stored_once p b s (omega arith))

-- Two stores side by side, the second byte first.
stored_twice :
    (p a b : ℕ) (s : Bytes)
    → suc p < length s
    → stored p a (stored (suc p) b s) ≡ take p s ++ (a ∷ b ∷ drop (suc (suc p)) s)
unfolding stored
stored_twice p a b [] h = absurd (omega arith)
stored_twice p a b (x ∷ []) h = absurd (omega arith)
stored_twice zero a b (x ∷ y ∷ s) h = refl
stored_twice (suc p) a b (x ∷ y ∷ s) h = ap (λ l. x ∷ l) (stored_twice p a b (y ∷ s) (omega arith))

splice-stored : (s : Bytes) (p b : ℕ) → p < length s → splice s p (b ∷ []) ≡ some (stored p b s)
splice-stored s p b h =
    let e : p + 1 ≡ suc p = omega arith in
    rw (splice_lem s p (b ∷ []) (omega arith), e, stored_once p b s h) refl

pub poke_lem :
    (i n : ℕ) (m : Memblock)
    → m.write_pt + i < length m.store
    → poke i n m ≡ some (record m { store = stored (m.write_pt + i) (n % 256) m.store })
unfolding poke
poke_lem i n m h = rw (splice-stored m.store (m.write_pt + i) (n % 256) h) refl

-- A block that has taken up `bs`.
gained : Memblock → Bytes → ℕ → Memblock
gained m store k = record m { store = store; write_pt = m.write_pt + k; size = m.size + k }

gained-contents :
    (m : Memblock) (store bs rest : Bytes)
    → IsValid m
    → store ≡ take m.write_pt m.store ++ (bs ++ rest)
    → contents (gained m store (length bs)) ≡ contents m ++ bs
unfolding gained
gained-contents m store bs rest v e =
    rw (e, ← v.spans) (window-append m.store bs rest m.read_pt m.size (omega arith))

gained-IsValid :
    (m : Memblock) (store : Bytes) (k : ℕ)
    → IsValid m
    → length store ≡ length m.store
    → m.write_pt + k ≤ m.capacity
    → IsValid (gained m store k)
unfolding gained
gained-IsValid m store k v e room = ground arith

module _ (alloc : ℕ → Bytes) (full : (n : ℕ) → length (alloc n) ≡ n) where
  write8_lem :
      (n : ℕ) (m : Memblock)
      → IsValid m
      → m.capacity < 2 ^ 59
      → m.write_pt < m.capacity
      → write8 alloc n m ≡ some (gained m (stored m.write_pt (n % 256) m.store) 1)
  unfolding write8 set_write gained
  write8_lem n m v small room =
      let p : m.write_pt + 0 ≡ m.write_pt = omega arith in
      let e = poke_lem 0 n m (omega arith) in
      rw (expand_fits alloc full m 1 v small (omega arith), e, p) (ground arith)

  write16_lem :
      (n : ℕ) (m : Memblock)
      → IsValid m
      → m.capacity < 2 ^ 59
      → m.write_pt + 1 < m.capacity
      → write16 alloc n m
        ≡ some (
            gained m
              (stored m.write_pt (n / 256 % 256) (stored (suc m.write_pt) (n % 256) m.store))
              2)
  unfolding write16 set_write gained
  write16_lem n m v small room =
      let s = stored (m.write_pt + 1) (n % 256) m.store in
      let m' : Memblock = record m { store = s } in
      let p : m.write_pt + 0 ≡ m.write_pt = omega arith in
      let q : m.write_pt + 1 ≡ suc m.write_pt = omega arith in
      let l = length-stored (m.write_pt + 1) (n % 256) m.store in
      let e = poke_lem 1 n m (omega arith) in
      let e' = poke_lem 0 (n / 256) m' (omega arith) in
      rw (expand_fits alloc full m 2 v small (omega arith), e, e', p, q) (ground arith)

  -- The block that a byte is appended to, and its pointers.
  pub write8-moves :
      (n : ℕ) (m : Memblock)
      → IsValid m
      → m.capacity < 2 ^ 59
      → m.write_pt < m.capacity
      → (m' : Memblock) × (write8 alloc n m ≡ some m')
        × IsValid m'
        × (contents m' ≡ contents m ++ (n % 256 ∷ []))
        × (m'.write_pt ≡ m.write_pt + 1)
        × (m'.capacity ≡ m.capacity)
  unfolding gained
  write8-moves n m v small room =
      let s = stored m.write_pt (n % 256) m.store in
      (
        gained m s 1,
        write8_lem n m v small room,
        gained-IsValid m s 1 v (length-stored m.write_pt (n % 256) m.store) (omega arith),
        gained-contents m s (n % 256 ∷ []) (drop (suc m.write_pt) m.store) v
            (stored_once m.write_pt (n % 256) m.store (omega arith)),
        refl,
        refl,
      )

  -- On a valid block below 2 ^ 59 bytes with room for a byte behind the write pointer,
  -- `Write(uint8_t)` appends the byte to the contents and leaves a valid block.
  pub write8-append :
      (n : ℕ) (m : Memblock)
      → IsValid m
      → m.capacity < 2 ^ 59
      → m.write_pt < m.capacity
      → (m' : Memblock) × (write8 alloc n m ≡ some m')
        × IsValid m'
        × (contents m' ≡ contents m ++ (n % 256 ∷ []))
  write8-append n m v small room =
      let (m', e, v', same, _, _) = write8-moves n m v small room in (m', e, v', same)

  -- On a valid block below 2 ^ 59 bytes with room for two bytes behind the write pointer,
  -- `Write(uint16_t)` appends the two bytes to the contents, the high one first, and leaves a
  -- valid block.
  pub write16-append :
      (n : ℕ) (m : Memblock)
      → IsValid m
      → m.capacity < 2 ^ 59
      → m.write_pt + 1 < m.capacity
      → (m' : Memblock) × (write16 alloc n m ≡ some m')
        × IsValid m'
        × (contents m' ≡ contents m ++ (n / 256 % 256 ∷ n % 256 ∷ []))
  write16-append n m v small room =
      let s₁ = stored (suc m.write_pt) (n % 256) m.store in
      let s = stored m.write_pt (n / 256 % 256) s₁ in
      (
        gained m s 2,
        write16_lem n m v small room,
        gained-IsValid m s 2 v
            (length-stored m.write_pt (n / 256 % 256) s₁
              ∙ length-stored (suc m.write_pt) (n % 256) m.store)
            (omega arith),
        gained-contents m s (n / 256 % 256 ∷ n % 256 ∷ []) (drop (suc (suc m.write_pt)) m.store) v
            (stored_twice m.write_pt (n / 256 % 256) (n % 256) m.store (omega arith)),
      )
