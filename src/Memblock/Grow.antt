-- ===== src/Memblock/Grow.antt =====
-- `Resize`, `Expand` and the move to the front keep the contents and the invariant.
use network_etc.Base.{
  ℕ, ◌+◌, ◌-◌, ◌*◌, ◌^◌, ◌≤◌, ◌<◌, ◌≡◌, refl, some, Bytes, length, take, drop, arith, u64, ◌%◌,
  ◌++◌, ◌∙◌, ◌≢◌,
}
use native.Mathlib.Decide.{dec_lt, ℕ_discrete}
use network_etc.Memblock.{Memblock, grow, resize, expand, compact}
use network_etc.Memblock.Contents.{contents, IsValid, length-splice, length-window, take-append_eq}

-- The result of an operation that keeps the contents of `m`.
pub record Keeps (m m' : Memblock) : Type 0 where
  pub valid : IsValid m'
  pub same : contents m' ≡ contents m
  pub size_eq : m'.size ≡ m.size

-- What `Expand` grows to is four times the capacity, unless just that is asked for.
pub grow_lem :
    (lu need : ℕ)
    → 0 < lu
    → lu < 2 ^ 59
    → need < 2 ^ 63
    → need ≢ lu * 4
    → grow 2 lu need ≡ some (lu * 4)
unfolding grow
grow_lem lu need p q r k = ground arith

pub grow_eq : (lu need : ℕ) → 0 < lu → lu < 2 ^ 59 → need ≡ lu * 4 → grow 2 lu need ≡ some (lu * 16)
unfolding grow
grow_eq lu need p q r = ground arith

-- The block over `fresh` memory with the contents of `m` at its front.
abbrev pub front : Memblock → Bytes → ℕ → Memblock
front m fresh n =
    let bs = take m.size (drop m.read_pt m.store) in
    record {
      store = bs ++ drop (0 + length bs) fresh;
      capacity = n;
      read_pt = 0;
      write_pt = m.size;
      size = m.size;
      flag = m.flag;
    }

pub window-size : (m : Memblock) → IsValid m → length (contents m) ≡ m.size
window-size m v = length-window m.store m.read_pt m.size (omega arith)

pub front-Keeps :
    (m : Memblock) (fresh : Bytes) (n : ℕ)
    → IsValid m
    → m.size ≤ n
    → length fresh ≡ n
    → Keeps m (front m fresh n)
front-Keeps m fresh n v h k = record {
  valid = record {
    allocated = length-splice fresh 0 (contents m) (omega (arith, window-size m v)) ∙ k;
    spans = omega arith;
    fits = h;
  };
  same = take-append_eq m.size (contents m) _ (window-size m v);
  size_eq = refl;
}

pub Keeps-refl : (m : Memblock) → IsValid m → Keeps m m
Keeps-refl m v = record { valid = v; same = refl; size_eq = refl }

compact-front :
    (m : Memblock) (n : ℕ)
    → IsValid m
    → m.capacity - m.write_pt < n
    → compact m n ≡ some (front m m.store m.capacity)
unfolding compact
compact-front m n v h =
    let e : m.write_pt - m.read_pt ≡ m.size = omega arith in rw e (ground (arith, window-size m v))

-- The move to the front never fails, and the capacity stays.
pub compact_total :
    (m : Memblock) (n : ℕ)
    → IsValid m
    → (m' : Memblock) × (compact m n ≡ some m') × Keeps m m' × (m'.capacity ≡ m.capacity)
unfolding compact
compact_total m n v = elim (dec_lt (m.capacity - m.write_pt) n) [
  | yes p ↦ (
    front m m.store m.capacity,
    compact-front m n v p,
    front-Keeps m m.store m.capacity v (omega arith) v.allocated,
    refl,
  )
  | no p ↦ (m, ground arith, Keeps-refl m v, refl)
]

-- The move to the front makes room for `n` bytes where the capacity has it.
pub compact-Keeps :
    (m : Memblock) (n : ℕ)
    → IsValid m
    → m.size + n ≤ m.capacity
    → (m' : Memblock) × (compact m n ≡ some m') × Keeps m m' × (m'.write_pt + n ≤ m'.capacity)
unfolding compact
compact-Keeps m n v h = elim (dec_lt (m.capacity - m.write_pt) n) [
  | yes p ↦ (
    front m m.store m.capacity,
    compact-front m n v p,
    front-Keeps m m.store m.capacity v (omega arith) v.allocated,
    h,
  )
  | no p ↦ (m, ground arith, Keeps-refl m v, omega arith)
]

module _ (alloc : ℕ → Bytes) (full : (n : ℕ) → length (alloc n) ≡ n) where
  pub resize-front :
      (m : Memblock) (n : ℕ)
      → IsValid m
      → m.capacity < n
      → resize alloc m n ≡ some (front m (alloc n) n)
  unfolding resize
  resize-front m n v h = ground (arith, window-size m v, full n)

  expand_grown :
      (m : Memblock) (n lu : ℕ)
      → IsValid m
      → m.capacity < 2 ^ 59
      → m.size + n < 2 ^ 63
      → m.capacity < m.size + n
      → m.capacity < lu
      → grow 2 m.capacity (m.size + n) ≡ some lu
      → expand alloc m n ≡ some (front m (alloc lu) lu)
  unfolding expand
  expand_grown m n lu v p q r k e =
      let e' : (m.size + n) % u64 ≡ m.size + n = omega arith in
      rw e' (ground (arith, e, resize-front m lu v k))

  pub expand_fits :
      (m : Memblock) (n : ℕ)
      → IsValid m
      → m.capacity < 2 ^ 59
      → m.size + n ≤ m.capacity
      → expand alloc m n ≡ some m
  unfolding expand
  expand_fits m n v p h = ground arith

  -- Room for a total of up to four times the capacity is made.
  pub expand-Keeps :
      (m : Memblock) (n : ℕ)
      → IsValid m
      → 0 < m.capacity
      → m.capacity < 2 ^ 59
      → m.size + n ≤ m.capacity * 4
      → (m' : Memblock) × (expand alloc m n ≡ some m') × Keeps m m' × (m'.size + n ≤ m'.capacity)
  expand-Keeps m n v p q h = elim (dec_lt m.capacity (m.size + n)) [
    | no fits ↦ (m, expand_fits m n v q (omega arith), Keeps-refl m v, omega arith)
    | yes grows ↦ elim (ℕ_discrete (m.size + n) (m.capacity * 4)) [
      | yes e ↦ (
        front m (alloc (m.capacity * 16)) (m.capacity * 16),
        expand_grown m n _ v q (omega arith) grows (omega arith)
            (grow_eq m.capacity (m.size + n) p q e),
        front-Keeps m _ _ v (omega arith) (full (m.capacity * 16)),
        omega arith,
      )
      | no e ↦ (
        front m (alloc (m.capacity * 4)) (m.capacity * 4),
        expand_grown m n _ v q (omega arith) grows (omega arith)
            (grow_lem m.capacity (m.size + n) p q (omega arith) e),
        front-Keeps m _ _ v (omega arith) (full (m.capacity * 4)),
        h,
      )
    ]
  ]

  -- Beyond four times the capacity the block grows to just that, and its room is too small.
  pub expand_overrun :
      (m : Memblock) (n : ℕ)
      → IsValid m
      → 0 < m.capacity
      → m.capacity < 2 ^ 59
      → m.capacity * 4 < m.size + n
      → m.size + n < 2 ^ 63
      → (m' : Memblock) × (expand alloc m n ≡ some m') × Keeps m m' × (m'.capacity < m'.size + n)
  expand_overrun m n v p q h r = (
    front m (alloc (m.capacity * 4)) (m.capacity * 4),
    expand_grown m n _ v q r (omega arith) (omega arith)
        (grow_lem m.capacity (m.size + n) p q r (omega arith)),
    front-Keeps m _ _ v (omega arith) (full (m.capacity * 4)),
    h,
  )
