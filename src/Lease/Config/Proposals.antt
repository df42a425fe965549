-- ===== src/Lease/Config/Proposals.antt =====
-- Proposal numbers: three bit fields side by side, so `|` is a sum.
use Prim.Native.Nat.{bit_or, bit_or-bitwise, digits, max}
use native.Mathlib.Nat.{pow-suc}
use network_etc.Base.{
  Bool, true, if◌then◌else◌, Bool-cases, inl, inr, ℕ, zero, suc, ◌+◌, ◌-◌, ◌*◌, ◌/◌, ◌%◌, ◌^◌, ◌≤◌,
  ◌<◌, ◌≡◌, refl, u32, u64, arith,
}
use network_etc.Lease.Config.{ReplicatedConfig, next_highest, min_majority}

abbrev or_digits : ℕ → ℕ → ℕ → ℕ
or_digits n a b = digits (λ b. b) max n a b

or_digits_fuel : (n m a b : ℕ) → a ≤ n → a ≤ m → or_digits n a b ≡ or_digits m a b
or_digits_fuel zero zero a b p q = refl
or_digits_fuel zero (suc m) zero b p q = refl
or_digits_fuel zero (suc m) (suc a) b p q = absurd (omega arith)
or_digits_fuel (suc n) zero zero b p q = refl
or_digits_fuel (suc n) zero (suc a) b p q = absurd (omega arith)
or_digits_fuel (suc n) (suc m) zero b p q = refl
or_digits_fuel (suc n) (suc m) (suc a) b p q =
    omega (arith, or_digits_fuel n m (suc a / 2) (b / 2) (omega arith) (omega arith))

zero-bit_or : (b : ℕ) → bit_or 0 b ≡ b
zero-bit_or b = bit_or-bitwise 0 b

bit_or_step : (a b : ℕ) → bit_or a b ≡ bit_or (a / 2) (b / 2) * 2 + max (a % 2) (b % 2)
bit_or_step zero b = omega (arith, zero-bit_or b, zero-bit_or (b / 2))
bit_or_step (suc a) b = omega (
  arith,
  bit_or-bitwise (suc a) b,
  bit_or-bitwise (suc a / 2) (b / 2),
  or_digits_fuel a (suc a / 2) (suc a / 2) (b / 2) (omega arith) (omega arith),
)

bit_or-zero_fuel : (n a : ℕ) → a ≤ n → bit_or a 0 ≡ a
bit_or-zero_fuel n zero h = zero-bit_or 0
bit_or-zero_fuel zero (suc a) h = absurd (omega arith)
bit_or-zero_fuel (suc n) (suc a) h =
    omega (arith, bit_or_step (suc a) 0, bit_or-zero_fuel n (suc a / 2) (omega arith))

-- The bits of `b` go where `a * 2 ^ k` has none.
bit_or_disjoint : (k a b : ℕ) → b < 2 ^ k → bit_or (a * 2 ^ k) b ≡ a * 2 ^ k + b
bit_or_disjoint zero a b h =
    let e : b ≡ 0 = omega arith in
    rw e (omega (arith, bit_or-zero_fuel (a * 1) (a * 1) (omega arith)))
bit_or_disjoint (suc k) a b h =
    let e : a * 2 ^ suc k ≡ a * 2 ^ k * 2 = rw (pow-suc 2 k) (omega arith) in
    let half : a * 2 ^ k * 2 / 2 ≡ a * 2 ^ k = omega arith in
    rw (e, bit_or_step, half)
      (omega (arith, bit_or_disjoint k a (b / 2) (omega (arith, pow-suc 2 k))))

-- The configuration fits its bit fields.
pub record Fits (c : ReplicatedConfig) : Type 0 where
  pub node : c.node_id < 2 ^ 8
  pub counter : c.restart_counter < 2 ^ 16

-- The next proposal number has the next count, the restart counter and the node's id.
pub next_highest_lem :
    (c : ReplicatedConfig) (p : ℕ)
    → Fits c
    → p < 2 ^ 64 - 2 ^ 24
    → next_highest c p ≡ (p / 2 ^ 24 + 1) * 2 ^ 24 + c.restart_counter * 2 ^ 8 + c.node_id
unfolding next_highest
next_highest_lem c p f h =
    let count = p / 2 ^ 24 + 1 in
    let left : count % u64 * 2 ^ 24 % u64 ≡ count * 2 ^ 24 = omega arith in
    let middle : c.restart_counter * 2 ^ 8 % u64 ≡ c.restart_counter * 2 ^ 8 = omega arith in
    let joined : count * 2 ^ 24 + c.restart_counter * 2 ^ 8
        ≡ (count * 2 ^ 16 + c.restart_counter) * 2 ^ 8 =
      omega arith in
    rw (left, middle, bit_or_disjoint 24 count (c.restart_counter * 2 ^ 8) (omega arith), joined)
      (bit_or_disjoint 8 (count * 2 ^ 16 + c.restart_counter) c.node_id f.node)

-- Where the node id fits 8 bits and the restart counter 16, the proposal number that is made from
-- a number below 2 ^ 64 - 2 ^ 24 is above it and stays within 64 bits.
pub next_highest_fresh :
    (c : ReplicatedConfig) (p : ℕ)
    → Fits c
    → p < 2 ^ 64 - 2 ^ 24
    → (p < next_highest c p) × (next_highest c p < 2 ^ 64)
next_highest_fresh c p f h = let e = next_highest_lem c p f h in (omega arith, omega arith)

-- Where node ids fit 8 bits and restart counters 16, equal proposal numbers of two configurations,
-- made from numbers below 2 ^ 64 - 2 ^ 24, have the same node id, the same restart counter, and were
-- made from numbers of the same count.
pub next_highest_injective :
    (c c' : ReplicatedConfig) (p p' : ℕ)
    → Fits c
    → Fits c'
    → p < 2 ^ 64 - 2 ^ 24
    → p' < 2 ^ 64 - 2 ^ 24
    → next_highest c p ≡ next_highest c' p'
    → (c.node_id ≡ c'.node_id)
      × (c.restart_counter ≡ c'.restart_counter)
      × (p / 2 ^ 24 ≡ p' / 2 ^ 24)
next_highest_injective c c' p p' f f' h h' same =
    let e = next_highest_lem c p f h in
    let e' = next_highest_lem c' p' f' h' in (omega arith, omega arith, omega arith)

-- In a cell of fewer than 2 ^ 32 members, two sets that each have the size of a majority have more
-- members together than the cell has.
pub min_majority_overlap :
    (c : ReplicatedConfig) (k l : ℕ)
    → c.num_nodes < u32
    → min_majority c ≤ k
    → min_majority c ≤ l
    → c.num_nodes < k + l
unfolding min_majority
min_majority_overlap c k l h p q = omega arith

-- How many of the first `k` nodes have voted.
abbrev pub count_votes : (ℕ → Bool) → ℕ → ℕ
count_votes votes zero = 0
count_votes votes (suc k) =
    let before = count_votes votes k in if votes k then suc before else before

count_votes_overlap :
    (p q : ℕ → Bool) (k : ℕ)
    → k < count_votes p k + count_votes q k
    → (i : ℕ) × (i < k) × (p i ≡ true) × (q i ≡ true)
count_votes_overlap p q zero h = absurd (omega arith)
count_votes_overlap p q (suc k) h = elim (Bool-cases (p k)) [
  | inl both ↦ elim (Bool-cases (q k)) [
    | inl yes' ↦ (k, omega arith, both, yes')
    | inr no' ↦
        let (i, j, a, b) = count_votes_overlap p q k (ground arith) in (i, omega arith, a, b)
  ]
  | inr no' ↦ let (i, j, a, b) = count_votes_overlap p q k (ground arith) in (i, omega arith, a, b)
]

-- In a cell of fewer than 2 ^ 32 members, two votes that each have a majority share a member that
-- voted in both.
pub min_majority-meet :
    (c : ReplicatedConfig) (p q : ℕ → Bool)
    → c.num_nodes < u32
    → min_majority c ≤ count_votes p c.num_nodes
    → min_majority c ≤ count_votes q c.num_nodes
    → (i : ℕ) × (i < c.num_nodes) × (p i ≡ true) × (q i ≡ true)
min_majority-meet c p q small h k =
    count_votes_overlap p q c.num_nodes
      (min_majority_overlap c (count_votes p c.num_nodes) (count_votes q c.num_nodes) small h k)
