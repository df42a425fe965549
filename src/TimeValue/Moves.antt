-- ===== src/TimeValue/Moves.antt =====
-- Sums, differences and steps of a second take each other back, and the comparisons agree.
use network_etc.Base.{ℕ, ◌<◌, ◌≡◌, ◌⊎◌, true, false, not, arith, u64}
use network_etc.TimeValue.{
  TimeValue, add, add_sec, sub, sub_sec, post_increment, pre_increment, post_decrement,
  pre_decrement, lt, gt, ge, le, eq, ne, set, assign_sec, nanos, sec,
}

-- A sum of two times less one of them is the other, also where the sum overflowed; and a step of one
-- second back takes back a step forth, in either form of the operators.
pub sub-add :
    (t rhs : TimeValue)
    → t.nano_sec < u64
    → rhs.nano_sec < u64
    → (sub (add t rhs) rhs ≡ t)
      × ((pre_decrement (pre_increment t).0).0 ≡ t)
      × ((post_decrement (post_increment t).0).0 ≡ t)
      × ((post_increment t).1 ≡ t)
unfolding sub add pre_decrement pre_increment post_decrement post_increment add_sec sub_sec
sub-add t rhs h k = ground arith

-- Of two times within the type just one comparison of `<`, `==` and `>` holds, and the other three
-- are their negations.
pub lt_total :
    (a b : TimeValue)
    → a.nano_sec < u64
    → b.nano_sec < u64
    → (((lt a b ≡ true) × (eq a b ≡ false) × (gt a b ≡ false))
        ⊎ (((lt a b ≡ false) × (eq a b ≡ true) × (gt a b ≡ false))
            ⊎ ((lt a b ≡ false) × (eq a b ≡ false) × (gt a b ≡ true))))
      × (ge a b ≡ not (lt a b))
      × (le a b ≡ not (gt a b))
      × (ne a b ≡ not (eq a b))
unfolding lt gt ge le eq ne
lt_total a b h k = ground arith

-- The operators on seconds are the operators on the time that is set from as many seconds.
pub add_sec-set :
    (t : TimeValue) (k : ℕ)
    → (add_sec t k ≡ add t (set k sec))
      × (sub_sec t k ≡ sub t (set k sec))
      × (assign_sec t k ≡ set k sec)
unfolding add_sec add sub_sec sub assign_sec set nanos
add_sec-set t k = ground arith
