-- ===== src/TimeValue/Units.antt =====
-- A time that was set in a unit is read back in that unit.
use network_etc.Base.{ℕ, ◌*◌, ◌^◌, ◌<◌, ◌≡◌, arith}
use network_etc.TimeValue.{
  TimeUnit, nsec, usec, msec, sec, min, hour, day, week, nanos, negate, set, get,
}

get-set_pos : (unit : TimeUnit) (k : ℕ) → k * nanos unit < 2 ^ 63 → get unit (set k unit) ≡ k
unfolding get set nanos
get-set_pos nsec k h = ground arith
get-set_pos usec k h = ground arith
get-set_pos msec k h = ground arith
get-set_pos sec k h = ground arith
get-set_pos min k h = ground arith
get-set_pos hour k h = ground arith
get-set_pos day k h = ground arith
get-set_pos week k h = ground arith

get-set_neg :
    (unit : TimeUnit) (k : ℕ) → k * nanos unit < 2 ^ 63 → get unit (set (negate k) unit) ≡ negate k
unfolding get set nanos
get-set_neg nsec k h = ground arith
get-set_neg usec k h = ground arith
get-set_neg msec k h = ground arith
get-set_neg sec k h = ground arith
get-set_neg min k h = ground arith
get-set_neg hour k h = ground arith
get-set_neg day k h = ground arith
get-set_neg week k h = ground arith

-- A count `k` of a unit whose nanoseconds fit an `int64_t` is read back as it was set, and so is its
-- negative: the setters and the getters of the eight units agree.
pub get-set :
    (unit : TimeUnit) (k : ℕ)
    → k * nanos unit < 2 ^ 63
    → (get unit (set k unit) ≡ k) × (get unit (set (negate k) unit) ≡ negate k)
get-set unit k h = (get-set_pos unit k h, get-set_neg unit k h)
