-- ===== src/TimeValue.antt =====
-- netfram/TimeValue.h and netfram/TimeValue.cpp: a time in nanoseconds. An `int64_t` is its bits, a
-- number below 2 ^ 64; a product that overflows, which C++ leaves open, wraps around. The constructor
-- from a `double` is left out.
pub mod Units
pub mod Moves
use network_etc.Base.{
  ℕ, ◌+◌, ◌-◌, ◌*◌, ◌/◌, ◌%◌, ◌^◌, Bool, true, false, not, ltb, ◌==◌, if◌then◌else◌, u64,
}

-- TIME_NSEC to TIME_WEEK
pub data TimeUnit : Type 0 where
  nsec usec msec sec min hour day week : TimeUnit

unfoldable pub nanos : TimeUnit → ℕ
nanos nsec = 1
nanos usec = 1000
nanos msec = 1000 * 1000
nanos sec = 1000 * 1000 * 1000
nanos min = 1000 * 1000 * 1000 * 60
nanos hour = 1000 * 1000 * 1000 * 60 * 60
nanos day = 1000 * 1000 * 1000 * 60 * 60 * 24
nanos week = 1000 * 1000 * 1000 * 60 * 60 * 24 * 7

pub record TimeValue : Type 0 where
  pub nano_sec : ℕ

-- The bits of `-k`.
abbrev pub negate : ℕ → ℕ
negate k = (u64 - k) % u64

-- Division of an `int64_t` by a positive constant, towards 0.
abbrev pub div64 : ℕ → ℕ → ℕ
div64 a k = if ltb a (2 ^ 63) then a / k else negate (negate a / k)

-- `ZERO` and `MAXTIME`
abbrev pub zero_time : TimeValue
zero_time = record { nano_sec = 0 }

abbrev pub max_time : TimeValue
max_time = record { nano_sec = 2 ^ 63 - 1 }

-- `Set`, the constructor, and the setters that are named as the units.
pub set : ℕ → TimeUnit → TimeValue
unfolding nanos
set v unit = record { nano_sec = v * nanos unit % u64 }

-- The getters that are named as the units.
pub get : TimeUnit → TimeValue → ℕ
unfolding nanos
get nsec t = t.nano_sec
get usec t = div64 t.nano_sec (nanos usec)
get msec t = div64 t.nano_sec (nanos msec)
get sec t = div64 t.nano_sec (nanos sec)
get min t = div64 t.nano_sec (nanos min)
get hour t = div64 t.nano_sec (nanos hour)
get day t = div64 t.nano_sec (nanos day)
get week t = div64 t.nano_sec (nanos week)

-- `operator +=` and `operator -=`, of a time and of seconds.
pub add : TimeValue → TimeValue → TimeValue
add t rhs = record { nano_sec = (t.nano_sec + rhs.nano_sec) % u64 }

pub add_sec : TimeValue → ℕ → TimeValue
add_sec t rhs = record { nano_sec = (t.nano_sec + rhs * 1000000000 % u64) % u64 }

pub sub : TimeValue → TimeValue → TimeValue
sub t rhs = record { nano_sec = (t.nano_sec + u64 - rhs.nano_sec) % u64 }

pub sub_sec : TimeValue → ℕ → TimeValue
sub_sec t rhs = record { nano_sec = (t.nano_sec + u64 - rhs * 1000000000 % u64) % u64 }

-- `operator =` of seconds.
pub assign_sec : TimeValue → ℕ → TimeValue
assign_sec t rhs = record { nano_sec = rhs * 1000000000 % u64 }

-- `++` and `--` behind the time: the new time, and the old one that is returned; and before it.
pub post_increment : TimeValue → TimeValue × TimeValue
post_increment t = (add_sec t 1, t)

pub pre_increment : TimeValue → TimeValue × TimeValue
pre_increment t = let t' = add_sec t 1 in (t', t')

pub post_decrement : TimeValue → TimeValue × TimeValue
post_decrement t = (sub_sec t 1, t)

pub pre_decrement : TimeValue → TimeValue × TimeValue
pre_decrement t = let t' = sub_sec t 1 in (t', t')

-- The order of `int64_t` on its bits, and the six comparisons.
abbrev pub biased : TimeValue → ℕ
biased t = (t.nano_sec + 2 ^ 63) % u64

pub lt : TimeValue → TimeValue → Bool
lt a b = ltb (biased a) (biased b)

pub gt : TimeValue → TimeValue → Bool
gt a b = ltb (biased b) (biased a)

pub ge : TimeValue → TimeValue → Bool
ge a b = not (ltb (biased a) (biased b))

pub le : TimeValue → TimeValue → Bool
le a b = not (ltb (biased b) (biased a))

pub eq : TimeValue → TimeValue → Bool
eq a b = a.nano_sec == b.nano_sec

pub ne : TimeValue → TimeValue → Bool
ne a b = not (a.nano_sec == b.nano_sec)
