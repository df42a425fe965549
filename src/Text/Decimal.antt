-- ===== src/Text/Decimal.antt =====
-- Reading back a printed number: `strntouint64` after `%u` or `%llu`.
use native.Mathlib.Nat.{pow-suc}
use network_etc.Base.{
  ℕ, zero, suc, ◌+◌, ◌*◌, ◌/◌, ◌%◌, ◌^◌, ◌≤◌, ◌<◌, ◌≡◌, refl, false, [], ◌∷◌, ◌++◌, Bytes, length,
  ltb, if◌then◌else◌, u64, arith,
}
use network_etc.Text.{is_digit, digits_loop, strntouint64, digits, decimal}

-- The text does not go on with a digit.
abbrev pub Stops : Bytes → Type 0
Stops [] = Unit
Stops (c ∷ s) = is_digit c ≡ false

num_digits : ℕ → ℕ → ℕ
num_digits zero n = 0
num_digits (suc fuel) n = if ltb n 10 then 1 else suc (num_digits fuel (n / 10))

-- What is printed in front of `out` does not depend on `out`.
digits-append :
    (fuel n : ℕ) (out rest : Bytes) → digits fuel n out ++ rest ≡ digits fuel n (out ++ rest)
unfolding digits
digits-append zero n out rest = refl
digits-append (suc fuel) n out rest =
    ground (arith, digits-append fuel (n / 10) ((b'0' + n % 10) ∷ out) rest)

length-digits :
    (fuel n : ℕ) (out : Bytes) → length (digits fuel n out) ≡ num_digits fuel n + length out
unfolding digits num_digits
length-digits zero n out = omega arith
length-digits (suc fuel) n out = ground (arith, length-digits fuel (n / 10) ((b'0' + n % 10) ∷ out))

-- A digit is read.
digits_loop_digit :
    (d i n : ℕ) (s : Bytes)
    → d < 10
    → digits_loop ((b'0' + d) ∷ s) i n ≡ digits_loop s (i + 1) ((n * 10 + d) % u64)
unfolding digits_loop
digits_loop_digit d i n s h = ground arith

digits_loop-digits :
    (fuel n : ℕ) (out : Bytes)
    → n < fuel
    → n < u64
    → digits_loop (digits fuel n out) 0 0 ≡ digits_loop out (num_digits fuel n) n
unfolding digits num_digits
digits_loop-digits zero n out h k = absurd (omega arith)
digits_loop-digits (suc fuel) n out h k = ground (
  arith,
  digits_loop_digit n 0 0 out,
  digits_loop_digit (n % 10) (num_digits fuel (n / 10)) (n / 10) out,
  digits_loop-digits fuel (n / 10) ((b'0' + n % 10) ∷ out),
)

-- At a byte that is no digit, and at the end, the loop stops.
digits_loop_stop : (s : Bytes) (i n : ℕ) → Stops s → digits_loop s i n ≡ (n, i)
unfolding digits_loop
digits_loop_stop [] i n h = refl
digits_loop_stop (c ∷ s) i n h = ground arith

pub length-decimal_pos : (n : ℕ) → 0 < length (decimal n)
unfolding decimal num_digits
length-decimal_pos n = ground (arith, length-digits (suc n) n [])

strntouint64-loop : (s : Bytes) → strntouint64 s ≡ digits_loop s 0 0
unfolding strntouint64 digits_loop
strntouint64-loop [] = refl
strntouint64-loop (c ∷ s) = refl

-- A printed number below 2 ^ 64 that no digit follows is read back, to its end and no further.
pub strntouint64-decimal :
    (n : ℕ) (rest : Bytes)
    → n < u64
    → Stops rest
    → strntouint64 (decimal n ++ rest) ≡ (n, length (decimal n))
unfolding decimal
strntouint64-decimal n rest h k = ground (
  arith,
  strntouint64-loop (digits (suc n) n [] ++ rest),
  digits-append (suc n) n [] rest,
  digits_loop-digits (suc n) n rest,
  digits_loop_stop rest (num_digits (suc n) n) n k,
  length-digits (suc n) n [],
)

num_digits_le : (fuel k n : ℕ) → n < 10 ^ suc k → num_digits fuel n ≤ suc k
unfolding num_digits
num_digits_le zero k n h = omega arith
num_digits_le (suc fuel) zero n h = ground arith
num_digits_le (suc fuel) (suc k) n h =
    ground (arith, num_digits_le fuel k (n / 10) (omega (arith, pow-suc 10 (suc k))))

-- A number below 10 ^ (k + 1) prints in at most k + 1 digits.
pub length-decimal_le : (k n : ℕ) → n < 10 ^ suc k → length (decimal n) ≤ suc k
unfolding decimal
length-decimal_le k n h = omega (arith, length-digits (suc n) n [], num_digits_le (suc n) k n h)
