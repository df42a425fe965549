-- ===== src/Text.antt =====
-- netfram/common.cpp: reading numbers out of counted strings, and the `snreadf` scanner.
-- Decimal printing stands for what the callers use of libc's `snprintf` (%u, %llu, %c).
pub mod Decimal
pub mod Scan
use network_etc.Base.{
  ℕ, zero, suc, ◌+◌, ◌-◌, ◌*◌, ◌/◌, ◌%◌, Bool, ◌&&◌, [], ◌∷◌, Bytes, ltb, leb, ◌==◌, if◌then◌else◌,
  u64, codes, ◌≡◌, refl,
}

abbrev pub is_digit : ℕ → Bool
is_digit c = leb b'0' c && leb c b'9'

-- The loop of `strntouint64`: `i` bytes are read, and `n` is what they spell, modulo 2 ^ 64.
unfoldable pub digits_loop : Bytes → ℕ → ℕ → ℕ × ℕ
digits_loop [] i n = (n, i)
digits_loop (c ∷ s) i n =
    let rest = digits_loop s (i + 1) ((n * 10 + (c - b'0')) % u64) in
    if is_digit c then rest else (n, i)

-- The number, and `*nread`.
unfoldable pub strntouint64 : Bytes → ℕ × ℕ
strntouint64 [] = (0, 0)
strntouint64 (c ∷ s) = digits_loop (c ∷ s) 0 0

-- The 64-bit pattern of the signed number, and `*nread`. A lone sign reads nothing.
negate64 : ℕ → ℕ
negate64 n = (u64 - n) % u64

signed_result : ℕ × ℕ → ℕ × ℕ
unfolding negate64
signed_result (n, i) = if i == 1 then (0, 0) else (negate64 n, i)

unfoldable pub strntoint64 : Bytes → ℕ × ℕ
unfolding signed_result
strntoint64 [] = (0, 0)
strntoint64 (c ∷ s) =
    if c == b'-' then signed_result (digits_loop s 1 0) else digits_loop (c ∷ s) 0 0

-- `%u` and `%llu` of `snprintf`: the last digit first, in front of `out`.
pub digits : ℕ → ℕ → Bytes → Bytes
digits zero n out = out
digits (suc fuel) n out =
    let more = digits fuel (n / 10) ((b'0' + n % 10) ∷ out) in
    if ltb n 10 then (b'0' + n) ∷ out else more

unfoldable pub decimal : ℕ → Bytes
unfolding digits
decimal n = digits (suc n) n []

decimal_runs : decimal 18446744073709551615 ≡ codes "18446744073709551615"
unfolding decimal
decimal_runs = refl

strntouint64_runs : strntouint64 (codes "120:7") ≡ (120, 3)
unfolding strntouint64 digits_loop
strntouint64_runs = refl
