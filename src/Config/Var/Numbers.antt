-- ===== src/Config/Var/Numbers.antt =====
-- `ConfigVar::GetIntValue` of PL/Config.cpp on printed numbers, plain or with a unit behind.
use network_etc.Base.{
  ℕ, ◌*◌, ◌^◌, ◌<◌, ◌≡◌, refl, false, [], ◌∷◌, ◌++◌, append_assoc, Bytes, length, length-append,
  ◌==◌, if◌then◌else◌, u64, arith,
}
use network_etc.Text.{is_digit, strntoint64, strntouint64, digits_loop, decimal}
use network_etc.Text.Decimal.{Stops, strntouint64-decimal, length-decimal_pos}
use network_etc.Config.Var.{new, append, last_before_nul, get_int_value}

-- A number that is read without a sign is read by the signed reader too.
pub strntoint64-unsigned :
    (s : Bytes) (n i : ℕ) → strntouint64 s ≡ (n, i) → 0 < i → strntoint64 s ≡ (n, i)
unfolding strntoint64 strntouint64 digits_loop
strntoint64-unsigned [] n i e h = ground arith
strntoint64-unsigned (c ∷ s) n i e h = ground arith

last_before_nul-append : (s : Bytes) (c : ℕ) → last_before_nul (s ++ (c ∷ 0 ∷ [])) ≡ c
unfolding last_before_nul
last_before_nul-append [] c = refl
last_before_nul-append (a ∷ []) c = refl
last_before_nul-append (a ∷ b ∷ []) c = refl
last_before_nul-append (a ∷ b ∷ d ∷ s) c = last_before_nul-append (b ∷ d ∷ s) c

-- The factor that the byte behind the number stands for.
abbrev pub unit : ℕ → ℕ
unit c =
    if c == b'K' then 1000 else if c == b'M' then 1000000 else if c == b'G' then 1000000000 else 1

decimal_read :
    (n : ℕ) (rest : Bytes)
    → n < u64
    → Stops rest
    → strntoint64 (decimal n ++ rest) ≡ (n, length (decimal n))
decimal_read n rest h k =
    strntoint64-unsigned (decimal n ++ rest) n (length (decimal n))
      (strntouint64-decimal n rest h k) (length-decimal_pos n)

-- A printed number with one byte behind it that is no digit is read as the number times 1000 for
-- K, a million for M and a thousand millions for G, where an `int` holds that; any other byte
-- counts for nothing.
pub get_int_value-unit :
    (name : Bytes) (n c : ℕ)
    → is_digit c ≡ false
    → n * unit c < 2 ^ 31
    → get_int_value (append (new name) (decimal n ++ c ∷ [])) ≡ n * unit c
unfolding get_int_value append new
get_int_value-unit name n c d h =
    let text : (decimal n ++ c ∷ []) ++ 0 ∷ [] ≡ decimal n ++ (c ∷ 0 ∷ []) =
      append_assoc (decimal n) (c ∷ []) (0 ∷ []) in
    let small : n < 2 ^ 31 = ground arith in
    rw text (
      rw (decimal_read n (c ∷ 0 ∷ []) (omega arith) d) (
        rw (last_before_nul-append (decimal n) c)
          (ground (arith, length-append (decimal n) (c ∷ 0 ∷ [])))))

-- A printed number is read back.
pub get_int_value-decimal :
    (name : Bytes) (n : ℕ) → n < 2 ^ 31 → get_int_value (append (new name) (decimal n)) ≡ n
unfolding get_int_value append new
get_int_value-decimal name n h =
    rw (decimal_read n (0 ∷ []) (omega arith) refl)
      (ground (arith, length-append (decimal n) (0 ∷ [])))
