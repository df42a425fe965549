-- ===== src/Config/File/Lines/Chunks.antt =====
-- What `fgets` delivers and what the buffer holds, for a file of short lines (PL/Config.cpp).
use native.Mathlib.Nat.{sub-zero}
use network_etc.Base.{
  ℕ, zero, suc, ◌+◌, ◌-◌, ◌≤◌, ◌<◌, ◌≡◌, ◌≢◌, refl, [], ◌∷◌, ◌++◌, append_assoc, Bytes, length,
  take, drop, All, arith,
}
use network_etc.Config.File.{fgets_lines, fill}

-- A line that fits is delivered whole, with its newline.
pub fgets_lines-line :
    (room : ℕ) (line rest : Bytes)
    → All (λ c. c ≢ 10) line
    → length line < room
    → fgets_lines room (line ++ (10 ∷ rest)) ≡ (line ++ 10 ∷ []) ∷ fgets_lines 1022 rest
unfolding fgets_lines
fgets_lines-line room [] rest h k = refl
fgets_lines-line room (c ∷ line) rest (hc, h) k =
    ground (arith, fgets_lines-line (room - 1) line rest h)

take_through :
    (n : ℕ) (xs ys : Bytes) → length xs ≤ n → take n (xs ++ ys) ≡ xs ++ take (n - length xs) ys
take_through zero [] ys h = refl
take_through (suc n) [] ys h = rw sub-zero
take_through zero (x ∷ xs) ys h = absurd (omega arith)
take_through (suc n) (x ∷ xs) ys h = ground (arith, take_through n xs ys)

-- What the buffer holds behind the line.
pub left_behind : Bytes → Bytes → Bytes
left_behind line buffer = take (1023 - length line) (0 ∷ drop (length line + 1) buffer) ++ 0 ∷ []

pub fill-line :
    (line buffer : Bytes) → length line < 1023 → fill line buffer ≡ line ++ left_behind line buffer
unfolding fill left_behind
fill-line line buffer h =
    rw (take_through 1023 line (0 ∷ drop (length line + 1) buffer) (omega arith))
      (append_assoc line _ _)

pub left_behind-nul :
    (line buffer : Bytes) → length line < 1023 → (z : Bytes) × (left_behind line buffer ≡ 0 ∷ z)
unfolding left_behind
left_behind-nul line buffer h =
    let e : 1023 - length line ≡ suc (1022 - length line) = omega arith in rw e (_, refl)
