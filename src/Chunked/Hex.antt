-- ===== src/Chunked/Hex.antt =====
-- Numbers in hexadecimal notation, and `Hex2Int` of them.
use network_etc.Base.{
  ℕ, zero, suc, ◌+◌, ◌*◌, ◌^◌, ◌≡◌, ◌∙◌, ◌≤◌, ◌<◌, refl, ap, Bool, true, false, some, List, [], ◌∷◌,
  Bytes, All, length, ltb, ◌==◌, if◌then◌else◌, arith,
}
use network_etc.Chunked.{hex_value, hex2int}
use network_etc.Chunked.Steps.{IsPlain}

-- A digit, and whether it is written as a capital letter from 10 on.
pub record Digit : Type 0 where
  pub value : ℕ
  pub capital : Bool

abbrev pub IsDigit : Digit → Type 0
IsDigit d = d.value < 16

abbrev pub spell : Digit → ℕ
spell d = if ltb d.value 10 then 48 + d.value else if d.capital then 55 + d.value else 87 + d.value

abbrev pub spelled : List Digit → Bytes
spelled [] = []
spelled (d ∷ ds) = spell d ∷ spelled ds

-- Each digit counts for its power of 16.
abbrev pub number : List Digit → ℕ
number [] = 0
number (d ∷ ds) = d.value * 16 ^ length ds + number ds

hex_value-spell : (d : Digit) → IsDigit d → hex_value (spell d) ≡ some d.value
hex_value-spell d h = ground arith

spell-IsPlain : (d : Digit) → IsDigit d → IsPlain (spell d)
spell-IsPlain d h = record {
  no_zero = λ e. ground (arith, e);
  no_cr = λ e. ground (arith, e);
  no_lf = λ e. ground (arith, e);
}

pub spelled-IsPlain : (ds : List Digit) → All IsDigit ds → All IsPlain (spelled ds)
spelled-IsPlain [] h = tt
spelled-IsPlain (d ∷ ds) (h, hs) = (spell-IsPlain d h, spelled-IsPlain ds hs)

power_suc : (k : ℕ) → 16 ^ suc k ≡ 16 * 16 ^ k
power_suc k = omega arith

power_above : (k : ℕ) → (q : ℕ) × (16 ^ k ≡ q + 1)
power_above zero = (0, refl)
power_above (suc k) = let (q, e) = power_above k in (q * 16 + 15, omega (arith, e))

scaled : (x k : ℕ) → x ≤ x * 16 ^ k
scaled x k = let (q, e) = power_above k in rw e (omega arith)

pub hex2int-spelled :
    (ds : List Digit) (n : ℕ)
    → All IsDigit ds
    → n * 16 ^ length ds + number ds < 2 ^ 31
    → hex2int n (spelled ds) ≡ some (n * 16 ^ length ds + number ds)
unfolding hex2int
hex2int-spelled [] n h small = ap (λ k. some k) (omega arith)
hex2int-spelled (d ∷ ds) n (h, hs) small =
    let next = n * 16 + d.value in
    let same : next * 16 ^ length ds + number ds
        ≡ n * 16 ^ suc (length ds) + (d.value * 16 ^ length ds + number ds) =
      rw (power_suc (length ds)) (omega arith) in
    let rest = hex2int-spelled ds next hs (omega (arith, same)) in
    let low : next ≤ next * 16 ^ length ds = scaled next (length ds) in
    let fits : ltb next (2 ^ 31) ≡ true = ground (arith, low, same) in
    let there : (spell d == 0) ≡ false = ground arith in
    rw (there, hex_value-spell d h) (rw fits (rest ∙ ap (λ k. some k) same))
