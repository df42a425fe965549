-- ===== src/Chunked/Steps.antt =====
-- What the parts of a round of `ParseChunked` find in a well-formed chunk.
use network_etc.Base.{
  ℕ, zero, suc, ◌+◌, ◌≡◌, ◌≢◌, ◌≤◌, ◌<◌, refl, ap, some, [], ◌∷◌, ◌++◌, Bytes, All, length, arith,
  append_assoc, length-append,
}
use network_etc.Imf
use network_etc.Imf.{skip_ends, skip_crlf, seek_ends, seek_crlf}

pub at-append : (xs ys : Bytes) → Imf.at (xs ++ ys) (length xs) ≡ Imf.at ys 0
at-append [] ys = refl
at-append (x ∷ xs) ys = at-append xs ys

pub at_behind : (xs ys : Bytes) (i : ℕ) → Imf.at (xs ++ ys) (length xs + i) ≡ Imf.at ys i
at_behind [] ys i = ap (λ j. Imf.at ys j) (omega arith)
at_behind (x ∷ xs) ys i =
    let e : suc (length xs) + i ≡ suc (length xs + i) = omega arith in rw e (at_behind xs ys i)

pub set-append : (xs ys : Bytes) (y v : ℕ) → Imf.set (xs ++ (y ∷ ys)) (length xs) v ≡ xs ++ (v ∷ ys)
set-append [] ys y v = refl
set-append (x ∷ xs) ys y v = ap (λ l. x ∷ l) (set-append xs ys y v)

-- A byte of a size line.
pub record IsPlain (c : ℕ) : Type 0 where
  pub no_zero : c ≢ 0
  pub no_cr : c ≢ 13
  pub no_lf : c ≢ 10

pub skip_crlf-stays :
    (memory : Bytes) (p len c : ℕ)
    → Imf.at memory p ≡ c
    → IsPlain c
    → 2 ≤ len
    → skip_crlf memory p len ≡ some p
unfolding skip_crlf skip_ends
skip_crlf-stays memory p zero c e h l = absurd (omega arith)
skip_crlf-stays memory p (suc len) c e h l = ground (arith, h.no_zero, h.no_cr, h.no_lf)

-- Over a line end.
pub skip_crlf-skips :
    (memory : Bytes) (p len c : ℕ)
    → Imf.at memory p ≡ 13
    → Imf.at memory (p + 1) ≡ 10
    → Imf.at memory (p + 2) ≡ c
    → IsPlain c
    → 3 ≤ len
    → skip_crlf memory p len ≡ some (p + 2)
unfolding skip_crlf skip_ends
skip_crlf-skips memory p zero c a b e h l = absurd (omega arith)
skip_crlf-skips memory p (suc zero) c a b e h l = absurd (omega arith)
skip_crlf-skips memory p (suc (suc zero)) c a b e h l = absurd (omega arith)
skip_crlf-skips memory p (suc (suc (suc len))) c a b e h l =
    let two : p + 1 + 1 ≡ p + 2 = omega arith in ground (arith, two, h.no_zero, h.no_cr, h.no_lf)

seek_ends-line :
    (s : Bytes) (front tail : Bytes) (len : ℕ)
    → All IsPlain s
    → length s < len
    → seek_ends (front ++ (s ++ (13 ∷ 10 ∷ tail))) (length front) len
      ≡ some (length front + length s)
unfolding seek_ends
seek_ends-line s front tail zero h l = absurd (omega arith)
seek_ends-line [] front tail (suc len) h l =
    let here = at-append front (13 ∷ 10 ∷ tail) in ground (arith, here)
seek_ends-line (c ∷ []) front tail (suc len) (h, _) l =
    let here = at-append front (c ∷ 13 ∷ 10 ∷ tail) in
    let next = at_behind front (c ∷ 13 ∷ 10 ∷ tail) 1 in
    let rest = seek_ends-line [] (front ++ (c ∷ [])) tail len tt (omega arith) in
    let e : (front ++ (c ∷ [])) ++ (13 ∷ 10 ∷ tail) ≡ front ++ (c ∷ 13 ∷ 10 ∷ tail) =
      append_assoc front (c ∷ []) (13 ∷ 10 ∷ tail) in
    let n = length-append front (c ∷ []) in
    ground (arith, here, next, h.no_zero, h.no_cr, rw (e, n) at rest)
seek_ends-line (c ∷ d ∷ s) front tail (suc len) (h, (k, hs)) l =
    let text = c ∷ d ∷ (s ++ (13 ∷ 10 ∷ tail)) in
    let here = at-append front text in
    let next = at_behind front text 1 in
    let rest = seek_ends-line (d ∷ s) (front ++ (c ∷ [])) tail len (k, hs) (omega arith) in
    let e : (front ++ (c ∷ [])) ++ (d ∷ (s ++ (13 ∷ 10 ∷ tail))) ≡ front ++ text =
      append_assoc front (c ∷ []) (d ∷ (s ++ (13 ∷ 10 ∷ tail))) in
    let n = length-append front (c ∷ []) in
    ground (arith, here, next, h.no_zero, h.no_cr, k.no_lf, rw (e, n) at rest)

pub seek_crlf-line :
    (s : Bytes) (front tail : Bytes) (len : ℕ)
    → All IsPlain s
    → length s < len
    → 2 ≤ len
    → seek_crlf (front ++ (s ++ (13 ∷ 10 ∷ tail))) (length front) len
      ≡ some (length front + length s)
unfolding seek_crlf
seek_crlf-line s front tail len h l two = ground (arith, seek_ends-line s front tail len h l)
