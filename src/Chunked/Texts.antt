-- ===== src/Chunked/Texts.antt =====
-- The text of a well-formed chunked body, and where its parts stand in memory.
use mathlib.Core.Path.{subst}
use network_etc.Base.{
  ◌*◌, ◌^◌, suc, ℕ, ◌+◌, ◌-◌, ◌≡◌, ◌∙◌, ◌≤◌, ◌<◌, refl, sym, ap, some, List, [], ◌∷◌, ◌++◌, Bytes,
  All, length, take, drop, arith, append_assoc, length-append, drop-append_length,
  take-append_length,
}
use network_etc.Imf
use network_etc.Imf.{skip_crlf, seek_crlf}
use network_etc.Chunked.{Chunk, hex2int}
use network_etc.Chunked.Steps.{IsPlain, set-append}
use network_etc.Chunked.Hex.{Digit, IsDigit, spelled, number, spelled-IsPlain, hex2int-spelled}

-- A chunk as it is sent: the line with its size, and its bytes.
pub record Part : Type 0 where
  pub line : Bytes
  pub body : Bytes

-- The line is the number of the bytes in hexadecimal notation, in fewer than 10 digits, and the number
-- is neither 0 nor too large for an `int`.
pub record IsPart (p : Part) : Type 0 where
  pub digits : List Digit
  pub valid : All IsDigit digits
  pub written : p.line ≡ spelled digits
  pub count : number digits ≡ length p.body
  pub short : length p.line < 10
  pub full : 0 < length p.body
  pub small : length p.body < 2 ^ 31

pub line-IsPlain : (p : Part) → IsPart p → All IsPlain p.line
line-IsPlain p h = subst (λ l. All IsPlain l) (sym h.written) (spelled-IsPlain h.digits h.valid)

pub hex2int-line : (p : Part) → IsPart p → hex2int 0 p.line ≡ some (length p.body)
hex2int-line p h =
    let value : 0 * 16 ^ length h.digits + number h.digits ≡ length p.body =
      omega (arith, h.count) in
    ap (λ l. hex2int 0 l) h.written
    ∙ hex2int-spelled h.digits 0 h.valid (omega (arith, value, h.small))
    ∙ ap (λ n. some n) value

-- A chunk in front of the bytes `tail`, as it comes and as it is left.
abbrev pub part_text : Part → Bytes → Bytes
part_text p tail = p.line ++ (13 ∷ 10 ∷ (p.body ++ tail))

abbrev pub texts : List Part → Bytes → Bytes
texts [] tail = 48 ∷ 13 ∷ 10 ∷ tail
texts (p ∷ ps) tail = part_text p (13 ∷ 10 ∷ texts ps tail)

abbrev pub cleared : List Part → Bytes → Bytes
cleared [] tail = 48 ∷ 13 ∷ 10 ∷ tail
cleared (p ∷ ps) tail = part_text p (0 ∷ 10 ∷ cleared ps tail)

-- Where the chunks from the place `pos` on lie, and where the last line ends.
abbrev pub places : ℕ → List Part → List Chunk
places pos [] = []
places pos (p ∷ ps) =
    record { start = pos + length p.line + 2; length = length p.body }
    ∷ places (pos + length p.line + 2 + length p.body + 2) ps

abbrev pub end_of : ℕ → List Part → ℕ
end_of pos [] = pos + 3
end_of pos (p ∷ ps) = end_of (pos + length p.line + 2 + length p.body + 2) ps

abbrev pub contents_of : Bytes → List Chunk → List Bytes
contents_of memory [] = []
contents_of memory (c ∷ cs) = take c.length (drop c.start memory) ∷ contents_of memory cs

abbrev pub bodies : List Part → List Bytes
bodies [] = []
bodies (p ∷ ps) = p.body ∷ bodies ps

pub part-split :
    (front tail : Bytes) (p : Part) → front ++ part_text p tail ≡ (front ++ part_text p []) ++ tail
part-split front tail p = sym (
    append_assoc front (part_text p []) tail
    ∙ ap (λ l. front ++ l)
        (append_assoc p.line (13 ∷ 10 ∷ (p.body ++ [])) tail
          ∙ ap (λ l. p.line ++ (13 ∷ 10 ∷ l)) (append_assoc p.body [] tail)))

pub length-part :
    (front : Bytes) (p : Part)
    → length (front ++ part_text p []) ≡ length front + length p.line + 2 + length p.body
length-part front p = omega (
  arith,
  length-append front (part_text p []),
  length-append p.line (13 ∷ 10 ∷ (p.body ++ [])),
  length-append p.body [],
)

pub line-part :
    (front tail : Bytes) (p : Part)
    → take
        (length front + length p.line - length front)
        (drop (length front) (front ++ part_text p tail))
      ≡ p.line
line-part front tail p =
    let n : length front + length p.line - length front ≡ length p.line = omega arith in
    rw (n, drop-append_length front (part_text p tail))
      (take-append_length p.line (13 ∷ 10 ∷ (p.body ++ tail)))

pub body-part :
    (front tail : Bytes) (p : Part)
    → take (length p.body) (drop (length front + length p.line + 2) (front ++ part_text p tail))
      ≡ p.body
body-part front tail p =
    let head = p.line ++ (13 ∷ 10 ∷ []) in
    let n : length front + length p.line + 2 ≡ length (front ++ head) =
      omega (arith, length-append front head, length-append p.line (13 ∷ 10 ∷ [])) in
    let split : front ++ part_text p tail ≡ (front ++ head) ++ (p.body ++ tail) = sym (
      append_assoc front head (p.body ++ tail)
      ∙ ap (λ l. front ++ l) (append_assoc p.line (13 ∷ 10 ∷ []) (p.body ++ tail))) in
    rw (n, split, drop-append_length (front ++ head) (p.body ++ tail))
      (take-append_length p.body tail)

pub set-part :
    (front tail : Bytes) (p : Part)
    → Imf.set
        (front ++ part_text p (13 ∷ 10 ∷ tail))
        (length front + length p.line + 2 + length p.body)
        0
      ≡ front ++ part_text p (0 ∷ 10 ∷ tail)
set-part front tail p =
    rw
      (
        part-split front (13 ∷ 10 ∷ tail) p,
        part-split front (0 ∷ 10 ∷ tail) p,
        ← length-part front p,
      )
      (set-append (front ++ part_text p []) (10 ∷ tail) 13 0)

some_line : (p : Part) → IsPart p → 0 < length p.line
unfolding hex2int
some_line p h = go p.line (hex2int-line p h)
  where
    go : (s : Bytes) → hex2int 0 s ≡ some (length p.body) → 0 < length s
    go [] e = ground (arith, h.full)
    go (c ∷ s) e = omega arith

-- The text begins with a plain byte.
pub first-IsPlain :
    (ps : List Part) (tail : Bytes)
    → All IsPart ps
    → (c : ℕ) × (Imf.at (texts ps tail) 0 ≡ c) × IsPlain c
first-IsPlain [] tail h = (
  48,
  refl,
  record {
    no_zero = λ e. omega (arith, e);
    no_cr = λ e. omega (arith, e);
    no_lf = λ e. omega (arith, e);
  },
)
first-IsPlain (p ∷ ps) tail (h, _) =
    line_plain p.line (13 ∷ 10 ∷ (p.body ++ (13 ∷ 10 ∷ texts ps tail))) (line-IsPlain p h)
      (some_line p h)
  where
    line_plain :
        (s rest : Bytes)
        → All IsPlain s
        → 0 < length s
        → (c : ℕ) × (Imf.at (s ++ rest) 0 ≡ c) × IsPlain c
    line_plain [] rest h some_there = absurd (omega arith)
    line_plain (c ∷ s) rest (h, _) some_there = (c, refl, h)

-- The front after a chunk.
abbrev pub passed : Bytes → Part → Bytes
passed front p = front ++ part_text p (0 ∷ 10 ∷ [])

pub passed_text :
    (front tail : Bytes) (p : Part) → front ++ part_text p (0 ∷ 10 ∷ tail) ≡ passed front p ++ tail
passed_text front tail p =
    part-split front (0 ∷ 10 ∷ tail) p
    ∙ sym (
        ap (λ l. l ++ tail) (part-split front (0 ∷ 10 ∷ []) p)
        ∙ append_assoc (front ++ part_text p []) (0 ∷ 10 ∷ []) tail)

pub length-passed :
    (front : Bytes) (p : Part)
    → length (passed front p) ≡ length front + length p.line + 2 + length p.body + 2
length-passed front p =
    ap length (part-split front (0 ∷ 10 ∷ []) p)
    ∙ omega (arith, length-append (front ++ part_text p []) (0 ∷ 10 ∷ []), length-part front p)

pub contents_of-places :
    (ps : List Part) (front tail : Bytes)
    → contents_of (front ++ cleared ps tail) (places (length front) ps) ≡ bodies ps
contents_of-places [] front tail = refl
contents_of-places (p ∷ ps) front tail =
    let rest = contents_of-places ps (passed front p) tail in
    let n = length-passed front p in
    let e = passed_text front (cleared ps tail) p in
    let behind = length front + length p.line + 2 + length p.body + 2 in
    ap (λ b. b ∷ contents_of (front ++ cleared (p ∷ ps) tail) (places behind ps))
      (body-part front (0 ∷ 10 ∷ cleared ps tail) p)
    ∙ ap (λ l. p.body ∷ l)
        (ap (λ m. contents_of m (places behind ps)) e
          ∙ ap (λ k. contents_of (passed front p ++ cleared ps tail) (places k ps)) (sym n)
          ∙ rest)

pub end_of_above : (ps : List Part) (pos : ℕ) → pos + 3 ≤ end_of pos ps
end_of_above [] pos = omega arith
end_of_above (p ∷ ps) pos =
    omega (arith, end_of_above ps (pos + length p.line + 2 + length p.body + 2))

pub rounds_enough : (ps : List Part) (tail : Bytes) → length ps ≤ length (texts ps tail)
rounds_enough [] tail = omega arith
rounds_enough (p ∷ ps) tail = omega (
  arith,
  length-append p.line (13 ∷ 10 ∷ (p.body ++ (13 ∷ 10 ∷ texts ps tail))),
  length-append p.body (13 ∷ 10 ∷ texts ps tail),
  rounds_enough ps tail,
)

pub length-places : (ps : List Part) (pos : ℕ) → length (places pos ps) ≡ length ps
length-places [] pos = refl
length-places (p ∷ ps) pos = ap suc (length-places ps (pos + length p.line + 2 + length p.body + 2))
