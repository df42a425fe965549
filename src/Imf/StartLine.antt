-- ===== src/Imf/StartLine.antt =====
-- `LineParse` of HTTP/IMF.cpp: the three parts of a request line or a status line.
use network_etc.Base.{
  ℕ, zero, suc, ◌+◌, ◌-◌, ◌≤◌, ◌<◌, ◌≡◌, refl, Option, none, some, [], ◌∷◌, ◌++◌, Bytes, codes,
  ◌==◌, if◌then◌else◌, arith,
}
use network_etc.Imf.{at, set, skip_whitespace, seek_crlf}
use network_etc.Imf.Bounds.{skip_whitespace_bounds, seek_crlf_bounds}

-- Up to a space.
unfoldable pub seek_whitespace : Bytes → ℕ → ℕ → Option ℕ
seek_whitespace memory p zero = none
seek_whitespace memory p (suc len) =
    let rest = seek_whitespace memory (p + 1) len in
    if at memory p == 0 then none else if at memory p == b' ' then some p else rest

-- What `LineParse` leaves: the memory, `values` where they were set, and the answer, where `none` is
-- -1.
pub record StartLine : Type 0 where
  pub memory : Bytes
  pub values : Option ℕ × Option ℕ × Option ℕ
  pub answer : Option ℕ

abbrev failed : Bytes → Option ℕ × Option ℕ × Option ℕ → StartLine
failed memory values = record { memory = memory; values = values; answer = none }

third_end : Bytes → ℕ → ℕ → ℕ → Option ℕ → StartLine
third_end memory a b c none = failed memory (some a, some b, some c)
third_end memory a b c (some e) = record {
  memory = set memory e 0;
  values = (some a, some b, some c);
  answer = some (e + 2);
}

third : ℕ → Bytes → ℕ → ℕ → Option ℕ → StartLine
unfolding third_end
third len memory a b none = failed memory (some a, some b, none)
third len memory a b (some c) = third_end memory a b c (seek_crlf memory c (len - c))

second_end : ℕ → Bytes → ℕ → ℕ → Option ℕ → StartLine
unfolding third
second_end len memory a b none = failed memory (some a, some b, none)
second_end len memory a b (some e) =
    let memory' = set memory e 0 in
    third len memory' a b (skip_whitespace memory' (e + 1) (len - (e + 1)))

second : ℕ → Bytes → ℕ → Option ℕ → StartLine
unfolding second_end
second len memory a none = failed memory (some a, none, none)
second len memory a (some b) = second_end len memory a b (seek_whitespace memory b (len - b))

first_end : ℕ → Bytes → ℕ → Option ℕ → StartLine
unfolding second
first_end len memory a none = failed memory (some a, none, none)
first_end len memory a (some e) =
    let memory' = set memory e 0 in
    second len memory' a (skip_whitespace memory' (e + 1) (len - (e + 1)))

first : ℕ → Bytes → Option ℕ → StartLine
unfolding first_end
first len memory none = failed memory (none, none, none)
first len memory (some a) = first_end len memory a (seek_whitespace memory a (len - a))

-- The first search gets the whole length, wherever it starts.
unfoldable pub line_parse : Bytes → ℕ → ℕ → StartLine
unfolding first
line_parse memory len offs = first len memory (skip_whitespace memory offs len)

line_parse_runs :
    (line_parse (codes "GET /a HTTP" ++ 13 ∷ 10 ∷ []) 13 0).values ≡ (some 0, some 4, some 7)
unfolding line_parse skip_whitespace seek_whitespace seek_crlf
line_parse_runs = refl

seek_whitespace_bounds :
    (memory : Bytes) (p len v : ℕ) → seek_whitespace memory p len ≡ some v → (p ≤ v) × (v < p + len)
unfolding seek_whitespace
seek_whitespace_bounds memory p zero v h = cc
seek_whitespace_bounds memory p (suc len) v h =
    ground (arith, seek_whitespace_bounds memory (p + 1) len v)

-- Where the three parts were found they follow one another, from the start of the search on, and
-- the answer is two behind the end of the last one, which is in the text.
abbrev pub InOrder : ℕ → ℕ → StartLine → Type 0
InOrder offs len r =
    (n : ℕ)
    → r.answer ≡ some n
    → (a : ℕ) × (b : ℕ) × (c : ℕ) × (r.values ≡ (some a, some b, some c))
      × (offs ≤ a)
      × (a < b)
      × (b < c)
      × (c + 2 ≤ n)
      × (n < len + 2)

third_end-InOrder :
    (offs len : ℕ) (memory : Bytes) (a b c : ℕ) (found : Option ℕ)
    → offs ≤ a
    → a < b
    → b < c
    → ((e : ℕ) → found ≡ some e → (c ≤ e) × (e < len))
    → InOrder offs len (third_end memory a b c found)
unfolding third_end
third_end-InOrder offs len memory a b c none h k l f n e = cc
third_end-InOrder offs len memory a b c (some d) h k l f n e =
    let (low, high) = f d refl in (a, b, c, refl, h, k, l, ground arith, ground arith)

third-InOrder :
    (offs len : ℕ) (memory : Bytes) (a b : ℕ) (found : Option ℕ)
    → offs ≤ a
    → a < b
    → ((c : ℕ) → found ≡ some c → (b < c) × (c < len))
    → InOrder offs len (third len memory a b found)
unfolding third
third-InOrder offs len memory a b none h k f n e = cc
third-InOrder offs len memory a b (some c) h k f n e =
    let (low, high) = f c refl in
    third_end-InOrder offs len memory a b c (seek_crlf memory c (len - c)) h k low
      (λ d g. omega (arith, seek_crlf_bounds memory c (len - c) d g)) n e

second-InOrder :
    (offs len : ℕ) (memory : Bytes) (a : ℕ) (found : Option ℕ)
    → offs ≤ a
    → ((b : ℕ) → found ≡ some b → (a < b) × (b < len))
    → InOrder offs len (second len memory a found)
unfolding second
second-InOrder offs len memory a none h f = λ n e. cc
second-InOrder offs len memory a (some b) h f =
    let (low, high) = f b refl in
    ended (seek_whitespace memory b (len - b))
      (λ d g. omega (arith, seek_whitespace_bounds memory b (len - b) d g)) low
  where
    ended :
        (found : Option ℕ)
        → ((d : ℕ) → found ≡ some d → (b ≤ d) × (d < len))
        → a < b
        → InOrder offs len (second_end len memory a b found)
    ended none g low = λ n e. cc
    ended (some d) g low =
        let (under, over) = g d refl in
        let m = set memory d 0 in
        third-InOrder offs len m a b (skip_whitespace m (d + 1) (len - (d + 1))) h low
          (λ c v. omega (arith, skip_whitespace_bounds m (d + 1) (len - (d + 1)) c v))

-- A line that is parsed has its three parts one behind another, from `offs` on, and the answer is
-- behind them, at most one past the end of the text.
pub line_parse-InOrder :
    (memory : Bytes) (len offs : ℕ) → InOrder offs len (line_parse memory len offs)
unfolding line_parse
line_parse-InOrder memory len offs =
    start (skip_whitespace memory offs len) (λ a g. (skip_whitespace_bounds memory offs len a g).0)
  where
    ended :
        (a : ℕ) (found : Option ℕ)
        → offs ≤ a
        → ((d : ℕ) → found ≡ some d → (a ≤ d) × (d < a + (len - a)))
        → InOrder offs len (first_end len memory a found)
    ended a none h g = λ n e. cc
    ended a (some d) h g =
        let (under, over) = g d refl in
        let m = set memory d 0 in
        second-InOrder offs len m a (skip_whitespace m (d + 1) (len - (d + 1))) h
          (λ b v. omega (arith, skip_whitespace_bounds m (d + 1) (len - (d + 1)) b v))

    start :
        (found : Option ℕ)
        → ((a : ℕ) → found ≡ some a → offs ≤ a)
        → InOrder offs len (first len memory found)
    start none f = λ n e. cc
    start (some a) f =
        ended a (seek_whitespace memory a (len - a)) (f a refl)
          (λ d g. seek_whitespace_bounds memory a (len - a) d g)
