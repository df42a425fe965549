-- ===== src/Config/File/Quotes.antt =====
-- `Init` of PL/Config.cpp stays inside its buffer, and meets no error but a syntax error, on a
-- file that holds no quote.
use network_etc.Base.{
  ℕ, zero, suc, ◌-◌, ◌≤◌, ◌<◌, ◌≡◌, ◌≢◌, refl, inl, inr, true, false, Bool, Bool-cases, Option,
  none, some, List, [], ◌∷◌, ◌++◌, Bytes, length, All, leb, ◌==◌, ◌||◌, if◌then◌else◌, arith,
}
use network_etc.Config.Token.{Parsed, line_end, token, overrun, parse_token}
use network_etc.Config.Token.Closed.{Closed, Within, parse_token-Within}
use network_etc.Config.Var.{ConfigVar, new}
use network_etc.Config.File.{
  take_value, read_values, Line, blank, entry, syntax_error, fault, entry_of, assigned, named,
  parse_line, fill, fgets_lines, load_lines, go_on, init, begins, begin_line,
}
use network_etc.Config.File.Lines.Chunks.{fill-line, left_behind-nul}

abbrev NoQuote : Bytes → Type 0
NoQuote = All (λ c. c ≢ b'"')

abbrev Ends {ℓ} : {A : Type ℓ} → Option A → Type 0
Ends none = ⊥
Ends (some a) = Unit

take_value-Ends :
    (fuel n : ℕ) (p : Parsed) (v : ConfigVar)
    → ((rest : Bytes) (w : ConfigVar)
        → Closed rest
        → length rest < fuel
        → Ends (read_values fuel rest w))
    → Within n p
    → n ≤ fuel
    → Ends (take_value (read_values fuel) p v)
unfolding take_value
take_value-Ends fuel n line_end v more h k = tt
take_value-Ends fuel n overrun v more h k = h
take_value-Ends fuel n (token t rest) v more h k = more rest _ h.0 (omega (arith, h.2))

-- Fuel for each byte is enough for the loop over the values.
read_values-Ends :
    (fuel : ℕ) (p : Bytes) (v : ConfigVar)
    → Closed p
    → length p < fuel
    → Ends (read_values fuel p v)
unfolding read_values
read_values-Ends zero p v h k = absurd (omega arith)
read_values-Ends (suc fuel) p v h k =
    take_value-Ends fuel (length p) (parse_token p) v
      (λ rest w hr kr. read_values-Ends fuel rest w hr kr) (parse_token-Within p h) (omega arith)

abbrev NoFault : Line → Type 0
NoFault fault = ⊥
NoFault _ = Unit

entry_of-NoFault : (v : Option ConfigVar) → Ends v → NoFault (entry_of v)
unfolding entry_of
entry_of-NoFault none h = h
entry_of-NoFault (some v) h = tt

if-NoFault : (b : Bool) (l m : Line) → NoFault l → NoFault m → NoFault (if b then l else m)
if-NoFault true l m h k = h
if-NoFault false l m h k = k

assigned-NoFault : (n : ℕ) (name : Bytes) (p : Parsed) → Within n p → NoFault (assigned name p)
unfolding assigned
assigned-NoFault n name line_end h = tt
assigned-NoFault n name overrun h = h
assigned-NoFault n name (token t p) h =
    if-NoFault (begins b'=' t) _ _
      (entry_of-NoFault _ (read_values-Ends (suc (length p)) p (new name) h.0 (omega arith))) tt

named-NoFault : (n : ℕ) (p : Parsed) → Within n p → NoFault (named p)
unfolding named
named-NoFault n line_end h = tt
named-NoFault n overrun h = h
named-NoFault n (token name p) h =
    assigned-NoFault (length p) name (parse_token p) (parse_token-Within p h.0)

parse_line-NoFault : (buffer : Bytes) → Closed buffer → NoFault (parse_line buffer)
unfolding parse_line
parse_line-NoFault buffer h =
    named-NoFault (length buffer) (parse_token buffer) (parse_token-Within buffer h)

Closed-append : (line s : Bytes) → NoQuote line → Closed s → Closed (line ++ s)
Closed-append [] s h k = k
Closed-append (c ∷ line) s (hc, h) k = inr (hc, Closed-append line s h k)

abbrev Short : Bytes → Type 0
Short line = NoQuote line × (length line < 1023)

-- The lines of a file, of which the first has `room` bytes at most.
abbrev FirstWithin : ℕ → List Bytes → Type 0
FirstWithin room [] = Unit
FirstWithin room (l ∷ ls) = NoQuote l × (length l ≤ room) × All Short ls

FirstWithin-Short : (ls : List Bytes) → FirstWithin 1022 ls → All Short ls
FirstWithin-Short [] h = tt
FirstWithin-Short (l ∷ ls) (q, k, h) = ((q, omega arith), h)

begin_line-FirstWithin :
    (room c : ℕ) (ls : List Bytes)
    → c ≢ b'"'
    → 1 < room
    → FirstWithin (room - 1) ls
    → FirstWithin room (begin_line c ls)
begin_line-FirstWithin room c [] hc k h = ((hc, tt), omega arith, tt)
begin_line-FirstWithin room c (l ∷ ls) hc k h = ((hc, h.0), omega (arith, h.1), h.2)

fgets_lines-FirstWithin :
    (room : ℕ) (s : Bytes) → NoQuote s → 0 < room → FirstWithin room (fgets_lines room s)
unfolding fgets_lines
fgets_lines-FirstWithin room [] h k = tt
fgets_lines-FirstWithin room (c ∷ s) (hc, h) k = elim (Bool-cases (c == 10 || leb room 1)) [
  | inl full ↦
      rw full (
        (hc, tt),
        omega arith,
        FirstWithin-Short _ (fgets_lines-FirstWithin 1022 s h (omega arith)),
      )
  | inr more ↦
      let wide : 1 < room = ground arith in
      rw more (
        begin_line-FirstWithin room c _ hc wide
          (fgets_lines-FirstWithin (room - 1) s h (omega arith)))
]

fill-Closed : (line buffer : Bytes) → Short line → Closed (fill line buffer)
fill-Closed line buffer (q, h) =
    let (z, e) = left_behind-nul line buffer h in
    rw (fill-line line buffer h) (Closed-append line _ q (rw e (inl refl)))

go_on-Ends :
    (rest : List ConfigVar → Option (List ConfigVar × Bool)) (vars : List ConfigVar) (l : Line)
    → ((vs : List ConfigVar) → Ends (rest vs))
    → NoFault l
    → Ends (go_on rest vars l)
unfolding go_on
go_on-Ends rest vars blank more h = more vars
go_on-Ends rest vars (entry v) more h = more _
go_on-Ends rest vars syntax_error more h = tt
go_on-Ends rest vars fault more h = h

load_lines-Ends :
    (lines : List Bytes) (buffer : Bytes) (vars : List ConfigVar)
    → All Short lines
    → Ends (load_lines lines buffer vars)
unfolding load_lines
load_lines-Ends [] buffer vars h = tt
load_lines-Ends (line ∷ lines) buffer vars (hl, h) =
    go_on-Ends _ vars (parse_line (fill line buffer))
      (λ vs. load_lines-Ends lines (fill line buffer) vs h)
      (parse_line-NoFault (fill line buffer) (fill-Closed line buffer hl))

-- `Init` of a file with no quote, of whatever lines, comes to an end in its buffer: every loop has
-- fuel enough, and no read goes behind the buffer, whatever the buffer held before.
pub init-NoQuote :
    (file buffer : Bytes) (vars : List ConfigVar)
    → NoQuote file
    → (loaded : List ConfigVar) × (ok : Bool) × (init (some file) buffer vars ≡ some (loaded, ok))
unfolding init
init-NoQuote file buffer vars h =
    let lines = FirstWithin-Short _ (fgets_lines-FirstWithin 1022 file h (omega arith)) in
    ended _ (load_lines-Ends (fgets_lines 1022 file) buffer vars lines)
  where
    ended :
        (r : Option (List ConfigVar × Bool))
        → Ends r
        → (loaded : List ConfigVar) × (ok : Bool) × (r ≡ some (loaded, ok))
    ended none e = absurd e
    ended (some (loaded, ok)) e = (loaded, ok, refl)
