-- ===== src/Config/File/Lines.antt =====
-- `Init` of PL/Config.cpp on a file of entries as one writes them, `name= "value","value"`.
pub mod Chunks
use network_etc.Base.{
  ℕ, zero, suc, ◌+◌, ◌-◌, ◌*◌, ◌≤◌, ◌<◌, ◌≡◌, ◌≢◌, refl, ◌∙◌, Bool, true, false, Option, none, some,
  List, [], ◌∷◌, ◌++◌, append_assoc, append-nil, map, Bytes, length, length-append, All, arith,
}
use network_etc.Config.Token.{parse_token, token, line_end}
use network_etc.Config.Token.Words.{
  IsWord, InQuotes, parse_token-name, IsWord-inline, parse_token-quoted, parse_token-separator,
  parse_token-assign, parse_token-newline, parse_token-space,
}
use network_etc.Config.Var.{ConfigVar, new, append}
use network_etc.Config.Var.Values.{append_all}
use network_etc.Config.File.{
  read_values, take_value, parse_line, Line, entry, load_lines, fgets_lines, fill, init,
}
use network_etc.Config.File.Lines.Chunks.{fgets_lines-line, fill-line, left_behind}

-- A name and its values.
abbrev pub Entry : Type 0
Entry = Bytes × List Bytes

abbrev pub var_of : Entry → ConfigVar
var_of (name, values) = append_all (new name) values

-- Each value in quotes, behind a space or a comma.
abbrev pub print_values : ℕ → List Bytes → Bytes
print_values mark [] = []
print_values mark (t ∷ ts) = mark ∷ b'"' ∷ (t ++ (b'"' ∷ print_values b',' ts))

abbrev pub print_body : Entry → Bytes
print_body (name, values) = name ++ (b'=' ∷ print_values b' ' values)

abbrev pub print_file : List Entry → Bytes
print_file [] = []
print_file (e ∷ es) = print_body e ++ (10 ∷ print_file es)

-- No comma begins a value: the loop takes it for a separator.
abbrev pub IsText : Bytes → Type 0
IsText [] = Unit
IsText (c ∷ t) = (c ≢ b',') × All InQuotes (c ∷ t)

-- The line and its newline fit the 1022 bytes of one `fgets`.
abbrev pub IsEntry : Entry → Type 0
IsEntry (name, values) =
    IsWord name × All IsText values × (length (print_body (name, values)) < 1022)

read_quoted :
    (fuel : ℕ) (t rest : Bytes) (v : ConfigVar)
    → IsText t
    → read_values (suc fuel) (b'"' ∷ (t ++ (b'"' ∷ rest))) v ≡ read_values fuel rest (append v t)
unfolding read_values
read_quoted fuel [] rest v h = rw (parse_token-quoted [] rest tt)
read_quoted fuel (c ∷ t) rest v (n, h) = rw (parse_token-quoted (c ∷ t) rest h) (ground arith)

read_values-commas :
    (fuel : ℕ) (ts : List Bytes) (z : Bytes) (v : ConfigVar)
    → All IsText ts
    → 2 * length ts < fuel
    → read_values fuel (print_values b',' ts ++ (10 ∷ z)) v ≡ some (append_all v ts)
unfolding read_values
read_values-commas zero ts z v h f = absurd (omega arith)
read_values-commas (suc fuel) [] z v h f = rw (parse_token-newline z)
read_values-commas (suc zero) (t ∷ ts) z v h f = absurd (omega arith)
read_values-commas (suc (suc fuel)) (t ∷ ts) z v (ht, h) f =
    rw (parse_token-separator (b'"' ∷ ((t ++ (b'"' ∷ print_values b',' ts)) ++ (10 ∷ z)))) (
      rw (append_assoc t (b'"' ∷ print_values b',' ts) (10 ∷ z)) (
        read_quoted fuel t (print_values b',' ts ++ (10 ∷ z)) v ht
        ∙ read_values-commas fuel ts z (append v t) h (omega arith)))

-- The loop over the values reads back the values that are printed, one token or two for each.
read_values-print :
    (fuel : ℕ) (ts : List Bytes) (z : Bytes) (v : ConfigVar)
    → All IsText ts
    → 2 * length ts < fuel
    → read_values fuel (print_values b' ' ts ++ (10 ∷ z)) v ≡ some (append_all v ts)
unfolding read_values
read_values-print zero ts z v h f = absurd (omega arith)
read_values-print (suc fuel) [] z v h f = rw (parse_token-newline z)
read_values-print (suc fuel) (t ∷ ts) z v (ht, h) f =
    rw (parse_token-space ((t ++ (b'"' ∷ print_values b',' ts)) ++ (10 ∷ z))) (
      rw (append_assoc t (b'"' ∷ print_values b',' ts) (10 ∷ z)) (
        read_quoted fuel t (print_values b',' ts ++ (10 ∷ z)) v ht
        ∙ read_values-commas fuel ts z (append v t) h (omega arith)))

length-print_values : (mark : ℕ) (ts : List Bytes) → 2 * length ts ≤ length (print_values mark ts)
length-print_values mark [] = omega arith
length-print_values mark (t ∷ ts) =
    omega (arith, length-print_values b',' ts, length-append {0} t (b'"' ∷ print_values b',' ts))

-- The printed entry is parsed to its variable, whatever stands behind the newline.
parse_line-print :
    (e : Entry) (z : Bytes) → IsEntry e → parse_line (print_body e ++ (10 ∷ z)) ≡ entry (var_of e)
unfolding parse_line
parse_line-print (name, ts) z (hn, ht, hl) =
    let tail = print_values b' ' ts ++ (10 ∷ z) in
    let enough : 2 * length ts < suc (length tail) =
      omega
        (arith, length-print_values b' ' ts, length-append {0} (print_values b' ' ts) (10 ∷ z)) in
    rw (append_assoc name (b'=' ∷ print_values b' ' ts) (10 ∷ z)) (
      rw (parse_token-name name tail hn) (
        rw (parse_token-assign tail)
          (rw (read_values-print (suc (length tail)) ts z (new name) ht enough))))

All-append : (P : ℕ → Type 0) (xs ys : Bytes) → All P xs → All P ys → All P (xs ++ ys)
All-append P [] ys h k = k
All-append P (x ∷ xs) ys (hx, h) k = (hx, All-append P xs ys h k)

text_inline : (t : Bytes) → All InQuotes t → All (λ c. c ≢ 10) t
text_inline [] h = tt
text_inline (c ∷ t) (hc, h) = (hc.2, text_inline t h)

IsText-inline : (t : Bytes) → IsText t → All (λ c. c ≢ 10) t
IsText-inline [] h = tt
IsText-inline (c ∷ t) (n, h) = text_inline (c ∷ t) h

values_inline :
    (mark : ℕ) (ts : List Bytes)
    → mark ≢ 10
    → All IsText ts
    → All (λ c. c ≢ 10) (print_values mark ts)
values_inline mark [] m h = tt
values_inline mark (t ∷ ts) m (ht, h) = (
  m,
  (
    omega arith,
    All-append _ t _ (IsText-inline t ht) (omega arith, values_inline b',' ts (omega arith) h),
  ),
)

body_inline : (e : Entry) → IsEntry e → All (λ c. c ≢ 10) (print_body e)
body_inline (name, ts) (hn, ht, hl) =
    All-append _ name _ (IsWord-inline name hn)
      (omega arith, values_inline b' ' ts (omega arith) ht)

load_lines-next :
    (line : Bytes) (lines : List Bytes) (buffer : Bytes) (vars : List ConfigVar) (v : ConfigVar)
    → parse_line (fill line buffer) ≡ entry v
    → load_lines (line ∷ lines) buffer vars ≡ load_lines lines (fill line buffer) (vars ++ v ∷ [])
unfolding load_lines
load_lines-next line lines buffer vars v e = rw e

-- One round of `Init` on a printed entry.
load_lines-entry :
    (e : Entry) (rest buffer : Bytes) (vars : List ConfigVar)
    → IsEntry e
    → (buffer' : Bytes) × (load_lines (fgets_lines 1022 (print_body e ++ (10 ∷ rest))) buffer vars
        ≡ load_lines (fgets_lines 1022 rest) buffer' (vars ++ var_of e ∷ []))
load_lines-entry e rest buffer vars h =
    let line = print_body e ++ 10 ∷ [] in
    let left = left_behind line buffer in
    let parsed : parse_line (fill line buffer) ≡ entry (var_of e) =
      rw (fill-line line buffer (omega (arith, length-append {0} (print_body e) (10 ∷ []), h.2)))
        (rw (append_assoc (print_body e) (10 ∷ []) left) (parse_line-print e left h)) in
    (
      fill line buffer,
      rw (fgets_lines-line 1022 (print_body e) rest (body_inline e h) h.2)
          (load_lines-next line (fgets_lines 1022 rest) buffer vars (var_of e) parsed),
    )

load_lines-print :
    (es : List Entry) (buffer : Bytes) (vars : List ConfigVar)
    → All IsEntry es
    → load_lines (fgets_lines 1022 (print_file es)) buffer vars ≡ some (vars ++ map var_of es, true)
unfolding load_lines fgets_lines
load_lines-print [] buffer vars h = rw append-nil
load_lines-print (e ∷ es) buffer vars (he, h) =
    let (buffer', step) = load_lines-entry e (print_file es) buffer vars he in
    step
    ∙ load_lines-print es buffer' (vars ++ var_of e ∷ []) h
    ∙ rw (append_assoc vars (var_of e ∷ []) (map var_of es))

-- A file of printed entries loads: `Init` answers true and adds exactly their variables, in the
-- order of the file, whatever the buffer held before.
pub init-print :
    (es : List Entry) (buffer : Bytes) (vars : List ConfigVar)
    → All IsEntry es
    → init (some (print_file es)) buffer vars ≡ some (vars ++ map var_of es, true)
unfolding init
init-print es buffer vars h = load_lines-print es buffer vars h
