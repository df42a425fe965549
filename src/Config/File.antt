-- ===== src/Config/File.antt =====
-- `Config` of PL/Config.cpp: `Init` over the lines of the file, and the lookups by name.
-- `vars` is the list that the queue of PL/Queue.h holds, oldest first.
pub mod Lookup
pub mod Lines
pub mod Quotes
use network_etc.Base.{
  ℕ, zero, suc, ◌+◌, ◌-◌, ◌≡◌, refl, Bool, true, false, not, ◌&&◌, ◌||◌, Option, none, some, List,
  [], ◌∷◌, ◌++◌, Bytes, length, drop, take, codes, leb, ◌==◌, if◌then◌else◌,
}
use network_etc.Config.Token.{Parsed, line_end, token, overrun, parse_token}
use network_etc.Config.Var
use network_etc.Config.Var.{ConfigVar, new, append, name_equals}

-- sizeof(buffer)
abbrev pub buffer_size : ℕ
buffer_size = 1024

-- A byte in front of the line that it belongs to.
abbrev pub begin_line : ℕ → List Bytes → List Bytes
begin_line c [] = (c ∷ []) ∷ []
begin_line c (l ∷ ls) = (c ∷ l) ∷ ls

-- What successive calls `fgets(buffer, 1023, fp)` deliver: up to a newline, 1022 bytes at most.
-- `room` is what is left of the 1022.
pub fgets_lines : ℕ → Bytes → List Bytes
fgets_lines room [] = []
fgets_lines room (c ∷ s) =
    let full = c == 10 || leb room 1 in
    let rest = fgets_lines (if full then 1022 else room - 1) s in
    if full then (c ∷ []) ∷ rest else begin_line c rest

-- The line and its NUL over what the buffer held, and `buffer[sizeof(buffer) - 1] = '\0'`.
pub fill : Bytes → Bytes → Bytes
fill line buffer = take (buffer_size - 1) (line ++ 0 ∷ drop (length line + 1) buffer) ++ 0 ∷ []

abbrev begins : ℕ → Bytes → Bool
begins c [] = false
begins c (d ∷ t) = d == c

-- One round of the loop over the values; `more` is the next round.
take_value : (Bytes → ConfigVar → Option ConfigVar) → Parsed → ConfigVar → Option ConfigVar
take_value more line_end v = some v
take_value more overrun v = none
take_value more (token t rest) v = more rest (if begins b',' t then v else append v t)

-- The loop over the values. `none`: a read behind the buffer. Each token takes a byte of `p`.
pub read_values : ℕ → Bytes → ConfigVar → Option ConfigVar
unfolding take_value
read_values zero p v = none
read_values (suc fuel) p v = take_value (read_values fuel) (parse_token p) v

-- What a line is: empty or a comment, an entry, a syntax error, or a read behind the buffer.
pub data Line : Type 0 where
  blank : Line
  entry : ConfigVar → Line
  syntax_error : Line
  fault : Line

entry_of : Option ConfigVar → Line
entry_of none = fault
entry_of (some v) = entry v

assigned : Bytes → Parsed → Line
unfolding entry_of
assigned name line_end = syntax_error
assigned name overrun = fault
assigned name (token t p) =
    if begins b'=' t then entry_of (read_values (suc (length p)) p (new name)) else syntax_error

named : Parsed → Line
unfolding assigned
named line_end = blank
named overrun = fault
named (token name p) = assigned name (parse_token p)

pub parse_line : Bytes → Line
unfolding named
parse_line buffer = named (parse_token buffer)

-- A round of the `while` of `Init`; `rest` is the next one. The variables of the lines in front of
-- a syntax error stay.
go_on :
    (List ConfigVar → Option (List ConfigVar × Bool))
    → List ConfigVar
    → Line
    → Option (List ConfigVar × Bool)
go_on rest vars blank = rest vars
go_on rest vars (entry v) = rest (vars ++ v ∷ [])
go_on rest vars syntax_error = some (vars, false)
go_on rest vars fault = none

pub load_lines : List Bytes → Bytes → List ConfigVar → Option (List ConfigVar × Bool)
unfolding go_on
load_lines [] buffer vars = some (vars, true)
load_lines (line ∷ lines) buffer vars =
    go_on (load_lines lines (fill line buffer)) vars (parse_line (fill line buffer))

-- `Init`; the file is what `fopen` finds, and `buffer` the stack memory that it starts with.
pub init : Option Bytes → Bytes → List ConfigVar → Option (List ConfigVar × Bool)
init none buffer vars = some (vars, false)
init (some file) buffer vars = load_lines (fgets_lines 1022 file) buffer vars

-- `Shutdown` takes the variables off the list until it is empty.
pub shutdown : List ConfigVar → List ConfigVar
shutdown [] = []
shutdown (v ∷ vars) = shutdown vars

pub get_var : List ConfigVar → Bytes → Option ConfigVar
get_var [] name = none
get_var (v ∷ vars) name = if name_equals v name then some v else get_var vars name

-- The accessors: the default where no variable is found.
abbrev or_default {ℓ} : {A : Type ℓ} → Option ConfigVar → A → (ConfigVar → A) → A
or_default none defval get = defval
or_default (some v) defval get = get v

unfoldable pub get_int_value : List ConfigVar → Bytes → ℕ → ℕ
unfolding get_var
get_int_value vars name defval = or_default (get_var vars name) defval Var.get_int_value

unfoldable pub get_value : List ConfigVar → Bytes → Bytes → Bytes
unfolding get_var
get_value vars name defval = or_default (get_var vars name) defval Var.get_value

unfoldable pub get_bool_value : List ConfigVar → Bytes → Bool → Bool
unfolding get_var
get_bool_value vars name defval =
    or_default (get_var vars name) defval (λ v. Var.get_bool_value v defval)

unfoldable pub get_list_num : List ConfigVar → Bytes → ℕ
unfolding get_var
get_list_num vars name = or_default (get_var vars name) 0 Var.get_list_num

unfoldable pub get_list_value : List ConfigVar → Bytes → ℕ → Bytes → Bytes
unfolding get_var
get_list_value vars name num defval =
    or_default (get_var vars name) defval (λ v. Var.get_list_value v num defval)
