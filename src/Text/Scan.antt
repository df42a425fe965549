-- ===== src/Text/Scan.antt =====
-- `vsnreadf` and `snreadf` of netfram/common.cpp: a scanner for counted strings.
pub mod Fields
use network_etc.Base.{
  ℕ, ◌+◌, ◌%◌, ◌≡◌, refl, Bool, false, ◌||◌, List, [], ◌∷◌, ◌++◌, Bytes, length, take, drop, codes,
  ltb, ◌==◌, if◌then◌else◌, u32,
}
use network_etc.Text.{strntoint64, strntouint64}

-- What a conversion stores through the pointer that it takes: a char, the bit patterns of an int,
-- an unsigned, an int64_t and a uint64_t, and the body of a block, copied (%M) or shared (%N).
pub data Value : Type 0 where
  ch : ℕ → Value
  int : ℕ → Value
  unsigned : ℕ → Value
  int64 : ℕ → Value
  uint64 : ℕ → Value
  copied : Bytes → Value
  shared : Bytes → Value

-- ADVANCE by so many bytes of the buffer, EXIT, or a failed assertion.
pub data Verdict : Type 0 where
  advance : ℕ → Verdict
  exit : Verdict
  abort : Verdict

-- One conversion: what it stored before its verdict, and the blocks left for later %M.
pub record Conversion : Type 0 where
  pub stored : List Value
  pub spaces : List ℕ
  pub verdict : Verdict

abbrev refuse : List ℕ → Conversion
refuse spaces = record { stored = []; spaces = spaces; verdict = exit }

-- A conversion of a number: it stores, and exits if no digit was read.
abbrev numeric : Value → ℕ → List ℕ → Conversion
numeric v n spaces = record {
  stored = v ∷ [];
  spaces = spaces;
  verdict = if ltb n 1 then exit else advance n;
}

-- The `:` and the body of %M and %N, behind a length prefix of `n` bytes that spells `size`.
pub body : (Bytes → Value) → ℕ → ℕ → Bytes → List ℕ → Conversion
body wrap size n [] spaces = refuse spaces
body wrap size n (c ∷ rest) spaces =
    if c == b':'
    then (if ltb (length rest) size then refuse spaces else record {
      stored = wrap (take size rest) ∷ [];
      spaces = spaces;
      verdict = advance (n + 1 + size);
    })
    else refuse spaces

-- %M: `spaces` gives `GetDirectSpace` of the blocks that the caller passes, in order.
copy_block : Bytes → List ℕ → Conversion
unfolding body
copy_block buffer [] = record { stored = []; spaces = []; verdict = abort }
copy_block buffer (space ∷ spaces) =
    let (size, n) = strntouint64 buffer in
    if ltb n 1 || ltb space size then refuse spaces else body copied size n (drop n buffer) spaces

pub share_block : Bytes → List ℕ → Conversion
unfolding body
share_block buffer spaces =
    let (size, n) = strntouint64 buffer in
    if ltb n 1 then refuse spaces else body shared size n (drop n buffer) spaces

read_percent : Bytes → List ℕ → Conversion
read_percent [] spaces = refuse spaces
read_percent (c ∷ s) spaces =
    if c == b'%'
    then record { stored = []; spaces = spaces; verdict = advance 1 }
    else refuse spaces

read_char : Bytes → List ℕ → Conversion
read_char [] spaces = refuse spaces
read_char (c ∷ s) spaces = record { stored = ch c ∷ []; spaces = spaces; verdict = advance 1 }

-- The chain of tests on `format[1]`.
pub convert : ℕ → Bytes → List ℕ → Conversion
unfolding copy_block share_block read_percent read_char
convert f buffer spaces =
    let signed = strntoint64 buffer in
    let plain = strntouint64 buffer in
    if f == b'%'
    then read_percent buffer spaces
    else if f == b'c'
    then read_char buffer spaces
    else if f == b'd'
    then numeric (int (signed.0 % u32)) signed.1 spaces
    else if f == b'u'
    then numeric (unsigned (plain.0 % u32)) plain.1 spaces
    else if f == b'I'
    then numeric (int64 signed.0) signed.1 spaces
    else if f == b'U'
    then numeric (uint64 plain.0) plain.1 spaces
    else if f == b'M'
    then copy_block buffer spaces
    else if f == b'N'
    then share_block buffer spaces
    else record { stored = []; spaces = spaces; verdict = abort }

-- The result of a scan: the number of bytes read, -1, or a failed assertion.
pub data Outcome : Type 0 where
  read : ℕ → Outcome
  mismatch : Outcome
  aborted : Outcome

-- `stored` lists what went through the caller's pointers, in order, also where the scan fails.
pub record Scan : Type 0 where
  pub outcome : Outcome
  pub stored : List Value

abbrev pub stop : Outcome → Scan
stop o = record { outcome = o; stored = [] }

abbrev pub behind : List Value → Scan → Scan
behind vs s = record s { stored = vs ++ s.stored }

abbrev begins : ℕ → Bytes → Bool
begins f [] = false
begins f (c ∷ s) = c == f

used : Verdict → ℕ
used (advance n) = n
used _ = 0

-- A failed conversion has stored what it has stored.
conclude : Verdict → List Value → Scan → Scan
conclude (advance n) vs rest = behind vs rest
conclude exit vs rest = behind vs (stop mismatch)
conclude abort vs rest = behind vs (stop aborted)

-- The `while` of `vsnreadf`, over the format; `count` is the C variable `read`.
pub scan : Bytes → Bytes → List ℕ → ℕ → Scan
unfolding used conclude
scan [] buffer spaces count = stop (read count)
scan (f ∷ []) buffer spaces count =
    if f == b'%'
    then stop mismatch
    else if begins f buffer
    then stop (read (count + 1))
    else stop mismatch
scan (f ∷ g ∷ fs) buffer spaces count =
    let c = convert g buffer spaces in
    let n = used c.verdict in
    let converted = scan fs (drop n buffer) c.spaces (count + n) in
    let literal = scan (g ∷ fs) (drop 1 buffer) spaces (count + 1) in
    if f == b'%'
    then conclude c.verdict c.stored converted
    else if begins f buffer
    then literal
    else stop mismatch

unfoldable pub snreadf : Bytes → Bytes → List ℕ → Scan
snreadf buffer format spaces = scan format buffer spaces 0

snreadf_runs :
    snreadf (codes "1:0:12") (codes "%c:%u:%U") []
    ≡ record { outcome = read 6; stored = ch b'1' ∷ unsigned 0 ∷ uint64 12 ∷ [] }
unfolding snreadf scan convert strntouint64 strntoint64 network_etc.Text.digits_loop
snreadf_runs = refl
