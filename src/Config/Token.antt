-- ===== src/Config/Token.antt =====
-- `ParseToken` of PL/Config.cpp, over what the buffer holds from the pointer on: the NUL that ends
-- the line, and what earlier lines left behind it, included.
pub mod Words
pub mod Closed
use network_etc.Base.{
  ℕ, suc, ◌≡◌, refl, Bool, true, false, not, ◌&&◌, ◌||◌, [], ◌∷◌, ◌++◌, Bytes, codes, leb, ◌==◌,
  if◌then◌else◌,
}

-- NULL, a token with the new pointer, or a read behind the end of the buffer.
pub data Parsed : Type 0 where
  line_end : Parsed
  token : Bytes → Bytes → Parsed
  overrun : Parsed

-- `*p <= ' '` for a signed char.
unfoldable pub is_white : ℕ → Bool
is_white c = leb c b' ' || leb 128 c

-- `!*p || (*p == '\r' || *p == '\n')`
abbrev pub ends_line : ℕ → Bool
ends_line c = c == 0 || c == 13 || c == 10

-- `*p && (*p != '\r' || *p != '\n')`, the test of the loop over a comment.
abbrev pub in_comment : ℕ → Bool
in_comment c = not (c == 0) && (not (c == 13) || not (c == 10))

-- Where the two loops at `skipwhite` leave the pointer.
pub data Start : Type 0 where
  stopped : Start
  found : ℕ → Bytes → Start
  lost : Start

-- The loops at `skipwhite`; `commented` tells that a comment is being skipped.
pub skip : Bool → Bytes → Start
unfolding is_white
skip commented [] = lost
skip commented (c ∷ s) =
    let inside = commented && in_comment c in
    let rest = skip (inside || c == b'#') s in
    if inside
    then rest
    else if is_white c
    then (if ends_line c then stopped else rest)
    else if c == b'#'
    then rest
    else found c s

abbrev pub longer : ℕ → Parsed → Parsed
longer c line_end = line_end
longer c (token t rest) = token (c ∷ t) rest
longer c overrun = overrun

-- The loop over quoted text, which ends at a quote or at the NUL and returns `p + 1` for both.
pub quoted : Bytes → Parsed
quoted [] = overrun
quoted (c ∷ s) = if c == b'"' || c == 0 then token [] s else longer c (quoted s)

-- `*p > ' ' && *p != ',' && *p != '#' && *p != '='`
unfoldable pub in_word : ℕ → Bool
unfolding is_white
in_word c = not (is_white c) && not (c == b',') && not (c == b'#') && not (c == b'=')

pub word : Bytes → Parsed
unfolding in_word
word [] = overrun
word (c ∷ s) = if in_word c then longer c (word s) else token [] (c ∷ s)

-- What follows `skipwhite`.
pub at_start : Start → Parsed
unfolding quoted word
at_start stopped = line_end
at_start lost = overrun
at_start (found c s) =
    if c == b'"'
    then quoted s
    else if c == b'=' || c == b','
    then token (c ∷ []) s
    else word (c ∷ s)

unfoldable pub parse_token : Bytes → Parsed
unfolding skip at_start
parse_token [] = overrun
parse_token (c ∷ s) = if c == 0 then line_end else at_start (skip false (c ∷ s))

parse_token_runs :
    parse_token (codes "  key=1" ++ 0 ∷ []) ≡ token (codes "key") (codes "=1" ++ 0 ∷ [])
unfolding parse_token
parse_token_runs = refl

-- A quote that is not closed takes the pointer behind the NUL.
parse_token_unclosed :
    parse_token (codes " \"ab" ++ 0 ∷ codes "old" ++ 0 ∷ [])
    ≡ token (codes "ab") (codes "old" ++ 0 ∷ [])
unfolding parse_token
parse_token_unclosed = refl
