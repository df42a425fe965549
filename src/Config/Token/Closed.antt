-- ===== src/Config/Token/Closed.antt =====
-- `ParseToken` of PL/Config.cpp stays inside its line where no quote comes before the NUL.
use network_etc.Base.{
  if◌then◌else◌, ◌&&◌, ◌||◌, ◌==◌, ℕ, suc, ◌+◌, ◌≤◌, ◌<◌, ◌≡◌, ◌≢◌, ◌⊎◌, inl, inr, refl, Bool,
  Bool-cases, true, false, [], ◌∷◌, Bytes, length, arith,
}
use network_etc.Config.Token.{
  Parsed, line_end, token, overrun, Start, stopped, found, lost, is_white, in_comment, skip, longer,
  in_word, word, at_start, parse_token,
}

-- A NUL follows, and no quote before it.
abbrev pub Closed : Bytes → Type 0
Closed [] = ⊥
Closed (c ∷ s) = (c ≡ 0) ⊎ ((c ≢ b'"') × Closed s)

abbrev StartWithin : ℕ → Start → Type 0
StartWithin n stopped = Unit
StartWithin n lost = ⊥
StartWithin n (found c s) =
    (c ≢ b'"') × (is_white c ≡ false) × (c ≢ b'#') × Closed s × (length s < n)

-- The token and what is left came out of `n` bytes, and what is left is shorter.
abbrev pub Within : ℕ → Parsed → Type 0
Within n line_end = Unit
Within n overrun = ⊥
Within n (token t rest) = Closed rest × (length t + length rest ≤ n) × (length rest < n)

StartWithin-mono : (n : ℕ) (s : Start) → StartWithin n s → StartWithin (suc n) s
StartWithin-mono n stopped h = tt
StartWithin-mono n lost h = h
StartWithin-mono n (found c s) h = (h.0, h.1, h.2, h.3, omega (arith, h.4))

skip_nul : (b : Bool) (s : Bytes) → skip b (0 ∷ s) ≡ stopped
unfolding skip
skip_nul true s = refl
skip_nul false s = refl

skip-Within : (b : Bool) (s : Bytes) → Closed s → StartWithin (length s) (skip b s)
unfolding skip
skip-Within b [] h = h
skip-Within b (c ∷ s) (inl e) = rw e (rw (skip_nul b s) tt)
skip-Within b (c ∷ s) (inr (q, h)) =
    let next = skip ((b && in_comment c) || c == b'#') s in
    let deeper : StartWithin (suc (length s)) next =
      StartWithin-mono (length s) next (skip-Within ((b && in_comment c) || c == b'#') s h) in
    ground arith

-- A word may be empty.
abbrev WordWithin : ℕ → Parsed → Type 0
WordWithin n line_end = ⊥
WordWithin n overrun = ⊥
WordWithin n (token t rest) = Closed rest × (length t + length rest ≤ n)

longer-WordWithin : (n c : ℕ) (p : Parsed) → WordWithin n p → WordWithin (suc n) (longer c p)
longer-WordWithin n c line_end h = h
longer-WordWithin n c overrun h = h
longer-WordWithin n c (token t rest) h = (h.0, omega (arith, h.1))

longer-Within : (n c : ℕ) (p : Parsed) → WordWithin n p → Within (suc n) (longer c p)
longer-Within n c line_end h = absurd h
longer-Within n c overrun h = h
longer-Within n c (token t rest) h = (h.0, omega (arith, h.1), omega (arith, h.1))

word-WordWithin : (s : Bytes) → Closed s → WordWithin (length s) (word s)
unfolding word
word-WordWithin [] h = h
word-WordWithin (c ∷ s) (inl e) = rw e (inl refl, omega arith)
word-WordWithin (c ∷ s) (inr (q, h)) = elim (Bool-cases (in_word c)) [
  | inl more ↦ rw more (longer-WordWithin (length s) c (word s) (word-WordWithin s h))
  | inr done ↦ rw done (inr (q, h), omega arith)
]

Within-mono : (m n : ℕ) (p : Parsed) → m ≤ n → Within m p → Within n p
Within-mono m n line_end k h = tt
Within-mono m n overrun k h = h
Within-mono m n (token t rest) k h = (h.0, omega (arith, h.1), omega (arith, h.2))

at_start-Within : (n : ℕ) (s : Start) → StartWithin n s → Within n (at_start s)
unfolding at_start in_word
at_start-Within n stopped h = tt
at_start-Within n lost h = h
at_start-Within n (found c s) (q, w, hash, h, k) =
    let inside : Within n (longer c (word s)) =
      Within-mono (suc (length s)) n (longer c (word s)) k
        (longer-Within (length s) c (word s) (word-WordWithin s h)) in
    ground arith

if-Within : (b : Bool) (n : ℕ) (p : Parsed) → Within n p → Within n (if b then line_end else p)
if-Within true n p h = tt
if-Within false n p h = h

-- On such a line a token is read inside the line: it fits the bytes that are read, at least one is
-- taken, and the line that is left is of the same kind.
pub parse_token-Within : (s : Bytes) → Closed s → Within (length s) (parse_token s)
unfolding parse_token
parse_token-Within [] h = h
parse_token-Within (c ∷ s) h =
    if-Within (c == 0) (length (c ∷ s)) _
      (at_start-Within (length (c ∷ s)) (skip false (c ∷ s)) (skip-Within false (c ∷ s) h))
