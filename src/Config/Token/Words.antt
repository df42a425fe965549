-- ===== src/Config/Token/Words.antt =====
-- What `ParseToken` of PL/Config.cpp makes of words, of quoted text and of the bytes between them.
use network_etc.Base.{ℕ, ◌≡◌, ◌≢◌, refl, true, false, [], ◌∷◌, ◌++◌, Bytes, All, arith}
use network_etc.Config.Token.{line_end, token, quoted, in_word, word, parse_token}

-- A word that is not quoted: it has a first byte, which is no quote, and only bytes of words.
abbrev pub IsWord : Bytes → Type 0
IsWord [] = ⊥
IsWord (c ∷ w) = (c ≢ b'"') × (in_word c ≡ true) × All (λ d. in_word d ≡ true) w

-- What can stand between quotes on one line.
abbrev pub InQuotes : ℕ → Type 0
InQuotes c = (c ≢ b'"') × (c ≢ 0) × (c ≢ 10)

abbrev EndsWord : Bytes → Type 0
EndsWord [] = ⊥
EndsWord (c ∷ s) = in_word c ≡ false

word-append :
    (w rest : Bytes)
    → All (λ c. in_word c ≡ true) w
    → EndsWord rest
    → word (w ++ rest) ≡ token w rest
unfolding word
word-append [] [] h e = absurd e
word-append [] (c ∷ rest) h e = rw e
word-append (c ∷ w) rest (hc, h) e = rw (hc, word-append w rest h e)

quoted-append : (t rest : Bytes) → All InQuotes t → quoted (t ++ (b'"' ∷ rest)) ≡ token t rest
unfolding quoted
quoted-append [] rest h = refl
quoted-append (c ∷ t) rest (hc, h) = ground (arith, quoted-append t rest h)

-- An unquoted word is read up to the first byte that ends it.
pub parse_token-word :
    (w rest : Bytes) → IsWord w → EndsWord rest → parse_token (w ++ rest) ≡ token w rest
unfolding parse_token word in_word
parse_token-word [] rest h e = absurd h
parse_token-word (c ∷ w) rest (q, hc, h) e = ground (arith, word-append w rest h e)

-- Quoted text is read up to its closing quote, whatever it holds.
pub parse_token-quoted :
    (t rest : Bytes) → All InQuotes t → parse_token (b'"' ∷ (t ++ (b'"' ∷ rest))) ≡ token t rest
unfolding parse_token
parse_token-quoted t rest h = quoted-append t rest h

pub parse_token-separator : (s : Bytes) → parse_token (b',' ∷ s) ≡ token (b',' ∷ []) s
unfolding parse_token
parse_token-separator s = refl

pub parse_token-assign : (s : Bytes) → parse_token (b'=' ∷ s) ≡ token (b'=' ∷ []) s
unfolding parse_token
parse_token-assign s = refl

pub parse_token-newline : (s : Bytes) → parse_token (10 ∷ s) ≡ line_end
unfolding parse_token
parse_token-newline s = refl

-- A space in front of a quote is skipped.
pub parse_token-space : (s : Bytes) → parse_token (b' ' ∷ b'"' ∷ s) ≡ parse_token (b'"' ∷ s)
unfolding parse_token
parse_token-space s = refl

-- The name in front of the equals sign.
pub parse_token-name : (w s : Bytes) → IsWord w → parse_token (w ++ (b'=' ∷ s)) ≡ token w (b'=' ∷ s)
unfolding in_word
parse_token-name w s h = parse_token-word w (b'=' ∷ s) h refl

word_inline : (w : Bytes) → All (λ c. in_word c ≡ true) w → All (λ c. c ≢ 10) w
unfolding in_word
word_inline [] h = tt
word_inline (c ∷ w) (hc, h) = (ground arith, word_inline w h)

-- A word holds no newline.
pub IsWord-inline : (w : Bytes) → IsWord w → All (λ c. c ≢ 10) w
IsWord-inline [] h = absurd h
IsWord-inline (c ∷ w) (q, h, hs) = word_inline (c ∷ w) (h, hs)
