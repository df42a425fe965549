-- ===== src/Tests/Headers.antt =====
-- The theorems on message headers, at the examples.
use network_etc.Base.{ℕ, zero, suc, ◌*◌, ◌≡◌, refl, true, List, [], ◌∷◌, ◌++◌, Bytes, take, codes}
use network_etc.Imf.{
  KeyValue, Parse, init, parse, field, skip_whitespace, seek_ends, seek_crlf, seek_char,
}
use network_etc.Imf.Bounds.{InText, parse-InText}
use network_etc.Imf.Growing.{field_growth}

abbrev blanks : ℕ → List KeyValue
blanks zero = []
blanks (suc n) =
    record { key_start = 0; key_length = 0; value_start = 0; value_length = 0 } ∷ blanks n

-- Between the line before and the blank line.
abbrev message : Bytes
message = 13 ∷ 10 ∷ (codes "Host: x" ++ 13 ∷ 10 ∷ 13 ∷ 10 ∷ 0 ∷ [])

parse-InText_example : InText 13 (parse blanks (init (blanks 16)) message 13 0)
parse-InText_example = parse-InText blanks 13 (blanks 16) message 0 refl

-- Sixteen fields have been found, and the next one is at hand.
abbrev filled : Parse
filled = record {
  memory = codes "Host: x" ++ 13 ∷ 10 ∷ [];
  pos = 0;
  nkv = 16;
  header = record { size = 0; cap = 16; table = blanks 16 };
}

filled_goes_on : (field blanks 9 filled).1 ≡ true
unfolding field skip_whitespace seek_crlf seek_ends seek_char
filled_goes_on = refl

field_growth_example : take 16 (field blanks 9 filled).0.header.table ≡ take 16 (blanks (16 * 2))
field_growth_example = field_growth blanks 9 filled refl refl filled_goes_on
