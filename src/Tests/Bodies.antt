-- ===== src/Tests/Bodies.antt =====
-- The theorem on chunked bodies, at two chunks.
use network_etc.Base.{
  zero, suc, ℕ, ◌≡◌, refl, some, List, [], ◌∷◌, ◌++◌, All, false, take, drop, arith, codes,
}
use network_etc.Chunked.{Chunk, init, chunkd, parse_chunked}
use network_etc.Chunked.Texts.{Part, IsPart, texts, cleared, contents_of}
use network_etc.Chunked.Decoding.{decodes}

abbrev parts : List Part
parts =
    record { line = codes "5"; body = codes "hello" }
    ∷ record { line = codes "12"; body = codes "0123456789abcdefgh" }
    ∷ []

-- An array in which nothing is noted.
abbrev unused : ℕ → List Chunk
unused zero = []
unused (suc n) = record { start = 0; length = 0 } ∷ unused n

abbrev array : List Chunk
array = unused 16

-- 5, and 18, which is 12 in hexadecimal notation.
parts-IsPart : All IsPart parts
parts-IsPart = (
  record {
    digits = record { value = 5; capital = false } ∷ [];
    valid = (omega arith, tt);
    written = refl;
    count = refl;
    short = omega arith;
    full = omega arith;
    small = omega arith;
  },
  (
    record {
      digits = record { value = 1; capital = false } ∷ record { value = 2; capital = false } ∷ [];
      valid = (omega arith, (omega arith, tt));
      written = refl;
      count = refl;
      short = omega arith;
      full = omega arith;
      small = omega arith;
    },
    tt,
  ),
)

sent : texts parts (codes "\r\n") ≡ codes "5\r\nhello\r\n12\r\n0123456789abcdefgh\r\n0\r\n\r\n"
sent = refl

abbrev noted : List Chunk
noted = record { start = 6; length = 5 } ∷ record { start = 17; length = 18 } ∷ []

decodes_example :
    let memory = (codes "x" ++ codes "\r\n") ++ cleared parts (codes "\r\n") in
    (table : List Chunk) × (parse_chunked
        (λ n. [])
        (codes "x" ++ (13 ∷ 10 ∷ texts parts (codes "\r\n")))
        42
        1
        (init array)
      ≡ some (record (init array) { size = 2; table = table; finished = chunkd }, memory, 40))
    × (take 2 (drop 0 table) ≡ noted)
    × (contents_of memory noted ≡ codes "hello" ∷ codes "0123456789abcdefgh" ∷ [])
unfolding init
decodes_example =
    decodes (λ n. []) parts (codes "x") (codes "\r\n") 42 (init array) parts-IsPart (omega arith)
      (omega arith) (omega arith)
