-- ===== src/Text/Scan/Fields.antt =====
-- How `vsnreadf` goes over fields that `snprintf` printed, one field of the format at a time.
use network_etc.Base.{
  ℕ, ◌+◌, ◌<◌, ◌≡◌, refl, List, [], ◌∷◌, ◌++◌, Bytes, length, u32, u64, arith, drop-append_length,
  append-nil, take, take-append_length,
}
use network_etc.Text.{decimal}
use network_etc.Text.Decimal.{Stops, strntouint64-decimal, length-decimal_pos}
use network_etc.Text.Scan.{
  ch, stop, read, unsigned, uint64, advance, convert, behind, scan, shared, share_block, body,
}

convert_unsigned :
    (n : ℕ) (rest : Bytes) (spaces : List ℕ)
    → n < u32
    → Stops rest
    → convert b'u' (decimal n ++ rest) spaces
      ≡ record { stored = unsigned n ∷ []; spaces = spaces; verdict = advance (length (decimal n)) }
unfolding convert
convert_unsigned n rest spaces h k =
    ground (arith, strntouint64-decimal n rest (omega arith) k, length-decimal_pos n)

convert_uint64 :
    (n : ℕ) (rest : Bytes) (spaces : List ℕ)
    → n < u64
    → Stops rest
    → convert b'U' (decimal n ++ rest) spaces
      ≡ record { stored = uint64 n ∷ []; spaces = spaces; verdict = advance (length (decimal n)) }
unfolding convert
convert_uint64 n rest spaces h k =
    ground (arith, strntouint64-decimal n rest h k, length-decimal_pos n)

module _ (fs rest : Bytes) (spaces : List ℕ) (count : ℕ) where
  pub scan_unsigned :
      (n : ℕ)
      → n < u32
      → Stops rest
      → scan (b'%' ∷ b'u' ∷ fs) (decimal n ++ rest) spaces count
        ≡ behind (unsigned n ∷ []) (scan fs rest spaces (count + length (decimal n)))
  unfolding scan
  scan_unsigned n h k = rw (convert_unsigned n rest spaces h k, drop-append_length (decimal n) rest)

  pub scan_uint64 :
      (n : ℕ)
      → n < u64
      → Stops rest
      → scan (b'%' ∷ b'U' ∷ fs) (decimal n ++ rest) spaces count
        ≡ behind (uint64 n ∷ []) (scan fs rest spaces (count + length (decimal n)))
  unfolding scan
  scan_uint64 n h k = rw (convert_uint64 n rest spaces h k, drop-append_length (decimal n) rest)

  pub scan_char :
      (c : ℕ)
      → scan (b'%' ∷ b'c' ∷ fs) (c ∷ rest) spaces count
        ≡ behind (ch c ∷ []) (scan fs rest spaces (count + 1))
  unfolding scan convert
  scan_char c = refl

-- A `:` of the format that is not the last character.
pub scan_colon :
    (g : ℕ) (fs rest : Bytes) (spaces : List ℕ) (count : ℕ)
    → scan (b':' ∷ g ∷ fs) (b':' ∷ rest) spaces count ≡ scan (g ∷ fs) rest spaces (count + 1)
unfolding scan
scan_colon g fs rest spaces count = refl

-- A number between colons, and a number at the end of the format and of the text.
module _ (g : ℕ) (fs rest : Bytes) (count n : ℕ) where
  pub unsigned_field :
      n < u32
      → scan (b'%' ∷ b'u' ∷ b':' ∷ g ∷ fs) (decimal n ++ (b':' ∷ rest)) [] count
        ≡ behind (unsigned n ∷ []) (scan (g ∷ fs) rest [] (count + length (decimal n) + 1))
  unfolding scan
  unsigned_field h = scan_unsigned (b':' ∷ g ∷ fs) (b':' ∷ rest) [] count n h refl

  pub uint64_field :
      n < u64
      → scan (b'%' ∷ b'U' ∷ b':' ∷ g ∷ fs) (decimal n ++ (b':' ∷ rest)) [] count
        ≡ behind (uint64 n ∷ []) (scan (g ∷ fs) rest [] (count + length (decimal n) + 1))
  unfolding scan
  uint64_field h = scan_uint64 (b':' ∷ g ∷ fs) (b':' ∷ rest) [] count n h refl

module _ (count n : ℕ) where
  pub unsigned_last :
      n < u32
      → scan (b'%' ∷ b'u' ∷ []) (decimal n) [] count
        ≡ behind (unsigned n ∷ []) (stop (read (count + length (decimal n))))
  unfolding scan
  unsigned_last h = rw append-nil at (scan_unsigned [] [] [] count n h tt)

  pub uint64_last :
      n < u64
      → scan (b'%' ∷ b'U' ∷ []) (decimal n) [] count
        ≡ behind (uint64 n ∷ []) (stop (read (count + length (decimal n))))
  unfolding scan
  uint64_last h = rw append-nil at (scan_uint64 [] [] [] count n h tt)

-- The type byte and the colon behind it.
pub type_field :
    (c g : ℕ) (fs rest : Bytes)
    → scan (b'%' ∷ b'c' ∷ b':' ∷ g ∷ fs) (c ∷ b':' ∷ rest) [] 0
      ≡ behind (ch c ∷ []) (scan (g ∷ fs) rest [] 2)
unfolding scan convert
type_field c g fs rest = refl

take_whole : (bs : Bytes) → take (length bs) bs ≡ bs
take_whole bs = rw append-nil at (take-append_length bs [])

convert_shared :
    (bs : Bytes)
    → length bs < u64
    → convert b'N' (decimal (length bs) ++ (b':' ∷ bs)) [] ≡ record {
      stored = shared bs ∷ [];
      spaces = [];
      verdict = advance (length (decimal (length bs)) + 1 + length bs);
    }
unfolding convert share_block body
convert_shared bs h =
    rw
      (
        strntouint64-decimal (length bs) (b':' ∷ bs) h refl,
        drop-append_length (decimal (length bs)) (b':' ∷ bs),
      )
      (ground (arith, length-decimal_pos (length bs), take_whole bs))

-- A block with its size before it, at the end of the format and of the text.
pub shared_last :
    (count : ℕ) (bs : Bytes)
    → length bs < u64
    → scan (b'%' ∷ b'N' ∷ []) (decimal (length bs) ++ (b':' ∷ bs)) [] count
      ≡ behind
          (shared bs ∷ [])
          (stop (read (count + (length (decimal (length bs)) + 1 + length bs))))
unfolding scan
shared_last count bs h = rw (convert_shared bs h) refl
