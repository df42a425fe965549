-- ===== src/Tests/Blocks.antt =====
-- The theorems on blocks and numbers, at the examples.
use network_etc.Base.{◌≡◌, refl, true, some, none, [], ◌∷◌, ◌++◌, arith, codes}
use network_etc.Memblock.{Memblock, write}
use network_etc.Memblock.Contents.{contents, IsValid}
use network_etc.Memblock.Append.{write-append, write_overrun}
use network_etc.Memblock.Codec.{peek, read8, read32, read_each, read_vector}
use network_etc.Tests.Cell.{block, zeros, length-zeros}

pub block-IsValid : IsValid block
block-IsValid = record { allocated = refl; spans = refl; fits = omega arith }

write-append_example :
    (m' : Memblock) × (write zeros block (codes "abcdefgh") ≡ some m')
    × IsValid m'
    × (contents m' ≡ contents block ++ codes "abcdefgh")
write-append_example =
    write-append zeros length-zeros block (codes "abcdefgh") block-IsValid (omega arith)
      (omega arith) (omega arith)

write_overrun_example : write zeros block (zeros 30) ≡ none
write_overrun_example =
    write_overrun zeros length-zeros block (zeros 30) block-IsValid (omega arith) (omega arith)
      (omega arith) (omega arith)

-- A block of forty bytes that holds nothing, and one that holds 1, 2, 3, 4 and more.
abbrev wide : Memblock
wide = record { store = zeros 40; capacity = 40; read_pt = 3; write_pt = 3; size = 0; flag = 2 }

wide-IsValid : IsValid wide
wide-IsValid = record { allocated = refl; spans = refl; fits = omega arith }

abbrev numbers : Memblock
numbers = record {
  store = 0 ∷ 0 ∷ 0 ∷ 2 ∷ 5 ∷ 6 ∷ 7 ∷ 8 ∷ [];
  capacity = 8;
  read_pt = 0;
  write_pt = 8;
  size = 8;
  flag = 2;
}

read32-numbers : read32 numbers ≡ some (numbers, some 512)
unfolding read32 peek
read32-numbers = refl

-- A vector of no bytes: the size is 0.
abbrev none_there : Memblock
none_there = record numbers { store = 0 ∷ 0 ∷ 0 ∷ 0 ∷ 5 ∷ 6 ∷ 7 ∷ 8 ∷ [] }

read_vector_none : read_vector read8 (3 ∷ []) none_there ≡ some (none_there, 3 ∷ [], true)
unfolding read_vector read32 peek read_each
read_vector_none = refl
