-- ===== src/Chunked.antt =====
-- The chunked bodies of `CIMFHeader` in HTTPClient/IMF.cpp: `ParseChunked`, with `SkipCrlf` and
-- `SeekCrlf` as HTTP/IMF.cpp has them too. Memory is a list of bytes from `buf` on, pointers are
-- offsets, and what C++ leaves undefined is `none`.
pub mod Steps
pub mod Hex
pub mod Texts
pub mod Noting
pub mod Decoding
use network_etc.Base.{
  ℕ, zero, suc, ◌+◌, ◌-◌, ◌*◌, ◌^◌, ◌≡◌, Bool, true, false, ◌&&◌, Option, none, some, List, [], ◌∷◌,
  ◌++◌, Bytes, length, take, drop, ltb, leb, ◌==◌, if◌then◌else◌, ◌>>=◌,
}
use network_etc.Imf
use network_etc.Imf.{skip_crlf, seek_crlf}

pub record Chunk : Type 0 where
  pub start : ℕ
  pub length : ℕ

pub data State : Type 0 where
  header : State
  chunk : State
  chunkd : State

-- `miChunkSize`, `miCapChunkSize`, `mpoChunks` and `meChunkFinished`.
pub record Chunks : Type 0 where
  pub size : ℕ
  pub cap : ℕ
  pub table : List Chunk
  pub finished : State

unfoldable pub init : List Chunk → Chunks
init array = record { size = 0; cap = Imf.buffer_size; table = array; finished = header }

-- `hex_table`, which ends behind `f`; a char from 128 on is a negative index.
abbrev pub hex_value : ℕ → Option ℕ
hex_value c =
    if ltb 102 c
    then none
    else if leb 48 c && leb c 57
    then some (c - 48)
    else if leb 65 c && leb c 70
    then some (c - 55)
    else if leb 97 c
    then some (c - 87)
    else some 0

-- `Hex2Int` from the value so far, for an `int`.
unfoldable pub hex2int : ℕ → Bytes → Option ℕ
hex2int n [] = some n
hex2int n (c ∷ s) =
    if c == 0
    then some n
    else (hex_value c >>= λ d. if ltb (n * 16 + d) (2 ^ 31) then hex2int (n * 16 + d) s else none)

-- The variables of the loop: `memory`, `pStart`, `nChunk`, and the members.
pub record Loop : Type 0 where
  pub memory : Bytes
  pub pos : ℕ
  pub count : ℕ
  pub chunks : Chunks

-- `GetChunk`, as the offset.
unfoldable pub get_chunk : Chunks → ℕ → Option ℕ
get_chunk h num =
    if leb h.size num then none else elim (drop num h.table) [ [] ↦ none | c ∷ _ ↦ some c.start ]

-- `new Chunk[n]` gives `n` elements of whatever content.
module _ (alloc : ℕ → List Chunk) where
  -- `GetChunks`
  unfoldable pub get_chunks : Chunks → ℕ → Chunks
  get_chunks h new_size = if ltb new_size h.cap then h else record h {
    cap = h.cap * 2;
    table = take h.size h.table ++ drop h.size (alloc (h.cap * 2));
  }

  -- A chunk of `n` bytes at the place `p` is noted, and the byte behind it overwritten.
  abbrev pub note : Loop → ℕ → ℕ → Loop
  note s p n =
      let h = get_chunks s.chunks s.count in
      record {
        memory = Imf.set s.memory (p + n) 0;
        pos = p + n + 2;
        count = s.count + 1;
        chunks = record h { table = Imf.set h.table s.count (record { start = p; length = n }) };
      }

  -- `strlength` has 10 bytes.
  pub parse_chunks : ℕ → ℕ → Loop → Option Loop
  unfolding hex2int
  parse_chunks zero len s = none
  parse_chunks (suc fuel) len s = elim (skip_crlf s.memory s.pos (len - s.pos)) [
    | none ↦ some s
    | some p ↦ elim (seek_crlf s.memory p (len - p)) [
      | none ↦ some (record s { pos = p })
      | some q ↦
          if ltb 9 (q - p)
          then none
          else (hex2int 0 (take (q - p) (drop p s.memory)) >>= λ n.
              let rest = parse_chunks fuel len (note s (q + 2) n) in
              if n == 0
              then some (record s { pos = q + 2; chunks = record (s.chunks) { finished = chunkd } })
              else if ltb (q + 2 + n) (length s.memory)
              then rest
              else none)
    ]
  ]

  -- `ParseChunked`: the members, the memory, and the place behind what was taken. Each round moves on.
  unfoldable pub parse_chunked : Bytes → ℕ → ℕ → Chunks → Option (Chunks × Bytes × ℕ)
  unfolding parse_chunks
  parse_chunked memory len offs h =
      parse_chunks (length memory + 1) len (record {
        memory = memory;
        pos = offs;
        count = h.size;
        chunks = record h { finished = chunk };
      })
      >>= λ s. some (record (s.chunks) { size = s.count }, s.memory, s.pos)
