-- ===== src/Memblock.antt =====
-- netfram/Memblock.cpp: `CMemblock`, a growing byte buffer with a read and a write pointer.
-- Pointers are offsets from `mpcBase`; `mpcEnd` is always `mpcBase + muCapacity`, so the field
-- `capacity` stands for both. An access outside the allocation is `none`.
pub mod Contents
pub mod Grow
pub mod Append
pub mod Codec
pub mod Copies
use network_etc.Base.{
  ℕ, zero, suc, ◌+◌, ◌-◌, ◌*◌, ◌/◌, ◌%◌, ◌^◌, ◌≤◌, ◌≡◌, Bool, true, false, ◌||◌, ◌&&◌, not, Option,
  none, some, List, [], ◌∷◌, ◌++◌, Bytes, length, take, drop, ltb, leb, ◌==◌, if◌then◌else◌, u64,
  ◌>>=◌,
}

pub record Memblock : Type 0 where
  pub store : Bytes  -- the allocation that starts at mpcBase
  pub capacity : ℕ  -- muCapacity, mpcEnd - mpcBase
  pub read_pt : ℕ  -- mpcReadPt - mpcBase
  pub write_pt : ℕ  -- mpcWritePt - mpcBase
  pub size : ℕ  -- muSize
  pub flag : ℕ  -- miFlag

abbrev pub mem_dont_delete : ℕ
mem_dont_delete = 1

abbrev pub mem_do_delete : ℕ
mem_do_delete = 2

abbrev pub mem_block_released : ℕ
mem_block_released = 4

-- The default constructor, and `Release`.
abbrev pub empty : Memblock
empty = record { store = []; capacity = 0; read_pt = 0; write_pt = 0; size = 0; flag = 0 }

abbrev pub release : Memblock → Memblock
release m = record empty { flag = mem_block_released }

-- memcpy, memmove and stores through a pointer.
unfoldable pub splice : Bytes → ℕ → Bytes → Option Bytes
splice store at bs =
    if leb (at + length bs) (length store)
    then some (take at store ++ (bs ++ drop (at + length bs) store))
    else none

-- The `n` bytes from `at` on, for memcpy out of the block.
pub fetch : Bytes → ℕ → ℕ → Option Bytes
fetch store at n = if leb (at + n) (length store) then some (take n (drop at store)) else none

-- What `Init` finds at `apcData`: nothing, the block's own memory, or other bytes.
pub data Source : Type 0 where
  no_data : Source
  in_place : ℕ → Source
  copied : Bytes → Source

-- The part of `Init` behind the choice of `mpcBase`, whose memory is `memory`.
fill : Memblock → Source → Option Memblock
fill m no_data = some m
fill m (in_place len) = some (record m { size = len; write_pt = len })
fill m (copied bs) = do
  store ← splice m.store 0 bs
  some (record m { store = store; size = length bs; write_pt = length bs })

abbrev source_len : Source → ℕ
source_len no_data = 0
source_len (in_place len) = len
source_len (copied bs) = length bs

-- `Init`: -1 leaves the block alone.
unfoldable pub init : Memblock → ℕ → Bytes → Source → ℕ → Option (Memblock × Bool)
unfolding fill splice
init m au_size memory source flag =
    if leb au_size 0 || ltb au_size (source_len source) then some (m, false) else do
      m' ←
          fill
            (record {
              store = memory;
              capacity = au_size;
              read_pt = 0;
              write_pt = 0;
              size = 0;
              flag = flag;
            })
            source
      some (m', true)

-- `SetWrite(size_t)`: false is -1 with ENOSPC.
unfoldable pub set_write : Memblock → ℕ → Memblock × Bool
set_write m n =
    if ltb (m.capacity - m.write_pt) n
    then (m, false)
    else (record m { write_pt = m.write_pt + n; size = m.size + n }, true)

-- `SetWrite(char*)`
unfoldable pub set_write_at : Memblock → ℕ → Memblock × Bool
set_write_at m p =
    if ltb p m.read_pt || ltb m.capacity p
    then (m, false)
    else (record m { write_pt = p; size = p - m.read_pt }, true)

-- `SetRead(size_t)`: false is -1 with ENODATA.
unfoldable pub set_read : Memblock → ℕ → Memblock × Bool
set_read m n =
    if m.size == 0 || ltb m.size n
    then (m, false)
    else (record m { read_pt = m.read_pt + n; size = m.size - n }, true)

-- `SetRead(char*)`, with the tests of the source: a pointer behind `mpcBase` is refused.
pub set_read_at : Memblock → ℕ → Memblock × Bool
set_read_at m p =
    if ltb m.write_pt p || ltb 0 p
    then (m, false)
    else (record m { read_pt = p; size = m.write_pt - p }, true)

unfoldable pub reset : Memblock → Memblock
reset m = record m { read_pt = 0; write_pt = 0; size = 0 }

-- `Shrink`: the contents move to the front.
pub shrink : Memblock → Option Memblock
unfolding fetch splice
shrink m = do
  bs ← fetch m.store m.read_pt m.size
  store ← splice m.store 0 bs
  some (record m { store = store; read_pt = 0; write_pt = m.size })

unfoldable pub get_direct_space : Memblock → ℕ
get_direct_space m = m.capacity - m.write_pt

unfoldable pub get_space : Memblock → ℕ
get_space m = m.capacity - m.size

-- `Read(char*, size_t)`: the bytes copied out, or -1 with ENODATA.
pub read_bytes : Memblock → ℕ → Option (Memblock × Option Bytes)
unfolding fetch
read_bytes m n =
    if m.size == 0
    then some (m, none)
    else if ltb m.size n
    then (do
      bs ← fetch m.store m.read_pt m.size
      some (record m { read_pt = m.write_pt; size = 0 }, some bs))
    else do
      bs ← fetch m.store m.read_pt n
      some (record m { read_pt = m.read_pt + n; size = m.size - n }, some bs)

-- The loop of `Expand`: `luSize <<= 2` until `luSize - muSize - auSize` is not 0. The two
-- subtractions are unsigned.
pub grow : ℕ → ℕ → ℕ → Option ℕ
grow zero lu need = none
grow (suc fuel) lu need =
    let lu' = (lu * 4) % u64 in
    let more = grow fuel lu' need in if (lu' + u64 - need) % u64 == 0 then more else some lu'

-- `Write(char const*, size_t)` behind `Expand`.
pub put : Memblock → Bytes → Option Memblock
unfolding splice
put m bs = do
  store ← splice m.store m.write_pt bs
  some (record m { store = store; write_pt = m.write_pt + length bs; size = m.size + length bs })

-- The contents move to the front where the room behind the write pointer is too small.
pub compact : Memblock → ℕ → Option Memblock
unfolding fetch splice
compact m n =
    if ltb (m.capacity - m.write_pt) n
    then (do
      bs ← fetch m.store m.read_pt (m.write_pt - m.read_pt)
      store ← splice m.store 0 bs
      some (record m { store = store; read_pt = 0; write_pt = m.write_pt - m.read_pt }))
    else some m

-- `new char[n]` gives `n` bytes of whatever content.
module _ (alloc : ℕ → Bytes) where
  pub resize : Memblock → ℕ → Option Memblock
  unfolding fetch splice
  resize m n = if leb n m.capacity then some m else do
    bs ← fetch m.store m.read_pt m.size
    store ← splice (alloc n) 0 bs
    some (record m { store = store; capacity = n; read_pt = 0; write_pt = m.size })

  -- `liRemain < 0` reads the sign of a 64-bit difference. Two rounds of the loop are enough.
  pub expand : Memblock → ℕ → Option Memblock
  expand m n =
      if leb (2 ^ 63) ((m.capacity + u64 - (m.size + n) % u64) % u64)
      then (grow 2 m.capacity ((m.size + n) % u64) >>= resize m)
      else some m

  pub write : Memblock → Bytes → Option Memblock
  write m bs = do m₁ ← expand m (length bs); m₂ ← compact m₁ (length bs); put m₂ bs

  -- `Clone`: a block over fresh memory, filled with the contents.
  pub clone : Memblock → Option (Memblock × Bool)
  unfolding init fetch
  clone m = do
    bs ← fetch m.store m.read_pt (m.write_pt - m.read_pt)
    init empty m.capacity (alloc m.capacity) (copied bs) m.flag
