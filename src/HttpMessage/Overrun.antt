-- ===== src/HttpMessage/Overrun.antt =====
-- `EncodeStartLine` where part of the block has been read: its idea of the room is too large.
use network_etc.Base.{
  ℕ, ◌+◌, ◌-◌, ◌≤◌, ◌<◌, ◌≡◌, refl, none, some, [], ◌∷◌, Bytes, length, arith, length-append, ◌==◌,
  false,
}
use network_etc.Memblock
use network_etc.Memblock.{Memblock}
use network_etc.Memblock.Contents.{IsValid}
use network_etc.Lease.Msg.{printed}
use network_etc.Lease.Msg.Transmit.{take_all}
use network_etc.HttpMessage.{HttpMessage, start_line, print_at, encode_start_line, encode_message}

past_end :
    (store : Bytes) (cur space : ℕ) (text : Bytes)
    → length text < space
    → length store ≤ cur + length text
    → print_at store cur space text ≡ none
unfolding print_at printed Memblock.splice
past_end store cur space text h k =
    ground (arith, take_all (space - 1) text (omega arith), length-append text (0 ∷ []))

-- In a valid block, a first line that is shorter than the room that is not held by contents, but
-- not than the room behind the write pointer, is written past the end of the allocation.
pub encode_message_overruns :
    (alloc : ℕ → Bytes) (m : HttpMessage) (b : Memblock) (first : Bytes)
    → IsValid b
    → start_line m.kind m.version ≡ some first
    → length first < b.capacity - b.size
    → b.capacity ≤ b.write_pt + length first
    → encode_message alloc m b ≡ none
unfolding encode_message encode_start_line Memblock.get_space
encode_message_overruns alloc m b first v e h k =
    let some_room : (b.capacity == 0) ≡ false = ground arith in
    rw some_room (
      rw (e, encode_start_line)
        (rw
          (
            some_room,
            past_end b.store b.write_pt (b.capacity - b.size) first h (omega (arith, v.allocated)),
          )
          refl))
