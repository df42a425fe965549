-- ===== src/Lease/Msg/Transmit.antt =====
-- `PLeaseMsg::Write` into a block, and `Read` of the block's contents.
use mathlib.Core.Path.{subst}
use network_etc.Base.{
  ℕ, zero, suc, ◌+◌, ◌-◌, ◌≤◌, ◌<◌, ◌≡◌, ◌∙◌, refl, ap, true, some, [], ◌∷◌, ◌++◌, Bytes, length,
  take, drop, arith, append_assoc, length-append, length-take,
}
use network_etc.Memblock
use network_etc.Memblock.{Memblock}
use network_etc.Memblock.Contents.{contents, IsValid, splice_lem, length-splice, window-append}
use network_etc.Lease.Msg.{PLeaseMsg, encode, read, write}
use network_etc.Lease.Msg.Wire.{InRange, received, read-encode}
use network_etc.Lease.Msg.Length.{length-encode}

-- The block after `snprintf` printed `out` behind its write pointer, and `SetWrite(n)`.
abbrev pub after : Memblock → Bytes → ℕ → Memblock
after b out n = record b {
  store = take b.write_pt b.store ++ (out ++ drop (b.write_pt + length out) b.store);
  write_pt = b.write_pt + n;
  size = b.size + n;
}

pub take_all : (n : ℕ) (text : Bytes) → length text ≤ n → take n text ≡ text
take_all zero [] h = refl
take_all (suc n) [] h = refl
take_all zero (c ∷ text) h = absurd (omega arith)
take_all (suc n) (c ∷ text) h = ap (λ l. c ∷ l) (take_all n text (omega arith))

encode-not_empty : (m : PLeaseMsg) (text : Bytes) → encode m ≡ some text → 0 < length text
unfolding encode
encode-not_empty m [] e = absurd (ground arith)
encode-not_empty m (c ∷ text) e = omega arith

write-after :
    (m : PLeaseMsg) (b : Memblock) (text : Bytes)
    → IsValid b
    → encode m ≡ some text
    → length text < b.capacity - b.write_pt
    → write m b ≡ some (after b (text ++ 0 ∷ []) (length text), true)
unfolding write Memblock.get_direct_space Memblock.set_write
write-after m b text v e h =
    let room = b.capacity - b.write_pt in
    ground (
      arith,
      take_all (room - 1) text (omega arith),
      length-append text (0 ∷ []),
      encode-not_empty m text e,
      splice_lem b.store b.write_pt (text ++ 0 ∷ [])
          (omega (arith, length-append text (0 ∷ []), v.allocated)),
    )

pub after-IsValid :
    (b : Memblock) (out : Bytes) (n : ℕ)
    → IsValid b
    → length out ≤ b.capacity - b.write_pt
    → n ≤ length out
    → IsValid (after b out n)
after-IsValid b out n v h k = record {
  allocated = length-splice b.store b.write_pt out (omega arith) ∙ v.allocated;
  spans = omega arith;
  fits = omega arith;
}

-- The first part of what was printed is what the block gains.
pub contents-after :
    (b : Memblock) (text more : Bytes)
    → IsValid b
    → contents (after b (text ++ more) (length text)) ≡ contents b ++ text
contents-after b text more v =
    rw (append_assoc text more _, ← v.spans)
      (window-append b.store text (more ++ _) b.read_pt b.size (omega arith))

contents-after_all :
    (b : Memblock) (out : Bytes)
    → IsValid b
    → contents (after b out (length out)) ≡ contents b ++ out
contents-after_all b out v =
    rw (← v.spans) (window-append b.store out _ b.read_pt b.size (omega arith))

-- A message that leaves a byte of room is appended to the contents.
pub write-append :
    (m : PLeaseMsg) (b : Memblock) (text : Bytes)
    → IsValid b
    → encode m ≡ some text
    → length text < b.capacity - b.write_pt
    → (b' : Memblock) × (write m b ≡ some (b', true))
      × IsValid b'
      × (contents b' ≡ contents b ++ text)
write-append m b text v e h = (
  after b (text ++ 0 ∷ []) (length text),
  write-after m b text v e h,
  after-IsValid b (text ++ 0 ∷ []) (length text) v (omega (arith, length-append text (0 ∷ [])))
      (omega (arith, length-append text (0 ∷ []))),
  contents-after b text (0 ∷ []) v,
)

-- Where the text of a message fills the room of a valid block to the last byte,
-- `Write` answers true, and the block gains the text with a zero in place of the last byte.
pub write_cut :
    (m : PLeaseMsg) (b : Memblock) (text : Bytes)
    → IsValid b
    → encode m ≡ some text
    → length text ≡ b.capacity - b.write_pt
    → (b' : Memblock) × (write m b ≡ some (b', true))
      × (contents b' ≡ contents b ++ (take (length text - 1) text ++ 0 ∷ []))
unfolding write Memblock.get_direct_space Memblock.set_write
write_cut m b text v e h =
    let p = encode-not_empty m text e in
    let room = b.capacity - b.write_pt in
    let out = take (room - 1) text ++ 0 ∷ [] in
    let n : length out ≡ length text =
      omega (arith, length-append (take (room - 1) text) (0 ∷ []), length-take (room - 1) text) in
    (
      after b out (length text),
      ground (arith, splice_lem b.store b.write_pt out (omega (arith, v.allocated)), n),
      rw h (
          subst (λ k. contents (after b out k) ≡ contents b ++ out) (n ∙ h)
            (contents-after_all b out v)),
    )

-- Sending, where the message has a known type and fields within their C types, and the block is
-- valid with room for 77 bytes: the block is reset, `Write` succeeds, and `Read` of the block's
-- contents leaves the receiver's message as the setter of that type would.
pub transmit :
    (m₀ m : PLeaseMsg) (b : Memblock) (text : Bytes)
    → IsValid b
    → 77 ≤ b.capacity
    → InRange m
    → encode m ≡ some text
    → (b' : Memblock) × (write m (Memblock.reset b) ≡ some (b', true))
      × (read m₀ (contents b') ≡ (received m₀ m, true))
unfolding Memblock.reset
transmit m₀ m b text v c r e =
    let v' : IsValid (Memblock.reset b) = record {
      allocated = v.allocated;
      spans = omega arith;
      fits = omega arith;
    } in
    let (b', w, _, same) =
      write-append m (Memblock.reset b) text v' e (omega (arith, length-encode m text r e)) in
    (b', w, rw same (read-encode m₀ m r text e))
