-- ===== src/LogMsg/Sending.antt =====
-- What becomes of a value that is given to `ReplicatedLogMsg`, and the text of a value on `Read`.
use network_etc.Base.{
  ℕ, ◌+◌, ◌-◌, ◌<◌, ◌≡◌, ◌^◌, refl, sym, ◌∙◌, true, some, [], ◌∷◌, ◌++◌, Bytes, length, u32, u64,
  arith, codes, length-append, ap, append-nil, take, drop,
}
use network_etc.Text.{decimal}
use network_etc.Text.Scan.{unsigned, uint64, shared, read as read_all, snreadf}
use network_etc.Text.Scan.Fields.{unsigned_field, uint64_field, shared_last}
use network_etc.Lease.Msg.{◌:+◌, consumed, printed}
use network_etc.Lease.Msg.Formats.{Scans, length-:+}
use network_etc.Memblock
use network_etc.Memblock.{Memblock, mem_dont_delete}
use network_etc.Memblock.Contents.{contents, IsValid, splice_lem, fetch_lem, length-window}
use network_etc.Memblock.Append
use network_etc.Lease.Msg.Transmit.{after, take_all, after-IsValid, contents-after}
use network_etc.LogMsg.{ReplicatedLogMsg, init, write, print, head_text, read, assign}

-- The message with other numbers and another value.
abbrev with_head : ReplicatedLogMsg → ℕ → ℕ → ℕ → Memblock → ReplicatedLogMsg
with_head m a b c v = record m { node_id = a; restart_counter = b; lease_epoch = c; value = v }

module _ (a b c : ℕ) (p : a < u32) (q : b < u64) (r : c < u64) where
  scan_log :
      (bs : Bytes)
      → length bs < u64
      → Scans
          (codes "%u:%U:%U:%N")
          (decimal a :+ decimal b :+ decimal c :+ decimal (length bs) :+ bs)
          (unsigned a ∷ uint64 b ∷ uint64 c ∷ shared bs ∷ [])
  scan_log bs h =
      rw
        (
          unsigned_field _ _ _ _ a p,
          uint64_field _ _ _ _ b q,
          uint64_field _ _ _ _ c r,
          shared_last _ bs h,
        )
        (ap
          (λ n. record {
            outcome = read_all n;
            stored = unsigned a ∷ uint64 b ∷ uint64 c ∷ shared bs ∷ [];
          })
          (omega (
            arith,
            length-:+ (decimal a) (decimal b :+ decimal c :+ decimal (length bs) :+ bs),
            length-:+ (decimal b) (decimal c :+ decimal (length bs) :+ bs),
            length-:+ (decimal c) (decimal (length bs) :+ bs),
            length-:+ (decimal (length bs)) bs,
          )))

  -- The text of a message whose value is not empty: its block holds the value.
  pub read-text :
      (m : ReplicatedLogMsg) (bs : Bytes)
      → 0 < length bs
      → length bs < u64
      → read m (decimal a :+ decimal b :+ decimal c :+ decimal (length bs) :+ bs)
        ≡ some (
          with_head m a b c (record {
            store = bs;
            capacity = length bs;
            read_pt = 0;
            write_pt = length bs;
            size = length bs;
            flag = mem_dont_delete;
          }),
          true,
        )
  unfolding read assign snreadf consumed Memblock.init
  read-text m bs h k = rw (scan_log bs k) (ground arith)

  -- The text of one whose value is empty: the value stays.
  pub read-empty :
      (m : ReplicatedLogMsg)
      → read m (decimal a :+ decimal b :+ decimal c :+ decimal 0 :+ [])
        ≡ some (with_head m a b c m.value, true)
  unfolding read assign snreadf consumed Memblock.init
  read-empty m = rw (scan_log [] (omega arith)) (ground arith)

-- The text of a message without a value.
abbrev bare : ℕ → ℕ → ℕ → Bytes
bare a b c = decimal a :+ decimal b :+ decimal c :+ decimal 0 :+ []

text_bare :
    (m : ReplicatedLogMsg)
    → m.value.size ≡ 0
    → head_text m ≡ bare m.node_id m.restart_counter m.lease_epoch
text_bare m z = rw (z) refl

print-after :
    (out : Memblock) (text : Bytes)
    → IsValid out
    → length text < out.capacity - out.write_pt
    → print out text ≡ some (after out (text ++ 0 ∷ []) (length text))
unfolding print printed Memblock.get_direct_space Memblock.set_write
print-after out text good h =
    let room = out.capacity - out.write_pt in
    ground (
      arith,
      take_all (room - 1) text (omega arith),
      length-append text (0 ∷ []),
      splice_lem out.store out.write_pt (text ++ 0 ∷ [])
          (omega (arith, length-append text (0 ∷ []), good.allocated)),
    )

module _ (alloc : ℕ → Bytes) (full : (n : ℕ) → length (alloc n) ≡ n) where
  -- The new block of `Init` holds nothing yet, so that nothing is written to it.
  pub init_drops :
      (m : ReplicatedLogMsg) (a b c : ℕ) (given : Memblock)
      → IsValid given
      → 0 < given.size
      → given.size < 2 ^ 59
      → (v : Memblock) × (init alloc m a b c given ≡ some (with_head m a b c v))
        × IsValid v
        × (v.size ≡ 0)
  unfolding init Memblock.init
  init_drops m a b c given ok h k =
      let block : Memblock = record {
        store = alloc given.size;
        capacity = given.size;
        read_pt = 0;
        write_pt = 0;
        size = 0;
        flag = 2;
      } in
      let (v, e, ok', same) =
        Append.write-append alloc full block []
          (record { allocated = full given.size; spans = refl; fits = omega arith }) h k
          (omega arith) in
      let none_held : v.size ≡ 0 =
        sym (
          length-window v.store v.read_pt v.size
            (omega (arith, ok'.allocated, ok'.spans, ok'.fits)))
        ∙ ap length same in
      (
        v,
        ground (
          arith,
          fetch_lem given.store given.read_pt 0 (omega (arith, ok.allocated, ok.spans, ok.fits)),
          e,
        ),
        ok',
        none_held,
      )

  write_bare :
      (m : ReplicatedLogMsg) (out : Memblock)
      → IsValid m.value
      → m.value.size ≡ 0
      → IsValid out
      → length (head_text m) < out.capacity - out.write_pt
      → out.capacity < 2 ^ 59
      → (out' : Memblock) × (write alloc m out ≡ some out')
        × (contents out' ≡ contents out ++ head_text m)
  unfolding write
  write_bare m out ok z good h k =
      let text = head_text m in
      let more : length (text ++ 0 ∷ []) ≡ length text + 1 = length-append text (0 ∷ []) in
      let good' =
        after-IsValid out (text ++ 0 ∷ []) (length text) good (omega arith) (omega arith) in
      let (out', e, _, same) =
        Append.write-append alloc full (after out (text ++ 0 ∷ []) (length text)) [] good'
          (omega arith) k (omega (arith, good.spans, good.fits)) in
      (
        out',
        rw
            (
              print-after out text good h,
              ap (λ n. Memblock.fetch m.value.store m.value.write_pt n) z,
              fetch_lem m.value.store m.value.write_pt 0 (omega (arith, ok.allocated, ok.fits)),
            )
            e,
        rw (same, append-nil) (contents-after out text (0 ∷ []) good),
      )

  -- A value of at least one and fewer than 2 ^ 59 bytes in a valid block, given to `Init` with
  -- numbers within their C types, does not survive: `Init` succeeds, `Write` of the message into an
  -- empty valid block with room for the head succeeds, and `Read` of what that block then holds
  -- succeeds as well, but leaves the receiver's value as it was. `new` gives as many bytes as asked.
  pub value_lost :
      (m r : ReplicatedLogMsg) (a b c : ℕ) (given out : Memblock)
      → IsValid given
      → 0 < given.size
      → given.size < 2 ^ 59
      → IsValid out
      → out.size ≡ 0
      → length (bare a b c) < out.capacity - out.write_pt
      → out.capacity < 2 ^ 59
      → a < u32
      → b < u64
      → c < u64
      → (m' : ReplicatedLogMsg) × (out' : Memblock) × (init alloc m a b c given ≡ some m')
        × (write alloc m' out ≡ some out')
        × (read r (contents out')
            ≡ some (record r { node_id = a; restart_counter = b; lease_epoch = c }, true))
  value_lost m r a b c given out ok h k good idle room fits p q s =
      let (v, e, ok', z) = init_drops m a b c given ok h k in
      let text : head_text (with_head m a b c v) ≡ bare a b c = text_bare (with_head m a b c v) z in
      let (out', e', same) =
        write_bare (with_head m a b c v) out ok' z good (omega (arith, ap length text)) fits in
      (
        with_head m a b c v,
        out',
        e,
        e',
        rw (same, text, ap (λ n. take n (drop out.read_pt out.store)) idle)
            (read-empty a b c p q s r),
      )
