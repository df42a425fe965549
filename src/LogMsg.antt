-- ===== src/LogMsg.antt =====
-- PL/ReplicatedLogMsg.h and PL/ReplicatedLogMsg.cpp: the messages of the replicated log.
pub mod Sending
use network_etc.Base.{
  ℕ, ◌-◌, ◌+◌, ◌%◌, ◌^◌, Bool, true, false, Option, none, some, List, [], ◌∷◌, ◌++◌, Bytes, length,
  leb, codes, ◌==◌, if◌then◌else◌, u32, ◌>>=◌,
}
use network_etc.Text.{decimal}
use network_etc.Text.Scan.{Value, unsigned, uint64, shared, snreadf}
use network_etc.Memblock
use network_etc.Memblock.{Memblock, no_data, in_place, mem_do_delete, mem_dont_delete}
use network_etc.Memblock.Contents.{contents}
use network_etc.Lease.Msg.{◌:+◌, consumed, printed}

-- `nodeID` is below 2 ^ 32, the counter and the epoch below 2 ^ 64.
pub record ReplicatedLogMsg : Type 0 where
  pub node_id : ℕ
  pub restart_counter : ℕ
  pub lease_epoch : ℕ
  pub value : Memblock

-- `snprintf` behind the write pointer, and `SetWrite(liRet)`.
pub print : Memblock → Bytes → Option Memblock
print out text =
    Memblock.splice out.store out.write_pt (printed (Memblock.get_direct_space out) text)
    >>= λ store. some (Memblock.set_write (record out { store = store }) (length text)).0

-- The `size_t` that `%d` prints as an `int`.
abbrev int_text : ℕ → Bytes
int_text n =
    let low = n % u32 in if leb (2 ^ 31) low then b'-' ∷ decimal (u32 - low) else decimal low

-- What `snprintf` prints of a message.
abbrev pub head_text : ReplicatedLogMsg → Bytes
head_text m =
    decimal m.node_id
    :+ decimal m.restart_counter
    :+ decimal m.lease_epoch
    :+ (int_text m.value.size ++ b':' ∷ [])

-- `new char[n]` gives `n` bytes of whatever content.
module _ (alloc : ℕ → Bytes) where
  -- `Init`: as many bytes are written as the new block holds, not as the given one does.
  pub init : ReplicatedLogMsg → ℕ → ℕ → ℕ → Memblock → Option ReplicatedLogMsg
  init m id counter epoch given = do
    (block, _) ← Memblock.init m.value given.size (alloc given.size) no_data mem_do_delete
    bytes ← Memblock.fetch given.store given.read_pt block.size
    filled ← Memblock.write alloc block bytes
    some (record { node_id = id; restart_counter = counter; lease_epoch = epoch; value = filled })

  -- `Write`: the bytes behind the head come from the write pointer of the value.
  pub write : ReplicatedLogMsg → Memblock → Option Memblock
  write m out = do
    out₁ ← print out (head_text m)
    bytes ← Memblock.fetch m.value.store m.value.write_pt m.value.size
    Memblock.write alloc out₁ bytes

-- The fields to which `Read` hands pointers.
pub data Target : Type 0 where
  node_id restart_counter lease_epoch value : Target

-- A value through a pointer of its type: %N makes the block one over the bytes of the text.
pub assign_one : Target → Value → ReplicatedLogMsg → Option ReplicatedLogMsg
assign_one node_id (unsigned n) m = some (record m { node_id = n })
assign_one restart_counter (uint64 n) m = some (record m { restart_counter = n })
assign_one lease_epoch (uint64 n) m = some (record m { lease_epoch = n })
assign_one value (shared bs) m =
    Memblock.init m.value (length bs) bs (in_place (length bs)) mem_dont_delete >>= λ (block, _).
    some (record m { value = block })
assign_one _ _ m = some m

pub assign : List Target → List Value → ReplicatedLogMsg → Option ReplicatedLogMsg
unfolding assign_one
assign [] vs m = some m
assign (t ∷ ts) [] m = some m
assign (t ∷ ts) (v ∷ vs) m = assign_one t v m >>= assign ts vs

-- `Read`. A failed read leaves the fields that it reached.
unfoldable pub read : ReplicatedLogMsg → Bytes → Option (ReplicatedLogMsg × Bool)
unfolding assign
read m text =
    let s = snreadf text (codes "%u:%U:%U:%N") [] in
    assign (node_id ∷ restart_counter ∷ lease_epoch ∷ value ∷ []) s.stored m >>= λ m'.
    some (m', consumed s.outcome (length text))
