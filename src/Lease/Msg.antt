-- ===== src/Lease/Msg.antt =====
-- PL/PLeaseMsg.h and PL/PLeaseMsg.cpp: the messages of PaxosLease and their text form.

pub mod Set
pub mod Formats
pub mod Wire
pub mod Length
pub mod Transmit
use network_etc.Base.{
  not, ℕ, ◌+◌, ◌-◌, ◌≡◌, refl, Bool, true, false, ◌||◌, Option, none, some, List, [], ◌∷◌, ◌++◌,
  Bytes, length, take, codes, ltb, ◌==◌, if◌then◌else◌, ◌>>=◌,
}
use network_etc.Text.{decimal}
use network_etc.Text.Scan.{
  Value, ch, unsigned, uint64, Outcome, read as read_all, mismatch, aborted, snreadf,
}
use network_etc.Memblock
use network_etc.Memblock.{Memblock}

abbrev pub prepare_request : ℕ
prepare_request = b'1'

abbrev pub prepare_rejected : ℕ
prepare_rejected = b'2'

abbrev pub prepare_previously_accepted : ℕ
prepare_previously_accepted = b'3'

abbrev pub prepare_currently_open : ℕ
prepare_currently_open = b'4'

abbrev pub propose_request : ℕ
propose_request = b'5'

abbrev pub propose_rejected : ℕ
propose_rejected = b'6'

abbrev pub propose_accepted : ℕ
propose_accepted = b'7'

abbrev pub learn_chosen : ℕ
learn_chosen = b'8'

-- `unsigned` fields are below 2 ^ 32, `uint64_t` fields below 2 ^ 64.
pub record PLeaseMsg : Type 0 where
  pub type : ℕ
  pub node_id : ℕ
  pub proposal_id : ℕ
  pub accepted_proposal_id : ℕ
  pub lease_owner : ℕ
  pub duration : ℕ
  pub local_expire_time : ℕ
  pub paxos_id : ℕ

abbrev pub is_request : PLeaseMsg → Bool
is_request m = m.type == propose_request || m.type == prepare_request

abbrev pub is_prepare_response : PLeaseMsg → Bool
is_prepare_response m =
    m.type == prepare_rejected
    || (m.type == prepare_previously_accepted || m.type == prepare_currently_open)

abbrev pub is_propose_response : PLeaseMsg → Bool
is_propose_response m = m.type == propose_rejected || m.type == propose_accepted

abbrev pub is_response : PLeaseMsg → Bool
is_response m = is_prepare_response m || is_propose_response m

-- The fields to which `Read` hands pointers.
pub data Target : Type 0 where
  type node_id proposal_id accepted_proposal_id lease_owner duration : Target
  local_expire_time paxos_id : Target

-- A value through a pointer of its type.
assign_one : Target → Value → PLeaseMsg → PLeaseMsg
assign_one type (ch v) m = record m { type = v }
assign_one node_id (unsigned v) m = record m { node_id = v }
assign_one proposal_id (uint64 v) m = record m { proposal_id = v }
assign_one accepted_proposal_id (uint64 v) m = record m { accepted_proposal_id = v }
assign_one lease_owner (unsigned v) m = record m { lease_owner = v }
assign_one duration (unsigned v) m = record m { duration = v }
assign_one local_expire_time (uint64 v) m = record m { local_expire_time = v }
assign_one paxos_id (uint64 v) m = record m { paxos_id = v }
assign_one _ _ m = m

assign : List Target → List Value → PLeaseMsg → PLeaseMsg
unfolding assign_one
assign [] vs m = m
assign (t ∷ ts) [] m = m
assign (t ∷ ts) (v ∷ vs) m = assign ts vs (assign_one t v m)

pub record Layout : Type 0 where
  pub format : Bytes
  pub targets : List Target

-- The `switch` of `Read` on the first byte.
pub layout : ℕ → Option Layout
layout t =
    if t == prepare_request
    then some (record {
      format = codes "%c:%u:%U:%U";
      targets = type ∷ node_id ∷ proposal_id ∷ paxos_id ∷ [];
    })
    else if t == prepare_rejected
    then some (record { format = codes "%c:%u:%U"; targets = type ∷ node_id ∷ proposal_id ∷ [] })
    else if t == prepare_previously_accepted
    then some (record {
      format = codes "%c:%u:%U:%U:%u:%u";
      targets = type ∷ node_id ∷ proposal_id ∷ accepted_proposal_id ∷ lease_owner ∷ duration ∷ [];
    })
    else if t == prepare_currently_open
    then some (record { format = codes "%c:%u:%U"; targets = type ∷ node_id ∷ proposal_id ∷ [] })
    else if t == propose_request
    then some (record {
      format = codes "%c:%u:%U:%u:%u";
      targets = type ∷ node_id ∷ proposal_id ∷ lease_owner ∷ duration ∷ [];
    })
    else if t == propose_rejected
    then some (record { format = codes "%c:%u:%U"; targets = type ∷ node_id ∷ proposal_id ∷ [] })
    else if t == propose_accepted
    then some (record { format = codes "%c:%u:%U"; targets = type ∷ node_id ∷ proposal_id ∷ [] })
    else if t == learn_chosen
    then some (record {
      format = codes "%c:%u:%u:%u:%U";
      targets = type ∷ node_id ∷ lease_owner ∷ duration ∷ local_expire_time ∷ [];
    })
    else none

-- `read == (signed) data.GetSize()`
unfoldable pub consumed : Outcome → ℕ → Bool
consumed (read_all n) len = n == len
consumed mismatch len = false
consumed aborted len = false

pub read_as : Option Layout → PLeaseMsg → Bytes → PLeaseMsg × Bool
unfolding assign consumed
read_as none m text = (m, false)
read_as (some l) m text =
    let s = snreadf text l.format [] in
    (assign l.targets s.stored m, consumed s.outcome (length text))

-- `Read` of a block whose contents are the text. A failed read leaves the fields that it reached.
pub read : PLeaseMsg → Bytes → PLeaseMsg × Bool
unfolding read_as layout
read m [] = (m, false)
read m (c ∷ text) = read_as (layout c) m (c ∷ text)

infixr 67 ◌:+◌
abbrev pub ◌:+◌ : Bytes → Bytes → Bytes
a :+ b = a ++ (b':' ∷ b)

-- The text that `Write` prints.
unfoldable pub encode : PLeaseMsg → Option Bytes
encode m =
    let head = decimal m.node_id in
    let proposal = decimal m.proposal_id in
    if m.type == prepare_request
    then some (m.type ∷ b':' ∷ (head :+ proposal :+ decimal m.paxos_id))
    else if m.type == prepare_rejected
    then some (m.type ∷ b':' ∷ (head :+ proposal))
    else if m.type == prepare_previously_accepted
    then some (
        m.type
        ∷ b':'
        ∷ (head
            :+ proposal
            :+ decimal m.accepted_proposal_id
            :+ decimal m.lease_owner
            :+ decimal m.duration))
    else if m.type == prepare_currently_open
    then some (m.type ∷ b':' ∷ (head :+ proposal))
    else if m.type == propose_request
    then some (m.type ∷ b':' ∷ (head :+ proposal :+ decimal m.lease_owner :+ decimal m.duration))
    else if m.type == propose_rejected
    then some (m.type ∷ b':' ∷ (head :+ proposal))
    else if m.type == propose_accepted
    then some (m.type ∷ b':' ∷ (head :+ proposal))
    else if m.type == learn_chosen
    then some (
        m.type
        ∷ b':'
        ∷ (head :+ decimal m.lease_owner :+ decimal m.duration :+ decimal m.local_expire_time))
    else none

-- What `snprintf` leaves in a buffer of `space` bytes: the text cut short, and a zero.
unfoldable pub printed : ℕ → Bytes → Bytes
printed space text = if space == 0 then [] else take (space - 1) text ++ 0 ∷ []

-- `Write`: `snprintf` behind the write pointer, then `SetWrite(liRet)`, whose refusal is ignored.
-- The result is `liRet` as a `bool`, false for a type that is none of the eight.
pub write : PLeaseMsg → Memblock → Option (Memblock × Bool)
unfolding printed
write m b = elim (encode m) [
  | none ↦ some (b, false)
  | some text ↦ do
    store ← Memblock.splice b.store b.write_pt (printed (Memblock.get_direct_space b) text)
    some ((Memblock.set_write (record b { store = store }) (length text)).0, not (length text == 0))
]
