-- ===== src/Lease/Config.antt =====
-- PL/ReplicatedConfig.h and PL/ReplicatedConfig.cpp: the cell's members, quorums, proposal numbers.
pub mod Proposals
pub mod Restart
use Prim.Native.Nat.{bit_or}
use network_etc.Base.{
  ℕ, ◌+◌, ◌*◌, ◌/◌, ◌%◌, ◌^◌, ◌≡◌, refl, Bool, true, false, Option, none, some, List, [], ◌∷◌,
  Bytes, length, ltb, ◌==◌, if◌then◌else◌, u32, u64,
}
use network_etc.Text.{strntouint64, decimal}

abbrev pub width_nodeid : ℕ
width_nodeid = 8

abbrev pub width_restart_counter : ℕ
width_restart_counter = 16

-- `CSockAddr`, as far as this class uses it.
pub record Address : Type 0 where
  pub ip : ℕ
  pub port : ℕ

pub record ReplicatedConfig : Type 0 where
  pub node_id : ℕ
  pub num_nodes : ℕ
  pub restart_counter : ℕ
  pub addresses : List Address
  pub multi_mode : Bool

-- The global `config` before `Init`: static storage, all zero.
abbrev pub static_config : ReplicatedConfig
static_config = record {
  node_id = 0;
  num_nodes = 0;
  restart_counter = 0;
  addresses = [];
  multi_mode = false;
}

-- The loop over neighbours that clears `mbMultiMode` at the first pair of different ports.
unfoldable pub same_ports : List Address → Bool
same_ports [] = true
same_ports (a ∷ []) = true
same_ports (a ∷ b ∷ rest) =
    let later = same_ports (b ∷ rest) in if a.port == b.port then later else false

abbrev default_address : Address
default_address = record { ip = 0; port = 10000 }

-- The value that `InitRestartCounter` computes from what the table holds.
next_counter : Option Bytes → ℕ
next_counter none = 1
next_counter (some buf) =
    let (counter, nread) = strntouint64 buf in
    ((if nread == length buf then counter else 0) + 1) % u64

-- The table's contents under "@@restartCounter", of the table and after `InitRestartCounter`: the
-- outer `none` stands for a table that is not there. The counter is a local variable that hides the
-- member of the same name, so the configuration is not an argument.
unfoldable pub init_restart_counter : Option (Option Bytes) → Option (Option Bytes)
unfolding next_counter
init_restart_counter none = none
init_restart_counter (some stored) = some (some (decimal (next_counter stored)))

abbrev pub max_cell_size : ℕ
max_cell_size = 256

-- `Init`, from the node id and the addresses of the configuration file. STOP_FAIL expands to
-- nothing, so a node id that is out of range is kept; `none` is a write past `maoAddresses`. The
-- second result is the table.
unfoldable pub init :
    ReplicatedConfig
    → ℕ
    → List Address
    → Bool
    → Option (Option Bytes)
    → Option (ReplicatedConfig × Option (Option Bytes))
unfolding same_ports
init c node_id addresses replicated table =
    let table' = if replicated then init_restart_counter table else table in
    if length addresses == 0
    then some (record c { node_id = 0; num_nodes = 0; addresses = default_address ∷ [] }, table')
    else if ltb max_cell_size (length addresses)
    then none
    else some (
      record c {
        node_id = node_id;
        num_nodes = length addresses;
        addresses = addresses;
        multi_mode = same_ports addresses;
      },
      table',
    )

-- floor(numNodes / 2) + 1, and ceil(numNodes / 2) of the proposer.
unfoldable pub min_majority : ReplicatedConfig → ℕ
min_majority c = (c.num_nodes / 2 + 1) % u32

-- <proposal count since restart> <restartCounter> <nodeID>
unfoldable pub next_highest : ReplicatedConfig → ℕ → ℕ
next_highest c proposal_id =
    let left = (proposal_id / 2 ^ (width_nodeid + width_restart_counter) + 1) % u64 in
    let left' = left * 2 ^ (width_nodeid + width_restart_counter) % u64 in
    let middle = c.restart_counter * 2 ^ width_nodeid % u64 in
    bit_or (bit_or left' middle) c.node_id

-- `GetAddr` asserts that the index is in range.
unfoldable pub get_addr : ReplicatedConfig → ℕ → Option ℕ
get_addr c i = if ltb i c.num_nodes then some i else none
