-- ===== src/Tests/Messages.antt =====
-- The theorems on messages and on the configuration, at the examples.
use network_etc.Base.{
  ℕ, ◌/◌, ◌^◌, ◌≡◌, refl, true, some, none, [], ◌∷◌, ◌++◌, Bytes, take, arith, codes,
}
use network_etc.Text.{decimal, strntouint64, digits_loop}
use network_etc.Memblock
use network_etc.Memblock.{Memblock}
use network_etc.Memblock.Contents.{contents}
use network_etc.Lease.Msg.{PLeaseMsg, read, encode, write}
use network_etc.Lease.Msg.Wire.{InRange, received, read-encode}
use network_etc.Lease.Msg.Transmit.{transmit, write_cut}
use network_etc.Lease.Config.{static_config, same_ports, init_restart_counter, init, next_highest}
use network_etc.Lease.Config.Proposals.{Fits, next_highest_injective}
use network_etc.Lease.Config.Restart.{init-reuses}
use network_etc.Tests.Cell.{addresses, cell, message, zeros}

-- A propose request of the member 2.
abbrev request : PLeaseMsg
request = message 53 2 16777218

abbrev request_text : Bytes
request_text = codes "5:2:16777218:2:70000"

request-InRange : InRange request
request-InRange = record {
  node = omega arith;
  proposal = omega arith;
  accepted = omega arith;
  owner = omega arith;
  span = omega arith;
  expiry = omega arith;
  paxos = omega arith;
}

encode-request : encode request ≡ some request_text
unfolding encode decimal
encode-request = refl

read-encode_example : read (message 49 0 0) request_text ≡ (received (message 49 0 0) request, true)
read-encode_example =
    read-encode (message 49 0 0) request request-InRange request_text encode-request

-- Blocks of a given size, empty and written up to a place.
abbrev room : ℕ → ℕ → Memblock
room n used = record {
  store = zeros n;
  capacity = n;
  read_pt = used;
  write_pt = used;
  size = 0;
  flag = 2;
}

transmit_example :
    (b' : Memblock) × (write request (Memblock.reset (room 80 3)) ≡ some (b', true))
    × (read (message 49 0 0) (contents b') ≡ (received (message 49 0 0) request, true))
transmit_example =
    transmit (message 49 0 0) request (room 80 3) request_text
      (record { allocated = refl; spans = refl; fits = omega arith }) (omega arith) request-InRange
      encode-request

write_cut_example :
    (b' : Memblock) × (write request (room 20 0) ≡ some (b', true))
    × (contents b' ≡ take 19 request_text ++ (0 ∷ []))
write_cut_example =
    write_cut request (room 20 0) request_text
      (record { allocated = refl; spans = refl; fits = omega arith }) encode-request refl

cell-Fits : Fits cell
cell-Fits = record { node = omega arith; counter = omega arith }

same_number : next_highest cell 16777218 ≡ next_highest cell 16777300
unfolding next_highest
same_number = refl

next_highest_injective_example :
    (cell.node_id ≡ 1) × (cell.restart_counter ≡ 0) × (16777218 / 2 ^ 24 ≡ 16777300 / 2 ^ 24)
next_highest_injective_example =
    next_highest_injective cell cell 16777218 16777300 cell-Fits cell-Fits (omega arith)
      (omega arith) same_number

-- The configuration that a first and a second start leave.
first :
    init static_config 1 addresses true (some none)
    ≡ some (record cell { multi_mode = true }, some (some (codes "1")))
unfolding init init_restart_counter same_ports decimal
first = refl

second :
    init static_config 1 addresses true (some (some (codes "1")))
    ≡ some (record cell { multi_mode = true }, some (some (codes "2")))
unfolding init init_restart_counter same_ports decimal strntouint64 digits_loop
second = refl

init-reuses_example :
    next_highest (record cell { multi_mode = true }) 0
    ≡ next_highest (record cell { multi_mode = true }) 0
init-reuses_example =
    init-reuses 1 0 addresses true true (some none) (some (some (codes "1")))
      (some (some (codes "1"))) (some (some (codes "2"))) (record cell { multi_mode = true })
      (record cell { multi_mode = true }) first second
