-- ===== src/Lease/Msg/Length.antt =====
-- How long the text of a message can be.
use network_etc.Base.{ℕ, ◌+◌, ◌≤◌, ◌<◌, ◌≡◌, some, Bytes, length, u32, u64, arith}
use network_etc.Text.{decimal}
use network_etc.Text.Decimal.{length-decimal_le}
use network_etc.Lease.Msg.{PLeaseMsg, encode, ◌:+◌}
use network_etc.Lease.Msg.Formats.{length-:+}
use network_etc.Lease.Msg.Wire.{InRange}

length32 : (n : ℕ) → n < u32 → length (decimal n) ≤ 10
length32 n h = length-decimal_le 9 n (omega arith)

length64 : (n : ℕ) → n < u64 → length (decimal n) ≤ 20
length64 n h = length-decimal_le 19 n (omega arith)

add_field : (a b : Bytes) {k l : ℕ} → length a ≤ k → length b ≤ l → length (a :+ b) ≤ k + 1 + l
add_field a b h j = omega (arith, length-:+ a b)

-- A message whose fields are within their C types prints at most 76 bytes.
pub length-encode :
    (m : PLeaseMsg) (text : Bytes) → InRange m → encode m ≡ some text → length text ≤ 76
unfolding encode
length-encode m text v h =
    let owner = add_field _ _ (length32 m.lease_owner v.owner) (length32 m.duration v.span) in
    let accepted = add_field _ _ (length64 m.accepted_proposal_id v.accepted) owner in
    let expiry =
      add_field _ _ (length32 m.lease_owner v.owner)
        (add_field _ _ (length32 m.duration v.span) (length64 m.local_expire_time v.expiry)) in
    let node = length32 m.node_id v.node in
    let proposal = length64 m.proposal_id v.proposal in
    let short = add_field _ _ node proposal in
    let prepare = add_field _ _ node (add_field _ _ proposal (length64 m.paxos_id v.paxos)) in
    let propose = add_field _ _ node (add_field _ _ proposal owner) in
    let previous = add_field _ _ node (add_field _ _ proposal accepted) in
    let chosen = add_field _ _ node expiry in
    ground (arith, short, prepare, propose, previous, chosen)
