-- ===== src/Tests/Leases.antt =====
-- The theorems on the roles, at the examples.
use network_etc.Base.{
  ◌⊎◌, ℕ, ◌≤◌, ◌<◌, ◌≡◌, ◌↔◌, inl, refl, true, false, some, none, [], ◌∷◌, arith, codes,
}
use network_etc.Text.{decimal}
use network_etc.Lease.Msg.{encode, learn_chosen}
use network_etc.Lease.Msg.Set
use network_etc.Lease.Msg.Wire.{InRange}
use network_etc.Lease.Config.{get_addr, min_majority}
use network_etc.Lease.Node.{Node, send, node}
use network_etc.Lease.Proposer.{
  broadcast_message, send_all, reset_counts, count_propose, on_propose_response, arm_learned,
  announce,
}
use network_etc.Lease.Proposer.Rounds.{on_propose_response-needs}
use network_etc.Lease.Learner.{is_lease_owner}
use network_etc.Lease.Learner.Ownership.{Holds, is_lease_owner_iff}
use network_etc.Lease.Acceptor.{
  send_reply, expire, answer_prepare, prepare, on_prepare_request, on_propose_request, process_msg,
}
use network_etc.Lease.Acceptor.Branches.{
  Judged, Promised, on_propose_request-Judged, prepare-Promised,
}
use network_etc.Lease.PaxosLease.{on_read, acquire_lease}
use network_etc.Lease.PaxosLease.Reading.{on_read_learns, on_read_stranger}
use network_etc.Lease.Invariant.{IsValid}
use network_etc.Lease.Invariant.Events.{here, next, update, start, Advances, Later-Advances}
use network_etc.Lease.Invariant.Promises.{promise_kept}
use network_etc.Tests.Cell.{cell, message, member, asked, proposing}

member-IsValid : IsValid member
member-IsValid = ground arith

Later-Advances_example : Advances member (record (acquire_lease member) { now = 2000 })
Later-Advances_example = Later-Advances member-IsValid (next (next here start) (update 2000))

-- The member after a prepare request of the member 2.
abbrev promised : Node
promised =
    let m = message 49 2 16777218 in
    let reply = Set.prepare_currently_open m 1 16777218 in
    record member {
      acceptor = record {
        state = record (member.acceptor.state) { promised_proposal_id = 16777218 };
        msg = reply;
      };
      trace = send (node 2) reply ∷ [];
    }

member_promises : process_msg (message 49 2 16777218) member ≡ some promised
unfolding process_msg on_prepare_request prepare send_reply get_addr answer_prepare expire
member_promises = refl

promise_kept_example :
    (n₃ : Node) × (process_msg (message 53 2 16777000) (record promised { now = 5000 }) ≡ some n₃)
    × (n₃.acceptor.msg.type ≡ 54)
    × (n₃.acceptor.state ≡ expire 5000 promised.acceptor.state)
    × (n₃.trace ≡ send (node 2) n₃.acceptor.msg ∷ promised.trace)
promise_kept_example =
    promise_kept (message 49 2 16777218) (message 53 2 16777000) member promised
      (record promised { now = 5000 }) member-IsValid refl member_promises (inl refl)
      (next here (update 5000)) refl (omega arith) (omega arith)

on_propose_request-Judged_example :
    (n' : Node) × (on_propose_request (asked (message 53 2 16777218)) ≡ some n')
    × Judged (asked (message 53 2 16777218)) n'
on_propose_request-Judged_example =
    on_propose_request-Judged (asked (message 53 2 16777218)) (omega arith)

prepare-Promised_example :
    (n' : Node) × (prepare (asked (message 49 2 16777218)) ≡ some n')
    × (n'.trace ≡ send (node 2) n'.acceptor.msg ∷ [])
    × Promised (asked (message 49 2 16777218)) n'
prepare-Promised_example = prepare-Promised (asked (message 49 2 16777218)) (omega arith)

-- The member 1 with a lease of its own that runs.
abbrev leading : Node
leading = record member {
  learner = record (member.learner) {
    state = record { learned = true; lease_owner = 1; expire_time = 5000; lease_epoch = 0 };
  };
}

is_lease_owner_iff_example :
    (((is_lease_owner leading).1 ≡ true)
      ↔ (Holds leading × (leading.learner.state.lease_owner ≡ 1)))
    × ((Holds leading × ((is_lease_owner leading).0 ≡ leading))
        ⊎ ((¬ Holds leading) × ((is_lease_owner leading).0.learner.state.learned ≡ false)))
is_lease_owner_iff_example = is_lease_owner_iff leading

two_of_three : min_majority cell ≤ 2
unfolding min_majority
two_of_three = omega arith

announced :
    (on_propose_response (proposing 1 (message 55 2 16777217))).proposer.msg.type ≡ learn_chosen
unfolding on_propose_response count_propose announce arm_learned broadcast_message reset_counts
    send_all min_majority
announced = refl

on_propose_response-needs_example :
    let n = proposing 1 (message 55 2 16777217) in
    (n.proposer.state.proposing ≡ true)
    × (n.proposer.msg.proposal_id ≡ n.proposer.state.proposal_id)
    × (1500 < n.proposer.state.expire_time)
    × (min_majority cell ≤ 2)
on_propose_response-needs_example =
    on_propose_response-needs (proposing 1 (message 55 2 16777217)) (omega arith) (omega arith)
      announced

in_range :
    (t from proposal : ℕ) → from < 100 → proposal < 100000000 → InRange (message t from proposal)
in_range t from proposal h k = record {
  node = omega arith;
  proposal = omega arith;
  accepted = omega arith;
  owner = omega arith;
  span = omega arith;
  expiry = omega arith;
  paxos = omega arith;
}

encode_chosen : encode (message 56 2 0) ≡ some (codes "8:2:2:70000:71000")
unfolding encode decimal
encode_chosen = refl

on_read_learns_example :
    (n' : Node) × (on_read (codes "8:2:2:70000:71000") member ≡ some n')
    × (n'.learner.state.learned ≡ true)
    × (n'.learner.state.lease_owner ≡ 2)
    × (n'.learner.state.expire_time ≡ 70500)
    × (n'.proposer.state.preparing ≡ false)
    × (n'.proposer.state.proposing ≡ false)
on_read_learns_example =
    on_read_learns (codes "8:2:2:70000:71000") (message 56 2 0) member
      (in_range 56 2 0 (omega arith) (omega arith)) refl encode_chosen (omega arith) (omega arith)
      (omega arith)

encode_stranger : encode (message 53 7 16777223) ≡ some (codes "5:7:16777223:7:70000")
unfolding encode decimal
encode_stranger = refl

on_read_stranger_example : on_read (codes "5:7:16777223:7:70000") member ≡ none
on_read_stranger_example =
    on_read_stranger (codes "5:7:16777223:7:70000") (message 53 7 16777223) member
      (in_range 53 7 16777223 (omega arith) (omega arith)) refl encode_stranger (omega arith)
