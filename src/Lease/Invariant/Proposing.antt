-- ===== src/Lease/Invariant/Proposing.antt =====
-- The proposer's methods keep the invariant.
use network_etc.Base.{◌≤◌, ◌≡◌, false, some, arith}
use network_etc.Lease.Msg.{PLeaseMsg}
use network_etc.Lease.Node.{Node, Proposer, act, delete_timer, extend}
use network_etc.Lease.Proposer.{
  preparing_state, start_preparing, arm_proposing, start_proposing, with_msg, arm_learned, announce,
  count_prepare, count_propose, on_prepare_response, on_propose_response, start_acquire_lease,
  stop_acquire_lease, process_msg,
}
use network_etc.Lease.Proposer.Effects.{
  Aside, broadcast_message-Aside, broadcast_message-proposer, start_preparing-Aside,
  start_preparing_lem,
}
use network_etc.Lease.Invariant.{ProposerValid, IsValid, Sound}

-- The proposer's part of a sound change, and that the rest of the node is left alone.
pub record Moves (n n' : Node) : Type 0 where
  pub valid : ProposerValid n.config.node_id n'.proposer
  pub aside : Aside n n'
  pub highest : n.proposer.highest_proposal_id ≤ n'.proposer.highest_proposal_id

pub start_preparing-Moves : (n : Node) → Moves n (start_preparing n)
unfolding preparing_state
start_preparing-Moves n = record {
  valid = ground (arith, start_preparing_lem n);
  aside = start_preparing-Aside n;
  highest = (start_preparing_lem n).1;
}

start_proposing-Moves :
    (n : Node)
    → n.proposer.state.proposing ≡ false
    → n.proposer.state.proposal_id ≤ n.proposer.highest_proposal_id
    → Moves n (start_proposing n)
unfolding start_proposing arm_proposing
start_proposing-Moves n h k = record {
  valid = ground (arith, broadcast_message-proposer (arm_proposing n));
  aside = ground (arith, broadcast_message-Aside (arm_proposing n));
  highest = ground (arith, broadcast_message-proposer (arm_proposing n));
}

announce-Moves :
    (n : Node)
    → n.proposer.state.proposal_id ≤ n.proposer.highest_proposal_id
    → Moves n (announce n)
unfolding announce arm_learned
announce-Moves n k = record {
  valid = ground (arith, broadcast_message-proposer (arm_learned n));
  aside = ground (arith, broadcast_message-Aside (arm_learned n));
  highest = ground (arith, broadcast_message-proposer (arm_learned n));
}

-- What counting an answer leaves as it was.
pub count_prepare_lem :
    (p : Proposer)
    → ((count_prepare p).state.preparing ≡ p.state.preparing)
      × ((count_prepare p).state.proposing ≡ p.state.proposing)
      × ((count_prepare p).state.proposal_id ≡ p.state.proposal_id)
      × ((count_prepare p).highest_proposal_id ≡ p.highest_proposal_id)
unfolding count_prepare
count_prepare_lem p = ground arith

pub count_propose_lem :
    (p : Proposer)
    → ((count_propose p).state ≡ p.state)
      × ((count_propose p).highest_proposal_id ≡ p.highest_proposal_id)
unfolding count_propose
count_propose_lem p = ground arith

on_prepare_response-Moves :
    (n : Node) → ProposerValid n.config.node_id n.proposer → Moves n (on_prepare_response n)
unfolding on_prepare_response
on_prepare_response-Moves n v =
    let n' : Node = record n { proposer = count_prepare n.proposer } in
    ground (arith, count_prepare_lem n.proposer, start_preparing-Moves n', start_proposing-Moves n')

on_propose_response-Moves :
    (n : Node) → ProposerValid n.config.node_id n.proposer → Moves n (on_propose_response n)
unfolding on_propose_response
on_propose_response-Moves n v =
    let n' : Node = record n { proposer = count_propose n.proposer } in
    ground (arith, count_propose_lem n.proposer, start_preparing-Moves n', announce-Moves n')

pub start_acquire_lease-Moves :
    (n : Node) → ProposerValid n.config.node_id n.proposer → Moves n (start_acquire_lease n)
unfolding start_acquire_lease
start_acquire_lease-Moves n v = ground (arith, start_preparing-Moves (act (delete_timer extend) n))

pub stop_acquire_lease-Moves :
    (n : Node) → ProposerValid n.config.node_id n.proposer → Moves n (stop_acquire_lease n)
unfolding stop_acquire_lease
stop_acquire_lease-Moves n v = ground arith

-- A move of the proposer is a sound change of the node.
pub Moves-Sound : {n n' : Node} → IsValid n → Moves n n' → Sound n n'
Moves-Sound v m = ground arith

-- A message for the proposer is taken in soundly, where it is not refused.
pub process_msg-Sound :
    (m : PLeaseMsg) (n n' : Node) → IsValid n → process_msg m n ≡ some n' → Sound n n'
unfolding process_msg
process_msg-Sound m n n' v h =
    let n₁ = with_msg m n in
    let v₁ : ProposerValid n.config.node_id n₁.proposer = ground arith in
    let prepare = on_prepare_response-Moves n₁ v₁ in
    let propose = on_propose_response-Moves n₁ v₁ in ground (arith, prepare, propose)
