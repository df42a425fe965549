-- ===== src/Lease/Proposer.antt =====
-- PL/PLeaseProposer.cpp. `none` is a failed assertion.
pub mod Effects
pub mod Rounds
use network_etc.Base.{
  ℕ, zero, suc, ◌+◌, ◌-◌, ◌/◌, ◌%◌, Bool, true, false, not, ◌&&◌, ◌||◌, Option, none, some, List,
  ◌∷◌, ltb, leb, ◌==◌, if◌then◌else◌, u32, u64,
}
use network_etc.Lease.Msg.{
  PLeaseMsg, prepare_rejected, prepare_previously_accepted, propose_accepted, is_prepare_response,
  is_propose_response,
}
use network_etc.Lease.Msg.Set
use network_etc.Lease.Config.{ReplicatedConfig, min_majority, next_highest}
use network_etc.Lease.Node.{
  Node, Proposer, ProposerState, Action, add_timer, delete_timer, send, multicast, node, act,
  acquire, extend, sub64, acquirelease_timeout, max_lease_time, init_proposer_state,
}

-- `state.… = …` on the proposer of a node.
abbrev pub with_state : ProposerState → Node → Node
with_state s n = record n { proposer = record (n.proposer) { state = s } }

abbrev pub with_msg : PLeaseMsg → Node → Node
with_msg m n = record n { proposer = record (n.proposer) { msg = m } }

-- `Init`: `msg` and the three counters stay as they are.
unfoldable pub init : Node → Node
init n = record n {
  proposer = record (n.proposer) {
    state = init_proposer_state n.proposer.state;
    highest_proposal_id = 0;
  };
}

-- The loop of `BroadcastMessage` over the `k` first nodes, from 0 on.
unfoldable pub send_all : PLeaseMsg → ℕ → Node → Node
send_all m zero n = n
send_all m (suc k) n = act (send (node k) m) (send_all m k n)

unfoldable pub reset_counts : Node → Node
reset_counts n = record n {
  proposer = record (n.proposer) { num_received = 0; num_accepted = 0; num_rejected = 0 };
}

unfoldable pub broadcast_message : Node → Node
broadcast_message n =
    let n' = reset_counts n in
    if n.config.multi_mode
    then act (send multicast n.proposer.msg) n'
    else send_all n.proposer.msg n.config.num_nodes n'

-- The state that `StartPreparing` gives the proposer.
unfoldable pub preparing_state : Node → ProposerState
preparing_state n = record (n.proposer.state) {
  proposing = false;
  preparing = true;
  lease_owner = n.config.node_id;
  highest_received_proposal_id = 0;
  proposal_id = next_highest n.config n.proposer.highest_proposal_id;
}

-- `StartPreparing` up to the broadcast. `RLOG->GetPaxosID()` is the node id.
pub arm_preparing : Node → Node
arm_preparing n =
    let s = preparing_state n in
    let n₁ : Node = act (add_timer acquire acquirelease_timeout) n in
    record n₁ {
      proposer = record (n.proposer) {
        state = s;
        highest_proposal_id =
            if ltb n.proposer.highest_proposal_id s.proposal_id
            then s.proposal_id
            else n.proposer.highest_proposal_id;
        msg = Set.prepare_request n.proposer.msg n.config.node_id s.proposal_id n.config.node_id;
      };
    }

pub start_preparing : Node → Node
start_preparing n = broadcast_message (arm_preparing n)

-- `StartProposing` up to the broadcast.
unfoldable pub arm_proposing : Node → Node
arm_proposing n =
    let s : ProposerState = record (n.proposer.state) {
      preparing = false;
      proposing = true;
      duration = max_lease_time;
      expire_time = (n.now + max_lease_time) % u64;
    } in
    with_msg
      (Set.propose_request n.proposer.msg n.config.node_id s.proposal_id s.lease_owner s.duration)
      (with_state s n)

unfoldable pub start_proposing : Node → Node
start_proposing n =
    if not (n.proposer.state.lease_owner == n.config.node_id)
    then with_state (record (n.proposer.state) { preparing = false }) n
    else broadcast_message (arm_proposing n)

unfoldable pub start_acquire_lease : Node → Node
start_acquire_lease n =
    let n' = act (delete_timer extend) n in
    if not (n.proposer.state.preparing || n.proposer.state.proposing)
    then start_preparing n'
    else n'

unfoldable pub stop_acquire_lease : Node → Node
stop_acquire_lease n = act (delete_timer acquire) (
    act (delete_timer extend)
      (with_state (record (n.proposer.state) { preparing = false; proposing = false }) n))

-- The counts and the state after a response to a prepare request was taken in.
unfoldable pub count_prepare : Proposer → Proposer
count_prepare p =
    let received = (p.num_received + 1) % u32 in
    if p.msg.type == prepare_rejected
    then record p { num_received = received; num_rejected = (p.num_rejected + 1) % u32 }
    else if p.msg.type == prepare_previously_accepted
        && leb p.state.highest_received_proposal_id p.msg.accepted_proposal_id
    then record p {
      num_received = received;
      state = record (p.state) {
        highest_received_proposal_id = p.msg.accepted_proposal_id;
        lease_owner = p.msg.lease_owner;
      };
    }
    else record p { num_received = received }

-- numRejected >= ceil(numNodes / 2) starts over; a majority of other answers goes on.
unfoldable pub on_prepare_response : Node → Node
on_prepare_response n =
    if not n.proposer.state.preparing
      || not (n.proposer.msg.proposal_id == n.proposer.state.proposal_id)
    then n
    else (let p = count_prepare n.proposer in
        let n' : Node = record n { proposer = p } in
        if leb ((n.config.num_nodes + 1) / 2) p.num_rejected
        then start_preparing n'
        else if leb (min_majority n.config) ((p.num_received + u32 - p.num_rejected) % u32)
        then start_proposing n'
        else n')

unfoldable pub count_propose : Proposer → Proposer
count_propose p =
    let received = (p.num_received + 1) % u32 in
    if p.msg.type == propose_accepted
    then record p { num_received = received; num_accepted = (p.num_accepted + 1) % u32 }
    else record p { num_received = received }

-- A majority has accepted: the lease is announced. What is done up to the broadcast comes first.
unfoldable pub arm_learned : Node → Node
arm_learned n =
    let left = sub64 n.proposer.state.expire_time n.now in
    let n₁ : Node = with_state (record (n.proposer.state) { proposing = false }) n in
    let n₂ : Node =
      with_msg
        (Set.learn_chosen n.proposer.msg n.config.node_id n.proposer.state.lease_owner (left % u32)
          n.proposer.state.expire_time)
        n₁ in
    act (add_timer extend (left / 7)) (act (delete_timer acquire) n₂)

unfoldable pub announce : Node → Node
announce n = broadcast_message (arm_learned n)

unfoldable pub on_propose_response : Node → Node
on_propose_response n =
    if ltb n.proposer.state.expire_time n.now
    then n
    else if not n.proposer.state.proposing
        || not (n.proposer.msg.proposal_id == n.proposer.state.proposal_id)
    then n
    else (let p = count_propose n.proposer in
        let n' : Node = record n { proposer = p } in
        if leb (min_majority n.config) p.num_accepted && ltb 500 (sub64 p.state.expire_time n.now)
        then announce n'
        else if p.num_received == n.config.num_nodes
        then start_preparing n'
        else n')

unfoldable pub process_msg : PLeaseMsg → Node → Option Node
process_msg m n =
    let n' = with_msg m n in
    if is_prepare_response m
    then some (on_prepare_response n')
    else if is_propose_response m
    then some (on_propose_response n')
    else none

unfoldable pub on_acquire_lease_timeout : Node → Node
on_acquire_lease_timeout n = start_preparing n

unfoldable pub on_extend_lease_timeout : Node → Option Node
on_extend_lease_timeout n =
    if n.proposer.state.preparing || n.proposer.state.proposing
    then none
    else some (start_preparing n)
