-- ===== src/Lease/Acceptor.antt =====
-- PL/PLeaseAcceptor.cpp. `none` is a failed assertion.
pub mod Answers
pub mod Branches
use network_etc.Base.{
  ℕ, ◌+◌, ◌%◌, Bool, true, false, not, ◌&&◌, Option, none, some, ltb, ◌==◌, if◌then◌else◌, u64,
  ◌>>=◌,
}
use network_etc.Lease.Msg.{PLeaseMsg, prepare_request, propose_request}
use network_etc.Lease.Msg.Set
use network_etc.Lease.Config.{get_addr}
use network_etc.Lease.Node.{
  Node, Acceptor, AcceptorState, acceptor_timeout, init_acceptor_state, act, add_timer, send, node,
  accept,
}
use network_etc.Lease.Learner.{get_lease_owner}

abbrev pub with_acceptor : Acceptor → Node → Node
with_acceptor a n = record n { acceptor = a }

unfoldable pub init : Node → Node
init n = with_acceptor (record (n.acceptor) { state = init_acceptor_state }) n

-- `RCONF->GetAddr` asserts that the node exists.
unfoldable pub send_reply : ℕ → Node → Option Node
send_reply node_id n = do
  to ← get_addr n.config node_id
  some (act (send (node to) n.acceptor.msg) n)

-- The lease that was accepted is forgotten when its time is over.
unfoldable pub expire : ℕ → AcceptorState → AcceptorState
expire now s = if s.accepted && ltb s.accepted_expire_time now then acceptor_timeout s else s

unfoldable pub on_lease_timeout : Node → Node
on_lease_timeout n =
    with_acceptor (record (n.acceptor) { state = acceptor_timeout n.acceptor.state }) n

-- The answer to a prepare request, by an acceptor whose lease has been looked at.
unfoldable pub answer_prepare : ℕ → Acceptor → Acceptor
answer_prepare node_id a =
    let s = a.state in
    let m = a.msg in
    if ltb m.proposal_id s.promised_proposal_id
    then record a { msg = Set.prepare_rejected m node_id m.proposal_id }
    else if not s.accepted
    then record a {
      state = record s { promised_proposal_id = m.proposal_id };
      msg = Set.prepare_currently_open m node_id m.proposal_id;
    }
    else record a {
      state = record s { promised_proposal_id = m.proposal_id };
      msg =
          Set.prepare_previously_accepted m node_id m.proposal_id s.accepted_proposal_id
            s.accepted_lease_owner s.accepted_duration;
    }

-- `OnPrepareRequest` behind its first test.
unfoldable pub prepare : Node → Option Node
prepare n =
    let a = n.acceptor in
    send_reply a.msg.node_id (
      with_acceptor (answer_prepare n.config.node_id (record a { state = expire n.now a.state })) n)

-- `RLOG->GetPaxosID()` is the node id; `RLOG->GetMaster()` is asked for only where that is larger.
unfoldable pub on_prepare_request : Node → Option Node
on_prepare_request n =
    if ltb n.acceptor.msg.paxos_id n.config.node_id
    then (let (n', master) = get_lease_owner n in
        if not (n.acceptor.msg.node_id == master) then some n' else prepare n')
    else prepare n

-- What a propose request that is not below the promise leaves.
unfoldable pub accept_proposal : ℕ → ℕ → Acceptor → Acceptor
accept_proposal node_id now a =
    let m = a.msg in
    record a {
      state = record (a.state) {
        accepted = true;
        accepted_proposal_id = m.proposal_id;
        accepted_lease_owner = m.lease_owner;
        accepted_duration = m.duration;
        accepted_expire_time = (m.duration + now) % u64;
      };
      msg = Set.propose_accepted m node_id m.proposal_id;
    }

unfoldable pub on_propose_request : Node → Option Node
on_propose_request n =
    let a : Acceptor = record (n.acceptor) { state = expire n.now n.acceptor.state } in
    if ltb a.msg.proposal_id a.state.promised_proposal_id
    then send_reply a.msg.node_id (
        with_acceptor
          (record a { msg = Set.propose_rejected a.msg n.config.node_id a.msg.proposal_id }) n)
    else send_reply a.msg.node_id (
        act (add_timer accept a.msg.duration)
          (with_acceptor (accept_proposal n.config.node_id n.now a) n))

unfoldable pub process_msg : PLeaseMsg → Node → Option Node
process_msg m n =
    let n' = with_acceptor (record (n.acceptor) { msg = m }) n in
    if m.type == prepare_request
    then on_prepare_request n'
    else if m.type == propose_request
    then on_propose_request n'
    else none
