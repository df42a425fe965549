-- ===== src/Lease/Round/Promising.antt =====
-- Acceptors without a lease that runs, over the two requests of a round.
use network_etc.Base.{ℕ, ◌≡◌, ◌≤◌, ◌<◌, ◌∙◌, refl, true, false, some, arith, ◌==◌, u32, u64}
use network_etc.Lease.Msg.{
  PLeaseMsg, prepare_request, prepare_currently_open, propose_request, propose_accepted, is_request,
  is_response,
}
use network_etc.Lease.Msg.Set
use network_etc.Lease.Msg.Wire.{InRange}
use network_etc.Lease.Config.{get_addr}
use network_etc.Lease.Node.{Node, act, send, node}
use network_etc.Lease.Acceptor
use network_etc.Lease.Acceptor.{
  with_acceptor, send_reply, expire, answer_prepare, prepare, on_prepare_request,
  on_propose_request,
}
use network_etc.Lease.Acceptor.Answers.{
  Running, expire_over, expire-promise, on_propose_request_accepts,
}
use network_etc.Lease.PaxosLease.{observe, dispatch}
use network_etc.Lease.PaxosLease.Reading.{got, dispatch_propose, observe-Keeps}
use network_etc.Lease.Round.{deliver, last_sent}
use network_etc.Lease.Round.Wires.{deliver-prepare, deliver-propose}

-- A member that looks at the prepare request `m`, and is free to promise it.
pub record IsOpen (m : PLeaseMsg) (a : Node) : Type 0 where
  pub member : m.node_id < a.config.num_nodes
  pub rank : a.config.node_id ≤ m.paxos_id
  pub promise : a.acceptor.state.promised_proposal_id ≤ m.proposal_id
  pub free : ¬ Running a.now a.acceptor.state
  pub range : a.config.node_id < u32
  pub msg_range : InRange a.msg

-- A member that has promised at most the proposal of `m`.
pub record IsBound (m : PLeaseMsg) (a : Node) : Type 0 where
  pub member : m.node_id < a.config.num_nodes
  pub promise : a.acceptor.state.promised_proposal_id ≤ m.proposal_id
  pub range : a.config.node_id < u32
  pub msg_range : InRange a.msg

-- `a'` has answered `r`, of the type `t`, to the request `m`.
pub record Answered (m : PLeaseMsg) (t : ℕ) (a' : Node) (r : PLeaseMsg) : Type 0 where
  pub told : last_sent a'.trace ≡ some r
  pub type : r.type ≡ t
  pub proposal : r.proposal_id ≡ m.proposal_id
  pub range : InRange r

pub dispatch_prepare :
    (n : Node)
    → n.msg.type ≡ prepare_request
    → dispatch n
      ≡ Acceptor.on_prepare_request
          (with_acceptor (record ((observe n.msg n).acceptor) { msg = n.msg }) (observe n.msg n))
unfolding dispatch Acceptor.process_msg
dispatch_prepare n t =
    let n₁ = observe n.msg n in
    let n' = with_acceptor (record (n₁.acceptor) { msg = n.msg }) n₁ in
    let reply : is_response n.msg ≡ false = ground (arith, t) in
    let asks : is_request n.msg ≡ true = ground (arith, t) in
    let this : (n.msg.type == prepare_request) ≡ true = ground (arith, t) in
    rw (reply, asks, this) (λ i. Acceptor.on_prepare_request n')

-- What a prepare request leaves where no lease runs.
pub opened : Node → Node
opened n =
    let m = n.acceptor.msg in
    let reply = Set.prepare_currently_open m n.config.node_id m.proposal_id in
    act (send (node m.node_id) reply) (
      with_acceptor
        (record {
          state = record (expire n.now n.acceptor.state) { promised_proposal_id = m.proposal_id };
          msg = reply;
        })
        n)

on_prepare_request_opens :
    (n : Node)
    → n.acceptor.msg.node_id < n.config.num_nodes
    → n.config.node_id ≤ n.acceptor.msg.paxos_id
    → n.acceptor.state.promised_proposal_id ≤ n.acceptor.msg.proposal_id
    → ¬ Running n.now n.acceptor.state
    → on_prepare_request n ≡ some (opened n)
unfolding on_prepare_request prepare send_reply get_addr answer_prepare opened
on_prepare_request_opens n h r k free =
    ground (arith, expire_over n.now n.acceptor.state free, expire-promise n.now n.acceptor.state)

pub observe-msg : (m : PLeaseMsg) (n : Node) → (observe m n).msg ≡ n.msg
unfolding observe
observe-msg m n = ground arith

pub heard_range :
    (a : Node) (m : PLeaseMsg)
    → InRange a.msg
    → InRange m
    → InRange (Set.prepare_request a.msg m.node_id m.proposal_id m.paxos_id)
heard_range a m old new = record {
  node = new.node;
  proposal = new.proposal;
  accepted = old.accepted;
  owner = old.owner;
  span = old.span;
  expiry = old.expiry;
  paxos = new.paxos;
}

reply_range :
    (m : PLeaseMsg) (node_id proposal_id : ℕ)
    → InRange m
    → node_id < u32
    → proposal_id < u64
    → InRange (Set.prepare_currently_open m node_id proposal_id)
reply_range m node_id proposal_id r h k = record {
  node = h;
  proposal = k;
  accepted = r.accepted;
  owner = r.owner;
  span = r.span;
  expiry = r.expiry;
  paxos = r.paxos;
}

-- An open member promises the proposal, and says that it is open.
pub deliver-opens :
    (m : PLeaseMsg) (a : Node)
    → InRange m
    → m.type ≡ prepare_request
    → IsOpen m a
    → (a' : Node) × (r : PLeaseMsg) × (deliver m a ≡ some a')
      × Answered m prepare_currently_open a' r
      × IsBound m a'
      × (a'.acceptor.state.accepted ≡ false)
unfolding opened
deliver-opens m a range t o =
    let got_m = Set.prepare_request a.msg m.node_id m.proposal_id m.paxos_id in
    let n = got got_m a in
    let seen = observe got_m n in
    let n' = with_acceptor (record (seen.acceptor) { msg = got_m }) seen in
    let keeps = observe-Keeps got_m n in
    let r = Set.prepare_currently_open got_m seen.config.node_id m.proposal_id in
    let free : ¬ Running n'.now n'.acceptor.state = λ h. o.free (record {
      accepted = ground (arith, h.accepted, keeps);
      runs = ground (arith, h.runs, keeps);
    }) in
    let small : seen.config.node_id < u32 = ground (arith, keeps, o.range) in
    (
      opened n',
      r,
      deliver-prepare m a range t
          ∙ dispatch_prepare n refl
          ∙ on_prepare_request_opens n' (ground (arith, keeps, o.member))
              (ground (arith, keeps, o.rank)) (ground (arith, keeps, o.promise)) free,
      record {
        told = refl;
        type = refl;
        proposal = refl;
        range =
            reply_range got_m seen.config.node_id m.proposal_id (heard_range a m o.msg_range range)
              small range.proposal;
      },
      record {
        member = ground (arith, keeps, o.member);
        promise = omega arith;
        range = small;
        msg_range = rw (observe-msg got_m n) (heard_range a m o.msg_range range);
      },
      expire_over n'.now n'.acceptor.state free,
    )

-- A member that has promised at most the proposal accepts its lease.
pub deliver-accepts :
    (m : PLeaseMsg) (a : Node)
    → InRange m
    → m.type ≡ propose_request
    → IsBound m a
    → (a' : Node) × (r : PLeaseMsg) × (deliver m a ≡ some a')
      × Answered m propose_accepted a' r
      × (a'.acceptor.state.accepted ≡ true)
      × (a'.acceptor.state.accepted_lease_owner ≡ m.lease_owner)
deliver-accepts m a range t b =
    let got_m = Set.propose_request a.msg m.node_id m.proposal_id m.lease_owner m.duration in
    let n = got got_m a in
    let seen = observe got_m n in
    let n' = with_acceptor (record (seen.acceptor) { msg = got_m }) seen in
    let keeps = observe-Keeps got_m n in
    let r = Set.propose_accepted got_m seen.config.node_id m.proposal_id in
    let small : seen.config.node_id < u32 = ground (arith, keeps, b.range) in
    (
      _,
      r,
      deliver-propose m a range t
          ∙ dispatch_propose n refl
          ∙ on_propose_request_accepts n' (ground (arith, keeps, b.member))
              (ground (arith, keeps, b.promise)),
      record {
        told = refl;
        type = refl;
        proposal = refl;
        range = record {
          node = small;
          proposal = range.proposal;
          accepted = b.msg_range.accepted;
          owner = range.owner;
          span = range.span;
          expiry = b.msg_range.expiry;
          paxos = b.msg_range.paxos;
        };
      },
      refl,
      refl,
    )
