-- ===== src/Lease/Round/Holding.antt =====
-- A member of a round while it holds a lease.
use network_etc.Base.{ℕ, ◌≡◌, ◌≤◌, ◌<◌, ◌∙◌, refl, some, arith, u32, u64}
use network_etc.Lease.Msg.{PLeaseMsg, prepare_request, prepare_previously_accepted}
use network_etc.Lease.Msg.Set
use network_etc.Lease.Msg.Wire.{InRange}
use network_etc.Lease.Node.{Node}
use network_etc.Lease.Acceptor
use network_etc.Lease.Acceptor.{with_acceptor, on_prepare_request}
use network_etc.Lease.Acceptor.Answers.{Running, prepare-Running}
use network_etc.Lease.PaxosLease.{observe}
use network_etc.Lease.PaxosLease.Reading.{got, observe-Keeps}
use network_etc.Lease.Round.{deliver}
use network_etc.Lease.Round.Wires.{deliver-prepare}
use network_etc.Lease.Round.Promising.{Answered, dispatch_prepare, heard_range}

-- A member that looks at the prepare request `m`, may promise it, and holds a lease of `owner` that runs.
pub record IsHeld (m : PLeaseMsg) (owner : ℕ) (a : Node) : Type 0 where
  pub member : m.node_id < a.config.num_nodes
  pub rank : a.config.node_id ≤ m.paxos_id
  pub promise : a.acceptor.state.promised_proposal_id ≤ m.proposal_id
  pub runs : Running a.now a.acceptor.state
  pub owned : a.acceptor.state.accepted_lease_owner ≡ owner
  pub range : a.config.node_id < u32
  pub proposal_range : a.acceptor.state.accepted_proposal_id < u64
  pub owner_range : owner < u32
  pub span_range : a.acceptor.state.accepted_duration < u32
  pub msg_range : InRange a.msg

on_prepare_request_looks :
    (n : Node)
    → n.config.node_id ≤ n.acceptor.msg.paxos_id
    → on_prepare_request n ≡ Acceptor.prepare n
unfolding on_prepare_request
on_prepare_request_looks n h = ground arith

-- It answers with the lease that it holds.
pub deliver-holds :
    (m : PLeaseMsg) (owner : ℕ) (a : Node)
    → InRange m
    → m.type ≡ prepare_request
    → IsHeld m owner a
    → (a' : Node) × (r : PLeaseMsg) × (deliver m a ≡ some a')
      × Answered m prepare_previously_accepted a' r
      × (r.lease_owner ≡ owner)
deliver-holds m owner a range t o =
    let got_m = Set.prepare_request a.msg m.node_id m.proposal_id m.paxos_id in
    let n = got got_m a in
    let seen = observe got_m n in
    let n' = with_acceptor (record (seen.acceptor) { msg = got_m }) seen in
    let keeps = observe-Keeps got_m n in
    let s = seen.acceptor.state in
    let r =
      Set.prepare_previously_accepted got_m seen.config.node_id m.proposal_id s.accepted_proposal_id
        s.accepted_lease_owner s.accepted_duration in
    let runs : Running n'.now n'.acceptor.state = record {
      accepted = ground (arith, o.runs.accepted, keeps);
      runs = ground (arith, o.runs.runs, keeps);
    } in
    let owned : s.accepted_lease_owner ≡ owner = ground (arith, o.owned, keeps) in
    let old = heard_range a m o.msg_range range in
    (
      _,
      r,
      deliver-prepare m a range t
          ∙ dispatch_prepare n refl
          ∙ on_prepare_request_looks n' (ground (arith, keeps, o.rank))
          ∙ prepare-Running n' (ground (arith, keeps, o.member)) (ground (arith, keeps, o.promise))
              runs,
      record {
        told = refl;
        type = refl;
        proposal = refl;
        range = record {
          node = ground (arith, keeps, o.range);
          proposal = range.proposal;
          accepted = ground (arith, keeps, o.proposal_range);
          owner = omega (arith, owned, o.owner_range);
          span = ground (arith, keeps, o.span_range);
          expiry = old.expiry;
          paxos = old.paxos;
        };
      },
      owned,
    )
