-- ===== src/Lease/Round/Counting.antt =====
-- The proposer of a round, over the answers of open acceptors.
use network_etc.Base.{ℕ, ◌+◌, ◌/◌, ◌%◌, ◌≡◌, ◌≤◌, ◌<◌, ◌∙◌, refl, ap, true, some, arith, u32, u64}
use network_etc.Lease.Msg.{PLeaseMsg, prepare_currently_open, propose_request}
use network_etc.Lease.Msg.Set
use network_etc.Lease.Msg.Wire.{InRange}
use network_etc.Lease.Config.{ReplicatedConfig, min_majority}
use network_etc.Lease.Node.{Node, Proposer, max_lease_time}
use network_etc.Lease.Proposer
use network_etc.Lease.Proposer.{
  with_msg, count_prepare, on_prepare_response, on_propose_response, start_proposing, arm_proposing,
  broadcast_message, count_propose,
}
use network_etc.Lease.Proposer.Effects.{broadcast_message-Aside, broadcast_message-proposer}
use network_etc.Lease.PaxosLease.{observe, dispatch}
use network_etc.Lease.PaxosLease.Reading.{got}
use network_etc.Lease.Round.{deliver}
use network_etc.Lease.Round.Wires.{deliver-open}

dispatch_open :
    (n : Node)
    → n.msg.type ≡ prepare_currently_open
    → dispatch n ≡ some (on_prepare_response (with_msg n.msg n))
unfolding dispatch observe Proposer.process_msg
dispatch_open n t = ground (arith, t)

module _ (c : ReplicatedConfig) (id : ℕ) where
  -- The node prepares the proposal `id`, and `k` members have said that they are open.
  pub record IsPreparing (k : ℕ) (p : Node) : Type 0 where
    pub config : p.config ≡ c
    pub preparing : p.proposer.state.preparing ≡ true
    pub proposal : p.proposer.state.proposal_id ≡ id
    pub owner : p.proposer.state.lease_owner ≡ c.node_id
    pub received : p.proposer.num_received ≡ k
    pub rejected : p.proposer.num_rejected ≡ 0
    pub msg_range : InRange p.msg

  -- The node proposes itself, and `k` members have accepted.
  pub record IsProposing (k : ℕ) (p : Node) : Type 0 where
    pub config : p.config ≡ c
    pub proposing : p.proposer.state.proposing ≡ true
    pub proposal : p.proposer.state.proposal_id ≡ id
    pub owner : p.proposer.state.lease_owner ≡ c.node_id
    pub expiry : p.proposer.state.expire_time ≡ p.now + max_lease_time
    pub received : p.proposer.num_received ≡ k
    pub accepted : p.proposer.num_accepted ≡ k

  -- The node after another answer to its prepare request.
  one_more : Node → Node
  one_more n = record n {
    proposer = record (n.proposer) { num_received = (n.proposer.num_received + 1) % u32 };
  }

  count_open :
      (p : Proposer)
      → p.msg.type ≡ prepare_currently_open
      → count_prepare p ≡ record p { num_received = (p.num_received + 1) % u32 }
  unfolding count_prepare
  count_open p t = ground (arith, t)

  takes_open :
      (k : ℕ) (n : Node)
      → IsPreparing k n
      → n.proposer.msg.type ≡ prepare_currently_open
      → n.proposer.msg.proposal_id ≡ id
      → k + 1 ≤ c.num_nodes / 2
      → c.num_nodes < u32
      → on_prepare_response n ≡ one_more n
  unfolding on_prepare_response min_majority one_more
  takes_open k n i t e few small =
      rw (count_open n.proposer t)
        (ground (arith, i, ap (λ (c : ReplicatedConfig). c.num_nodes) i.config))

  last_open :
      (k : ℕ) (n : Node)
      → IsPreparing k n
      → n.proposer.msg.type ≡ prepare_currently_open
      → n.proposer.msg.proposal_id ≡ id
      → k ≡ c.num_nodes / 2
      → 0 < c.num_nodes
      → c.num_nodes < u32
      → on_prepare_response n ≡ broadcast_message (arm_proposing (one_more n))
  unfolding on_prepare_response min_majority one_more start_proposing
  last_open k n i t e most some_nodes small = rw (count_open n.proposer t) (
      ground (
        arith,
        i,
        ap (λ (c : ReplicatedConfig). c.num_nodes) i.config,
        ap (λ (c : ReplicatedConfig). c.node_id) i.config,
      ))

  -- The propose request of the round.
  pub record IsProposal (m : PLeaseMsg) : Type 0 where
    pub type : m.type ≡ propose_request
    pub node : m.node_id ≡ c.node_id
    pub proposal : m.proposal_id ≡ id
    pub owner : m.lease_owner ≡ c.node_id
    pub span : m.duration ≡ max_lease_time
    pub range : InRange m

  heard : Node → PLeaseMsg → Node
  heard p r = got (Set.prepare_currently_open p.msg r.node_id r.proposal_id) p

  heard_range :
      (k : ℕ) (p : Node) (r : PLeaseMsg)
      → IsPreparing k p
      → InRange r
      → InRange (Set.prepare_currently_open p.msg r.node_id r.proposal_id)
  heard_range k p r i g = record {
    node = g.node;
    proposal = g.proposal;
    accepted = i.msg_range.accepted;
    owner = i.msg_range.owner;
    span = i.msg_range.span;
    expiry = i.msg_range.expiry;
    paxos = i.msg_range.paxos;
  }

  module _ (k : ℕ) (p : Node) (r : PLeaseMsg) (i : IsPreparing k p) (g : InRange r)
      (t : r.type ≡ prepare_currently_open) (e : r.proposal_id ≡ id)
      (small : c.num_nodes < u32) where
    -- An answer that leaves the majority open is counted.
    pub deliver-counts :
        k + 1 ≤ c.num_nodes / 2
        → (p' : Node) × (deliver r p ≡ some p') × IsPreparing (k + 1) p' × (p'.now ≡ p.now)
    unfolding one_more heard
    deliver-counts few =
        let n = heard p r in
        let n' = with_msg n.msg n in
        let i' : IsPreparing k n' = record {
          config = i.config;
          preparing = i.preparing;
          proposal = i.proposal;
          owner = i.owner;
          received = i.received;
          rejected = i.rejected;
          msg_range = heard_range k p r i g;
        } in
        (
          one_more n',
          deliver-open r p g t
              ∙ dispatch_open n refl
              ∙ ap (λ x. some x) (takes_open k n' i' refl e few small),
          record {
            config = i.config;
            preparing = i.preparing;
            proposal = i.proposal;
            owner = i.owner;
            received = omega (arith, i.received);
            rejected = i.rejected;
            msg_range = i'.msg_range;
          },
          refl,
        )

    -- The answer that completes the majority starts the proposal.
    pub deliver-starts :
        k ≡ c.num_nodes / 2
        → 0 < c.num_nodes
        → c.node_id < u32
        → id < u64
        → p.now + max_lease_time < u64
        → (p' : Node) × (deliver r p ≡ some p')
          × IsProposing 0 p'
          × (p'.now ≡ p.now)
          × IsProposal p'.proposer.msg
    unfolding one_more heard arm_proposing
    deliver-starts most some_nodes low fits later =
        let n = heard p r in
        let n' = with_msg n.msg n in
        let i' : IsPreparing k n' = record {
          config = i.config;
          preparing = i.preparing;
          proposal = i.proposal;
          owner = i.owner;
          received = i.received;
          rejected = i.rejected;
          msg_range = heard_range k p r i g;
        } in
        let q = arm_proposing (one_more n') in
        let aside = broadcast_message-Aside q in
        let done = broadcast_message-proposer q in
        (
          broadcast_message q,
          deliver-open r p g t
              ∙ dispatch_open n refl
              ∙ ap (λ x. some x) (last_open k n' i' refl e most some_nodes small),
          record {
            config = aside.config ∙ i.config;
            proposing = ap (λ (x : Proposer). x.state.proposing) done;
            proposal = ap (λ (x : Proposer). x.state.proposal_id) done ∙ i.proposal;
            owner = ap (λ (x : Proposer). x.state.lease_owner) done ∙ i.owner;
            expiry = omega (arith, ap (λ (x : Proposer). x.state.expire_time) done, aside.now);
            received = ap (λ (x : Proposer). x.num_received) done;
            accepted = ap (λ (x : Proposer). x.num_accepted) done;
          },
          aside.now,
          rw (ap (λ (x : Proposer). x.msg) done) (record {
            type = refl;
            node = ap (λ (c : ReplicatedConfig). c.node_id) i.config;
            proposal = i.proposal;
            owner = i.owner;
            span = refl;
            range = record {
              node = omega (arith, low, ap (λ (c : ReplicatedConfig). c.node_id) i.config);
              proposal = omega (arith, i.proposal);
              accepted = i.msg_range.accepted;
              owner = omega (arith, i.owner, low);
              span = omega arith;
              expiry = i.msg_range.expiry;
              paxos = i.msg_range.paxos;
            };
          }),
        )
