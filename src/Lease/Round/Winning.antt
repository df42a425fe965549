-- ===== src/Lease/Round/Winning.antt =====
-- The proposer of a round, over the answers of acceptors that accept.
use network_etc.Base.{
  ℕ, ◌+◌, ◌-◌, ◌/◌, ◌%◌, ◌≡◌, ◌≤◌, ◌<◌, ◌∙◌, refl, sym, ap, false, some, ◌∷◌, ◌++◌, arith, u32, u64,
}
use network_etc.Lease.Msg.{PLeaseMsg, propose_accepted, learn_chosen}
use network_etc.Lease.Msg.Set
use network_etc.Lease.Msg.Wire.{InRange}
use network_etc.Lease.Config.{ReplicatedConfig, min_majority}
use network_etc.Lease.Node.{
  Node, Proposer, max_lease_time, add_timer, delete_timer, extend, acquire,
}
use network_etc.Lease.Proposer
use network_etc.Lease.Proposer.{
  with_msg, count_prepare, on_prepare_response, on_propose_response, start_proposing, arm_proposing,
  broadcast_message, count_propose,
}
use network_etc.Lease.Proposer.Rounds.{sends, recipients, on_propose_response-announces}
use network_etc.Lease.PaxosLease.{observe, dispatch}
use network_etc.Lease.PaxosLease.Reading.{got}
use network_etc.Lease.Round.{deliver}
use network_etc.Lease.Round.Wires.{deliver-accepted}
use network_etc.Lease.Round.Counting.{IsProposing}

dispatch_accepted :
    (n : Node)
    → n.msg.type ≡ propose_accepted
    → dispatch n ≡ some (on_propose_response (with_msg n.msg n))
unfolding dispatch observe Proposer.process_msg
dispatch_accepted n t = ground (arith, t)

module _ (c : ReplicatedConfig) (id : ℕ) where
  least :
      (n : Node)
      → n.config.num_nodes / 2 ≤ n.proposer.num_accepted
      → min_majority n.config ≤ n.proposer.num_accepted + 1
  unfolding min_majority
  least n h = omega arith

  count_accepted :
      (p : Proposer)
      → p.msg.type ≡ propose_accepted
      → count_propose p ≡ record p {
        num_received = (p.num_received + 1) % u32;
        num_accepted = (p.num_accepted + 1) % u32;
      }
  unfolding count_propose
  count_accepted p t = ground (arith, t)

  -- The node after another acceptance.
  accepted_more : Node → Node
  accepted_more n = record n {
    proposer = record (n.proposer) {
      num_received = (n.proposer.num_received + 1) % u32;
      num_accepted = (n.proposer.num_accepted + 1) % u32;
    };
  }

  takes_accepted :
      (k : ℕ) (n : Node)
      → IsProposing c id k n
      → n.proposer.msg.type ≡ propose_accepted
      → n.proposer.msg.proposal_id ≡ id
      → k + 1 ≤ c.num_nodes / 2
      → c.num_nodes < u32
      → on_propose_response n ≡ accepted_more n
  unfolding on_propose_response min_majority accepted_more
  takes_accepted k n i t e few small =
      rw (count_accepted n.proposer t)
        (ground (arith, i, ap (λ (c : ReplicatedConfig). c.num_nodes) i.config))

  module _ (k : ℕ) (p : Node) (r : PLeaseMsg) (i : IsProposing c id k p) (g : InRange r)
      (t : r.type ≡ propose_accepted) (e : r.proposal_id ≡ id) (small : c.num_nodes < u32)
      (later : p.now + max_lease_time < u64) where
    -- An acceptance that leaves the majority open is counted.
    pub deliver-accepted_more :
        k + 1 ≤ c.num_nodes / 2
        → (p' : Node) × (deliver r p ≡ some p') × IsProposing c id (k + 1) p' × (p'.now ≡ p.now)
    unfolding accepted_more
    deliver-accepted_more few =
        let n = got (Set.propose_accepted p.msg r.node_id r.proposal_id) p in
        let n' = with_msg n.msg n in
        let i' : IsProposing c id k n' = record {
          config = i.config;
          proposing = i.proposing;
          proposal = i.proposal;
          owner = i.owner;
          expiry = i.expiry;
          received = i.received;
          accepted = i.accepted;
        } in
        (
          accepted_more n',
          deliver-accepted r p g t
              ∙ dispatch_accepted n refl
              ∙ ap (λ x. some x) (takes_accepted k n' i' refl e few small),
          record {
            config = i.config;
            proposing = i.proposing;
            proposal = i.proposal;
            owner = i.owner;
            expiry = i.expiry;
            received = omega (arith, i.received);
            accepted = omega (arith, i.accepted);
          },
          refl,
        )

    -- The acceptance that completes the majority: the lease is announced to every recipient.
    pub deliver-announces :
        k ≡ c.num_nodes / 2
        → (p' : Node) × (deliver r p ≡ some p')
          × (m : PLeaseMsg) × (m.type ≡ learn_chosen)
          × (m.lease_owner ≡ c.node_id)
          × (m.duration ≡ max_lease_time)
          × (m.local_expire_time ≡ p.now + max_lease_time)
          × (p'.trace
              ≡ sends m (recipients c)
                ++ (add_timer extend (max_lease_time / 7) ∷ delete_timer acquire ∷ p.trace))
          × (p'.proposer.state.proposing ≡ false)
    deliver-announces most =
        let n = got (Set.propose_accepted p.msg r.node_id r.proposal_id) p in
        let n' = with_msg n.msg n in
        let span : p.proposer.state.expire_time - p.now ≡ max_lease_time =
          omega (arith, i.expiry) in
        let nodes = ap (λ (c : ReplicatedConfig). c.num_nodes) i.config in
        let m =
          Set.learn_chosen n'.proposer.msg n'.config.node_id n'.proposer.state.lease_owner
            ((p.proposer.state.expire_time - p.now) % u32) n'.proposer.state.expire_time in
        let (told, quiet) =
          on_propose_response-announces n' i.proposing (e ∙ sym i.proposal) refl
            (omega (arith, i.expiry)) (omega (arith, i.expiry)) (omega (arith, i.accepted))
            (least n' (omega (arith, i.accepted, nodes))) in
        (
          on_propose_response n',
          deliver-accepted r p g t ∙ dispatch_accepted n refl,
          m,
          refl,
          i.owner,
          omega (arith, i.expiry),
          i.expiry,
          told
              ∙ ap
                  (λ (left : ℕ).
                    sends m (recipients p.config)
                    ++ (add_timer extend (left / 7) ∷ delete_timer acquire ∷ p.trace))
                  span
              ∙ ap
                  (λ (c : ReplicatedConfig).
                    sends m (recipients c)
                    ++ (add_timer extend (max_lease_time / 7) ∷ delete_timer acquire ∷ p.trace))
                  i.config,
          quiet,
        )
