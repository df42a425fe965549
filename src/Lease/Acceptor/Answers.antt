-- ===== src/Lease/Acceptor/Answers.antt =====
-- What an acceptor answers, and to whom.
use network_etc.Base.{
  ℕ, ◌+◌, ◌%◌, ◌≤◌, ◌<◌, ◌≡◌, refl, true, false, none, some, ◌∷◌, arith, u64, Bool-cases, inl, inr,
}
use native.Mathlib.Decide.{dec_lt}
use network_etc.Lease.Msg.{prepare_currently_open}
use network_etc.Lease.Msg.Set
use network_etc.Lease.Config.{get_addr}
use network_etc.Lease.Node.{
  Node, AcceptorState, acceptor_timeout, act, add_timer, send, node, accept,
}
use network_etc.Lease.Acceptor.{
  with_acceptor, send_reply, expire, answer_prepare, prepare, accept_proposal, on_propose_request,
}

-- The lease that an acceptor holds runs at the time `now`.
pub record Running (now : ℕ) (s : AcceptorState) : Type 0 where
  pub accepted : s.accepted ≡ true
  pub runs : now ≤ s.accepted_expire_time

pub expire-Running : (now : ℕ) (s : AcceptorState) → Running now s → expire now s ≡ s
unfolding expire
expire-Running now s r = ground arith

pub expire_over : (now : ℕ) (s : AcceptorState) → ¬ Running now s → (expire now s).accepted ≡ false
unfolding expire acceptor_timeout
expire_over now s r = elim (Bool-cases s.accepted) [
  | inl yes' ↦ elim (dec_lt s.accepted_expire_time now) [
    | yes over ↦ ground arith
    | no runs ↦ absurd (r (record { accepted = yes'; runs = omega arith }))
  ]
  | inr none' ↦ ground arith
]

pub expire-promise :
    (now : ℕ) (s : AcceptorState) → (expire now s).promised_proposal_id ≡ s.promised_proposal_id
unfolding expire acceptor_timeout
expire-promise now s = ground arith

-- The prepare request of a member for a proposal that is not below the promise is promised and is
-- answered: while a lease runs, by that lease, which the acceptor keeps.
pub prepare-Running :
    (n : Node)
    → n.acceptor.msg.node_id < n.config.num_nodes
    → n.acceptor.state.promised_proposal_id ≤ n.acceptor.msg.proposal_id
    → Running n.now n.acceptor.state
    → let s = n.acceptor.state in
      let m = n.acceptor.msg in
      let reply =
        Set.prepare_previously_accepted m n.config.node_id m.proposal_id s.accepted_proposal_id
          s.accepted_lease_owner s.accepted_duration in
      prepare n
      ≡ some (
          act (send (node m.node_id) reply) (
            with_acceptor
              (record { state = record s { promised_proposal_id = m.proposal_id }; msg = reply })
              n))
unfolding prepare send_reply get_addr answer_prepare expire
prepare-Running n h k r = ground arith

-- The same request where no lease runs: the acceptor says that it is open, and has forgotten a
-- lease that ran out.
pub prepare_open :
    (n : Node)
    → n.acceptor.msg.node_id < n.config.num_nodes
    → n.acceptor.state.promised_proposal_id ≤ n.acceptor.msg.proposal_id
    → ¬ Running n.now n.acceptor.state
    → (n' : Node) × (prepare n ≡ some n')
      × (n'.acceptor.msg.type ≡ prepare_currently_open)
      × (n'.acceptor.state.accepted ≡ false)
      × (n'.acceptor.state.promised_proposal_id ≡ n.acceptor.msg.proposal_id)
      × (n'.trace ≡ send (node n.acceptor.msg.node_id) n'.acceptor.msg ∷ n.trace)
unfolding prepare send_reply get_addr answer_prepare
prepare_open n h k r =
    let m = n.acceptor.msg in
    let reply = Set.prepare_currently_open m n.config.node_id m.proposal_id in
    let s : AcceptorState = record (expire n.now n.acceptor.state) {
      promised_proposal_id = m.proposal_id;
    } in
    let over = expire_over n.now n.acceptor.state r in
    let promise = expire-promise n.now n.acceptor.state in
    (
      act (send (node m.node_id) reply) (with_acceptor (record { state = s; msg = reply }) n),
      ground (arith, over, promise),
      refl,
      over,
      refl,
      refl,
    )

-- A propose request of a member below the promise is rejected, and no lease changes but by the end
-- of its time.
pub on_propose_request_below :
    (n : Node)
    → n.acceptor.msg.node_id < n.config.num_nodes
    → n.acceptor.msg.proposal_id < n.acceptor.state.promised_proposal_id
    → let m = n.acceptor.msg in
      let reply = Set.propose_rejected m n.config.node_id m.proposal_id in
      on_propose_request n
      ≡ some (
          act
            (send (node m.node_id) reply)
            (with_acceptor (record { state = expire n.now n.acceptor.state; msg = reply }) n))
unfolding on_propose_request send_reply get_addr
on_propose_request_below n h k = ground (arith, expire-promise n.now n.acceptor.state)

-- Any other propose request of a member is accepted: the lease runs for the requested duration from
-- now on, takes the place of any other, leaves the promise alone, and is confirmed to the sender.
pub on_propose_request_accepts :
    (n : Node)
    → n.acceptor.msg.node_id < n.config.num_nodes
    → n.acceptor.state.promised_proposal_id ≤ n.acceptor.msg.proposal_id
    → let m = n.acceptor.msg in
      let reply = Set.propose_accepted m n.config.node_id m.proposal_id in
      on_propose_request n
      ≡ some (
          act (send (node m.node_id) reply) (
            act (add_timer accept m.duration) (
              with_acceptor
                (record {
                  state = record {
                    promised_proposal_id = n.acceptor.state.promised_proposal_id;
                    accepted = true;
                    accepted_proposal_id = m.proposal_id;
                    accepted_lease_owner = m.lease_owner;
                    accepted_duration = m.duration;
                    accepted_expire_time = (m.duration + n.now) % u64;
                  };
                  msg = reply;
                })
                n)))
unfolding on_propose_request send_reply get_addr accept_proposal
on_propose_request_accepts n h k = ground (arith, expire-promise n.now n.acceptor.state)

-- A request of a node that is no member fails the assertion of `GetAddr`: the process stops.
pub on_propose_request_stranger :
    (n : Node) → n.config.num_nodes ≤ n.acceptor.msg.node_id → on_propose_request n ≡ none
unfolding on_propose_request send_reply get_addr
on_propose_request_stranger n h = ground arith
