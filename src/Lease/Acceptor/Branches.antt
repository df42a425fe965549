-- ===== src/Lease/Acceptor/Branches.antt =====
-- The requests of members, over all branches of their handlers.
use network_etc.Base.{
  ◌+◌, ◌%◌, u64, ℕ, ◌≤◌, ◌<◌, ◌≡◌, inl, inr, refl, true, false, ◌∷◌, some, arith, Bool-cases,
}
use native.Mathlib.Decide.{dec_lt}
use network_etc.Lease.Msg.{
  prepare_rejected, prepare_currently_open, prepare_previously_accepted, propose_rejected,
  propose_accepted,
}
use network_etc.Lease.Msg.Set
use network_etc.Lease.Config.{get_addr}
use network_etc.Lease.Node.{Node, AcceptorState, act, add_timer, send, node, accept}
use network_etc.Lease.Acceptor.{
  with_acceptor, send_reply, expire, answer_prepare, prepare, on_propose_request,
}
use network_etc.Lease.Acceptor.Answers.{
  Running, expire-promise, prepare-Running, prepare_open, on_propose_request_below,
  on_propose_request_accepts,
}

-- How a proposal fares: `n'` answers `n`.
pub data Judged (n n' : Node) : Type 0 where
  rejected :
      n.acceptor.msg.proposal_id < n.acceptor.state.promised_proposal_id
      → n'.acceptor.msg.type ≡ propose_rejected
      → n'.acceptor.state ≡ expire n.now n.acceptor.state
      → n'.trace ≡ send (node n.acceptor.msg.node_id) n'.acceptor.msg ∷ n.trace
      → Judged n n'
  taken :
      n.acceptor.state.promised_proposal_id ≤ n.acceptor.msg.proposal_id
      → n'.acceptor.msg.type ≡ propose_accepted
      → n'.acceptor.state.accepted ≡ true
      → n'.acceptor.state.accepted_proposal_id ≡ n.acceptor.msg.proposal_id
      → n'.acceptor.state.accepted_lease_owner ≡ n.acceptor.msg.lease_owner
      → n'.acceptor.state.accepted_duration ≡ n.acceptor.msg.duration
      → n'.acceptor.state.accepted_expire_time ≡ (n.now + n.acceptor.msg.duration) % u64
      → n'.acceptor.state.promised_proposal_id ≡ n.acceptor.state.promised_proposal_id
      → n'.trace
        ≡ send (node n.acceptor.msg.node_id) n'.acceptor.msg
          ∷ add_timer accept n.acceptor.msg.duration
          ∷ n.trace
      → Judged n n'

-- A propose request with the node id of a member is always answered, to that member alone. Below
-- the promise it is rejected and no lease changes but by the end of its time; otherwise its lease
-- is accepted, with its duration and the end that the clock and the duration give in 64 bits, with
-- the promise as it was and the timer set to the duration.
pub on_propose_request-Judged :
    (n : Node)
    → n.acceptor.msg.node_id < n.config.num_nodes
    → (n' : Node) × (on_propose_request n ≡ some n') × Judged n n'
on_propose_request-Judged n h =
    elim (dec_lt n.acceptor.msg.proposal_id n.acceptor.state.promised_proposal_id) [
      | yes below ↦ (_, on_propose_request_below n h below, rejected below refl refl refl)
      | no above ↦ (
        _,
        on_propose_request_accepts n h (omega arith),
        taken (omega arith) refl refl refl refl refl (omega arith) refl refl,
      )
    ]

pub dec_running : (now : ℕ) (s : AcceptorState) → Dec (Running now s)
dec_running now s = elim (Bool-cases s.accepted) [
  | inl held ↦ elim (dec_lt s.accepted_expire_time now) [
    | yes over ↦ no (λ r. absurd (omega (arith, r.runs)))
    | no runs ↦ yes (record { accepted = held; runs = omega arith })
  ]
  | inr free ↦ no (λ r. absurd (ground (arith, r.accepted)))
]

-- How a member's prepare request fares.
pub data Promised (n n' : Node) : Type 0 where
  refused :
      n.acceptor.msg.proposal_id < n.acceptor.state.promised_proposal_id
      → n'.acceptor.msg.type ≡ prepare_rejected
      → n'.acceptor.state ≡ expire n.now n.acceptor.state
      → Promised n n'
  free :
      n.acceptor.state.promised_proposal_id ≤ n.acceptor.msg.proposal_id
      → ¬ Running n.now n.acceptor.state
      → n'.acceptor.msg.type ≡ prepare_currently_open
      → n'.acceptor.state.accepted ≡ false
      → n'.acceptor.state.promised_proposal_id ≡ n.acceptor.msg.proposal_id
      → Promised n n'
  held :
      n.acceptor.state.promised_proposal_id ≤ n.acceptor.msg.proposal_id
      → Running n.now n.acceptor.state
      → n'.acceptor.msg.type ≡ prepare_previously_accepted
      → n'.acceptor.msg.lease_owner ≡ n.acceptor.state.accepted_lease_owner
      → n'.acceptor.msg.accepted_proposal_id ≡ n.acceptor.state.accepted_proposal_id
      → n'.acceptor.state
        ≡ record (n.acceptor.state) { promised_proposal_id = n.acceptor.msg.proposal_id }
      → Promised n n'

prepare_below :
    (n : Node)
    → n.acceptor.msg.node_id < n.config.num_nodes
    → n.acceptor.msg.proposal_id < n.acceptor.state.promised_proposal_id
    → let m = n.acceptor.msg in
      let reply = Set.prepare_rejected m n.config.node_id m.proposal_id in
      prepare n
      ≡ some (
          act
            (send (node m.node_id) reply)
            (with_acceptor (record { state = expire n.now n.acceptor.state; msg = reply }) n))
unfolding prepare send_reply get_addr answer_prepare
prepare_below n h k = ground (arith, expire-promise n.now n.acceptor.state)

-- A prepare request with the node id of a member that is looked at is always answered, to that
-- member alone. It is refused just if it is below the promise, and no lease changes then but by the
-- end of its time; otherwise it is promised: while a lease runs the lease is kept, and the answer
-- names its owner and proposal, and where none runs the answer is that the acceptor is open.
pub prepare-Promised :
    (n : Node)
    → n.acceptor.msg.node_id < n.config.num_nodes
    → (n' : Node) × (prepare n ≡ some n')
      × (n'.trace ≡ send (node n.acceptor.msg.node_id) n'.acceptor.msg ∷ n.trace)
      × Promised n n'
prepare-Promised n h =
    elim (dec_lt n.acceptor.msg.proposal_id n.acceptor.state.promised_proposal_id) [
      | yes below ↦ (_, prepare_below n h below, refl, refused below refl refl)
      | no above ↦ elim (dec_running n.now n.acceptor.state) [
        | yes runs ↦ (
          _,
          prepare-Running n h (omega arith) runs,
          refl,
          held (omega arith) runs refl refl refl refl,
        )
        | no over ↦
            let (n', e, kind, empty, promise, told) = prepare_open n h (omega arith) over in
            (n', e, told, free (omega arith) over kind empty promise)
      ]
    ]
