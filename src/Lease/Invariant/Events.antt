-- ===== src/Lease/Invariant/Events.antt =====
-- Every event keeps the invariant, so it holds in every state that a node can reach.
use network_etc.Base.{ℕ, ◌≤◌, ◌≡◌, true, some, Bytes, arith}
use network_etc.Lease.Msg
use network_etc.Lease.Msg.{PLeaseMsg}
use network_etc.Lease.Node.{
  Node, Event, acquire, extend, accept, learn, init_proposer_state, init_acceptor_state,
  init_learner_state,
}
use network_etc.Lease.Proposer
use network_etc.Lease.Proposer.{start_preparing}
use network_etc.Lease.Acceptor
use network_etc.Lease.Learner
use network_etc.Lease.PaxosLease.{init, acquire_lease, observe, dispatch, on_read, on_timer}
use network_etc.Lease.Invariant.{IsValid, Sound}
use network_etc.Lease.Invariant.Proposing
use network_etc.Lease.Invariant.Proposing.{
  Moves-Sound, start_preparing-Moves, start_acquire_lease-Moves,
}
use network_etc.Lease.Invariant.Learning
use network_etc.Lease.Invariant.Learning.{Sound-refl, Sound-trans, on_lease_timeout-Learns}
use network_etc.Lease.Invariant.Accepting

pub init-IsValid : (n : Node) → IsValid (init n)
unfolding init Proposer.init Acceptor.init Learner.init init_proposer_state init_acceptor_state
    init_learner_state
init-IsValid n = ground arith

pub acquire_lease-Sound : (n : Node) → IsValid n → Sound n (acquire_lease n)
unfolding acquire_lease
acquire_lease-Sound n v =
    let n₁ : Node = record n { acquire_lease = true } in
    ground (arith, start_acquire_lease-Moves n₁ v.proposer)

observe-Sound : (m : PLeaseMsg) (n : Node) → IsValid n → Sound n (observe m n)
unfolding observe
observe-Sound m n v = ground arith

dispatch-Sound : (n n' : Node) → IsValid n → dispatch n ≡ some n' → Sound n n'
unfolding dispatch
dispatch-Sound n n' v h =
    let n₁ = observe n.msg n in
    let seen = observe-Sound n.msg n v in
    let propose : Proposer.process_msg n.msg n₁ ≡ some n' → Sound n n' =
      λ e. Sound-trans seen (Proposing.process_msg-Sound n.msg n₁ n' seen.valid e) in
    let accepted : Acceptor.process_msg n.msg n₁ ≡ some n' → Sound n n' =
      λ e. Sound-trans seen (Accepting.process_msg-Sound n.msg n₁ n' seen.valid e) in
    let learned : Learner.process_msg n.msg n₁ ≡ some n' → Sound n n' =
      λ e. Sound-trans seen (Learning.process_msg-Sound n.msg n₁ n' seen.valid e) in
    ground (arith, propose, accepted, learned)

-- A datagram, whatever it holds, is taken in soundly, unless an assertion fails.
pub on_read-Sound : (text : Bytes) (n n' : Node) → IsValid n → on_read text n ≡ some n' → Sound n n'
unfolding on_read
on_read-Sound text n n' v h =
    let n₁ : Node = record n { msg = (Msg.read n.msg text).0 } in
    let start : Sound n n₁ = ground arith in
    let go : dispatch n₁ ≡ some n' → Sound n n' =
      λ e. Sound-trans start (dispatch-Sound n₁ n' start.valid e) in
    ground (arith, go)

pub on_timer-Sound : (e : Event) (n n' : Node) → IsValid n → on_timer e n ≡ some n' → Sound n n'
unfolding on_timer Proposer.on_acquire_lease_timeout Proposer.on_extend_lease_timeout
on_timer-Sound acquire n n' v h = ground (arith, Moves-Sound v (start_preparing-Moves n))
on_timer-Sound extend n n' v h = ground (arith, Moves-Sound v (start_preparing-Moves n))
on_timer-Sound accept n n' v h = ground (arith, Accepting.on_lease_timeout-Sound n v)
on_timer-Sound learn n n' v h = ground (arith, on_lease_timeout-Learns n v)

-- What can happen to a node: a datagram, a timer, the call of `AcquireLease`, and the clock's
-- `Update`, which may set any time.
pub data Step (n : Node) : Node → Type 0 where
  receive : (text : Bytes) {n' : Node} → on_read text n ≡ some n' → Step n n'
  timer : (e : Event) {n' : Node} → on_timer e n ≡ some n' → Step n n'
  start : Step n (acquire_lease n)
  update : (now : ℕ) → Step n (record n { now = now })

-- The states that events lead to.
pub data Later (n : Node) : Node → Type 0 where
  here : Later n n
  next : {a b : Node} → Later n a → Step a b → Later n b

-- What an event leaves true, and what it does not take back.
pub record Advances (n n' : Node) : Type 0 where
  pub valid : IsValid n'
  pub config : n'.config ≡ n.config
  pub highest : n.proposer.highest_proposal_id ≤ n'.proposer.highest_proposal_id
  pub promise : n.acceptor.state.promised_proposal_id ≤ n'.acceptor.state.promised_proposal_id

Sound-Advances : {n n' : Node} → Sound n n' → Advances n n'
Sound-Advances s = ground arith

Step-Advances : {n n' : Node} → IsValid n → Step n n' → Advances n n'
Step-Advances {n} {n'} v (receive text h) = Sound-Advances (on_read-Sound text n n' v h)
Step-Advances {n} {n'} v (timer e h) = Sound-Advances (on_timer-Sound e n n' v h)
Step-Advances {n} v start = Sound-Advances (acquire_lease-Sound n v)
Step-Advances v (update now) = ground arith

-- From a valid state no sequence of datagrams, timers, calls of `AcquireLease` and clock readings
-- breaks the invariant, changes the configuration, or lowers the promise of the acceptor or the
-- count of proposals.
pub Later-Advances : {n n' : Node} → IsValid n → Later n n' → Advances n n'
Later-Advances v here = ground arith
Later-Advances v (next l s) =
    let before = Later-Advances v l in let after = Step-Advances before.valid s in ground arith
