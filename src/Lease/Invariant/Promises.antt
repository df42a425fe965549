-- ===== src/Lease/Invariant/Promises.antt =====
-- What a promise of the acceptor binds it to, whatever happens between the two requests.
use network_etc.Base.{ℕ, ◌<◌, ◌≡◌, ◌⊎◌, ◌∙◌, refl, true, false, ◌∷◌, some, arith, ◌==◌}
use network_etc.Lease.Msg.{
  PLeaseMsg, prepare_request, prepare_currently_open, prepare_previously_accepted, propose_request,
  propose_rejected,
}
use network_etc.Lease.Msg.Set
use network_etc.Lease.Config.{get_addr}
use network_etc.Lease.Node.{Node, Acceptor, act, send, node}
use network_etc.Lease.Learner.{get_lease_owner}
use network_etc.Lease.Acceptor.{
  with_acceptor, send_reply, expire, answer_prepare, prepare, on_prepare_request,
  on_propose_request, process_msg,
}
use network_etc.Lease.Acceptor.Answers.{on_propose_request_below}
use network_etc.Lease.Invariant.{IsValid}
use network_etc.Lease.Invariant.Learning.{get_lease_owner-Learns}
use network_etc.Lease.Invariant.Accepting
use network_etc.Lease.Invariant.Events.{Later, Later-Advances}

-- The answer that the acceptor holds is a promise.
abbrev pub IsPromise : PLeaseMsg → Type 0
IsPromise m = (m.type ≡ prepare_currently_open) ⊎ (m.type ≡ prepare_previously_accepted)

answer_prepare-IsPromise :
    (node_id : ℕ) (a : Acceptor)
    → IsPromise (answer_prepare node_id a).msg
    → (answer_prepare node_id a).state.promised_proposal_id ≡ a.msg.proposal_id
unfolding answer_prepare
answer_prepare-IsPromise node_id a h = ground arith

prepare-IsPromise :
    (n n' : Node)
    → prepare n ≡ some n'
    → IsPromise n'.acceptor.msg
    → n'.acceptor.state.promised_proposal_id ≡ n.acceptor.msg.proposal_id
unfolding prepare send_reply get_addr
prepare-IsPromise n n' e h =
    let b : Acceptor = record (n.acceptor) { state = expire n.now n.acceptor.state } in
    ground (arith, answer_prepare-IsPromise n.config.node_id b)

on_prepare_request-IsPromise :
    (n n' : Node)
    → IsValid n
    → n.acceptor.msg.type ≡ prepare_request
    → on_prepare_request n ≡ some n'
    → IsPromise n'.acceptor.msg
    → n'.acceptor.state.promised_proposal_id ≡ n.acceptor.msg.proposal_id
unfolding on_prepare_request
on_prepare_request-IsPromise n n' v t e h =
    let n₁ = (get_lease_owner n).0 in
    let same : n₁.acceptor ≡ n.acceptor = (get_lease_owner-Learns n v).acceptor in
    ground (arith, prepare-IsPromise n n', prepare-IsPromise n₁ n', same)

-- The answer to a prepare request promises the proposal of that request.
pub process_msg-IsPromise :
    (m : PLeaseMsg) (n n' : Node)
    → IsValid n
    → m.type ≡ prepare_request
    → process_msg m n ≡ some n'
    → IsPromise n'.acceptor.msg
    → n'.acceptor.state.promised_proposal_id ≡ m.proposal_id
unfolding process_msg
process_msg-IsPromise m n n' v t e h =
    let n₁ = with_acceptor (record (n.acceptor) { msg = m }) n in
    let v₁ : IsValid n₁ = ground arith in
    let this : (m.type == prepare_request) ≡ true = ground (arith, t) in
    on_prepare_request-IsPromise n₁ n' v₁ t (rw this at e) h

process_msg_propose :
    (m : PLeaseMsg) (n : Node)
    → m.type ≡ propose_request
    → process_msg m n ≡ on_propose_request (with_acceptor (record (n.acceptor) { msg = m }) n)
unfolding process_msg
process_msg_propose m n t =
    let other : (m.type == prepare_request) ≡ false = ground (arith, t) in
    let this : (m.type == propose_request) ≡ true = ground (arith, t) in
    rw (other, this) (λ i. on_propose_request (with_acceptor (record (n.acceptor) { msg = m }) n))

-- An acceptor that has answered a prepare request by a promise rejects every later propose request
-- with the node id of a member for a smaller proposal, whatever datagrams, timers, calls of
-- `AcquireLease` and clock readings come between, if the member was valid before: the lease it
-- holds changes only by the end of its time, and the sender is told.
pub promise_kept :
    (m m' : PLeaseMsg) (n n₁ n₂ : Node)
    → IsValid n
    → m.type ≡ prepare_request
    → process_msg m n ≡ some n₁
    → IsPromise n₁.acceptor.msg
    → Later n₁ n₂
    → m'.type ≡ propose_request
    → m'.node_id < n₂.config.num_nodes
    → m'.proposal_id < m.proposal_id
    → (n₃ : Node) × (process_msg m' n₂ ≡ some n₃)
      × (n₃.acceptor.msg.type ≡ propose_rejected)
      × (n₃.acceptor.state ≡ expire n₂.now n₂.acceptor.state)
      × (n₃.trace ≡ send (node m'.node_id) n₃.acceptor.msg ∷ n₂.trace)
promise_kept m m' n n₁ n₂ v t e positive later t' member below =
    let promised = process_msg-IsPromise m n n₁ v t e positive in
    let kept = (Later-Advances (Accepting.process_msg-Sound m n n₁ v e).valid later).promise in
    let n' = with_acceptor (record (n₂.acceptor) { msg = m' }) n₂ in
    let reply = Set.propose_rejected m' n₂.config.node_id m'.proposal_id in
    (
      act (send (node m'.node_id) reply)
          (with_acceptor (record { state = expire n₂.now n₂.acceptor.state; msg = reply }) n'),
      process_msg_propose m' n₂ t'
          ∙ on_propose_request_below n' member (omega (arith, promised, kept)),
      refl,
      refl,
      refl,
    )
