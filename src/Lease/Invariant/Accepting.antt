-- ===== src/Lease/Invariant/Accepting.antt =====
-- The acceptor's handlers keep the invariant and the promise.
use network_etc.Base.{ℕ, ◌≤◌, ◌≡◌, some, arith}
use network_etc.Lease.Msg.{PLeaseMsg}
use network_etc.Lease.Msg.Set
use network_etc.Lease.Config.{get_addr}
use network_etc.Lease.Node.{Node, Acceptor, acceptor_timeout, act, add_timer, accept}
use network_etc.Lease.Learner.{get_lease_owner}
use network_etc.Lease.Acceptor.{
  with_acceptor, send_reply, expire, on_lease_timeout, answer_prepare, prepare, on_prepare_request,
  accept_proposal, on_propose_request, process_msg,
}
use network_etc.Lease.Invariant.{AcceptorValid, IsValid, Sound}
use network_etc.Lease.Invariant.Learning.{Sound-trans, get_lease_owner-Learns}

-- A reply changes the trace alone.
send_reply-Sound : (to : ℕ) (n n' : Node) → IsValid n → send_reply to n ≡ some n' → Sound n n'
unfolding send_reply get_addr
send_reply-Sound to n n' v h = ground arith

-- An acceptor that keeps its promise, in place of the old one.
with_acceptor-Sound :
    (a : Acceptor) (n : Node)
    → IsValid n
    → AcceptorValid a
    → n.acceptor.state.promised_proposal_id ≤ a.state.promised_proposal_id
    → Sound n (with_acceptor a n)
with_acceptor-Sound a n v w h = ground arith

expire-AcceptorValid :
    (now : ℕ) (a : Acceptor)
    → AcceptorValid a
    → AcceptorValid (record a { state = expire now a.state })
unfolding expire acceptor_timeout
expire-AcceptorValid now a w = ground arith

expire-promise :
    (now : ℕ) (a : Acceptor)
    → (expire now a.state).promised_proposal_id ≡ a.state.promised_proposal_id
unfolding expire acceptor_timeout
expire-promise now a = ground arith

answer_prepare-AcceptorValid :
    (node_id : ℕ) (a : Acceptor) → AcceptorValid a → AcceptorValid (answer_prepare node_id a)
unfolding answer_prepare
answer_prepare-AcceptorValid node_id a w = ground arith

answer_prepare-promise :
    (node_id : ℕ) (a : Acceptor)
    → a.state.promised_proposal_id ≤ (answer_prepare node_id a).state.promised_proposal_id
unfolding answer_prepare
answer_prepare-promise node_id a = ground arith

prepare-Sound : (n n' : Node) → IsValid n → prepare n ≡ some n' → Sound n n'
unfolding prepare
prepare-Sound n n' v h =
    let b : Acceptor = record (n.acceptor) { state = expire n.now n.acceptor.state } in
    let a = answer_prepare n.config.node_id b in
    let w =
      answer_prepare-AcceptorValid n.config.node_id b
        (expire-AcceptorValid n.now n.acceptor v.acceptor) in
    let p = answer_prepare-promise n.config.node_id b in
    let s = with_acceptor-Sound a n v w (omega (arith, p, expire-promise n.now n.acceptor)) in
    Sound-trans s (send_reply-Sound n.acceptor.msg.node_id (with_acceptor a n) n' s.valid h)

on_prepare_request-Sound : (n n' : Node) → IsValid n → on_prepare_request n ≡ some n' → Sound n n'
unfolding on_prepare_request
on_prepare_request-Sound n n' v h =
    let asked = get_lease_owner-Learns n v in
    let m = (get_lease_owner n).0 in
    let go : prepare m ≡ some n' → Sound n n' =
      λ e. Sound-trans asked.sound (prepare-Sound m n' asked.sound.valid e) in
    ground (arith, prepare-Sound n n' v, go)

accept_proposal-AcceptorValid :
    (node_id now : ℕ) (a : Acceptor) → AcceptorValid (accept_proposal node_id now a)
unfolding accept_proposal
accept_proposal-AcceptorValid node_id now a = ground arith

on_propose_request-Sound : (n n' : Node) → IsValid n → on_propose_request n ≡ some n' → Sound n n'
unfolding on_propose_request
on_propose_request-Sound n n' v h =
    let b : Acceptor = record (n.acceptor) { state = expire n.now n.acceptor.state } in
    let rejected : Acceptor = record b {
      msg = Set.propose_rejected b.msg n.config.node_id b.msg.proposal_id;
    } in
    let accepted = accept_proposal n.config.node_id n.now b in
    let w = expire-AcceptorValid n.now n.acceptor v.acceptor in
    let p = expire-promise n.now n.acceptor in
    let no = with_acceptor-Sound rejected n v (ground arith) (ground (arith, p)) in
    let promise : n.acceptor.state.promised_proposal_id ≤ accepted.state.promised_proposal_id =
      unfold accept_proposal in ground (arith, p) in
    let ok =
      with_acceptor-Sound accepted n v (accept_proposal-AcceptorValid n.config.node_id n.now b)
        promise in
    let n₁ = with_acceptor rejected n in
    let n₂ = act (add_timer accept b.msg.duration) (with_acceptor accepted n) in
    let timed : Sound n n₂ = ground arith in
    let go₁ : send_reply b.msg.node_id n₁ ≡ some n' → Sound n n' =
      λ e. Sound-trans no (send_reply-Sound b.msg.node_id n₁ n' no.valid e) in
    let go₂ : send_reply b.msg.node_id n₂ ≡ some n' → Sound n n' =
      λ e. Sound-trans timed (send_reply-Sound b.msg.node_id n₂ n' timed.valid e) in
    ground (arith, go₁, go₂)

pub process_msg-Sound :
    (m : PLeaseMsg) (n n' : Node) → IsValid n → process_msg m n ≡ some n' → Sound n n'
unfolding process_msg
process_msg-Sound m n n' v h =
    let n₁ = with_acceptor (record (n.acceptor) { msg = m }) n in
    let start : Sound n n₁ = ground arith in
    let prepared : on_prepare_request n₁ ≡ some n' → Sound n n' =
      λ e. Sound-trans start (on_prepare_request-Sound n₁ n' start.valid e) in
    let proposed : on_propose_request n₁ ≡ some n' → Sound n n' =
      λ e. Sound-trans start (on_propose_request-Sound n₁ n' start.valid e) in
    ground (arith, prepared, proposed)

pub on_lease_timeout-Sound : (n : Node) → IsValid n → Sound n (on_lease_timeout n)
unfolding on_lease_timeout acceptor_timeout
on_lease_timeout-Sound n v = ground arith
