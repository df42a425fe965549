-- ===== src/Lease/PaxosLease/Reading.antt =====
-- A datagram on its way through `OnRead`: parsed, handed to a role, and acted on.
use network_etc.Base.{
  ◌+◌, ◌-◌, ◌≤◌, ◌<◌, ◌≡◌, ◌≢◌, ◌∙◌, ◌==◌, true, false, none, some, Bytes, arith, u64,
}
use network_etc.Lease.Msg
use network_etc.Lease.Msg.{
  PLeaseMsg, encode, is_request, is_response, prepare_request, propose_request, learn_chosen,
}
use network_etc.Lease.Msg.Wire.{InRange, received, read-encode}
use network_etc.Lease.Node.{Node}
use network_etc.Lease.Acceptor
use network_etc.Lease.Acceptor.{with_acceptor}
use network_etc.Lease.Acceptor.Answers.{on_propose_request_stranger}
use network_etc.Lease.Learner
use network_etc.Lease.Learner.Ownership.{on_learn_chosen_other}
use network_etc.Lease.PaxosLease.{observe, dispatch, on_read}

abbrev pub got : PLeaseMsg → Node → Node
got m n = record n { msg = m }

pub on_read-dispatch :
    (text : Bytes) (m : PLeaseMsg) (n : Node)
    → Msg.read n.msg text ≡ (m, true)
    → on_read text n ≡ dispatch (got m n)
unfolding on_read
on_read-dispatch text m n e = rw e (λ i. dispatch (got m n))

dispatch_learn :
    (n : Node)
    → n.msg.type ≡ learn_chosen
    → dispatch n
      ≡ some (Learner.on_learn_chosen (record n { learner = record (n.learner) { msg = n.msg } }))
unfolding dispatch observe Learner.process_msg
dispatch_learn n t = ground arith

pub dispatch_propose :
    (n : Node)
    → n.msg.type ≡ propose_request
    → dispatch n
      ≡ Acceptor.on_propose_request
          (with_acceptor (record ((observe n.msg n).acceptor) { msg = n.msg }) (observe n.msg n))
unfolding dispatch Acceptor.process_msg
dispatch_propose n t =
    let n₁ = observe n.msg n in
    let n' = with_acceptor (record (n₁.acceptor) { msg = n.msg }) n₁ in
    let reply : is_response n.msg ≡ false = ground (arith, t) in
    let asks : is_request n.msg ≡ true = ground (arith, t) in
    let other : (n.msg.type == prepare_request) ≡ false = ground (arith, t) in
    let this : (n.msg.type == propose_request) ≡ true = ground (arith, t) in
    rw (reply, asks, other, this) (λ i. Acceptor.on_propose_request n')

pub observe-Keeps :
    (m : PLeaseMsg) (n : Node)
    → ((observe m n).config ≡ n.config)
      × ((observe m n).acceptor ≡ n.acceptor)
      × ((observe m n).now ≡ n.now)
unfolding observe
observe-Keeps m n = ground arith

-- A datagram that does not parse changes nothing but the message object.
pub on_read_unreadable :
    (text : Bytes) (n : Node)
    → (Msg.read n.msg text).1 ≡ false
    → on_read text n ≡ some (record n { msg = (Msg.read n.msg text).0 })
unfolding on_read
on_read_unreadable text n h = rw h (λ i. some (record n { msg = (Msg.read n.msg text).0 }))

-- The text that `Write` prints of a propose request, with fields within their C types, under a
-- node id that is not of the cell, fails an assertion in every node that reads it.
pub on_read_stranger :
    (text : Bytes) (m : PLeaseMsg) (n : Node)
    → InRange m
    → m.type ≡ propose_request
    → encode m ≡ some text
    → n.config.num_nodes ≤ m.node_id
    → on_read text n ≡ none
on_read_stranger text m n r t e far =
    let m' = received n.msg m in
    let kind : m'.type ≡ propose_request = ground (arith, t) in
    let who : m'.node_id ≡ m.node_id = ground (arith, t) in
    let n₁ = got m' n in
    let seen = observe m' n₁ in
    let n₂ = with_acceptor (record (seen.acceptor) { msg = m' }) seen in
    rw (on_read-dispatch text m' n (read-encode n.msg m r text e), dispatch_propose n₁ kind)
      (on_propose_request_stranger n₂ (ground (arith, observe-Keeps m' n₁)))

-- The text that `Write` prints of a LearnChosen message, with fields within their C types, for the
-- lease of another node and for at least 500, is learned by the node that reads it, where its
-- clock plus the duration does not overflow: the lease is known there until 500 before its end,
-- and the node neither prepares nor proposes any more.
pub on_read_learns :
    (text : Bytes) (m : PLeaseMsg) (n : Node)
    → InRange m
    → m.type ≡ learn_chosen
    → encode m ≡ some text
    → m.lease_owner ≢ n.config.node_id
    → 500 ≤ m.duration
    → n.now + m.duration < u64
    → (n' : Node) × (on_read text n ≡ some n')
      × (n'.learner.state.learned ≡ true)
      × (n'.learner.state.lease_owner ≡ m.lease_owner)
      × (n'.learner.state.expire_time ≡ n.now + m.duration - 500)
      × (n'.proposer.state.preparing ≡ false)
      × (n'.proposer.state.proposing ≡ false)
on_read_learns text m n r t e other long small =
    let m' = received n.msg m in
    let kind : m'.type ≡ learn_chosen = ground (arith, t) in
    let owner : m'.lease_owner ≡ m.lease_owner = ground (arith, t) in
    let span : m'.duration ≡ m.duration = ground (arith, t) in
    let n₁ = got m' n in
    let n₂ : Node = record n₁ { learner = record (n₁.learner) { msg = m' } } in
    let (known, of, until, idle, quiet) =
      on_learn_chosen_other n₂ (λ same. other (ground arith)) (omega (arith, span))
        (omega (arith, span)) in
    let start = on_read-dispatch text m' n (read-encode n.msg m r text e) in
    (
      Learner.on_learn_chosen n₂,
      rw start (dispatch_learn n₁ kind),
      known,
      of ∙ owner,
      omega (arith, until, span),
      idle,
      quiet,
    )
