-- ===== src/Lease/PaxosLease.antt =====
-- PL/PaxosLease.cpp: the object that the session calls, and the events of the timer.
pub mod Reading
use network_etc.Base.{
  ℕ, Bool, true, false, ◌&&◌, Option, none, some, Bytes, ltb, ◌==◌, if◌then◌else◌,
}
use network_etc.Lease.Msg
use network_etc.Lease.Msg.{PLeaseMsg, is_request, is_response, learn_chosen}
use network_etc.Lease.Node.{Node, Event, acquire, extend, accept, learn}
use network_etc.Lease.Proposer
use network_etc.Lease.Acceptor
use network_etc.Lease.Learner

-- `Init`
unfoldable pub init : Node → Node
init n = record (Learner.init (Acceptor.init (Proposer.init n))) { acquire_lease = false }

unfoldable pub acquire_lease : Node → Node
acquire_lease n = Proposer.start_acquire_lease (record n { acquire_lease = true })

-- A request of others raises the count from which own proposals are made.
unfoldable pub observe : PLeaseMsg → Node → Node
observe m n =
    if is_request m && ltb n.proposer.highest_proposal_id m.proposal_id
    then record n { proposer = record (n.proposer) { highest_proposal_id = m.proposal_id } }
    else n

-- `OnRead` behind `msg.Read`.
unfoldable pub dispatch : Node → Option Node
dispatch n =
    let m = n.msg in
    let n' = observe m n in
    if is_response m
    then Proposer.process_msg m n'
    else if is_request m
    then Acceptor.process_msg m n'
    else if m.type == learn_chosen
    then Learner.process_msg m n'
    else none

-- `OnRead`, where the session's block holds `text`.
unfoldable pub on_read : Bytes → Node → Option Node
on_read text n =
    let (m, ok) = Msg.read n.msg text in
    let n' : Node = record n { msg = m } in if ok then dispatch n' else some n'

-- The timer handlers that the three `Init` functions install.
unfoldable pub on_timer : Event → Node → Option Node
on_timer acquire n = some (Proposer.on_acquire_lease_timeout n)
on_timer extend n = Proposer.on_extend_lease_timeout n
on_timer accept n = some (Acceptor.on_lease_timeout n)
on_timer learn n = some (Learner.on_lease_timeout n)
