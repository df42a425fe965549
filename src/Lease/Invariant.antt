-- ===== src/Lease/Invariant.antt =====
-- What holds of a node between two events, and what no event takes back.
pub mod Proposing
pub mod Learning
pub mod Accepting
pub mod Events
pub mod Promises
use network_etc.Base.{ℕ, ◌≤◌, ◌≡◌, true, false}
use network_etc.Lease.Node.{Node, Proposer, Acceptor, Learner}

-- The proposer does not prepare and propose at once, proposes itself as the owner, and has counted
-- its own proposal.
pub record ProposerValid (node_id : ℕ) (p : Proposer) : Type 0 where
  pub exclusive : p.state.proposing ≡ true → p.state.preparing ≡ false
  pub own : p.state.proposing ≡ true → p.state.lease_owner ≡ node_id
  pub latest : p.state.proposal_id ≤ p.highest_proposal_id

-- An acceptor without a lease holds no trace of one.
pub record AcceptorValid (a : Acceptor) : Type 0 where
  pub proposal : a.state.accepted ≡ false → a.state.accepted_proposal_id ≡ 0
  pub owner : a.state.accepted ≡ false → a.state.accepted_lease_owner ≡ 0
  pub duration : a.state.accepted ≡ false → a.state.accepted_duration ≡ 0
  pub expiry : a.state.accepted ≡ false → a.state.accepted_expire_time ≡ 0

pub record LearnerValid (l : Learner) : Type 0 where
  pub owner : l.state.learned ≡ false → l.state.lease_owner ≡ 0
  pub expiry : l.state.learned ≡ false → l.state.expire_time ≡ 0

pub record IsValid (n : Node) : Type 0 where
  pub proposer : ProposerValid n.config.node_id n.proposer
  pub acceptor : AcceptorValid n.acceptor
  pub learner : LearnerValid n.learner

-- From `n` to `n'` the configuration and the clock stay, and neither the count of proposals nor the
-- promise of the acceptor goes down.
pub record Progress (n n' : Node) : Type 0 where
  pub config : n'.config ≡ n.config
  pub now : n'.now ≡ n.now
  pub highest : n.proposer.highest_proposal_id ≤ n'.proposer.highest_proposal_id
  pub promise : n.acceptor.state.promised_proposal_id ≤ n'.acceptor.state.promised_proposal_id

-- A sound change of a node.
pub record Sound (n n' : Node) : Type 0 where
  pub valid : IsValid n'
  pub progress : Progress n n'
