-- ===== src/Lease.antt =====
-- PL/: the PaxosLease master election. A child module for each class.
pub mod Msg
pub mod Config
pub mod Node
pub mod Proposer
pub mod Learner
pub mod Acceptor
pub mod PaxosLease
pub mod Invariant
pub mod Round
