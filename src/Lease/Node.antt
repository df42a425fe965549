-- ===== src/Lease/Node.antt =====
-- One member of the cell: PL/PLeaseState.h, the fields of PLeaseProposer, PLeaseAcceptor,
-- PLeaseLearner and PaxosLease, and what they ask of the timer and of the session.
use network_etc.Base.{ℕ, ◌+◌, ◌-◌, ◌%◌, Bool, false, List, ◌∷◌, u64}
use network_etc.Lease.Msg.{PLeaseMsg}
use network_etc.Lease.Config.{ReplicatedConfig}

abbrev pub acquirelease_timeout : ℕ
acquirelease_timeout = 20000

abbrev pub max_lease_time : ℕ
max_lease_time = 70000

-- The difference of two uint64_t.
abbrev pub sub64 : ℕ → ℕ → ℕ
sub64 a b = (a + u64 - b) % u64

pub record ProposerState : Type 0 where
  pub preparing : Bool
  pub proposing : Bool
  pub proposal_id : ℕ
  pub highest_received_proposal_id : ℕ
  pub lease_owner : ℕ
  pub duration : ℕ
  pub expire_time : ℕ

pub record AcceptorState : Type 0 where
  pub promised_proposal_id : ℕ
  pub accepted : Bool
  pub accepted_proposal_id : ℕ
  pub accepted_lease_owner : ℕ
  pub accepted_duration : ℕ
  pub accepted_expire_time : ℕ

pub record LearnerState : Type 0 where
  pub learned : Bool
  pub lease_owner : ℕ
  pub expire_time : ℕ
  pub lease_epoch : ℕ

-- `Init` of the proposer's state leaves `leaseOwner` as it is.
unfoldable pub init_proposer_state : ProposerState → ProposerState
init_proposer_state s = record s {
  preparing = false;
  proposing = false;
  proposal_id = 0;
  highest_received_proposal_id = 0;
  duration = 0;
  expire_time = 0;
}

unfoldable pub init_acceptor_state : AcceptorState
init_acceptor_state = record {
  promised_proposal_id = 0;
  accepted = false;
  accepted_proposal_id = 0;
  accepted_lease_owner = 0;
  accepted_duration = 0;
  accepted_expire_time = 0;
}

unfoldable pub init_learner_state : LearnerState
init_learner_state = record { learned = false; lease_owner = 0; expire_time = 0; lease_epoch = 0 }

-- `OnLeaseTimeout` of the two states.
unfoldable pub acceptor_timeout : AcceptorState → AcceptorState
acceptor_timeout s = record s {
  accepted = false;
  accepted_proposal_id = 0;
  accepted_lease_owner = 0;
  accepted_duration = 0;
  accepted_expire_time = 0;
}

unfoldable pub learner_timeout : LearnerState → LearnerState
learner_timeout s = record {
  learned = false;
  lease_owner = 0;
  expire_time = 0;
  lease_epoch = (s.lease_epoch + 1) % u64;
}

-- The four events that the classes give to the timer.
pub data Event : Type 0 where
  acquire extend accept learn : Event

pub data Target : Type 0 where
  multicast : Target
  node : ℕ → Target

-- A call of `CTimer::Add` with its milliseconds, of `CTimer::Delete`, and a message that is sent.
pub data Action : Type 0 where
  add_timer : Event → ℕ → Action
  delete_timer : Event → Action
  send : Target → PLeaseMsg → Action

pub record Proposer : Type 0 where
  pub state : ProposerState
  pub msg : PLeaseMsg
  pub highest_proposal_id : ℕ
  pub num_received : ℕ
  pub num_accepted : ℕ
  pub num_rejected : ℕ

pub record Acceptor : Type 0 where
  pub state : AcceptorState
  pub msg : PLeaseMsg

pub record Learner : Type 0 where
  pub state : LearnerState
  pub msg : PLeaseMsg

-- `config` is RCONF, `now` is `GetTimer()->GetSec()`, and `trace` holds the actions, newest first.
pub record Node : Type 0 where
  pub config : ReplicatedConfig
  pub now : ℕ
  pub acquire_lease : Bool
  pub msg : PLeaseMsg
  pub proposer : Proposer
  pub acceptor : Acceptor
  pub learner : Learner
  pub trace : List Action

abbrev pub act : Action → Node → Node
act a n = record n { trace = a ∷ n.trace }
