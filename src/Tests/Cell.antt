-- ===== src/Tests/Cell.antt =====
-- A cell of three members, the states of one of them, and messages and blocks for the examples.
use network_etc.Base.{ℕ, zero, suc, ◌≡◌, refl, ap, true, false, List, [], ◌∷◌, Bytes, length}
use network_etc.Memblock.{Memblock}
use network_etc.Lease.Msg.{PLeaseMsg}
use network_etc.Lease.Config.{Address, ReplicatedConfig}
use network_etc.Lease.Node.{Node, Proposer, Acceptor, Learner}

abbrev pub addresses : List Address
addresses =
    record { ip = 1; port = 80 } ∷ record { ip = 2; port = 80 } ∷ record { ip = 3; port = 80 } ∷ []

abbrev pub cell : ReplicatedConfig
cell = record {
  node_id = 1;
  num_nodes = 3;
  restart_counter = 0;
  addresses = addresses;
  multi_mode = false;
}

-- A message of the type `t` from `from`, for the proposal 2 ^ 24 * `k` + `from`.
abbrev pub message : ℕ → ℕ → ℕ → PLeaseMsg
message t from proposal = record {
  type = t;
  node_id = from;
  proposal_id = proposal;
  accepted_proposal_id = 0;
  lease_owner = from;
  duration = 70000;
  local_expire_time = 71000;
  paxos_id = from;
}

abbrev pub proposer : Proposer
proposer = record {
  state = record {
    preparing = false;
    proposing = false;
    proposal_id = 0;
    highest_received_proposal_id = 0;
    lease_owner = 0;
    duration = 0;
    expire_time = 0;
  };
  msg = message 49 0 0;
  highest_proposal_id = 0;
  num_received = 0;
  num_accepted = 0;
  num_rejected = 0;
}

abbrev pub acceptor : Acceptor
acceptor = record {
  state = record {
    promised_proposal_id = 0;
    accepted = false;
    accepted_proposal_id = 0;
    accepted_lease_owner = 0;
    accepted_duration = 0;
    accepted_expire_time = 0;
  };
  msg = message 49 0 0;
}

abbrev pub learner : Learner
learner = record {
  state = record { learned = false; lease_owner = 0; expire_time = 0; lease_epoch = 0 };
  msg = message 49 0 0;
}

-- The member 1 at the time 1000, before anything has happened.
abbrev pub member : Node
member = record {
  config = cell;
  now = 1000;
  acquire_lease = false;
  msg = message 49 0 0;
  proposer = proposer;
  acceptor = acceptor;
  learner = learner;
  trace = [];
}

-- The member with a request of another at its acceptor.
abbrev pub asked : PLeaseMsg → Node
asked m = record member { acceptor = record acceptor { msg = m } }

-- The member that prepares, or proposes, the proposal 2 ^ 24 + 1, with `k` answers so far, and the
-- answer `m` at its proposer.
abbrev pub preparing : ℕ → ℕ → PLeaseMsg → Node
preparing k rejected m = record member {
  proposer = record proposer {
    state = record (proposer.state) { preparing = true; proposal_id = 16777217; lease_owner = 1 };
    msg = m;
    highest_proposal_id = 16777217;
    num_received = k;
    num_rejected = rejected;
  };
}

abbrev pub proposing : ℕ → PLeaseMsg → Node
proposing k m = record member {
  proposer = record proposer {
    state = record (proposer.state) {
      proposing = true;
      proposal_id = 16777217;
      lease_owner = 1;
      duration = 70000;
      expire_time = 71000;
    };
    msg = m;
    highest_proposal_id = 16777217;
    num_received = k;
    num_accepted = k;
  };
}

-- `n` bytes of zero, as an allocation.
abbrev pub zeros : ℕ → Bytes
zeros zero = []
zeros (suc n) = 0 ∷ zeros n

pub length-zeros : (n : ℕ) → length (zeros n) ≡ n
length-zeros zero = refl
length-zeros (suc n) = ap suc (length-zeros n)

-- A block of eight bytes that holds 10, 11 and 12.
abbrev pub block : Memblock
block = record {
  store = 9 ∷ 10 ∷ 11 ∷ 12 ∷ 0 ∷ 0 ∷ 0 ∷ 0 ∷ [];
  capacity = 8;
  read_pt = 1;
  write_pt = 4;
  size = 3;
  flag = 2;
}
