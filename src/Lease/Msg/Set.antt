-- ===== src/Lease/Msg/Set.antt =====
-- The setters of PL/PLeaseMsg.cpp. They keep the fields that they do not name, as the source does.
use network_etc.Base.{ℕ}
use network_etc.Lease.Msg.{PLeaseMsg}

abbrev pub init : PLeaseMsg → ℕ → ℕ → PLeaseMsg
init m type node_id = record m { type = type; node_id = node_id }

abbrev pub prepare_request : PLeaseMsg → ℕ → ℕ → ℕ → PLeaseMsg
prepare_request m node_id proposal_id paxos_id = record (init m b'1' node_id) {
  proposal_id = proposal_id;
  paxos_id = paxos_id;
}

abbrev pub prepare_rejected : PLeaseMsg → ℕ → ℕ → PLeaseMsg
prepare_rejected m node_id proposal_id = record (init m b'2' node_id) { proposal_id = proposal_id }

abbrev pub prepare_previously_accepted : PLeaseMsg → ℕ → ℕ → ℕ → ℕ → ℕ → PLeaseMsg
prepare_previously_accepted m node_id proposal_id accepted_proposal_id lease_owner duration =
    record (init m b'3' node_id) {
      proposal_id = proposal_id;
      accepted_proposal_id = accepted_proposal_id;
      lease_owner = lease_owner;
      duration = duration;
    }

abbrev pub prepare_currently_open : PLeaseMsg → ℕ → ℕ → PLeaseMsg
prepare_currently_open m node_id proposal_id = record (init m b'4' node_id) {
  proposal_id = proposal_id;
}

abbrev pub propose_request : PLeaseMsg → ℕ → ℕ → ℕ → ℕ → PLeaseMsg
propose_request m node_id proposal_id lease_owner duration = record (init m b'5' node_id) {
  proposal_id = proposal_id;
  lease_owner = lease_owner;
  duration = duration;
}

abbrev pub propose_rejected : PLeaseMsg → ℕ → ℕ → PLeaseMsg
propose_rejected m node_id proposal_id = record (init m b'6' node_id) { proposal_id = proposal_id }

abbrev pub propose_accepted : PLeaseMsg → ℕ → ℕ → PLeaseMsg
propose_accepted m node_id proposal_id = record (init m b'7' node_id) { proposal_id = proposal_id }

abbrev pub learn_chosen : PLeaseMsg → ℕ → ℕ → ℕ → ℕ → PLeaseMsg
learn_chosen m node_id lease_owner duration local_expire_time = record (init m b'8' node_id) {
  lease_owner = lease_owner;
  duration = duration;
  local_expire_time = local_expire_time;
}
