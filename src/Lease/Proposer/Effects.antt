-- ===== src/Lease/Proposer/Effects.antt =====
-- What the methods of the proposer change, and what they leave alone.
use network_etc.Base.{ℕ, zero, suc, ◌≤◌, ◌≡◌, refl, arith}
use network_etc.Lease.Msg.{PLeaseMsg}
use network_etc.Lease.Node.{Node, act, delete_timer, extend}
use network_etc.Lease.Proposer.{
  send_all, reset_counts, broadcast_message, preparing_state, arm_preparing, start_preparing,
  start_acquire_lease,
}

-- Everything but the proposer and the trace is the same.
pub record Aside (n n' : Node) : Type 0 where
  pub config : n'.config ≡ n.config
  pub now : n'.now ≡ n.now
  pub acquire_lease : n'.acquire_lease ≡ n.acquire_lease
  pub msg : n'.msg ≡ n.msg
  pub acceptor : n'.acceptor ≡ n.acceptor
  pub learner : n'.learner ≡ n.learner

send_all-Aside : (m : PLeaseMsg) (k : ℕ) (n : Node) → Aside n (send_all m k n)
unfolding send_all
send_all-Aside m zero n = record {
  config = refl;
  now = refl;
  acquire_lease = refl;
  msg = refl;
  acceptor = refl;
  learner = refl;
}
send_all-Aside m (suc k) n =
    let h = send_all-Aside m k n in
    record {
      config = h.config;
      now = h.now;
      acquire_lease = h.acquire_lease;
      msg = h.msg;
      acceptor = h.acceptor;
      learner = h.learner;
    }

send_all-proposer : (m : PLeaseMsg) (k : ℕ) (n : Node) → (send_all m k n).proposer ≡ n.proposer
unfolding send_all
send_all-proposer m zero n = refl
send_all-proposer m (suc k) n = send_all-proposer m k n

-- A broadcast resets the counts and sends.
pub broadcast_message-Aside : (n : Node) → Aside n (broadcast_message n)
unfolding broadcast_message reset_counts
broadcast_message-Aside n =
    ground (arith, send_all-Aside n.proposer.msg n.config.num_nodes (reset_counts n))

pub broadcast_message-proposer :
    (n : Node)
    → (broadcast_message n).proposer
      ≡ record (n.proposer) { num_received = 0; num_accepted = 0; num_rejected = 0 }
unfolding broadcast_message reset_counts
broadcast_message-proposer n =
    ground (arith, send_all-proposer n.proposer.msg n.config.num_nodes (reset_counts n))

pub start_preparing-Aside : (n : Node) → Aside n (start_preparing n)
unfolding start_preparing arm_preparing
start_preparing-Aside n = ground (arith, broadcast_message-Aside (arm_preparing n))

-- The state behind `StartPreparing`, and the count from which the next proposal is made.
pub start_preparing_lem :
    (n : Node)
    → ((start_preparing n).proposer.state ≡ preparing_state n)
      × (n.proposer.highest_proposal_id ≤ (start_preparing n).proposer.highest_proposal_id)
      × ((preparing_state n).proposal_id ≤ (start_preparing n).proposer.highest_proposal_id)
unfolding start_preparing arm_preparing
start_preparing_lem n = ground (arith, broadcast_message-proposer (arm_preparing n))

pub start_acquire_lease-Aside : (n : Node) → Aside n (start_acquire_lease n)
unfolding start_acquire_lease
start_acquire_lease-Aside n = ground (arith, start_preparing-Aside (act (delete_timer extend) n))
