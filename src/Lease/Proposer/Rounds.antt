-- ===== src/Lease/Proposer/Rounds.antt =====
-- The course of a round: what is sent to whom, when a phase is decided, and what it takes to
-- announce a lease.
use network_etc.Base.{
  ◌==◌, ℕ, zero, suc, ◌+◌, ◌-◌, ◌/◌, ◌%◌, ◌≤◌, ◌<◌, ◌≡◌, ◌≢◌, ◌⊎◌, refl, sym, ap, true, false, List,
  [], ◌∷◌, ◌++◌, map, arith, u32, u64, if◌then◌else◌,
}
use network_etc.Lease.Msg.{PLeaseMsg, prepare_previously_accepted, propose_accepted, learn_chosen}
use network_etc.Lease.Msg.Set
use network_etc.Lease.Config.{ReplicatedConfig, min_majority, next_highest}
use network_etc.Lease.Node.{
  Node, Proposer, Action, Target, add_timer, delete_timer, send, multicast, node, acquire, extend,
  sub64, acquirelease_timeout,
}
use network_etc.Lease.Proposer.{
  send_all, reset_counts, broadcast_message, preparing_state, arm_preparing, start_preparing,
  arm_proposing, start_proposing, arm_learned, announce, count_prepare, count_propose,
  on_prepare_response, on_propose_response,
}
use network_etc.Lease.Proposer.Effects.{broadcast_message-proposer}

-- The first `k` nodes, the last of them first.
abbrev pub nodes_below : ℕ → List Target
nodes_below zero = []
nodes_below (suc k) = node k ∷ nodes_below k

-- To whom a broadcast goes: the group in multicast mode, otherwise every member of the cell.
abbrev pub recipients : ReplicatedConfig → List Target
recipients c = if c.multi_mode then multicast ∷ [] else nodes_below c.num_nodes

abbrev pub sends : PLeaseMsg → List Target → List Action
sends m = map (λ t. send t m)

send_all-trace :
    (m : PLeaseMsg) (k : ℕ) (n : Node) → (send_all m k n).trace ≡ sends m (nodes_below k) ++ n.trace
unfolding send_all
send_all-trace m zero n = refl
send_all-trace m (suc k) n = ap (λ t. send (node k) m ∷ t) (send_all-trace m k n)

broadcast_message-trace :
    (n : Node) → (broadcast_message n).trace ≡ sends n.proposer.msg (recipients n.config) ++ n.trace
unfolding broadcast_message reset_counts
broadcast_message-trace n =
    ground (arith, send_all-trace n.proposer.msg n.config.num_nodes (reset_counts n))

-- A new round sets the timer for its end, and sends every recipient a prepare request with the next
-- proposal number of the node.
pub start_preparing-trace :
    (n : Node)
    → let id = next_highest n.config n.proposer.highest_proposal_id in
      (start_preparing n).trace
      ≡ sends
          (Set.prepare_request n.proposer.msg n.config.node_id id n.config.node_id)
          (recipients n.config)
        ++ (add_timer acquire acquirelease_timeout ∷ n.trace)
unfolding start_preparing arm_preparing preparing_state
start_preparing-trace n = broadcast_message-trace (arm_preparing n)

start_proposing-done : (n : Node) → (start_proposing n).proposer.state.preparing ≡ false
unfolding start_proposing arm_proposing
start_proposing-done n = ground (arith, broadcast_message-proposer (arm_proposing n))

count_prepare-numbers :
    (p : Proposer)
    → ((count_prepare p).num_received ≡ (p.num_received + 1) % u32)
      × (((count_prepare p).num_rejected ≡ p.num_rejected)
          ⊎ ((count_prepare p).num_rejected ≡ (p.num_rejected + 1) % u32))
unfolding count_prepare
count_prepare-numbers p = ground arith

-- The answer to the current prepare request that is the last of the members', of whom there are
-- fewer than 2 ^ 32, decides the phase: either a new round begins, or the node no longer prepares.
pub on_prepare_response-decides :
    (n : Node)
    → n.proposer.state.preparing ≡ true
    → n.proposer.msg.proposal_id ≡ n.proposer.state.proposal_id
    → n.config.num_nodes < u32
    → n.proposer.num_received + 1 ≡ n.config.num_nodes
    → n.proposer.num_rejected ≤ n.proposer.num_received
    → (on_prepare_response n ≡ start_preparing (record n { proposer = count_prepare n.proposer }))
      ⊎ ((on_prepare_response n).proposer.state.preparing ≡ false)
unfolding on_prepare_response min_majority
on_prepare_response-decides n h k small last le =
    let n' : Node = record n { proposer = count_prepare n.proposer } in
    ground (arith, count_prepare-numbers n.proposer, start_proposing-done n')

-- An answer to the current prepare request that names the lease of another node, with a proposal
-- at least as high as those named before, while fewer than half of the members have rejected:
-- nothing is sent, and whether the node proposes does not change.
pub on_prepare_response-yields :
    (n : Node)
    → n.proposer.state.preparing ≡ true
    → n.proposer.msg.proposal_id ≡ n.proposer.state.proposal_id
    → n.proposer.msg.type ≡ prepare_previously_accepted
    → n.proposer.state.highest_received_proposal_id ≤ n.proposer.msg.accepted_proposal_id
    → n.proposer.msg.lease_owner ≢ n.config.node_id
    → n.proposer.num_rejected < (n.config.num_nodes + 1) / 2
    → ((on_prepare_response n).trace ≡ n.trace)
      × ((on_prepare_response n).proposer.state.proposing ≡ n.proposer.state.proposing)
unfolding on_prepare_response count_prepare start_proposing
on_prepare_response-yields n h k t hi other few = ground arith

on_propose_response-announce :
    (n : Node)
    → n.proposer.state.proposing ≡ true
    → n.proposer.msg.proposal_id ≡ n.proposer.state.proposal_id
    → n.proposer.msg.type ≡ propose_accepted
    → n.now + 500 < n.proposer.state.expire_time
    → n.proposer.state.expire_time < u64
    → n.proposer.num_accepted + 1 < u32
    → min_majority n.config ≤ n.proposer.num_accepted + 1
    → on_propose_response n
      ≡ announce (record n {
        proposer = record (n.proposer) {
          num_received = (n.proposer.num_received + 1) % u32;
          num_accepted = n.proposer.num_accepted + 1;
        };
      })
unfolding on_propose_response count_propose
on_propose_response-announce n h k t room small fits most =
    let e : (n.proposer.num_accepted + 1) % u32 ≡ n.proposer.num_accepted + 1 = omega arith in
    ground (arith, e)

announce-trace :
    (n : Node)
    → let s = n.proposer.state in
      let left = sub64 s.expire_time n.now in
      (announce n).trace
      ≡ sends
          (Set.learn_chosen n.proposer.msg n.config.node_id s.lease_owner
            (left % u32)
            s.expire_time)
          (recipients n.config)
        ++ (add_timer extend (left / 7) ∷ delete_timer acquire ∷ n.trace)
unfolding announce arm_learned
announce-trace n = broadcast_message-trace (arm_learned n)

announce-done : (n : Node) → (announce n).proposer.state.proposing ≡ false
unfolding announce arm_learned
announce-done n = ground (arith, broadcast_message-proposer (arm_learned n))

sub64_lem : (a b : ℕ) → a < u64 → b ≤ a → sub64 a b ≡ a - b
sub64_lem a b small le = omega arith

-- The accepted answer to the current proposal that completes a majority, more than 500 before the
-- proposal expires and with counters and times within their C types: the timer of the round is
-- deleted, that of the extension is set to a seventh of the time that is left, every recipient is
-- sent the owner and the end of the lease, and the node no longer proposes.
pub on_propose_response-announces :
    (n : Node)
    → n.proposer.state.proposing ≡ true
    → n.proposer.msg.proposal_id ≡ n.proposer.state.proposal_id
    → n.proposer.msg.type ≡ propose_accepted
    → n.now + 500 < n.proposer.state.expire_time
    → n.proposer.state.expire_time < u64
    → n.proposer.num_accepted + 1 < u32
    → min_majority n.config ≤ n.proposer.num_accepted + 1
    → let left = n.proposer.state.expire_time - n.now in
      let m =
        Set.learn_chosen n.proposer.msg n.config.node_id n.proposer.state.lease_owner
          (left % u32)
          n.proposer.state.expire_time in
      ((on_propose_response n).trace
        ≡ sends m (recipients n.config)
          ++ (add_timer extend (left / 7) ∷ delete_timer acquire ∷ n.trace))
      × ((on_propose_response n).proposer.state.proposing ≡ false)
on_propose_response-announces n h k t room small fits most =
    let n' : Node = record n {
      proposer = record (n.proposer) {
        num_received = (n.proposer.num_received + 1) % u32;
        num_accepted = n.proposer.num_accepted + 1;
      };
    } in
    let left : n.proposer.state.expire_time - n.now ≡ sub64 n.proposer.state.expire_time n.now =
      sym (sub64_lem n.proposer.state.expire_time n.now small (omega arith)) in
    rw (on_propose_response-announce n h k t room small fits most)
      (rw left (announce-trace n'), announce-done n')

count_propose-keeps :
    (p : Proposer) → ((count_propose p).state ≡ p.state) × ((count_propose p).msg ≡ p.msg)
unfolding count_propose
count_propose-keeps p = ground arith

-- Only an acceptance is counted as one.
count_propose-accepts :
    (p : Proposer)
    → (count_propose p).num_accepted
      ≤ p.num_accepted + (if p.msg.type == propose_accepted then 1 else 0)
unfolding count_propose
count_propose-accepts p = ground arith

-- Where an answer turns the message of the proposer into LearnChosen, with an expiry of 64 bits, the
-- node was proposing the proposal of the answer, more than 500 before that proposal expires, and the
-- acceptances counted before, with one more if the answer is an acceptance, were a majority.
pub on_propose_response-needs :
    (n : Node)
    → n.proposer.state.expire_time < u64
    → n.proposer.msg.type ≢ learn_chosen
    → (on_propose_response n).proposer.msg.type ≡ learn_chosen
    → (n.proposer.state.proposing ≡ true)
      × (n.proposer.msg.proposal_id ≡ n.proposer.state.proposal_id)
      × (n.now + 500 < n.proposer.state.expire_time)
      × (min_majority n.config
          ≤ n.proposer.num_accepted + (if n.proposer.msg.type == propose_accepted then 1 else 0))
unfolding on_propose_response start_preparing arm_preparing
on_propose_response-needs n small fresh told =
    let n' : Node = record n { proposer = count_propose n.proposer } in
    let t = n.proposer.state.expire_time in
    ground (
      arith,
      count_propose-keeps n.proposer,
      count_propose-accepts n.proposer,
      sub64_lem t n.now small,
      broadcast_message-proposer (arm_preparing n'),
    )
