-- ===== src/Lease/Learner.antt =====
-- PL/PLeaseLearner.cpp, and the calls that it makes back into PaxosLease and ReplicatedLog.
pub mod Ownership
use network_etc.Base.{
  ℕ, ◌+◌, ◌-◌, ◌%◌, Bool, true, false, not, ◌&&◌, Option, none, some, ltb, ◌==◌, if◌then◌else◌, u32,
  u64,
}
use network_etc.Lease.Msg.{PLeaseMsg, learn_chosen}
use network_etc.Lease.Node.{
  Node, LearnerState, learner_timeout, init_learner_state, act, add_timer, delete_timer, learn,
}
use network_etc.Lease.Proposer.{start_acquire_lease, stop_acquire_lease}

abbrev pub with_state : LearnerState → Node → Node
with_state s n = record n { learner = record (n.learner) { state = s } }

unfoldable pub init : Node → Node
init n = with_state init_learner_state n

-- `PaxosLease::OnLeaseTimeout`; `ReplicatedLog::OnLeaseTimeout` does nothing.
unfoldable pub lease_timeout : Node → Node
lease_timeout n = if n.acquire_lease then start_acquire_lease n else n

unfoldable pub on_lease_timeout : Node → Node
on_lease_timeout n =
    lease_timeout (with_state (learner_timeout n.learner.state) (act (delete_timer learn) n))

-- Both branches of `useSoftClock` take the same clock.
unfoldable pub check_lease : Node → Node
check_lease n =
    if n.learner.state.learned && ltb n.learner.state.expire_time n.now
    then on_lease_timeout n
    else n

unfoldable pub is_lease_owner : Node → Node × Bool
is_lease_owner n =
    let n' = check_lease n in
    (n', n'.learner.state.learned && n'.learner.state.lease_owner == n'.config.node_id)

unfoldable pub is_lease_known : Node → Node × Bool
is_lease_known n = let n' = check_lease n in (n', n'.learner.state.learned)

-- -1 as an unsigned int, which is what PaxosLease::GetLeaseOwner returns.
abbrev pub unknown_owner : ℕ
unknown_owner = u32 - 1

unfoldable pub get_lease_owner : Node → Node × ℕ
get_lease_owner n =
    let n' = check_lease n in
    (n', if n'.learner.state.learned then n'.learner.state.lease_owner else unknown_owner)

unfoldable pub get_lease_epoch : Node → Node × ℕ
get_lease_epoch n = let n' = check_lease n in (n', n'.learner.state.lease_epoch)

-- `PaxosLease::OnLearnLease`, behind `ReplicatedLog::OnLearnLease`, which asks for the owner too.
unfoldable pub on_learn_lease : Node → Node
on_learn_lease n =
    let n₁ = (is_lease_owner n).0 in
    let (n₂, owner) = is_lease_owner n₁ in if not owner then stop_acquire_lease n₂ else n₂

-- Which time the learner takes for the end of the lease.
pub learned_expiry : Node → ℕ
learned_expiry n =
    let m = n.learner.msg in
    if m.lease_owner == n.config.node_id
    then m.local_expire_time
    else (n.now + m.duration + u64 - 500) % u64

unfoldable pub learn_lease : ℕ → Node → Node
learn_lease expire_time n = on_learn_lease (
    act (add_timer learn expire_time) (
      with_state
        (record (n.learner.state) {
          learned = true;
          lease_owner = n.learner.msg.lease_owner;
          expire_time = expire_time;
        })
        n))

unfoldable pub on_learn_chosen : Node → Node
on_learn_chosen n =
    let n₁ = check_lease n in
    let expire_time = learned_expiry n₁ in
    if ltb expire_time n₁.now then n₁ else learn_lease expire_time n₁

unfoldable pub process_msg : PLeaseMsg → Node → Option Node
process_msg m n =
    let n' : Node = record n { learner = record (n.learner) { msg = m } } in
    if m.type == learn_chosen then some (on_learn_chosen n') else none
