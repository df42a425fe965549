-- ===== src/Lease/Learner/Ownership.antt =====
-- When a node takes itself for the owner of the lease, and what it does about the leases of others.
use native.Mathlib.Decide.{dec_lt}
use network_etc.Base.{
  ◌⊎◌, inl, inr, Bool-cases, ℕ, ◌+◌, ◌-◌, ◌%◌, ◌≤◌, ◌<◌, ◌≡◌, ◌≢◌, ◌↔◌, true, false, arith, u64,
  ◌&&◌, ltb, if◌then◌else◌,
}
use network_etc.Lease.Node.{Node, learner_timeout, act, add_timer, delete_timer, learn}
use network_etc.Lease.Proposer.{stop_acquire_lease}
use network_etc.Lease.Proposer.Effects.{start_acquire_lease-Aside}
use network_etc.Lease.Learner.{
  with_state, lease_timeout, on_lease_timeout, check_lease, is_lease_owner, is_lease_known,
  get_lease_epoch, on_learn_lease, learned_expiry, learn_lease, on_learn_chosen,
}

-- The lease that the learner knows runs at the time of the clock.
pub record Holds (n : Node) : Type 0 where
  pub learned : n.learner.state.learned ≡ true
  pub runs : n.now ≤ n.learner.state.expire_time

on_lease_timeout_lem :
    (n : Node)
    → ((on_lease_timeout n).learner.state ≡ learner_timeout n.learner.state)
      × ((on_lease_timeout n).config ≡ n.config)
      × ((on_lease_timeout n).now ≡ n.now)
      × ((on_lease_timeout n).learner.msg ≡ n.learner.msg)
unfolding on_lease_timeout lease_timeout
on_lease_timeout_lem n =
    let n₁ = with_state (learner_timeout n.learner.state) (act (delete_timer learn) n) in
    ground (arith, start_acquire_lease-Aside n₁)

-- `IsLeaseOwner` answers yes just if a lease is known, has not run out and is the node's own. If a
-- lease is known and has not run out, the call changes nothing; otherwise none is known behind it.
pub is_lease_owner_iff :
    (n : Node)
    → (((is_lease_owner n).1 ≡ true) ↔ (Holds n × (n.learner.state.lease_owner ≡ n.config.node_id)))
      × ((Holds n × ((is_lease_owner n).0 ≡ n))
          ⊎ ((¬ Holds n) × ((is_lease_owner n).0.learner.state.learned ≡ false)))
unfolding is_lease_owner check_lease learner_timeout
is_lease_owner_iff n = (
  (λ h. ground (arith, on_lease_timeout_lem n), λ h. ground (arith, on_lease_timeout_lem n)),
  elim (Bool-cases n.learner.state.learned) [
    | inl known ↦ elim (dec_lt n.learner.state.expire_time n.now) [
      | yes over ↦ inr (λ h. absurd (omega (arith, h.runs)), ground (arith, on_lease_timeout_lem n))
      | no runs ↦ inl (record { learned = known; runs = omega arith }, ground arith)
    ]
    | inr unknown ↦ inr (λ h. absurd (ground (arith, h.learned)), ground arith)
  ],
)

check_lease_runs : (n : Node) → n.now ≤ n.learner.state.expire_time → check_lease n ≡ n
unfolding check_lease
check_lease_runs n h = ground arith

-- Where the known lease has run out the learner forgets it and counts an epoch.
pub check_lease_expired :
    (n : Node)
    → n.learner.state.learned ≡ true
    → n.learner.state.expire_time < n.now
    → (check_lease n).learner.state ≡ learner_timeout n.learner.state
unfolding check_lease
check_lease_expired n h k = ground (arith, on_lease_timeout_lem n)

check_lease_lem :
    (n : Node)
    → ((check_lease n).now ≡ n.now)
      × ((check_lease n).config ≡ n.config)
      × ((check_lease n).learner.msg ≡ n.learner.msg)
unfolding check_lease
check_lease_lem n = ground (arith, on_lease_timeout_lem n)

on_learn_lease_other :
    (n : Node)
    → n.now ≤ n.learner.state.expire_time
    → n.learner.state.lease_owner ≢ n.config.node_id
    → on_learn_lease n ≡ stop_acquire_lease n
unfolding on_learn_lease is_lease_owner
on_learn_lease_other n h k = let runs = check_lease_runs n h in rw (runs, runs) (ground arith)

learn_lease_other :
    (e : ℕ) (n : Node)
    → n.now ≤ e
    → n.learner.msg.lease_owner ≢ n.config.node_id
    → ((learn_lease e n).learner.state.learned ≡ true)
      × ((learn_lease e n).learner.state.lease_owner ≡ n.learner.msg.lease_owner)
      × ((learn_lease e n).learner.state.expire_time ≡ e)
      × ((learn_lease e n).proposer.state.preparing ≡ false)
      × ((learn_lease e n).proposer.state.proposing ≡ false)
unfolding learn_lease stop_acquire_lease
learn_lease_other e n h k =
    let n₁ = act (add_timer learn e) (
      with_state
        (record (n.learner.state) {
          learned = true;
          lease_owner = n.learner.msg.lease_owner;
          expire_time = e;
        })
        n) in
    ground (arith, on_learn_lease_other n₁ h k)

-- A node that is told of the lease of another, for long enough to survive the margin of 500, knows
-- that lease until 500 before its end, and neither prepares nor proposes any more.
pub on_learn_chosen_other :
    (n : Node)
    → n.learner.msg.lease_owner ≢ n.config.node_id
    → 500 ≤ n.learner.msg.duration
    → n.now + n.learner.msg.duration < u64
    → let n' = on_learn_chosen n in
      (n'.learner.state.learned ≡ true)
      × (n'.learner.state.lease_owner ≡ n.learner.msg.lease_owner)
      × (n'.learner.state.expire_time ≡ n.now + n.learner.msg.duration - 500)
      × (n'.proposer.state.preparing ≡ false)
      × (n'.proposer.state.proposing ≡ false)
unfolding on_learn_chosen learned_expiry
on_learn_chosen_other n h k l =
    let n₁ = check_lease n in
    let e : learned_expiry n₁ ≡ n.now + n.learner.msg.duration - 500 =
      ground (arith, check_lease_lem n) in
    ground (arith, e, check_lease_lem n, learn_lease_other (learned_expiry n₁) n₁)

-- `IsLeaseKnown` answers yes just if a lease is known and has not run out. Where a known lease has
-- run out `GetLeaseEpoch` counts one more epoch; otherwise it gives the epoch as it is.
pub is_lease_known_iff :
    (n : Node)
    → (((is_lease_known n).1 ≡ true) ↔ Holds n)
      × ((get_lease_epoch n).1 ≡ (
          if n.learner.state.learned && ltb n.learner.state.expire_time n.now
          then (n.learner.state.lease_epoch + 1) % u64
          else n.learner.state.lease_epoch))
unfolding is_lease_known get_lease_epoch check_lease learner_timeout
is_lease_known_iff n = (
  (λ h. ground (arith, on_lease_timeout_lem n), λ h. ground (arith, on_lease_timeout_lem n)),
  ground (arith, on_lease_timeout_lem n),
)
