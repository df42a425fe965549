-- ===== src/Lease/Invariant/Learning.antt =====
-- The learner's methods, with what they start in the proposer, keep the invariant.
use network_etc.Base.{ℕ, ◌≡◌, true, some, arith}
use network_etc.Lease.Msg.{PLeaseMsg}
use network_etc.Lease.Node.{Node, learner_timeout, act, delete_timer, add_timer, learn}
use network_etc.Lease.Learner.{
  with_state, lease_timeout, on_lease_timeout, check_lease, is_lease_owner, get_lease_owner,
  on_learn_lease, learned_expiry, learn_lease, on_learn_chosen, process_msg,
}
use network_etc.Lease.Invariant.{IsValid, Sound}
use network_etc.Lease.Invariant.Proposing.{
  Moves, Moves-Sound, start_acquire_lease-Moves, stop_acquire_lease-Moves,
}

pub Sound-refl : (n : Node) → IsValid n → Sound n n
Sound-refl n v = ground arith

pub Sound-trans : {a b c : Node} → Sound a b → Sound b c → Sound a c
Sound-trans h k = ground arith

-- A sound change that leaves the acceptor's object alone.
pub record Learns (n n' : Node) : Type 0 where
  pub sound : Sound n n'
  pub acceptor : n'.acceptor ≡ n.acceptor

Learns-trans : {a b c : Node} → Learns a b → Learns b c → Learns a c
Learns-trans h k = record { sound = Sound-trans h.sound k.sound; acceptor = ground arith }

Moves-Learns : {n n' : Node} → IsValid n → Moves n n' → Learns n n'
Moves-Learns v m = record { sound = Moves-Sound v m; acceptor = m.aside.acceptor }

pub on_lease_timeout-Learns : (n : Node) → IsValid n → Learns n (on_lease_timeout n)
unfolding on_lease_timeout lease_timeout learner_timeout
on_lease_timeout-Learns n v =
    let n₁ = with_state (learner_timeout n.learner.state) (act (delete_timer learn) n) in
    ground (arith, start_acquire_lease-Moves n₁)

pub check_lease-Learns : (n : Node) → IsValid n → Learns n (check_lease n)
unfolding check_lease
check_lease-Learns n v = ground (arith, on_lease_timeout-Learns n v)

on_learn_lease-Learns : (n : Node) → IsValid n → Learns n (on_learn_lease n)
unfolding on_learn_lease is_lease_owner
on_learn_lease-Learns n v =
    let h = check_lease-Learns n v in
    let k = check_lease-Learns (check_lease n) h.sound.valid in
    let stop = stop_acquire_lease-Moves (check_lease (check_lease n)) k.sound.valid.proposer in
    ground (arith, Learns-trans h k, stop)

learn_lease-Learns : (e : ℕ) (n : Node) → IsValid n → Learns n (learn_lease e n)
unfolding learn_lease
learn_lease-Learns e n v =
    let n₁ = act (add_timer learn e) (
      with_state
        (record (n.learner.state) {
          learned = true;
          lease_owner = n.learner.msg.lease_owner;
          expire_time = e;
        })
        n) in
    let v₁ : IsValid n₁ = ground arith in ground (arith, on_learn_lease-Learns n₁ v₁)

on_learn_chosen-Learns : (n : Node) → IsValid n → Learns n (on_learn_chosen n)
unfolding on_learn_chosen
on_learn_chosen-Learns n v =
    let h = check_lease-Learns n v in
    let k = learn_lease-Learns (learned_expiry (check_lease n)) (check_lease n) h.sound.valid in
    ground (arith, Learns-trans h k)

pub get_lease_owner-Learns : (n : Node) → IsValid n → Learns n (get_lease_owner n).0
unfolding get_lease_owner
get_lease_owner-Learns n v = check_lease-Learns n v

pub process_msg-Sound :
    (m : PLeaseMsg) (n n' : Node) → IsValid n → process_msg m n ≡ some n' → Sound n n'
unfolding process_msg
process_msg-Sound m n n' v h =
    let n₁ : Node = record n { learner = record (n.learner) { msg = m } } in
    let v₁ : IsValid n₁ = ground arith in let k = on_learn_chosen-Learns n₁ v₁ in ground (arith, k)
