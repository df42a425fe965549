-- ===== src/Tests/Rounds.antt =====
-- The theorems on rounds, in the cell of three.
use network_etc.Base.{
  ℕ, ◌≡◌, ◌<◌, ◌≤◌, inl, inr, refl, true, false, some, List, [], ◌∷◌, All, length, arith, ltb,
  Bool-cases, if◌then◌else◌,
}
use network_etc.Lease.Msg.{PLeaseMsg}
use network_etc.Lease.Msg.Wire.{InRange}
use network_etc.Lease.Config.{ReplicatedConfig, min_majority}
use network_etc.Lease.Node.{Node}
use network_etc.Lease.Round.{exchange}
use network_etc.Lease.Round.Promising.{IsOpen}
use network_etc.Lease.Round.Counting.{IsPreparing}
use network_etc.Lease.Round.Acquiring.{IsRequest, HasAccepted, Announces, acquires}
use network_etc.Lease.Round.Holding.{IsHeld}
use network_etc.Lease.Round.Yielding.{IsAsking}
use network_etc.Lease.Round.Excluding.{select, Holds, Ready, excludes}
use network_etc.Tests.Cell.{cell, message, member, preparing}

-- The prepare request of the member 2, and the members, before and after they accept its lease or
-- that of another.
abbrev request : PLeaseMsg
request = message 49 2 16777218

abbrev peer : ℕ → Node
peer k = record member { config = record cell { node_id = k } }

abbrev member_2 : ReplicatedConfig
member_2 = record cell { node_id = 2 }

abbrev asking : Node
asking =
    let n = preparing 0 0 (message 49 0 0) in
    record n {
      config = member_2;
      proposer = record (n.proposer) {
        state = record (n.proposer.state) { proposal_id = 16777218; lease_owner = 2 };
      };
    }

request-InRange : InRange request
request-InRange = record {
  node = omega arith;
  proposal = omega arith;
  accepted = omega arith;
  owner = omega arith;
  span = omega arith;
  expiry = omega arith;
  paxos = omega arith;
}

old-InRange : InRange (message 49 0 0)
old-InRange = record {
  node = omega arith;
  proposal = omega arith;
  accepted = omega arith;
  owner = omega arith;
  span = omega arith;
  expiry = omega arith;
  paxos = omega arith;
}

request-IsRequest : IsRequest member_2 16777218 request
request-IsRequest = record { type = refl; node = refl; proposal = refl; range = request-InRange }

asking-IsPreparing : IsPreparing member_2 16777218 0 asking
asking-IsPreparing = record {
  config = refl;
  preparing = refl;
  proposal = refl;
  owner = refl;
  received = refl;
  rejected = refl;
  msg_range = old-InRange;
}

asking-IsAsking : IsAsking member_2 16777218 0 0 false asking
asking-IsAsking = record {
  config = refl;
  preparing = refl;
  proposing = refl;
  proposal = refl;
  received = refl;
  rejected = refl;
  known = λ e. cc;
  fresh = λ e. refl;
}

peer-IsOpen : (k : ℕ) → k ≤ 2 → IsOpen request (peer k)
peer-IsOpen k h = record {
  member = omega arith;
  rank = omega arith;
  promise = omega arith;
  free = λ r. absurd (not_running r.accepted);
  range = omega arith;
  msg_range = old-InRange;
}
  where
    not_running : false ≡ true → ⊥
    not_running e = cc

acquires_example :
    (peers₁ : List Node) × (p₁ : Node) × (exchange request (peer 0 ∷ peer 1 ∷ []) asking
      ≡ some (peers₁, p₁))
    × (peers₂ : List Node) × (p₂ : Node) × (exchange p₁.proposer.msg peers₁ p₁ ≡ some (peers₂, p₂))
    × All (HasAccepted 2) peers₂
    × (length peers₂ ≡ 2)
    × Announces member_2 1000 p₂
acquires_example =
    acquires member_2 16777218 (omega arith) (omega arith) request (peer 0 ∷ peer 1 ∷ []) asking
      request-IsRequest asking-IsPreparing
      (peer-IsOpen 0 (omega arith), (peer-IsOpen 1 (omega arith), tt)) refl (omega arith)
      (omega arith) (omega arith)

-- The member `k` with a lease of the member 0.
abbrev holding : ℕ → Node
holding k =
    let a = member.acceptor in
    record (peer k) {
      acceptor = record a {
        state = record (a.state) {
          accepted = true;
          accepted_proposal_id = 16777216;
          accepted_lease_owner = 0;
          accepted_duration = 7000;
          accepted_expire_time = 8000;
        };
      };
    }

-- The members 0 and 1 hold the lease, and the members 1 and 2 are asked.
abbrev nodes : ℕ → Node
nodes k = if ltb k 2 then holding k else peer k

holding-Holds : (k : ℕ) → Holds 0 (holding k)
holding-Holds k = record { runs = record { accepted = refl; runs = omega arith }; owned = refl }

first-Holds : (k : ℕ) → k < 3 → ltb k 2 ≡ true → Holds 0 (nodes k)
first-Holds k h e = rw e (holding-Holds k)

holding-IsHeld : (k : ℕ) → k ≤ 2 → IsHeld request 0 (holding k)
holding-IsHeld k h = record {
  member = omega arith;
  rank = omega arith;
  promise = omega arith;
  runs = (holding-Holds k).runs;
  owned = refl;
  range = omega arith;
  proposal_range = omega arith;
  owner_range = omega arith;
  span_range = omega arith;
  msg_range = old-InRange;
}

second-Ready : Ready member_2 16777218 0 request nodes (ltb 0) 3
second-Ready k h e = elim (Bool-cases (ltb k 2)) [
  | inl low ↦ rw low (inl (holding-IsHeld k (omega arith)))
  | inr high ↦ rw high (inr (peer-IsOpen k (omega arith)))
]

excludes_example :
    (peers : List Node) × (p' : Node) × (exchange request (select (ltb 0) nodes 3) asking
      ≡ some (peers, p'))
    × (p'.proposer.state.preparing ≡ false)
    × (p'.proposer.state.proposing ≡ false)
    × (p'.trace ≡ asking.trace)
unfolding min_majority
excludes_example =
    excludes member_2 16777218 0 request nodes (ltb 0) asking (λ k. ltb k 2) request-IsRequest
      asking-IsAsking first-Holds second-Ready (omega arith) refl (omega arith) (omega arith)
      (λ e. cc)
