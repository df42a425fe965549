-- ===== src/Lease/Round/Excluding.antt =====
-- A lease that a majority holds keeps the others from proposing, whichever majority they ask.
use mathlib.Core.Path.{subst}
use native.Mathlib.Decide.{dec_lt}
use network_etc.Base.{
  ℕ, zero, suc, ◌≡◌, ◌≢◌, ◌≤◌, ◌<◌, ◌⊎◌, inl, inr, refl, Bool, true, false, some, List, [], ◌∷◌,
  length, arith, u32, if◌then◌else◌, Bool-cases,
}
use network_etc.Lease.Msg.{PLeaseMsg}
use network_etc.Lease.Config.{ReplicatedConfig, min_majority}
use network_etc.Lease.Config.Proposals.{count_votes, min_majority-meet}
use network_etc.Lease.Node.{Node}
use network_etc.Lease.Acceptor.Answers.{Running}
use network_etc.Lease.Round.{exchange}
use network_etc.Lease.Round.Acquiring.{IsRequest}
use network_etc.Lease.Round.Promising.{IsOpen}
use network_etc.Lease.Round.Holding.{IsHeld}
use network_etc.Lease.Round.Yielding.{IsAsking, Quorum, asks}

-- The members that take part.
abbrev pub select : (ℕ → Bool) → (ℕ → Node) → ℕ → List Node
select votes cell zero = []
select votes cell (suc k) =
    let rest = select votes cell k in if votes k then cell k ∷ rest else rest

length-select :
    (votes : ℕ → Bool) (cell : ℕ → Node) (k : ℕ)
    → length (select votes cell k) ≡ count_votes votes k
length-select votes cell zero = refl
length-select votes cell (suc k) = ground (arith, length-select votes cell k)

-- The member holds a lease of the owner that runs.
pub record Holds (owner : ℕ) (a : Node) : Type 0 where
  pub runs : Running a.now a.acceptor.state
  pub owned : a.acceptor.state.accepted_lease_owner ≡ owner

module _ (c : ReplicatedConfig) (id owner : ℕ) (m : PLeaseMsg) (cell : ℕ → Node)
    (second : ℕ → Bool) where
  -- The members that take part may promise, and a lease that one of them holds is the owner's.
  abbrev pub Ready : ℕ → Type 0
  Ready k = (i : ℕ) → i < k → second i ≡ true → IsHeld m owner (cell i) ⊎ IsOpen m (cell i)

  seen-Quorum : (k : ℕ) → Ready k → Quorum c id owner m true (select second cell k)
  seen-Quorum zero h = refl
  seen-Quorum (suc k) h =
      let rest = seen-Quorum k (λ i l. h i (omega arith)) in
      elim (Bool-cases (second k)) [
        | inl yes' ↦ rw yes' (elim (h k (omega arith) yes') [
          | inl held ↦ inl (held, rest)
          | inr open' ↦ inr (open', rest)
        ])
        | inr no' ↦ rw no' rest
      ]

  meeting-Quorum :
      (k i : ℕ)
      → Ready k
      → i < k
      → second i ≡ true
      → Holds owner (cell i)
      → Quorum c id owner m false (select second cell k)
  meeting-Quorum zero i h l s g = absurd (omega arith)
  meeting-Quorum (suc k) i h l s g =
      let seen_rest = seen-Quorum k (λ j b. h j (omega arith)) in
      let below : Ready k = λ j b. h j (omega arith) in
      elim (Bool-cases (second k)) [
        | inl yes' ↦ rw yes' (elim (dec_lt i k) [
          | yes b ↦ elim (h k (omega arith) yes') [
            | inl held ↦ inl (held, seen_rest)
            | inr open' ↦ inr (open', meeting-Quorum k i below b s g)
          ]
          | no b ↦
              let last : Holds owner (cell k) = subst (λ j. Holds owner (cell j)) (omega arith) g in
              elim (h k (omega arith) yes') [
                | inl held ↦ inl (held, seen_rest)
                | inr open' ↦ absurd (open'.free last.runs)
              ]
        ])
        | inr no' ↦ rw no' (elim (dec_lt i k) [
          | yes b ↦ meeting-Quorum k i below b s g
          | no b ↦ let taken : second k ≡ true = subst (λ j. second j ≡ true) (omega arith) s in cc
        ])
      ]

  -- While the members of some majority hold a lease of another owner that runs, a proposer that has
  -- just begun to prepare asks just a majority of members. Each of them has an id that is not above the
  -- paxos id of the request, has promised nothing above its proposal, and either holds that lease or
  -- has none that runs; numbers are within their C types, and nothing is lost on the way. Then the
  -- proposer ends its round without proposing, without preparing any more, and without a timer or a
  -- message: some member of both majorities answers with the lease.
  pub excludes :
      (p : Node) (first : ℕ → Bool)
      → IsRequest c id m
      → IsAsking c id owner 0 false p
      → ((i : ℕ) → i < c.num_nodes → first i ≡ true → Holds owner (cell i))
      → Ready c.num_nodes
      → min_majority c ≤ count_votes first c.num_nodes
      → count_votes second c.num_nodes ≡ min_majority c
      → 0 < c.num_nodes
      → c.num_nodes < u32
      → owner ≢ c.node_id
      → (peers : List Node) × (p' : Node) × (exchange m (select second cell c.num_nodes) p
          ≡ some (peers, p'))
        × (p'.proposer.state.preparing ≡ false)
        × (p'.proposer.state.proposing ≡ false)
        × (p'.trace ≡ p.trace)
  unfolding min_majority
  excludes p first q i g h most exact some_nodes small other =
      let (j, l, a, b) = min_majority-meet c first second small most (omega (arith, exact)) in
      let n = length-select second cell c.num_nodes in
      asks c id owner some_nodes small other m 0 false (select second cell c.num_nodes) p q i
        (meeting-Quorum c.num_nodes j h l b (g j l a)) (omega (arith, n, exact))
        (omega (arith, n, exact))
