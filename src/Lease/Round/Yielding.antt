-- ===== src/Lease/Round/Yielding.antt =====
-- A round of another node while a lease runs.
use mathlib.Core.Path.{subst}
use network_etc.Base.{
  ℕ, ◌+◌, ◌/◌, ◌≡◌, ◌≢◌, ◌≤◌, ◌<◌, ◌∙◌, ◌⊎◌, inl, inr, refl, sym, ap, Bool, true, false, ◌||◌, some,
  List, [], ◌∷◌, length, arith, u32,
}
use network_etc.Lease.Msg.{PLeaseMsg, prepare_currently_open, prepare_previously_accepted}
use network_etc.Lease.Msg.Set
use network_etc.Lease.Msg.Wire.{InRange}
use network_etc.Lease.Config.{ReplicatedConfig, min_majority}
use network_etc.Lease.Node.{Node}
use network_etc.Lease.Proposer
use network_etc.Lease.Proposer.{with_msg, count_prepare, on_prepare_response, start_proposing}
use network_etc.Lease.PaxosLease.{observe, dispatch}
use network_etc.Lease.PaxosLease.Reading.{got}
use network_etc.Lease.Round.{deliver, last_sent, exchange}
use network_etc.Lease.Round.Wires.{deliver-open, deliver-previous}
use network_etc.Lease.Round.Acquiring.{IsRequest, exchange_nil, exchange-step}
use network_etc.Lease.Round.Promising.{IsOpen, deliver-opens}
use network_etc.Lease.Round.Holding.{IsHeld, deliver-holds}

-- The answer `r` names the lease of `owner`, or says that the member is open.
abbrev pub Answer : ℕ → Bool → PLeaseMsg → Type 0
Answer owner true r = (r.type ≡ prepare_previously_accepted) × (r.lease_owner ≡ owner)
Answer owner false r = r.type ≡ prepare_currently_open

dispatch_answer :
    (n : Node) (told : Bool) (owner : ℕ)
    → Answer owner told n.msg
    → dispatch n ≡ some (on_prepare_response (with_msg n.msg n))
unfolding dispatch observe Proposer.process_msg
dispatch_answer n true owner (t, _) = ground (arith, t)
dispatch_answer n false owner t = ground (arith, t)

module _ (c : ReplicatedConfig) (id owner : ℕ) where
  -- The node prepares `id`; `k` members have answered, and `seen` says whether one of them named the
  -- lease of `owner`.
  pub record IsAsking (k : ℕ) (seen : Bool) (p : Node) : Type 0 where
    pub config : p.config ≡ c
    pub preparing : p.proposer.state.preparing ≡ true
    pub proposing : p.proposer.state.proposing ≡ false
    pub proposal : p.proposer.state.proposal_id ≡ id
    pub received : p.proposer.num_received ≡ k
    pub rejected : p.proposer.num_rejected ≡ 0
    pub known : seen ≡ true → p.proposer.state.lease_owner ≡ owner
    pub fresh : seen ≡ false → p.proposer.state.highest_received_proposal_id ≡ 0

  counted :
      (k : ℕ) (seen told : Bool) (n : Node)
      → IsAsking k seen n
      → Answer owner told n.proposer.msg
      → k + 1 < u32
      → IsAsking (k + 1) (told || seen) (record n { proposer = count_prepare n.proposer })
  unfolding count_prepare
  counted k true true n i (t, o) small = ground (arith, i.known refl)
  counted k false true n i (t, o) small = ground (arith, i.fresh refl)
  counted k true false n i t small = ground (arith, i.known refl)
  counted k false false n i t small = ground (arith, i.fresh refl)

  heard :
      (k : ℕ) (seen told : Bool) (p : Node) (r : PLeaseMsg)
      → IsAsking k seen p
      → InRange r
      → Answer owner told r
      → r.proposal_id ≡ id
      → (n : Node) × (deliver r p ≡ some (on_prepare_response n))
        × IsAsking k seen n
        × Answer owner told n.proposer.msg
        × (n.proposer.msg.proposal_id ≡ id)
        × (n.trace ≡ p.trace)
  heard k seen true p r i g (t, o) e =
      let n =
        got
          (Set.prepare_previously_accepted p.msg r.node_id r.proposal_id r.accepted_proposal_id
            r.lease_owner r.duration)
          p in
      (
        with_msg n.msg n,
        deliver-previous r p g t ∙ dispatch_answer n true owner (refl, o),
        record {
          config = i.config;
          preparing = i.preparing;
          proposing = i.proposing;
          proposal = i.proposal;
          received = i.received;
          rejected = i.rejected;
          known = i.known;
          fresh = i.fresh;
        },
        (refl, o),
        e,
        refl,
      )
  heard k seen false p r i g t e =
      let n = got (Set.prepare_currently_open p.msg r.node_id r.proposal_id) p in
      (
        with_msg n.msg n,
        deliver-open r p g t ∙ dispatch_answer n false owner refl,
        record {
          config = i.config;
          preparing = i.preparing;
          proposing = i.proposing;
          proposal = i.proposal;
          received = i.received;
          rejected = i.rejected;
          known = i.known;
          fresh = i.fresh;
        },
        refl,
        e,
        refl,
      )

  waits :
      (k : ℕ) (seen : Bool) (n : Node)
      → IsAsking (k + 1) seen (record n { proposer = count_prepare n.proposer })
      → n.proposer.state.preparing ≡ true
      → n.config ≡ c
      → n.proposer.state.proposal_id ≡ n.proposer.msg.proposal_id
      → k + 1 ≤ c.num_nodes / 2
      → c.num_nodes < u32
      → on_prepare_response n ≡ record n { proposer = count_prepare n.proposer }
  unfolding on_prepare_response min_majority
  waits k seen n i prep conf same few small =
      ground
        (arith, i.received, i.rejected, prep, same, ap (λ (c : ReplicatedConfig). c.num_nodes) conf)

  yields :
      (k : ℕ) (n : Node)
      → IsAsking (k + 1) true (record n { proposer = count_prepare n.proposer })
      → owner ≢ c.node_id
      → n.proposer.state.preparing ≡ true
      → n.config ≡ c
      → n.proposer.state.proposal_id ≡ n.proposer.msg.proposal_id
      → k ≡ c.num_nodes / 2
      → 0 < c.num_nodes
      → c.num_nodes < u32
      → ((on_prepare_response n).proposer.state.preparing ≡ false)
        × ((on_prepare_response n).proposer.state.proposing ≡ false)
        × ((on_prepare_response n).trace ≡ n.trace)
  unfolding on_prepare_response min_majority start_proposing
  yields k n i other prep conf same most some_nodes small = ground (
    arith,
    i.received,
    i.rejected,
    i.proposing,
    i.known refl,
    prep,
    same,
    ap (λ (c : ReplicatedConfig). c.num_nodes) conf,
    ap (λ (c : ReplicatedConfig). c.node_id) conf,
  )

  -- Members that may all promise `m`, of whom those with a lease hold the owner's; where `seen` is
  -- false, there is one.
  abbrev pub Quorum : PLeaseMsg → Bool → List Node → Type 0
  Quorum m seen [] = seen ≡ true
  Quorum m seen (a ∷ peers) =
      (IsHeld m owner a × Quorum m true peers) ⊎ (IsOpen m a × Quorum m seen peers)

  -- The answer of one of them.
  record Reply (m : PLeaseMsg) (told : Bool) (a a' : Node) (r : PLeaseMsg) : Type 0 where
    came : deliver m a ≡ some a'
    last : last_sent a'.trace ≡ some r
    proposal : r.proposal_id ≡ m.proposal_id
    range : InRange r
    answer : Answer owner told r

  replies :
      (m : PLeaseMsg) (seen : Bool) (a : Node) (peers : List Node)
      → IsRequest c id m
      → Quorum m seen (a ∷ peers)
      → (told : Bool) × (a' : Node) × (r : PLeaseMsg) × Reply m told a a' r
        × Quorum m (told || seen) peers
  replies m seen a peers q (inl (h, rest)) =
      let (a', r, d, ans, o) = deliver-holds m owner a q.range q.type h in
      (
        true,
        a',
        r,
        record {
          came = d;
          last = ans.told;
          proposal = ans.proposal;
          range = ans.range;
          answer = (ans.type, o);
        },
        rest,
      )
  replies m seen a peers q (inr (h, rest)) =
      let (a', r, d, ans, _, _) = deliver-opens m a q.range q.type h in
      (
        false,
        a',
        r,
        record {
          came = d;
          last = ans.told;
          proposal = ans.proposal;
          range = ans.range;
          answer = ans.type;
        },
        rest,
      )

  module _ (some_nodes : 0 < c.num_nodes) (small : c.num_nodes < u32)
      (other : owner ≢ c.node_id) where
    pub asks :
        (m : PLeaseMsg) (k : ℕ) (seen : Bool) (peers : List Node) (p : Node)
        → IsRequest c id m
        → IsAsking k seen p
        → Quorum m seen peers
        → k + length peers ≡ c.num_nodes / 2 + 1
        → 0 < length peers
        → (peers' : List Node) × (p' : Node) × (exchange m peers p ≡ some (peers', p'))
          × (p'.proposer.state.preparing ≡ false)
          × (p'.proposer.state.proposing ≡ false)
          × (p'.trace ≡ p.trace)
    asks m k seen [] p q i h n pos = absurd (omega arith)
    asks m k seen (a ∷ []) p q i h n pos =
        let (told, a', r, rep, rest) = replies m seen a [] q h in
        let (n', e, i', ans, same, t) =
          heard k seen told p r i rep.range rep.answer (rep.proposal ∙ q.proposal) in
        let after = counted k seen told n' i' ans (omega arith) in
        let (quiet, idle, trace) =
          yields k n'
            (subst (λ b. IsAsking (k + 1) b (record n' { proposer = count_prepare n'.proposer }))
              rest after)
            other i'.preparing i'.config (i'.proposal ∙ sym same) (omega arith) some_nodes small in
        (
          a' ∷ [],
          on_prepare_response n',
          exchange-step m r a a' p _ _ [] [] rep.came rep.last e (exchange_nil m _),
          quiet,
          idle,
          trace ∙ t,
        )
    asks m k seen (a ∷ b ∷ peers) p q i h n pos =
        let (told, a', r, rep, rest) = replies m seen a (b ∷ peers) q h in
        let (n', e, i', ans, same, t) =
          heard k seen told p r i rep.range rep.answer (rep.proposal ∙ q.proposal) in
        let after = counted k seen told n' i' ans (omega arith) in
        let stays =
          waits k (told || seen) n' after i'.preparing i'.config (i'.proposal ∙ sym same)
            (omega arith) small in
        let p₁ : Node = record n' { proposer = count_prepare n'.proposer } in
        let (peers', p', x, quiet, idle, trace) =
          asks m (k + 1) (told || seen) (b ∷ peers) p₁ q after rest (omega arith) (omega arith) in
        (
          a' ∷ peers',
          p',
          exchange-step m r a a' p p₁ p' (b ∷ peers) peers' rep.came rep.last
              (e ∙ ap (λ y. some y) stays) x,
          quiet,
          idle,
          trace ∙ t,
        )
