-- ===== src/Lease/Round/Acquiring.antt =====
-- A whole round with a majority of open acceptors.
use mathlib.Core.Path.{subst}
use network_etc.Base.{
  ℕ, suc, ◌+◌, ◌/◌, ◌≡◌, ◌<◌, ◌∙◌, refl, ap, true, false, some, List, [], ◌∷◌, ◌++◌, All, length,
  arith, u32, u64,
}
use network_etc.Lease.Msg.{PLeaseMsg, prepare_request, learn_chosen}
use network_etc.Lease.Msg.Wire.{InRange}
use network_etc.Lease.Config.{ReplicatedConfig}
use network_etc.Lease.Node.{Node, Action, max_lease_time, add_timer, delete_timer, extend, acquire}
use network_etc.Lease.Proposer.Rounds.{sends, recipients}
use network_etc.Lease.Round.{deliver, last_sent, exchange}
use network_etc.Lease.Round.Promising.{IsOpen, IsBound, deliver-opens, deliver-accepts}
use network_etc.Lease.Round.Counting.{
  IsPreparing, IsProposing, IsProposal, deliver-counts, deliver-starts,
}
use network_etc.Lease.Round.Winning.{deliver-accepted_more, deliver-announces}

-- The acceptor holds the lease of the owner.
abbrev pub HasAccepted : ℕ → Node → Type 0
HasAccepted owner a =
    (a.acceptor.state.accepted ≡ true) × (a.acceptor.state.accepted_lease_owner ≡ owner)

-- The request that opens the round `id`.
pub record IsRequest (c : ReplicatedConfig) (id : ℕ) (m : PLeaseMsg) : Type 0 where
  pub type : m.type ≡ prepare_request
  pub node : m.node_id ≡ c.node_id
  pub proposal : m.proposal_id ≡ id
  pub range : InRange m

-- What the proposer tells the cell at the end of the round.
pub record Announces (c : ReplicatedConfig) (now : ℕ) (p : Node) : Type 0 where
  pub msg : PLeaseMsg
  pub rest : List Action
  pub type : msg.type ≡ learn_chosen
  pub owner : msg.lease_owner ≡ c.node_id
  pub span : msg.duration ≡ max_lease_time
  pub expiry : msg.local_expire_time ≡ now + max_lease_time
  pub told : p.trace ≡ sends msg (recipients c) ++ rest
  pub quiet : p.proposer.state.proposing ≡ false

pub exchange_nil : (m : PLeaseMsg) (p : Node) → exchange m [] p ≡ some ([], p)
unfolding exchange
exchange_nil m p = refl

pub exchange-step :
    (m r : PLeaseMsg) (a a' p p₁ p₂ : Node) (peers peers' : List Node)
    → deliver m a ≡ some a'
    → last_sent a'.trace ≡ some r
    → deliver r p ≡ some p₁
    → exchange m peers p₁ ≡ some (peers', p₂)
    → exchange m (a ∷ peers) p ≡ some (a' ∷ peers', p₂)
unfolding exchange
exchange-step m r a a' p p₁ p₂ peers peers' d l e x = rw (d, l, e, x) refl

module _ (c : ReplicatedConfig) (id : ℕ) (some_nodes : 0 < c.num_nodes)
    (small : c.num_nodes < u32) where
  promises :
      (m : PLeaseMsg) (k : ℕ) (peers : List Node) (p : Node)
      → IsRequest c id m
      → IsPreparing c id k p
      → All (IsOpen m) peers
      → k + length peers ≡ c.num_nodes / 2 + 1
      → 0 < length peers
      → c.node_id < u32
      → id < u64
      → p.now + max_lease_time < u64
      → (peers' : List Node) × (p' : Node) × (exchange m peers p ≡ some (peers', p'))
        × IsProposing c id 0 p'
        × (p'.now ≡ p.now)
        × IsProposal c id p'.proposer.msg
        × All (IsBound m) peers'
        × (length peers' ≡ length peers)
  promises m k [] p q i o n pos low fits later = absurd (omega arith)
  promises m k (a ∷ []) p q i (o, _) n pos low fits later =
      let (a', r, d, ans, b, _) = deliver-opens m a q.range q.type o in
      let (p', e, s, t, w) =
        deliver-starts c id k p r i ans.range ans.type (ans.proposal ∙ q.proposal) small
          (omega arith) some_nodes low fits later in
      (
        a' ∷ [],
        p',
        exchange-step m r a a' p p' p' [] [] d ans.told e (exchange_nil m p'),
        s,
        t,
        w,
        (b, tt),
        refl,
      )
  promises m k (a ∷ b ∷ peers) p q i (o, os) n pos low fits later =
      let (a', r, d, ans, bound, _) = deliver-opens m a q.range q.type o in
      let (p₁, e, i', t) =
        deliver-counts c id k p r i ans.range ans.type (ans.proposal ∙ q.proposal) small
          (omega arith) in
      let (peers', p', x, s, t', w, bs, l) =
        promises m (k + 1) (b ∷ peers) p₁ q i' os (omega arith) (omega arith) low fits
          (omega (arith, t)) in
      (
        a' ∷ peers',
        p',
        exchange-step m r a a' p p₁ p' (b ∷ peers) peers' d ans.told e x,
        s,
        t' ∙ t,
        w,
        (bound, bs),
        ap suc l,
      )

  accepts :
      (m : PLeaseMsg) (k : ℕ) (peers : List Node) (p : Node)
      → IsProposal c id m
      → IsProposing c id k p
      → All (IsBound m) peers
      → k + length peers ≡ c.num_nodes / 2 + 1
      → 0 < length peers
      → p.now + max_lease_time < u64
      → (peers' : List Node) × (p' : Node) × (exchange m peers p ≡ some (peers', p'))
        × All (HasAccepted c.node_id) peers'
        × (length peers' ≡ length peers)
        × Announces c p.now p'
  accepts m k [] p q i o n pos later = absurd (omega arith)
  accepts m k (a ∷ []) p q i (o, _) n pos later =
      let (a', r, d, ans, held, owner) = deliver-accepts m a q.range q.type o in
      let (p', e, l, kind, who, span, expiry, told, quiet) =
        deliver-announces c id k p r i ans.range ans.type (ans.proposal ∙ q.proposal) small later
          (omega arith) in
      (
        a' ∷ [],
        p',
        exchange-step m r a a' p p' p' [] [] d ans.told e (exchange_nil m p'),
        ((held, owner ∙ q.owner), tt),
        refl,
        record {
          msg = l;
          rest = add_timer extend (max_lease_time / 7) ∷ delete_timer acquire ∷ p.trace;
          type = kind;
          owner = who;
          span = span;
          expiry = expiry;
          told = told;
          quiet = quiet;
        },
      )
  accepts m k (a ∷ b ∷ peers) p q i (o, os) n pos later =
      let (a', r, d, ans, held, owner) = deliver-accepts m a q.range q.type o in
      let (p₁, e, i', t) =
        deliver-accepted_more c id k p r i ans.range ans.type (ans.proposal ∙ q.proposal) small
          later (omega arith) in
      let (peers', p', x, hs, n', w) =
        accepts m (k + 1) (b ∷ peers) p₁ q i' os (omega arith) (omega arith) (omega (arith, t)) in
      (
        a' ∷ peers',
        p',
        exchange-step m r a a' p p₁ p' (b ∷ peers) peers' d ans.told e x,
        ((held, owner ∙ q.owner), hs),
        ap suc n',
        subst (λ n. Announces c n p') t w,
      )

  still-IsBound :
      (m m' : PLeaseMsg) (peers : List Node)
      → IsRequest c id m
      → IsProposal c id m'
      → All (IsBound m) peers
      → All (IsBound m') peers
  still-IsBound m m' [] q w bs = tt
  still-IsBound m m' (a ∷ peers) q w (b, bs) = (
    record {
      member = omega (arith, b.member, q.node, w.node);
      promise = omega (arith, b.promise, q.proposal, w.proposal);
      range = b.range;
      msg_range = b.msg_range;
    },
    still-IsBound m m' peers q w bs,
  )

  -- A round without loss, where the node prepares `id`, no lease runs at the members of some
  -- majority, their ids are not above the node's and they have promised nothing higher, and the
  -- numbers are within their C types: the prepare request and then the propose request of the node,
  -- with the answers, lead to a majority that has accepted the node's lease and to its announcement
  -- to every recipient, for the whole lease time.
  pub acquires :
      (m : PLeaseMsg) (peers : List Node) (p : Node)
      → IsRequest c id m
      → IsPreparing c id 0 p
      → All (IsOpen m) peers
      → length peers ≡ c.num_nodes / 2 + 1
      → c.node_id < u32
      → id < u64
      → p.now + max_lease_time < u64
      → (peers₁ : List Node) × (p₁ : Node) × (exchange m peers p ≡ some (peers₁, p₁))
        × (peers₂ : List Node) × (p₂ : Node) × (exchange p₁.proposer.msg peers₁ p₁
            ≡ some (peers₂, p₂))
        × All (HasAccepted c.node_id) peers₂
        × (length peers₂ ≡ c.num_nodes / 2 + 1)
        × Announces c p.now p₂
  acquires m peers p q i os n low fits later =
      let (peers₁, p₁, x₁, s, t, w, bs, l) =
        promises m 0 peers p q i os (omega arith) (omega arith) low fits later in
      let (peers₂, p₂, x₂, hs, n₂, done) =
        accepts p₁.proposer.msg 0 peers₁ p₁ w s (still-IsBound m p₁.proposer.msg peers₁ q w bs)
          (omega (arith, l)) (omega (arith, l)) (omega (arith, t)) in
      (peers₁, p₁, x₁, peers₂, p₂, x₂, hs, n₂ ∙ l ∙ n, subst (λ k. Announces c k p₂) t done)
