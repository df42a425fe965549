-- ===== src/Lease/Round/Wires.antt =====
-- A message that is delivered is taken in by `dispatch`.
use network_etc.Base.{◌≡◌, refl, ap, ◌∙◌, ◌∷◌, some, Bytes}
use network_etc.Lease.Msg.{
  PLeaseMsg, encode, ◌:+◌, prepare_request, prepare_currently_open, prepare_previously_accepted,
  propose_request, propose_accepted,
}
use network_etc.Lease.Msg.Set
use network_etc.Text.{decimal}
use network_etc.Lease.Msg.Wire.{InRange, received, read-encode}
use network_etc.Lease.Node.{Node}
use network_etc.Lease.PaxosLease.{dispatch}
use network_etc.Lease.PaxosLease.Reading.{got, on_read-dispatch}
use network_etc.Lease.Round.{deliver}

deliver-text :
    (m : PLeaseMsg) (n : Node) (text : Bytes)
    → InRange m
    → encode m ≡ some text
    → deliver m n ≡ dispatch (got (received n.msg m) n)
unfolding deliver
deliver-text m n text r e =
    rw e (on_read-dispatch text (received n.msg m) n (read-encode n.msg m r text e))

module _ (m : PLeaseMsg) where
  text_prepare :
      m.type ≡ prepare_request
      → encode m
        ≡ some (m.type ∷ b':' ∷ (decimal m.node_id :+ decimal m.proposal_id :+ decimal m.paxos_id))
  unfolding encode
  text_prepare t = rw t refl

  text_open :
      m.type ≡ prepare_currently_open
      → encode m ≡ some (m.type ∷ b':' ∷ (decimal m.node_id :+ decimal m.proposal_id))
  unfolding encode
  text_open t = rw t refl

  text_propose :
      m.type ≡ propose_request
      → encode m
        ≡ some (
            m.type
            ∷ b':'
            ∷ (decimal m.node_id
                :+ decimal m.proposal_id
                :+ decimal m.lease_owner
                :+ decimal m.duration))
  unfolding encode
  text_propose t = rw t refl

  text_accepted :
      m.type ≡ propose_accepted
      → encode m ≡ some (m.type ∷ b':' ∷ (decimal m.node_id :+ decimal m.proposal_id))
  unfolding encode
  text_accepted t = rw t refl

  text_previous :
      m.type ≡ prepare_previously_accepted
      → encode m
        ≡ some (
            m.type
            ∷ b':'
            ∷ (decimal m.node_id
                :+ decimal m.proposal_id
                :+ decimal m.accepted_proposal_id
                :+ decimal m.lease_owner
                :+ decimal m.duration))
  unfolding encode
  text_previous t = rw t refl

module _ (m : PLeaseMsg) (n : Node) (r : InRange m) where
  pub deliver-prepare :
      m.type ≡ prepare_request
      → deliver m n
        ≡ dispatch (got (Set.prepare_request n.msg m.node_id m.proposal_id m.paxos_id) n)
  deliver-prepare t =
      deliver-text m n _ r (text_prepare m t) ∙ ap (λ k. dispatch (got k n)) (rw t refl)

  pub deliver-open :
      m.type ≡ prepare_currently_open
      → deliver m n ≡ dispatch (got (Set.prepare_currently_open n.msg m.node_id m.proposal_id) n)
  deliver-open t = deliver-text m n _ r (text_open m t) ∙ ap (λ k. dispatch (got k n)) (rw t refl)

  pub deliver-propose :
      m.type ≡ propose_request
      → deliver m n
        ≡ dispatch
            (got (Set.propose_request n.msg m.node_id m.proposal_id m.lease_owner m.duration) n)
  deliver-propose t =
      deliver-text m n _ r (text_propose m t) ∙ ap (λ k. dispatch (got k n)) (rw t refl)

  pub deliver-accepted :
      m.type ≡ propose_accepted
      → deliver m n ≡ dispatch (got (Set.propose_accepted n.msg m.node_id m.proposal_id) n)
  deliver-accepted t =
      deliver-text m n _ r (text_accepted m t) ∙ ap (λ k. dispatch (got k n)) (rw t refl)

  pub deliver-previous :
      m.type ≡ prepare_previously_accepted
      → deliver m n
        ≡ dispatch (
            got
              (Set.prepare_previously_accepted n.msg m.node_id m.proposal_id m.accepted_proposal_id
                m.lease_owner m.duration)
              n)
  deliver-previous t =
      deliver-text m n _ r (text_previous m t) ∙ ap (λ k. dispatch (got k n)) (rw t refl)
