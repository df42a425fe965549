-- ===== src/Lease/Msg/Wire.antt =====
-- `PLeaseMsg::Read` undoes what `PLeaseMsg::Write` prints.
use network_etc.Base.{
  ℕ, ◌<◌, ◌≡◌, refl, true, some, List, ◌∷◌, Bytes, u32, u64, arith, ◌==◌, if◌then◌else◌, ap,
}
use network_etc.Text.{decimal}
use network_etc.Text.Scan.{Value, snreadf}
use network_etc.Lease.Msg.{
  PLeaseMsg, Layout, prepare_request, prepare_rejected, prepare_previously_accepted,
  prepare_currently_open, propose_request, propose_rejected, propose_accepted, learn_chosen, encode,
  read, ◌:+◌, layout, assign, read_as,
}
use network_etc.Lease.Msg.Set
use network_etc.Lease.Msg.Formats.{
  Scans, consumed_all, scan_short, scan_prepare, scan_propose, scan_previous, scan_chosen,
}

-- The fields are within their C types.
pub record InRange (m : PLeaseMsg) : Type 0 where
  pub node : m.node_id < u32
  pub proposal : m.proposal_id < u64
  pub accepted : m.accepted_proposal_id < u64
  pub owner : m.lease_owner < u32
  pub span : m.duration < u32
  pub expiry : m.local_expire_time < u64
  pub paxos : m.paxos_id < u64

-- The message of the receiver, `m₀`, after the setter that built `m`.
abbrev pub received : PLeaseMsg → PLeaseMsg → PLeaseMsg
received m₀ m =
    if m.type == prepare_request
    then Set.prepare_request m₀ m.node_id m.proposal_id m.paxos_id
    else if m.type == prepare_rejected
    then Set.prepare_rejected m₀ m.node_id m.proposal_id
    else if m.type == prepare_previously_accepted
    then Set.prepare_previously_accepted m₀ m.node_id m.proposal_id m.accepted_proposal_id
        m.lease_owner m.duration
    else if m.type == prepare_currently_open
    then Set.prepare_currently_open m₀ m.node_id m.proposal_id
    else if m.type == propose_request
    then Set.propose_request m₀ m.node_id m.proposal_id m.lease_owner m.duration
    else if m.type == propose_rejected
    then Set.propose_rejected m₀ m.node_id m.proposal_id
    else if m.type == propose_accepted
    then Set.propose_accepted m₀ m.node_id m.proposal_id
    else if m.type == learn_chosen
    then Set.learn_chosen m₀ m.node_id m.lease_owner m.duration m.local_expire_time
    else m₀

-- Where the scan stores `vs` and reads the whole text, `Read` succeeds and assigns them.
read-scan :
    (m₀ : PLeaseMsg) (c : ℕ) (text : Bytes) (l : Layout) (vs : List Value)
    → layout c ≡ some l
    → Scans l.format (c ∷ text) vs
    → read m₀ (c ∷ text) ≡ (assign l.targets vs m₀, true)
unfolding read read_as snreadf
read-scan m₀ c text l vs e h = rw (e, h) (ap (λ b. (assign l.targets vs m₀, b)) (consumed_all refl))

module _ (m₀ m : PLeaseMsg) (v : InRange m) where
  read-prepare_request :
      read m₀ (b'1' ∷ b':' ∷ (decimal m.node_id :+ decimal m.proposal_id :+ decimal m.paxos_id))
      ≡ (Set.prepare_request m₀ m.node_id m.proposal_id m.paxos_id, true)
  unfolding layout assign
  read-prepare_request =
      read-scan m₀ b'1' _ _ _ refl
        (scan_prepare b'1' m.node_id m.proposal_id v.node v.proposal m.paxos_id v.paxos)

  read-prepare_rejected :
      read m₀ (b'2' ∷ b':' ∷ (decimal m.node_id :+ decimal m.proposal_id))
      ≡ (Set.prepare_rejected m₀ m.node_id m.proposal_id, true)
  unfolding layout assign
  read-prepare_rejected =
      read-scan m₀ b'2' _ _ _ refl (scan_short b'2' m.node_id m.proposal_id v.node v.proposal)

  read-prepare_previously_accepted :
      read m₀ (
        b'3'
        ∷ b':'
        ∷ (decimal m.node_id
            :+ decimal m.proposal_id
            :+ decimal m.accepted_proposal_id
            :+ decimal m.lease_owner
            :+ decimal m.duration))
      ≡ (
        Set.prepare_previously_accepted m₀ m.node_id m.proposal_id m.accepted_proposal_id
            m.lease_owner m.duration,
        true,
      )
  unfolding layout assign
  read-prepare_previously_accepted = read-scan m₀ b'3' _ _ _ refl (
      scan_previous b'3' m.node_id m.proposal_id v.node v.proposal m.accepted_proposal_id
        m.lease_owner m.duration v.accepted v.owner v.span)

  read-prepare_currently_open :
      read m₀ (b'4' ∷ b':' ∷ (decimal m.node_id :+ decimal m.proposal_id))
      ≡ (Set.prepare_currently_open m₀ m.node_id m.proposal_id, true)
  unfolding layout assign
  read-prepare_currently_open =
      read-scan m₀ b'4' _ _ _ refl (scan_short b'4' m.node_id m.proposal_id v.node v.proposal)

  read-propose_request :
      read m₀ (
        b'5'
        ∷ b':'
        ∷ (decimal m.node_id
            :+ decimal m.proposal_id
            :+ decimal m.lease_owner
            :+ decimal m.duration))
      ≡ (Set.propose_request m₀ m.node_id m.proposal_id m.lease_owner m.duration, true)
  unfolding layout assign
  read-propose_request = read-scan m₀ b'5' _ _ _ refl (
      scan_propose b'5' m.node_id m.proposal_id v.node v.proposal m.lease_owner m.duration v.owner
        v.span)

  read-propose_rejected :
      read m₀ (b'6' ∷ b':' ∷ (decimal m.node_id :+ decimal m.proposal_id))
      ≡ (Set.propose_rejected m₀ m.node_id m.proposal_id, true)
  unfolding layout assign
  read-propose_rejected =
      read-scan m₀ b'6' _ _ _ refl (scan_short b'6' m.node_id m.proposal_id v.node v.proposal)

  read-propose_accepted :
      read m₀ (b'7' ∷ b':' ∷ (decimal m.node_id :+ decimal m.proposal_id))
      ≡ (Set.propose_accepted m₀ m.node_id m.proposal_id, true)
  unfolding layout assign
  read-propose_accepted =
      read-scan m₀ b'7' _ _ _ refl (scan_short b'7' m.node_id m.proposal_id v.node v.proposal)

  read-learn_chosen :
      read m₀ (
        b'8'
        ∷ b':'
        ∷ (decimal m.node_id
            :+ decimal m.lease_owner
            :+ decimal m.duration
            :+ decimal m.local_expire_time))
      ≡ (Set.learn_chosen m₀ m.node_id m.lease_owner m.duration m.local_expire_time, true)
  unfolding layout assign
  read-learn_chosen = read-scan m₀ b'8' _ _ _ refl (
      scan_chosen b'8' m.node_id m.lease_owner m.duration m.local_expire_time v.node v.owner v.span
        v.expiry)

  -- Of what `Write` prints of a message of a known type, whose fields are within their C types,
  -- `Read` reads every byte and succeeds, and it leaves the receiver's message as the setter of
  -- that type would.
  pub read-encode : (text : Bytes) → encode m ≡ some text → read m₀ text ≡ (received m₀ m, true)
  unfolding encode
  read-encode text h = ground (
    arith, read-prepare_request, read-prepare_rejected, read-prepare_previously_accepted,
    read-prepare_currently_open, read-propose_request, read-propose_rejected, read-propose_accepted,
    read-learn_chosen,
  )
