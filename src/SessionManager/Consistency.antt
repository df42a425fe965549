-- ===== src/SessionManager/Consistency.antt =====
-- The tables of `CSessionManager` by id and by remote address belong together, and what `Insert`
-- does to what is found.
use network_etc.Base.{
  Option-cases, ℕ, ◌≡◌, ◌≢◌, Bool-cases, inl, inr, none, some, arith, ◌==◌, if◌then◌else◌, List,
  Bytes,
}
use network_etc.Base.Maps.{Map, lookup, erase, nat_eq, bytes_eq, lookup-put, lookup-erase}
use network_etc.SessionManager.{
  Session, Manager, null, empty, clear, find, find_address, insert, remove,
}

module _ (object : ℕ → Session) where
  -- Each id has the pointer of a session with that id, whose remote address has the id, and each
  -- address has the id of a session with that address.
  pub record IsConsistent (m : Manager) : Type 0 where
    pub known :
        (id pointer : ℕ)
        → lookup id m.sessions ≡ some pointer
        → (pointer ≢ null)
          × ((object pointer).id ≡ id)
          × (lookup (object pointer).remote m.identities ≡ some id)
    pub named :
        (remote id : ℕ)
        → lookup remote m.identities ≡ some id
        → (pointer : ℕ) × (lookup id m.sessions ≡ some pointer) × ((object pointer).remote ≡ remote)

  pub empty-IsConsistent : IsConsistent empty
  unfolding empty
  empty-IsConsistent = record { known = λ id p h. cc; named = λ r id h. cc }

  pub insert-IsConsistent :
      (m : Manager) (pointer : ℕ)
      → IsConsistent m
      → pointer ≢ null
      → lookup (object pointer).id m.sessions ≡ none
      → lookup (object pointer).remote m.identities ≡ none
      → IsConsistent (insert object m pointer)
  unfolding insert
  insert-IsConsistent m pointer c real fresh new = record {
    known = λ id p h. ground (
      arith,
      lookup-put id (object pointer).id pointer m.sessions,
      lookup-put (object p).remote (object pointer).remote (object pointer).id m.identities,
      c.known id p,
    );
    named = λ r id h. elim (Bool-cases (r == (object pointer).remote)) [
      | inl e ↦ (
        pointer,
        ground (
          arith,
          lookup-put r (object pointer).remote (object pointer).id m.identities,
          lookup-put id (object pointer).id pointer m.sessions,
        ),
        ground arith,
      )
      | inr e ↦
          let old : lookup r m.identities ≡ some id =
            ground (arith, lookup-put r (object pointer).remote (object pointer).id m.identities) in
          let (p, k, l) = c.named r id old in
          (p, ground (arith, lookup-put id (object pointer).id pointer m.sessions), l)
    ];
  }

  removed :
      (m : Manager) (id pointer : ℕ)
      → IsConsistent m
      → lookup id m.sessions ≡ some pointer
      → (gs : Map Bytes (List ℕ))
      → IsConsistent (record m {
        sessions = erase id m.sessions;
        identities = erase (object pointer).remote m.identities;
        groups = gs;
      })
  removed m id pointer c found gs = record {
    known = λ q p h. ground (
      arith,
      lookup-erase q id m.sessions,
      lookup-erase (object p).remote (object pointer).remote m.identities,
      c.known q p,
      c.known id pointer,
    );
    named = λ r q h.
        let old : lookup r m.identities ≡ some q =
          ground (arith, lookup-erase r (object pointer).remote m.identities) in
        let (p, k, l) = c.named r q old in
        (
          p,
          ground (
            arith,
            lookup-erase r (object pointer).remote m.identities,
            lookup-erase q id m.sessions,
          ),
          l,
        );
  }

  pub remove-IsConsistent :
      (m : Manager) (id : ℕ) → IsConsistent m → IsConsistent (remove object m id).0
  unfolding remove
  remove-IsConsistent m id c = elim (Option-cases (lookup id m.sessions)) [
    | inl e ↦ rw (e, remove) c
    | inr (p, e) ↦ rw (e, remove) (removed m id p c e _)
  ]

  looks-IsConsistent :
      (m : Manager) (address : ℕ) → IsConsistent m → IsConsistent (find_address m address).0
  unfolding find_address
  looks-IsConsistent m address c = elim (Option-cases (lookup address m.identities)) [
    | inl e ↦ rw (e, find_address) c
    | inr (id, e) ↦ let (p, k, l) = c.named address id e in rw (e, find_address) (rw k c)
  ]

  clear-IsConsistent : (m : Manager) → IsConsistent (clear m)
  unfolding clear
  clear-IsConsistent m = record { known = λ id p h. cc; named = λ r id h. cc }

  -- The managers that arise where each session inserted has an id and a remote address that are not
  -- in use, any ids are erased, any addresses are looked up, and all is cleared.
  pub data Managed : Manager → Type 0 where
    start : Managed empty
    inserted :
        (m : Manager) (pointer : ℕ)
        → Managed m
        → pointer ≢ null
        → lookup (object pointer).id m.sessions ≡ none
        → lookup (object pointer).remote m.identities ≡ none
        → Managed (insert object m pointer)
    removes : (m : Manager) (id : ℕ) → Managed m → Managed (remove object m id).0
    looks : (m : Manager) (address : ℕ) → Managed m → Managed (find_address m address).0
    clears : (m : Manager) → Managed m → Managed (clear m)

  -- After any sequence of `Insert`s of sessions, with ids and remote addresses that are not in use, of
  -- `Erase`s, of `Find`s by address and of `Clear`s, the table of sessions and that of addresses belong together: no pointer is null, a
  -- session that is found by its id is found by its address, and the other way round.
  pub Managed-IsConsistent : (m : Manager) → Managed m → IsConsistent m
  Managed-IsConsistent _ start = empty-IsConsistent
  Managed-IsConsistent _ (inserted m pointer r real fresh new) =
      insert-IsConsistent m pointer (Managed-IsConsistent m r) real fresh new
  Managed-IsConsistent _ (removes m id r) = remove-IsConsistent m id (Managed-IsConsistent m r)
  Managed-IsConsistent _ (looks m address r) =
      looks-IsConsistent m address (Managed-IsConsistent m r)
  Managed-IsConsistent _ (clears m r) = clear-IsConsistent m

  -- After an insertion, the session is found by its id and by its address, and what else is found is
  -- as before.
  pub insert-find :
      (m : Manager) (pointer : ℕ)
      → IsConsistent m
      → lookup (object pointer).id m.sessions ≡ none
      → (id address : ℕ)
      → (find (insert object m pointer) id
          ≡ (if id == (object pointer).id then some pointer else find m id))
        × ((find_address (insert object m pointer) address).1 ≡ (
            if address == (object pointer).remote
            then some pointer
            else (find_address m address).1))
  unfolding insert find find_address
  insert-find m pointer c fresh id address = (
    lookup-put id (object pointer).id pointer m.sessions,
    elim (Option-cases (lookup address m.identities)) [
      | inl e ↦ ground (
        arith,
        lookup-put address (object pointer).remote (object pointer).id m.identities,
        lookup-put (object pointer).id (object pointer).id pointer m.sessions,
        e,
      )
      | inr (q, e) ↦
          let (p, k, l) = c.named address q e in
          ground (
            arith,
            lookup-put address (object pointer).remote (object pointer).id m.identities,
            lookup-put (object pointer).id (object pointer).id pointer m.sessions,
            lookup-put q (object pointer).id pointer m.sessions,
            e,
            k,
          )
    ],
  )
