-- ===== src/SessionManager/Groups.antt =====
-- The groups of `CSessionManager`, and an erasure behind an insertion.
use network_etc.Base.{
  ℕ, ◌≡◌, refl, Bool, ◌||◌, false, none, some, arith, ◌==◌, length, if◌then◌else◌, List, [], ◌∷◌,
  ◌<◌, Bytes,
}
use network_etc.Base.Maps.{
  Map, lookup, put, erase, nat_eq, bytes_eq, bytes_same, bytes_refl, bytes_sound, lookup-put,
  erase-put,
}
use network_etc.SessionManager.{Session, Manager, insert, remove, group_at, add_id, erase_id}

abbrev pub holds : ℕ → List ℕ → Bool
holds k [] = false
holds k (j ∷ js) = k == j || holds k js

erase_id-add_id : (k : ℕ) (js : List ℕ) → holds k js ≡ false → erase_id k (add_id k js) ≡ js
erase_id-add_id k [] h = ground arith
erase_id-add_id k (j ∷ js) h = ground (arith, erase_id-add_id k js)

module _ (object : ℕ → Session) where
  -- The groups after a session is erased.
  abbrev groups_without : Session → Map Bytes (List ℕ) → Map Bytes (List ℕ)
  groups_without s groups = elim (lookup s.group groups) [
    | none ↦ groups
    | some ids ↦ put s.group (erase_id s.id ids) groups
  ]

  remove-found :
      (m : Manager) (id pointer : ℕ)
      → lookup id m.sessions ≡ some pointer
      → (remove object m id).0 ≡ record m {
        sessions = erase id m.sessions;
        identities = erase (object pointer).remote m.identities;
        groups = groups_without (object pointer) m.groups;
      }
  unfolding remove
  remove-found m id pointer e = rw (e, remove) refl

  group_at-put :
      (q k : Bytes) (v : List ℕ) (groups : Map Bytes (List ℕ))
      → group_at q (put k v groups) ≡ (if bytes_same q k then v else group_at q groups)
  group_at-put q k v groups = ground (arith, lookup-put q k v groups)

  group-without :
      (s : Session) (name : Bytes) (groups : Map Bytes (List ℕ))
      → holds s.id (group_at s.group groups) ≡ false
      → group_at name
          (groups_without s (put s.group (add_id s.id (group_at s.group groups)) groups))
        ≡ group_at name groups
  group-without s name groups out =
      let ids = add_id s.id (group_at s.group groups) in
      let there : lookup s.group (put s.group ids groups) ≡ some ids =
        ground (arith, lookup-put s.group s.group ids groups, bytes_refl s.group) in
      let after : groups_without s (put s.group ids groups)
          ≡ put s.group (erase_id s.id ids) (put s.group ids groups) =
        rw (there, groups_without) refl in
      rw
        (
          after,
          group_at-put name s.group (erase_id s.id ids),
          group_at-put name s.group ids groups,
          erase_id-add_id s.id (group_at s.group groups) out,
        )
        (ground (arith, bytes_sound name s.group))

  -- What `Insert` makes of the manager where the service has a name.
  abbrev with_session : Manager → ℕ → Manager
  with_session m pointer =
      let s = object pointer in
      record m {
        groups = put s.group (add_id s.id (group_at s.group m.groups)) m.groups;
        identities = put s.remote s.id m.identities;
        sessions = put s.id pointer m.sessions;
      }

  insert-named :
      (m : Manager) (pointer : ℕ)
      → 0 < length (object pointer).group
      → insert object m pointer ≡ with_session m pointer
  unfolding insert
  insert-named m pointer named =
      let e : ((length (object pointer).group) == 0) ≡ false = ground arith in rw (e) refl

  -- The erasure of a session of a named service takes its insertion back, but for an empty group.
  pub insert-remove :
      (m : Manager) (pointer : ℕ)
      → let s = object pointer in
        lookup s.id m.sessions ≡ none
        → lookup s.remote m.identities ≡ none
        → 0 < length s.group
        → holds s.id (group_at s.group m.groups) ≡ false
        → let m' = (remove object (insert object m pointer) s.id).0 in
          (m'.sessions ≡ m.sessions)
          × (m'.identities ≡ m.identities)
          × (m'.uname_count ≡ m.uname_count)
          × ((name : Bytes) → group_at name m'.groups ≡ group_at name m.groups)
  insert-remove m pointer fresh new named out =
      let s = object pointer in
      let there : lookup s.id (put s.id pointer m.sessions) ≡ some pointer =
        ground (arith, lookup-put s.id s.id pointer m.sessions) in
      rw (insert-named m pointer named) (
        rw (remove-found (with_session m pointer) s.id pointer there) (
          erase-put s.id pointer m.sessions fresh,
          erase-put s.remote s.id m.identities new,
          refl,
          λ name. group-without s name m.groups out,
        ))
