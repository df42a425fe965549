-- ===== src/SessionManager/Faults.antt =====
-- Where the loops of `CSessionManager` that erase while they iterate end.
use network_etc.Base.{
  ℕ, suc, ◌≡◌, refl, Bool, true, false, none, some, arith, if◌then◌else◌, List, [], ◌∷◌, Bytes,
  Option,
}
use network_etc.Base.Maps.{lookup, nat_eq, bytes_eq, lookup-erase}
use network_etc.SessionManager.{
  Session, Manager, done, fault, clear_loop, clear_group, erase_closed_ids, erase_closed_group,
  group_at,
}
use network_etc.SessionManager.Groups.{holds}

abbrev pub is_empty_set : Option (List ℕ) → Bool
is_empty_set none = false
is_empty_set (some []) = true
is_empty_set (some (id ∷ ids)) = false

module _ (object : ℕ → Session) where
  missing_faults :
      (fuel id : ℕ) (m : Manager)
      → lookup id m.sessions ≡ none
      → clear_loop object (suc fuel) m id ≡ fault
  unfolding clear_loop
  missing_faults fuel id m e = rw (e, clear_loop) refl

  clear_loop_faults : (fuel id : ℕ) (m : Manager) → clear_loop object (suc (suc fuel)) m id ≡ fault
  unfolding clear_loop
  clear_loop_faults fuel id m = ground (arith, lookup-erase id id m.sessions)

  -- `Clear` of a group ends only where the group is there and has no session, and changes nothing
  -- then. Otherwise it does what C++ leaves undefined: it erases the end of the table of groups, or
  -- two rounds of its loop are enough for a null pointer.
  pub clear_group_faults :
      (fuel : ℕ) (m : Manager) (name : Bytes)
      → clear_group object (suc (suc fuel)) m name
        ≡ (if is_empty_set (lookup name m.groups) then done m else fault)
  unfolding clear_group
  clear_group_faults fuel m name = go (lookup name m.groups) refl
    where
      go :
          (o : Option (List ℕ))
          → lookup name m.groups ≡ o
          → clear_group object (suc (suc fuel)) m name ≡ (if is_empty_set o then done m else fault)
      go none e = rw (e, clear_group) refl
      go (some []) e = rw (e, clear_group) refl
      go (some (id ∷ ids)) e = rw (e, clear_group) (clear_loop_faults fuel id m)

  closed_faults :
      (ids : List ℕ) (m : Manager) (id pointer : ℕ)
      → holds id ids ≡ true
      → lookup id m.sessions ≡ some pointer
      → (object pointer).closed ≡ true
      → erase_closed_ids object ids m ≡ fault
  unfolding erase_closed_ids
  closed_faults [] m id pointer h e c = cc
  closed_faults (j ∷ ids) m id pointer h e c = ground (arith, closed_faults ids m id pointer)

  pub erase_closed_faults :
      (m : Manager) (name : Bytes) (id pointer : ℕ)
      → holds id (group_at name m.groups) ≡ true
      → lookup id m.sessions ≡ some pointer
      → (object pointer).closed ≡ true
      → erase_closed_group object m name ≡ fault
  unfolding erase_closed_group
  erase_closed_faults m name id pointer h e c =
      closed_faults (group_at name m.groups) m id pointer h e c
