-- ===== src/SessionManager.antt =====
-- netfram/SessionManager.cpp: `CSessionManager`, the sessions of a service by id, by remote address
-- and by group. Sessions are objects behind pointers: `object` gives the session at each, and the
-- manager changes none of them. The lock is held by one thread at a time and has no part here.
pub mod Consistency
pub mod Groups
pub mod Faults
pub mod Expecting
pub mod Next
use network_etc.Base.{
  ◌^◌, ℕ, zero, suc, ◌+◌, ◌-◌, ◌%◌, ◌≡◌, Bool, true, false, Option, none, some, List, [], ◌∷◌, ◌++◌,
  Bytes, length, take, codes, ltb, ◌==◌, if◌then◌else◌,
}
use network_etc.Base.Maps.{Map, lookup, put, erase, nat_eq, bytes_eq}
use network_etc.Text.{decimal}

-- What the manager asks of a session: `GetSessionID`, `GetRemote()->GetID()`,
-- `GetService()->GetName()` and `Closed`.
pub record Session : Type 0 where
  pub id : ℕ
  pub remote : ℕ
  pub group : Bytes
  pub closed : Bool

abbrev pub null : ℕ
null = 0

-- `sessions` maps to pointers, and `expecting` counts.
pub record Manager : Type 0 where
  pub identities : Map ℕ ℕ
  pub sessions : Map ℕ ℕ
  pub groups : Map Bytes (List ℕ)
  pub expecting : Map Bytes ℕ
  pub uname_count : ℕ

unfoldable pub empty : Manager
empty = record { identities = []; sessions = []; groups = []; expecting = []; uname_count = 0 }

-- `insert` and `erase` of a set.
abbrev pub add_id : ℕ → List ℕ → List ℕ
add_id k [] = k ∷ []
add_id k (j ∷ js) = if k == j then j ∷ js else j ∷ add_id k js

abbrev pub erase_id : ℕ → List ℕ → List ℕ
erase_id k [] = []
erase_id k (j ∷ js) = if k == j then js else j ∷ erase_id k js

-- `moGroups[name]`, which makes an empty set where there is none.
abbrev pub group_at : Bytes → Map Bytes (List ℕ) → List ℕ
group_at name groups = elim (lookup name groups) [ none ↦ [] | some ids ↦ ids ]

-- `snprintf(lacName, 10, "Default%d", …)`
abbrev pub default_name : ℕ → Bytes
default_name count = take 9 (codes "Default" ++ decimal count)

abbrev pub name_of : Manager → Session → Bytes
name_of m s = if length s.group == 0 then default_name m.uname_count else s.group

-- What the manager finds at an id: nothing, or the pointer.
unfoldable pub find : Manager → ℕ → Option ℕ
find m id = lookup id m.sessions

-- `Find(CSession*&, char const*, …)`, for the id of the address. `moSessionIDs[…]` enters a null
-- pointer where there is none.
unfoldable pub find_address : Manager → ℕ → Manager × Option ℕ
find_address m address = elim (lookup address m.identities) [
  | none ↦ (m, none)
  | some id ↦ elim (lookup id m.sessions) [
    | none ↦ (record m { sessions = put id null m.sessions }, some null)
    | some pointer ↦ (m, some pointer)
  ]
]

unfoldable pub get_size : Manager → ℕ
get_size m = length m.identities

unfoldable pub get_group_size : Manager → Bytes → ℕ
get_group_size m name = length (group_at name m.groups)

unfoldable pub clear : Manager → Manager
clear m = record m { groups = []; identities = []; sessions = [] }

-- A call that ends, one that does what C++ leaves undefined, and one that is out of fuel.
pub data Run : Type 0 where
  done : Manager → Run
  fault : Run
  endless : Run

module _ (object : ℕ → Session) where
  unfoldable pub insert : Manager → ℕ → Manager
  insert m pointer =
      let s = object pointer in
      let name = name_of m s in
      record m {
        groups = put name (add_id s.id (group_at name m.groups)) m.groups;
        identities = put s.remote s.id m.identities;
        sessions = put s.id pointer m.sessions;
        uname_count = if length s.group == 0 then (m.uname_count + 1) % 256 else m.uname_count;
      }

  -- `Erase(uint64_t)`, where no pointer in the table is null.
  unfoldable pub remove : Manager → ℕ → Manager × Bool
  remove m id = elim (lookup id m.sessions) [
    | none ↦ (m, false)
    | some pointer ↦
        let s = object pointer in
        (
          record m {
            sessions = erase id m.sessions;
            identities = erase s.remote m.identities;
            groups = elim (lookup s.group m.groups) [
              | none ↦ m.groups
              | some ids ↦ put s.group (erase_id s.id ids) m.groups
            ];
          },
          true,
        )
  ]

  -- The loop of `Clear(std::string&)` over a group, at the id under `loSetIter`, which does not
  -- advance. A missing id is entered with a null pointer, whose remote address is then read.
  pub clear_loop : ℕ → Manager → ℕ → Run
  clear_loop zero m id = endless
  clear_loop (suc fuel) m id = elim (lookup id m.sessions) [
    | none ↦ fault
    | some pointer ↦
        if pointer == null
        then fault
        else clear_loop fuel
            (record m {
              identities = erase (object pointer).remote m.identities;
              sessions = erase id m.sessions;
            })
            id
  ]

  -- `Clear(std::string&)`. `erase` of the end of a map is undefined.
  unfoldable pub clear_group : ℕ → Manager → Bytes → Run
  unfolding clear_loop
  clear_group fuel m name = elim (lookup name m.groups) [
    | none ↦ fault
    | some [] ↦ done m
    | some (id ∷ ids) ↦ clear_loop fuel m id
  ]

  -- The loop of `EraseClosed` over the ids of a group. After the erasure of an id the loop goes on
  -- with the iterator that it invalidated.
  pub erase_closed_ids : List ℕ → Manager → Run
  erase_closed_ids [] m = done m
  erase_closed_ids (id ∷ ids) m = elim (lookup id m.sessions) [
    | none ↦ fault
    | some pointer ↦
        if pointer == null
        then fault
        else if (object pointer).closed
        then fault
        else erase_closed_ids ids m
  ]

  -- `EraseClosed(std::string&)`
  unfoldable pub erase_closed_group : Manager → Bytes → Run
  unfolding erase_closed_ids
  erase_closed_group m name = erase_closed_ids (group_at name m.groups) m

  -- `EraseClosed()`
  pub erase_closed_groups : List (Bytes × List ℕ) → Manager → Run
  unfolding erase_closed_ids
  erase_closed_groups [] m = done m
  erase_closed_groups ((name, ids) ∷ gs) m =
      let rest = erase_closed_groups gs m in
      elim (erase_closed_ids ids m) [ done _ ↦ rest | fault ↦ fault | endless ↦ endless ]

-- The counts of `expecting` are of type `int`: none where one overflows.
unfoldable pub expect : Manager → Bytes → Option Manager
expect m name = elim (lookup name m.expecting) [
  | none ↦ some (record m { expecting = put name 1 m.expecting })
  | some n ↦
      if ltb (n + 1) (2 ^ 31)
      then some (record m { expecting = put name (n + 1) m.expecting })
      else none
]

-- The counts of `expecting` are at least 1: an entry that comes down to 0 is erased.
unfoldable pub check_one : Manager → Bytes → Manager × Bool
check_one m name = elim (lookup name m.expecting) [
  | none ↦ (m, false)
  | some n ↦
      if ltb 1 (n - 1)
      then (record m { expecting = put name (n - 1) m.expecting }, true)
      else if n - 1 == 0
      then (record m { expecting = erase name m.expecting }, true)
      else (record m { expecting = put name (n - 1) m.expecting }, false)
]
