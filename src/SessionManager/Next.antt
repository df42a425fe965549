-- ===== src/SessionManager/Next.antt =====
-- netfram/SessionManager.h: `CNextSession`, which gives the open sessions in turn, and `FindIf` with
-- it. Iterators are places in the list of the pointers, in the order of their ids.
pub mod Rotating
use network_etc.Base.{
  ℕ, zero, suc, ◌+◌, ◌%◌, ◌≡◌, Bool, true, false, Option, none, some, List, [], ◌∷◌, length, drop,
  ltb, ◌==◌, if◌then◌else◌, u64,
}
use network_etc.Base.Maps.{Map}
use network_etc.SessionManager.{Session, Manager}

-- The pointers in the order of the ids.
abbrev pub insert_ordered : ℕ → ℕ → List (ℕ × ℕ) → List (ℕ × ℕ)
insert_ordered id p [] = (id, p) ∷ []
insert_ordered id p ((j, q) ∷ m) =
    let rest = insert_ordered id p m in if ltb id j then (id, p) ∷ (j, q) ∷ m else (j, q) ∷ rest

abbrev pub order : Map ℕ ℕ → List (ℕ × ℕ)
order [] = []
order ((id, p) ∷ m) = insert_ordered id p (order m)

abbrev pub pointers : List (ℕ × ℕ) → List ℕ
pointers [] = []
pointers ((id, p) ∷ m) = p ∷ pointers m

-- The loop that steps `count` times from the place `i`.
pub skip : ℕ → ℕ → ℕ → ℕ
skip size zero i = i
skip size (suc count) i = skip size count ((if i == size then 0 else i) + 1)

module _ (object : ℕ → Session) where
  -- The loop over closed sessions from the place `i`, back to `start`: what it finds and `muCount`.
  -- It is `none` where the fuel runs out.
  pub search : ℕ → List ℕ → ℕ → ℕ → ℕ → Option (Option ℕ × ℕ)
  search zero ps start i count = none
  search (suc fuel) ps start i count = elim (drop i ps) [
    | [] ↦
        (let rest = search fuel ps start 0 count in if 0 == start then some (none, count) else rest)
    | p ∷ _ ↦
        let rest = search fuel ps start (i + 1) ((count + 1) % u64) in
        if (object p).closed
        then (if i + 1 == start then some (none, (count + 1) % u64) else rest)
        else some (some p, count)
  ]

  unfoldable pub next_session : List ℕ → ℕ → Option (Option ℕ × ℕ)
  unfolding skip search
  next_session ps muCount =
      let size = length ps in
      if size == 0
      then some (none, muCount)
      else (let count = muCount % size in
          let first = skip size count 0 in search (size + 2) ps first first (count + 1))

  -- `FindIf<CNextSession>`
  unfoldable pub find_next : Manager → ℕ → Option (Option ℕ × ℕ)
  find_next m muCount = next_session (pointers (order m.sessions)) muCount
