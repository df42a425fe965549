-- ===== src/Timer/Earliest.antt =====
-- `Find` and `Expire` of netfram/Timer.cpp go by the earliest timeout of the tree.
use network_etc.Base.{
  ℕ, suc, ◌-◌, ◌≤◌, ◌≡◌, ◌≢◌, false, ◌∷◌, some, ltb, if◌then◌else◌, ◌>>=◌, arith,
}
use network_etc.RbTree.{sentinel, null, is_empty}
use network_etc.RbTree.Shapes.{Shape, node, AllNodes, Hangs}
use network_etc.RbTree.Hanging.{height}
use network_etc.RbTree.Ordering.{Ordered, IsNear, seek_to_first-least}
use network_etc.RbTree.Iterator.{valid}
use network_etc.Timer.{Timer, infinite, find, delete, expire}

-- The holder is a search tree that is not empty, and its keys and the time are near one another.
pub record IsArmed (tm : Timer) (base fuel : ℕ) (l : Shape) (x : ℕ) (r : Shape) : Type 0 where
  pub hung : Hangs tm.holder tm.holder.root null (node l x r)
  pub inside : AllNodes (λ c. c ≢ sentinel) (node l x r)
  pub ordered : Ordered tm.holder.key (node l x r)
  pub near : AllNodes (λ c. IsNear base (tm.holder.key c)) (node l x r)
  pub near_now : IsNear base tm.now
  pub enough : height (node l x r) ≤ fuel

-- The event is in the tree, and no other is due earlier.
abbrev pub Earliest : Timer → Shape → ℕ → Type 1
Earliest tm sh q =
    ((P : ℕ → Type 0) → AllNodes P sh → P q) × AllNodes (λ c. tm.holder.key q ≤ tm.holder.key c) sh

module _ (tm : Timer) (base fuel : ℕ) (l : Shape) (x : ℕ) (r : Shape)
    (a : IsArmed tm base fuel l x r) where
  not_empty : is_empty tm.holder ≡ false
  unfolding is_empty
  not_empty = ground (arith, a.hung.0, a.inside.1)

  -- `Find`, where the holder is a search tree with a timer in it, no higher than the fuel, and the
  -- deadlines and the clock are below 2 ^ 64 and less than 2 ^ 31 above one time, finds the earliest
  -- timer: it answers how long it is until then, and -1 if that timer is due already.
  pub find-Earliest :
      (q : ℕ) × Earliest tm (node l x r) q
      × (find fuel tm
          ≡ some (if ltb tm.now (tm.holder.key q) then tm.holder.key q - tm.now else infinite))
  unfolding find valid
  find-Earliest =
      let (q, e, inside, least) =
        seek_to_first-least fuel tm.holder l x r a.hung a.inside a.ordered a.enough in
      let near : IsNear base (tm.holder.key q) =
        inside (λ c. IsNear base (tm.holder.key c)) a.near in
      let node : q ≢ sentinel = inside (λ c. c ≢ sentinel) a.inside in
      (q, (inside, least), rw (not_empty, e) (ground arith))

  -- A round of `Expire` with timers armed looks at the earliest one: if it is not due, all is left
  -- as it is; if it is, it is posted and deleted, and the rounds go on.
  pub expire-Earliest :
      (rounds : ℕ)
      → (q : ℕ) × Earliest tm (node l x r) q
        × (expire (suc rounds) fuel tm ≡ (
            if ltb tm.now (tm.holder.key q)
            then some tm
            else (delete fuel (record tm { posted = q ∷ tm.posted }) q >>= expire rounds fuel)))
  unfolding expire
  expire-Earliest rounds =
      let (q, e, inside, least) =
        seek_to_first-least fuel tm.holder l x r a.hung a.inside a.ordered a.enough in
      let near : IsNear base (tm.holder.key q) =
        inside (λ c. IsNear base (tm.holder.key c)) a.near in
      (q, (inside, least), rw (not_empty, e) (ground arith))
