-- ===== src/RbTree/Iterator.antt =====
-- `CRBTree::Iterator` of netfram/RBTree.h: the node that it stands at, the sentinel at the end.
use network_etc.Base.{
  ℕ, zero, suc, Bool, not, ◌&&◌, Option, none, some, ltb, ◌==◌, if◌then◌else◌, ◌>>=◌,
}
use network_etc.RbTree.{Tree, sentinel, null}
use network_etc.RbTree.Deleting.{leftmost}

unfoldable pub valid : ℕ → Bool
valid p = not (p == sentinel)

-- `while (p->mpoLeft != sentinel) p = p->mpoLeft`
pub down_left : ℕ → Tree → ℕ → Option ℕ
down_left zero t p = none
down_left (suc fuel) t p =
    let rest = down_left fuel t (t.left p) in if t.left p == sentinel then some p else rest

pub down_right : ℕ → Tree → ℕ → Option ℕ
down_right zero t p = none
down_right (suc fuel) t p =
    let rest = down_right fuel t (t.right p) in if t.right p == sentinel then some p else rest

-- The loop up to a node whose parent is a left child, or the root's child.
pub up_right : ℕ → Tree → ℕ → Option ℕ
up_right zero t p = none
up_right (suc fuel) t p =
    let up = t.parent p in
    let rest = up_right fuel t up in
    if not (t.parent up == null) && up == t.right (t.parent up) then rest else some p

pub up_left : ℕ → Tree → ℕ → Option ℕ
up_left zero t p = none
up_left (suc fuel) t p =
    let up = t.parent p in
    let rest = up_left fuel t up in
    if not (t.parent up == null) && up == t.left (t.parent up) then rest else some p

abbrev or_end : ℕ → ℕ
or_end p = if p == null then sentinel else p

unfoldable pub next : ℕ → Tree → ℕ → Option ℕ
unfolding down_left up_right
next fuel t p =
    if not (t.right p == sentinel)
    then down_left fuel t (t.right p)
    else if not (t.parent p == null) && p == t.left (t.parent p)
    then some (t.parent p)
    else if not (t.parent p == null)
    then (up_right fuel t p >>= λ q. some (or_end (t.parent (t.parent q))))
    else some sentinel

unfoldable pub prev : ℕ → Tree → ℕ → Option ℕ
unfolding down_right up_left
prev fuel t p =
    if not (t.left p == sentinel)
    then down_right fuel t (t.left p)
    else if not (t.parent p == null) && p == t.right (t.parent p)
    then some (t.parent p)
    else if not (t.parent p == null)
    then (up_left fuel t p >>= λ q. some (or_end (t.parent (t.parent q))))
    else some sentinel

-- `Seek`: the loop from `p` on.
pub seek_from : ℕ → Tree → ℕ → ℕ → Option ℕ
seek_from zero t p target = none
seek_from (suc fuel) t p target =
    let rest = seek_from fuel t (if ltb target (t.key p) then t.left p else t.right p) target in
    if not (p == sentinel) && not (t.key p == target) then rest else some p

unfoldable pub seek : ℕ → Tree → ℕ → Option ℕ
unfolding seek_from
seek fuel t target = seek_from fuel t t.root target

-- `SeekToFirst` is the loop that `Delete` has too.
unfoldable pub seek_to_first : ℕ → Tree → Option ℕ
seek_to_first fuel t = leftmost fuel t t.root

pub rightmost : ℕ → Tree → ℕ → Option ℕ
rightmost zero t p = none
rightmost (suc fuel) t p =
    let rest = rightmost fuel t (t.right p) in
    if not (t.right p == sentinel) && not (p == sentinel) then rest else some p

unfoldable pub seek_to_last : ℕ → Tree → Option ℕ
unfolding rightmost
seek_to_last fuel t = rightmost fuel t t.root
