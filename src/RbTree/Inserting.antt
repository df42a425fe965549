-- ===== src/RbTree/Inserting.antt =====
-- `Insert` of netfram/RBTree.h with its loop over red parents.
use network_etc.Base.{
  ℕ, zero, suc, true, false, not, ◌&&◌, Option, none, some, ◌==◌, if◌then◌else◌, ◌>>=◌,
}
use network_etc.RbTree.{
  Tree, sentinel, null, set_left, set_right, set_parent, set_root, paint, left_rotate, right_rotate,
  descend, attach,
}

-- Parent and uncle are red: both turn black, and the grandparent is next.
abbrev recolor : Tree → ℕ → ℕ → Tree
recolor t n uncle =
    let t₁ = paint (paint t (t.parent n) false) uncle false in
    paint t₁ (t₁.parent (t₁.parent n)) true

-- The parent is a left child, and the uncle is black.
abbrev lift_left : Tree → ℕ → Tree × ℕ
lift_left t n =
    let inner = n == t.right (t.parent n) in
    let n' = if inner then t.parent n else n in
    let t₁ = if inner then left_rotate t n' else t in
    let t₂ = paint t₁ (t₁.parent n') false in
    let t₃ = paint t₂ (t₂.parent (t₂.parent n')) true in
    (right_rotate t₃ (t₃.parent (t₃.parent n')), n')

-- The parent is a right child, and the uncle is black.
abbrev lift_right : Tree → ℕ → Tree × ℕ
lift_right t n =
    let inner = n == t.left (t.parent n) in
    let n' = if inner then t.parent n else n in
    let t₁ = if inner then right_rotate t n' else t in
    let t₂ = paint t₁ (t₁.parent n') false in
    let t₃ = paint t₂ (t₂.parent (t₂.parent n')) true in
    (left_rotate t₃ (t₃.parent (t₃.parent n')), n')

-- One round of the loop: the tree, and the node of the next round.
unfoldable pub rebalance : Tree → ℕ → Tree × ℕ
rebalance t n =
    let up = t.parent n in
    let grand = t.parent up in
    if up == t.left grand
    then if t.red (t.right grand) then (recolor t n (t.right grand), grand) else lift_left t n
    else if t.red (t.left grand)
    then (recolor t n (t.left grand), grand)
    else lift_right t n

pub insert_fixup : ℕ → Tree → ℕ → Option Tree
unfolding rebalance
insert_fixup zero t n = none
insert_fixup (suc fuel) t n =
    let next = insert_fixup fuel (rebalance t n).0 (rebalance t n).1 in
    if not (n == t.root) && t.red (t.parent n) then next else some (paint t t.root false)

-- `Insert(apoNode)`
unfoldable pub insert : ℕ → Tree → ℕ → Option Tree
insert fuel t n =
    if t.root == sentinel
    then some (
        set_root (paint (set_right (set_left (set_parent t n null) n sentinel) n sentinel) n false)
          n)
    else do (temp, l) ← descend fuel t t.root n; insert_fixup fuel (attach t temp l n) n
