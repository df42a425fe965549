-- ===== src/RbTree/Deleting.antt =====
-- `Delete(Node*)` of netfram/RBTree.h.
use network_etc.Base.{
  ℕ, zero, suc, true, false, not, ◌&&◌, ◌||◌, Option, none, some, ◌==◌, if◌then◌else◌, ◌>>=◌,
}
use network_etc.RbTree.{
  Tree, sentinel, null, set_left, set_right, set_parent, set_root, paint, left_rotate, right_rotate,
}

-- The loop that looks for the node to put in place of `n`: it starts at the root.
unfoldable pub leftmost : ℕ → Tree → ℕ → Option ℕ
leftmost zero t p = none
leftmost (suc fuel) t p =
    let rest = leftmost fuel t (t.left p) in
    if not (t.left p == sentinel) && not (p == sentinel) then rest else some p

-- `lpoTemp` and `subst`.
unfoldable pub choose : ℕ → Tree → ℕ → Option (ℕ × ℕ)
unfolding leftmost
choose fuel t n =
    if t.left n == sentinel
    then some (t.right n, n)
    else if t.right n == sentinel
    then some (t.left n, n)
    else do
      s ← leftmost fuel t t.root
      some (if t.left s == sentinel then t.right s else t.left s, s)

-- The removed node's links.
abbrev pub clear : Tree → ℕ → Tree
clear t n = set_parent (set_right (set_left t n null) n null) n null

-- `subst` takes the place of `n`.
abbrev replace : Tree → ℕ → ℕ → Tree
replace t n s =
    let t₁ = set_parent (set_right (set_left t s (t.left n)) s (t.right n)) s (t.parent n) in
    let t₂ = paint t₁ s (t₁.red n) in
    let up = t₂.parent n in
    let t₃ =
      if n == t₂.root
      then set_root t₂ s
      else if n == t₂.left up
      then set_left t₂ up s
      else set_right t₂ up s in
    let t₄ = if t₃.left s == sentinel then t₃ else set_parent t₃ (t₃.left s) s in
    if t₄.right s == sentinel then t₄ else set_parent t₄ (t₄.right s) s

-- From `subst == subst->mpoParent->mpoLeft` to the clearing of the links.
unfoldable pub unlink : Tree → ℕ → ℕ → ℕ → Tree
unlink t n temp s =
    let up = t.parent s in
    let t₁ = if s == t.left up then set_left t up temp else set_right t up temp in
    let t₂ =
      if s == n
      then set_parent t₁ temp (t₁.parent s)
      else if t₁.parent s == n
      then replace (set_parent t₁ temp s) n s
      else replace (set_parent t₁ temp (t₁.parent s)) n s in
    clear t₂ n

-- One round of the loop over black nodes where `x` is a left child: the tree and the next node.
abbrev raise_left : Tree → ℕ → Tree × ℕ
raise_left t x =
    let w = t.right (t.parent x) in
    let t₁ =
      if t.red w then left_rotate (paint (paint t w false) (t.parent x) true) (t.parent x) else t in
    let w₁ = if t.red w then t₁.right (t₁.parent x) else w in
    let inner_black = not (t₁.red (t₁.right w₁)) in
    let t₂ =
      if inner_black then right_rotate (paint (paint t₁ (t₁.left w₁) false) w₁ true) w₁ else t₁ in
    let w₂ = if inner_black then t₂.right (t₂.parent x) else w₁ in
    let t₃ = paint t₂ w₂ (t₂.red (t₂.parent x)) in
    let t₄ = paint (paint t₃ (t₃.parent x) false) (t₃.right w₂) false in
    let t₅ = left_rotate t₄ (t₄.parent x) in
    if not (t₁.red (t₁.left w₁)) && inner_black
    then (paint t₁ w₁ true, t₁.parent x)
    else (t₅, t₅.root)

-- The same where it is a right child.
abbrev raise_right : Tree → ℕ → Tree × ℕ
raise_right t x =
    let w = t.left (t.parent x) in
    let t₁ =
      if t.red w
      then right_rotate (paint (paint t w false) (t.parent x) true) (t.parent x)
      else t in
    let w₁ = if t.red w then t₁.left (t₁.parent x) else w in
    let inner_black = not (t₁.red (t₁.left w₁)) in
    let t₂ =
      if inner_black then left_rotate (paint (paint t₁ (t₁.right w₁) false) w₁ true) w₁ else t₁ in
    let w₂ = if inner_black then t₂.left (t₂.parent x) else w₁ in
    let t₃ = paint t₂ w₂ (t₂.red (t₂.parent x)) in
    let t₄ = paint (paint t₃ (t₃.parent x) false) (t₃.left w₂) false in
    let t₅ = right_rotate t₄ (t₄.parent x) in
    if inner_black && not (t₁.red (t₁.right w₁))
    then (paint t₁ w₁ true, t₁.parent x)
    else (t₅, t₅.root)

unfoldable pub raise : Tree → ℕ → Tree × ℕ
raise t x = if x == t.left (t.parent x) then raise_left t x else raise_right t x

pub delete_fixup : ℕ → Tree → ℕ → Option Tree
unfolding raise
delete_fixup zero t x = none
delete_fixup (suc fuel) t x =
    let next = delete_fixup fuel (raise t x).0 (raise t x).1 in
    if not (x == t.root) && not (t.red x) then next else some (paint t x false)

-- A node whose links are cleared is in no tree: nothing is done.
unfoldable pub delete : ℕ → Tree → ℕ → Option Tree
delete fuel t n =
    if t.left n == null || t.right n == null
    then some t
    else (choose fuel t n >>= λ (temp, s).
        if s == t.root
        then some (clear (paint (set_root t temp) temp false) n)
        else if t.red s
        then some (unlink t n temp s)
        else delete_fixup fuel (unlink t n temp s) temp)
