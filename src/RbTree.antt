-- ===== src/RbTree.antt =====
-- `CRBTree` of netfram/RBTree.h: the red-black tree that holds the timers. A node is its address;
-- address 0 is NULL and address 1 the tree's sentinel. Loops run on fuel; `none` means no fuel.
-- What is read through NULL is what the functions hold at 0; the theorems show where none is.
pub mod Inserting
pub mod Deleting
pub mod Dropping
pub mod Iterator
pub mod Shapes
pub mod Turning
pub mod Rotating
pub mod Hanging
pub mod Descending
pub mod Ordering
use network_etc.Base.{
  ℕ, zero, suc, ◌+◌, ◌-◌, ◌%◌, ◌^◌, ◌≡◌, refl, Bool, true, false, Option, none, some, leb, ◌==◌,
  if◌then◌else◌, u64, u32,
}

abbrev pub null : ℕ
null = 0

abbrev pub sentinel : ℕ
sentinel = 1

-- The fields of every node, the sentinel's included, and `mpoRoot`.
pub record Tree : Type 0 where
  pub root : ℕ
  pub key : ℕ → ℕ
  pub left : ℕ → ℕ
  pub right : ℕ → ℕ
  pub parent : ℕ → ℕ
  pub red : ℕ → Bool

abbrev pub update {ℓ} : {A : Type ℓ} → (ℕ → A) → ℕ → A → ℕ → A
update f p v q = if q == p then v else f q

abbrev pub set_left : Tree → ℕ → ℕ → Tree
set_left t p v = record t { left = update t.left p v }

abbrev pub set_right : Tree → ℕ → ℕ → Tree
set_right t p v = record t { right = update t.right p v }

abbrev pub set_parent : Tree → ℕ → ℕ → Tree
set_parent t p v = record t { parent = update t.parent p v }

abbrev pub set_root : Tree → ℕ → Tree
set_root t p = record t { root = p }

-- RBT_RED and RBT_BLACK
abbrev pub paint : Tree → ℕ → Bool → Tree
paint t p c = record t { red = update t.red p c }

-- The constructor: the links of the sentinel are what the memory held.
unfoldable pub new : Tree → Tree
new t = set_root (paint t sentinel false) sentinel

unfoldable pub is_empty : Tree → Bool
is_empty t = t.root == sentinel

-- `LeftRotate`, write by write.
unfoldable pub left_rotate : Tree → ℕ → Tree
left_rotate t x =
    let y = t.right x in
    let t₁ = set_right t x (t.left y) in
    let t₂ = if t₁.left y == sentinel then t₁ else set_parent t₁ (t₁.left y) x in
    let t₃ = set_parent t₂ y (t₂.parent x) in
    let up = t₃.parent x in
    let t₄ =
      if x == t₃.root
      then set_root t₃ y
      else if x == t₃.left up
      then set_left t₃ up y
      else set_right t₃ up y in
    set_parent (set_left t₄ y x) x y

-- `RightRotate`
unfoldable pub right_rotate : Tree → ℕ → Tree
right_rotate t x =
    let y = t.left x in
    let t₁ = set_left t x (t.right y) in
    let t₂ = if t₁.right y == sentinel then t₁ else set_parent t₁ (t₁.right y) x in
    let t₃ = set_parent t₂ y (t₂.parent x) in
    let up = t₃.parent x in
    let t₄ =
      if x == t₃.root
      then set_root t₃ y
      else if x == t₃.right up
      then set_right t₃ up y
      else set_left t₃ up y in
    set_parent (set_right t₄ y x) x y

-- `(IKey)(a - b) < 0`: the low 32 bits of the 64-bit difference, as an `int`.
unfoldable pub goes_left : ℕ → ℕ → Bool
goes_left a b = leb (2 ^ 31) ((a + u64 - b) % u64 % u32)

-- The loop of `Insert(apoTemp, apoNode)`: the node to hang on to, and on which side.
pub descend : ℕ → Tree → ℕ → ℕ → Option (ℕ × Bool)
unfolding goes_left
descend zero t temp n = none
descend (suc fuel) t temp n =
    let l = goes_left (t.key n) (t.key temp) in
    let child = if l then t.left temp else t.right temp in
    let rest = descend fuel t child n in if child == sentinel then some (temp, l) else rest

-- What follows the loop.
unfoldable pub attach : Tree → ℕ → Bool → ℕ → Tree
attach t temp l n =
    let t₁ = if l then set_left t temp n else set_right t temp n in
    paint (set_right (set_left (set_parent t₁ n temp) n sentinel) n sentinel) n true
