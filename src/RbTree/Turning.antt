-- ===== src/RbTree/Turning.antt =====
-- What `LeftRotate` of netfram/RBTree.h writes, node by node.
use network_etc.Base.{ℕ, ◌≡◌, ◌≢◌, arith}
use network_etc.RbTree.{Tree, sentinel, left_rotate}
use network_etc.RbTree.Shapes.{Same}

-- The nodes that the rotation at `x` touches: its right child, that one's left child, and the node
-- above, which are apart.
pub record Turn (s : Tree) (x y z up : ℕ) : Type 0 where
  pub child : s.right x ≡ y
  pub inner : s.left y ≡ z
  pub upper : s.parent x ≡ up
  pub x≢y : x ≢ y
  pub up≢x : up ≢ x
  pub up≢y : up ≢ y
  pub z≢x : z ≢ x
  pub z≢y : z ≢ y
  pub z≢up : z ≢ up

module _ (s : Tree) (x y z up : ℕ) (u : Turn s x y z up) where
  pub rotate-other : (c : ℕ) → c ≢ x → c ≢ y → c ≢ z → c ≢ up → Same s (left_rotate s x) c
  unfolding left_rotate
  rotate-other c h k l m = (ground arith, ground arith, ground arith)

  pub rotate-x :
      ((left_rotate s x).left x ≡ s.left x)
      × ((left_rotate s x).right x ≡ z)
      × ((left_rotate s x).parent x ≡ y)
  unfolding left_rotate
  rotate-x = (ground arith, ground arith, ground arith)

  pub rotate-y :
      ((left_rotate s x).left y ≡ x)
      × ((left_rotate s x).right y ≡ s.right y)
      × ((left_rotate s x).parent y ≡ up)
  unfolding left_rotate
  rotate-y = (ground arith, ground arith, ground arith)

  pub rotate-z :
      z ≢ sentinel
      → ((left_rotate s x).left z ≡ s.left z)
        × ((left_rotate s x).right z ≡ s.right z)
        × ((left_rotate s x).parent z ≡ x)
  unfolding left_rotate
  rotate-z h = (ground arith, ground arith, ground arith)

  pub rotate-root : s.root ≡ x → (left_rotate s x).root ≡ y
  unfolding left_rotate
  rotate-root h = ground arith

  pub rotate-deep :
      s.root ≢ x → ((left_rotate s x).root ≡ s.root) × ((left_rotate s x).parent up ≡ s.parent up)
  unfolding left_rotate
  rotate-deep h = (ground arith, ground arith)

  pub rotate-up_left :
      s.root ≢ x
      → s.left up ≡ x
      → ((left_rotate s x).left up ≡ y) × ((left_rotate s x).right up ≡ s.right up)
  unfolding left_rotate
  rotate-up_left h k = (ground arith, ground arith)

  pub rotate-up_right :
      s.root ≢ x
      → s.left up ≢ x
      → ((left_rotate s x).left up ≡ s.left up) × ((left_rotate s x).right up ≡ y)
  unfolding left_rotate
  rotate-up_right h k = (ground arith, ground arith)
