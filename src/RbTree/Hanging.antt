-- ===== src/RbTree/Hanging.antt =====
-- What `Insert(apoTemp, apoNode)` of netfram/RBTree.h writes behind its loop.
use network_etc.Base.{ℕ, suc, ◌≡◌, ◌≢◌, refl, Bool, true, false, if◌then◌else◌, leb, arith}
use network_etc.RbTree.{Tree, sentinel, goes_left, attach}
use network_etc.RbTree.Shapes.{Shape, leaf, node, AllNodes, Hangs, Same, Hangs-frame, AllNodes-zip}

-- The shape with `n` hung below it.
abbrev pub hang : Tree → ℕ → Shape → Shape
hang t n leaf = node leaf n leaf
hang t n (node l x r) =
    if goes_left (t.key n) (t.key x) then node (hang t n l) x r else node l x (hang t n r)

abbrev pub max : ℕ → ℕ → ℕ
max a b = if leb a b then b else a

abbrev pub height : Shape → ℕ
height leaf = 0
height (node l x r) = suc (max (height l) (height r))

module _ (t : Tree) (n q : ℕ) (n≢q : n ≢ q) where
  pub attach-other : (side : Bool) (c : ℕ) → c ≢ q → c ≢ n → Same t (attach t q side n) c
  unfolding attach
  attach-other true c h k = (ground arith, ground arith, ground arith)
  attach-other false c h k = (ground arith, ground arith, ground arith)

  pub attach-node :
      (side : Bool)
      → ((attach t q side n).parent n ≡ q)
        × ((attach t q side n).left n ≡ sentinel)
        × ((attach t q side n).right n ≡ sentinel)
  unfolding attach
  attach-node true = (ground arith, ground arith, ground arith)
  attach-node false = (ground arith, ground arith, ground arith)

  pub attach-left :
      ((attach t q true n).left q ≡ n)
      × ((attach t q true n).right q ≡ t.right q)
      × ((attach t q true n).parent q ≡ t.parent q)
  unfolding attach
  attach-left = (ground arith, ground arith, ground arith)

  pub attach-right :
      ((attach t q false n).left q ≡ t.left q)
      × ((attach t q false n).right q ≡ n)
      × ((attach t q false n).parent q ≡ t.parent q)
  unfolding attach
  attach-right = (ground arith, ground arith, ground arith)

  pub attach-frame :
      (side : Bool) (p up : ℕ) (sh : Shape)
      → AllNodes (λ c. c ≢ q) sh
      → AllNodes (λ c. c ≢ n) sh
      → Hangs t p up sh
      → Hangs (attach t q side n) p up sh
  attach-frame side p up sh f g h =
      Hangs-frame t (attach t q side n) p up sh
        (AllNodes-zip (λ c. c ≢ q) (λ c. c ≢ n) _ sh (attach-other side) f g) h

pub attach-key : (t : Tree) (q : ℕ) (side : Bool) (n : ℕ) → t.key ≡ (attach t q side n).key
unfolding attach
attach-key t q true n = refl
attach-key t q false n = refl
