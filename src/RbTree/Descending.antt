-- ===== src/RbTree/Descending.antt =====
-- `Insert(apoTemp, apoNode)` of netfram/RBTree.h hangs a node at the place that its key asks for.
use network_etc.Base.{
  ℕ, zero, suc, ◌≤◌, ◌≡◌, ◌≢◌, refl, sym, ◌∙◌, Bool, true, false, some, Bool-cases, inl, inr, arith,
}
use network_etc.RbTree.{Tree, sentinel, goes_left, descend, attach}
use network_etc.RbTree.Shapes.{Shape, leaf, node, AllNodes, Hangs, AllNodes-map, DistinctNodes}
use network_etc.RbTree.Hanging.{
  hang, height, attach-other, attach-node, attach-left, attach-right, attach-frame,
}

-- The loop from `p` on finds a node of `sh`, and with the new node there `sh'` hangs at `p`.
Placed : ℕ → Tree → ℕ → ℕ → ℕ → Shape → Shape → Type 1
Placed fuel t n p up sh sh' =
    (q : ℕ) × (side : Bool) × (descend fuel t p n ≡ some (q, side))
    × ((P : ℕ → Type 0) → AllNodes P sh → P q)
    × Hangs (attach t q side n) p up sh'

module _ (fuel : ℕ) (t : Tree) (n x : ℕ) where
  descend-left :
      (side : goes_left (t.key n) (t.key x) ≡ true)
      → ((t.left x ≡ sentinel) → descend (suc fuel) t x n ≡ some (x, true))
        × ((t.left x ≢ sentinel) → descend (suc fuel) t x n ≡ descend fuel t (t.left x) n)
  unfolding descend
  descend-left side = (λ e. rw side (ground arith), λ e. rw side (ground arith))

  descend-right :
      (side : goes_left (t.key n) (t.key x) ≡ false)
      → ((t.right x ≡ sentinel) → descend (suc fuel) t x n ≡ some (x, false))
        × ((t.right x ≢ sentinel) → descend (suc fuel) t x n ≡ descend fuel t (t.right x) n)
  unfolding descend
  descend-right side = (λ e. rw side (ground arith), λ e. rw side (ground arith))

-- The tree into which a node can be hung.
pub record IsHost (n : ℕ) (sh : Shape) : Type 0 where
  pub inside : AllNodes (λ c. c ≢ sentinel) sh
  pub fresh : AllNodes (λ c. c ≢ n) sh
  pub distinct : DistinctNodes sh

left-IsHost : (n : ℕ) (l : Shape) (x : ℕ) (r : Shape) → IsHost n (node l x r) → IsHost n l
left-IsHost n l x r h = record { inside = h.inside.0; fresh = h.fresh.0; distinct = h.distinct.3 }

right-IsHost : (n : ℕ) (l : Shape) (x : ℕ) (r : Shape) → IsHost n (node l x r) → IsHost n r
right-IsHost n l x r h = record { inside = h.inside.2; fresh = h.fresh.2; distinct = h.distinct.4 }

-- Apart from the other side.
apart-flip :
    (l r : Shape)
    → AllNodes (λ c. AllNodes (λ d. d ≢ c) r) l
    → AllNodes (λ c. AllNodes (λ d. d ≢ c) l) r
apart-flip l leaf f = tt
apart-flip l (node r₁ z r₂) f = (
  apart-flip l r₁ (AllNodes-map _ (λ c. AllNodes (λ d. d ≢ c) r₁) l (λ c g. g.0) f),
  AllNodes-map _ (λ c. c ≢ z) l (λ c g e. g.1 (sym e)) f,
  apart-flip l r₂ (AllNodes-map _ (λ c. AllNodes (λ d. d ≢ c) r₂) l (λ c g. g.2) f),
)

module _ (fuel : ℕ) (t : Tree) (n up : ℕ) (l : Shape) (x : ℕ) (r : Shape)
    (h : Hangs t x up (node l x r)) (i : IsHost n (node l x r)) (ns : n ≢ sentinel) where
  n≢x : n ≢ x
  n≢x = λ e. i.fresh.1 (sym e)

  left_end :
      goes_left (t.key n) (t.key x) ≡ true
      → t.left x ≡ sentinel
      → Placed (suc fuel) t n x up (node l x r) (node (node leaf n leaf) x r)
  unfolding Placed
  left_end side e =
      let own = attach-node t n x n≢x true in
      let at_x = attach-left t n x n≢x in
      (
        x,
        true,
        (descend-left fuel t n x side).0 e,
        λ P f. f.1,
        (
          refl,
          at_x.2 ∙ h.1,
          (at_x.0, own.0, own.1, own.2),
          rw at_x.1 (attach-frame t n x n≢x true (t.right x) x r i.distinct.1 i.fresh.2 h.3),
        ),
      )

  right_end :
      goes_left (t.key n) (t.key x) ≡ false
      → t.right x ≡ sentinel
      → Placed (suc fuel) t n x up (node l x r) (node l x (node leaf n leaf))
  unfolding Placed
  right_end side e =
      let own = attach-node t n x n≢x false in
      let at_x = attach-right t n x n≢x in
      (
        x,
        false,
        (descend-right fuel t n x side).0 e,
        λ P f. f.1,
        (
          refl,
          at_x.2 ∙ h.1,
          rw at_x.0 (attach-frame t n x n≢x false (t.left x) x l i.distinct.0 i.fresh.0 h.2),
          (at_x.1, own.0, own.1, own.2),
        ),
      )

  left_deep :
      (l' : Shape)
      → goes_left (t.key n) (t.key x) ≡ true
      → t.left x ≢ sentinel
      → Placed fuel t n (t.left x) x l l'
      → Placed (suc fuel) t n x up (node l x r) (node l' x r)
  unfolding Placed
  left_deep l' side e (q, s, d, in_l, hung) =
      let q≢x : q ≢ x = in_l (λ c. c ≢ x) i.distinct.0 in
      let n≢q : n ≢ q = in_l (λ c. n ≢ c) (AllNodes-map _ _ l (λ c f v. f (sym v)) i.fresh.0) in
      let at_x = attach-other t n q n≢q s x (λ v. q≢x (sym v)) i.fresh.1 in
      (
        q,
        s,
        (descend-left fuel t n x side).1 e ∙ d,
        λ P f. in_l P f.0,
        (
          refl,
          at_x.2 ∙ h.1,
          rw at_x.0 hung,
          rw at_x.1 (
              attach-frame t n q n≢q s (t.right x) x r
                (in_l (λ c. AllNodes (λ d. d ≢ c) r) i.distinct.2) i.fresh.2 h.3),
        ),
      )

  right_deep :
      (r' : Shape)
      → goes_left (t.key n) (t.key x) ≡ false
      → t.right x ≢ sentinel
      → Placed fuel t n (t.right x) x r r'
      → Placed (suc fuel) t n x up (node l x r) (node l x r')
  unfolding Placed
  right_deep r' side e (q, s, d, in_r, hung) =
      let q≢x : q ≢ x = in_r (λ c. c ≢ x) i.distinct.1 in
      let n≢q : n ≢ q = in_r (λ c. n ≢ c) (AllNodes-map _ _ r (λ c f v. f (sym v)) i.fresh.2) in
      let at_x = attach-other t n q n≢q s x (λ v. q≢x (sym v)) i.fresh.1 in
      (
        q,
        s,
        (descend-right fuel t n x side).1 e ∙ d,
        λ P f. in_r P f.2,
        (
          refl,
          at_x.2 ∙ h.1,
          rw at_x.0 (
              attach-frame t n q n≢q s (t.left x) x l
                (in_r (λ c. AllNodes (λ d. d ≢ c) l) (apart-flip l r i.distinct.2)) i.fresh.0 h.2),
          rw at_x.1 hung,
        ),
      )

-- What the induction gives of a subtree.
Descends : ℕ → Tree → ℕ → Type 1
Descends fuel t n =
    (p up : ℕ) (l : Shape) (x : ℕ) (r : Shape)
    → Hangs t p up (node l x r)
    → IsHost n (node l x r)
    → height (node l x r) ≤ fuel
    → Placed fuel t n p up (node l x r) (hang t n (node l x r))

module _ (fuel : ℕ) (t : Tree) (n : ℕ) (ns : n ≢ sentinel) (ih : Descends fuel t n) where
  go_left :
      (up : ℕ) (l : Shape) (x : ℕ) (r : Shape)
      → Hangs t x up (node l x r)
      → IsHost n (node l x r)
      → height (node l x r) ≤ suc fuel
      → goes_left (t.key n) (t.key x) ≡ true
      → Placed (suc fuel) t n x up (node l x r) (node (hang t n l) x r)
  unfolding Descends
  go_left up leaf x r h i k side = left_end fuel t n up leaf x r h i ns side h.2
  go_left up (node l₁ z l₂) x r h i k side =
      left_deep fuel t n up (node l₁ z l₂) x r h i ns _ side (λ e. i.inside.0.1 (sym h.2.0 ∙ e))
        (ih (t.left x) x l₁ z l₂ h.2 (left-IsHost n (node l₁ z l₂) x r i) (ground arith))

  go_right :
      (up : ℕ) (l : Shape) (x : ℕ) (r : Shape)
      → Hangs t x up (node l x r)
      → IsHost n (node l x r)
      → height (node l x r) ≤ suc fuel
      → goes_left (t.key n) (t.key x) ≡ false
      → Placed (suc fuel) t n x up (node l x r) (node l x (hang t n r))
  unfolding Descends
  go_right up l x leaf h i k side = right_end fuel t n up l x leaf h i ns side h.3
  go_right up l x (node r₁ z r₂) h i k side =
      right_deep fuel t n up l x (node r₁ z r₂) h i ns _ side (λ e. i.inside.2.1 (sym h.3.0 ∙ e))
        (ih (t.right x) x r₁ z r₂ h.3 (right-IsHost n l x (node r₁ z r₂) i) (ground arith))

  step-Placed :
      (p up : ℕ) (l : Shape) (x : ℕ) (r : Shape)
      → Hangs t p up (node l x r)
      → IsHost n (node l x r)
      → height (node l x r) ≤ suc fuel
      → Placed (suc fuel) t n p up (node l x r) (hang t n (node l x r))
  step-Placed p up l x r h i k = rw h.0 (elim (Bool-cases (goes_left (t.key n) (t.key x))) [
    | inl side ↦ rw side (go_left up l x r (refl, h.1, h.2, h.3) i k side)
    | inr side ↦ rw side (go_right up l x r (refl, h.1, h.2, h.3) i k side)
  ])

descend-Descends : (fuel : ℕ) (t : Tree) (n : ℕ) → n ≢ sentinel → Descends fuel t n
unfolding Descends
descend-Descends zero t n ns p up l x r h i k = absurd (omega arith)
descend-Descends (suc fuel) t n ns p up l x r h i k =
    step-Placed fuel t n ns (descend-Descends fuel t n ns) p up l x r h i k

-- The loop of `Insert(apoTemp, apoNode)` ends within the height of the tree, at a node of it, and
-- what follows hangs the new node there: the tree is as it was but for a new leaf, where the keys
-- send it, with its parent pointer right.
pub descend-hang :
    (fuel : ℕ) (t : Tree) (n p up : ℕ) (l : Shape) (x : ℕ) (r : Shape)
    → Hangs t p up (node l x r)
    → IsHost n (node l x r)
    → n ≢ sentinel
    → height (node l x r) ≤ fuel
    → (q : ℕ) × (side : Bool) × (descend fuel t p n ≡ some (q, side))
      × Hangs (attach t q side n) p up (hang t n (node l x r))
unfolding Placed Descends
descend-hang fuel t n p up l x r h i ns k =
    let (q, side, e, inside, hung) = descend-Descends fuel t n ns p up l x r h i k in
    (q, side, e, hung)
