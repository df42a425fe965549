-- ===== src/RbTree/Ordering.antt =====
-- The order of the keys in the tree of netfram/RBTree.h: what hanging a node keeps, and what
-- `SeekToFirst` finds.
use mathlib.Core.Path.{subst}
use network_etc.Base.{
  ℕ, zero, suc, ◌+◌, ◌^◌, ◌≤◌, ◌<◌, ◌≡◌, ◌≢◌, ◌∙◌, Bool, some, Bool-cases, inl, inr, ltb, u64,
  arith,
}
use network_etc.RbTree.{Tree, sentinel, goes_left, descend, attach, null}
use network_etc.RbTree.Shapes.{Shape, leaf, node, AllNodes, Hangs, AllNodes-map}
use network_etc.RbTree.Hanging.{hang, height, attach-key}
use network_etc.RbTree.Descending.{IsHost, descend-hang}
use network_etc.RbTree.Deleting.{leftmost}
use network_etc.RbTree.Iterator.{seek_to_first}

-- A search tree: no key is above one that stands further right.
abbrev pub Ordered : (ℕ → ℕ) → Shape → Type 0
Ordered key leaf = Unit
Ordered key (node l x r) =
    AllNodes (λ c. key c ≤ key x) l
    × AllNodes (λ c. key x ≤ key c) r
    × Ordered key l
    × Ordered key r

-- The key is a 64-bit number, less than 2 ^ 31 above `base`.
abbrev pub IsNear : ℕ → ℕ → Type 0
IsNear base k = (base ≤ k) × (k < base + 2 ^ 31) × (k < u64)

-- For near keys the comparison by an `int` is that of the keys.
goes_left-ltb : (base a b : ℕ) → IsNear base a → IsNear base b → goes_left a b ≡ ltb a b
unfolding goes_left
goes_left-ltb base a b h k = ground arith

hang-All :
    (P : ℕ → Type 0) (t : Tree) (n : ℕ) (sh : Shape)
    → AllNodes P sh
    → P n
    → AllNodes P (hang t n sh)
hang-All P t n leaf h k = (tt, k, tt)
hang-All P t n (node l x r) h k = elim (Bool-cases (goes_left (t.key n) (t.key x))) [
  | inl e ↦ rw e (hang-All P t n l h.0 k, h.1, h.2)
  | inr e ↦ rw e (h.0, h.1, hang-All P t n r h.2 k)
]

hang-Ordered :
    (base : ℕ) (t : Tree) (n : ℕ) (sh : Shape)
    → AllNodes (λ c. IsNear base (t.key c)) sh
    → IsNear base (t.key n)
    → Ordered t.key sh
    → Ordered t.key (hang t n sh)
hang-Ordered base t n leaf w k o = (tt, tt, tt, tt)
hang-Ordered base t n (node l x r) w k o =
    let same = goes_left-ltb base (t.key n) (t.key x) k w.1 in
    elim (Bool-cases (ltb (t.key n) (t.key x))) [
      | inl e ↦
          rw (same ∙ e)
            (hang-All _ t n l o.0 (ground arith), o.1, hang-Ordered base t n l w.0 k o.2, o.3)
      | inr e ↦
          rw (same ∙ e)
            (o.0, hang-All _ t n r o.1 (ground arith), o.2, hang-Ordered base t n r w.2 k o.3)
    ]

-- `Insert(apoTemp, apoNode)` into a search tree whose keys, the new one's among them, are less
-- than 2 ^ 31 apart: the loop ends within the height, and with the new node the tree hangs together
-- and is a search tree again.
pub descend-Ordered :
    (base fuel : ℕ) (t : Tree) (n p up : ℕ) (l : Shape) (x : ℕ) (r : Shape)
    → Hangs t p up (node l x r)
    → IsHost n (node l x r)
    → n ≢ sentinel
    → height (node l x r) ≤ fuel
    → AllNodes (λ c. IsNear base (t.key c)) (node l x r)
    → IsNear base (t.key n)
    → Ordered t.key (node l x r)
    → (q : ℕ) × (side : Bool) × (descend fuel t p n ≡ some (q, side))
      × Hangs (attach t q side n) p up (hang t n (node l x r))
      × Ordered (attach t q side n).key (hang t n (node l x r))
descend-Ordered base fuel t n p up l x r h i ns k w wn o =
    let (q, side, e, hung) = descend-hang fuel t n p up l x r h i ns k in
    let sorted = hang-Ordered base t n (node l x r) w wn o in
    (
      q,
      side,
      e,
      hung,
      subst (λ v. Ordered v (hang t n (node l x r))) (attach-key t q side n) sorted,
    )

-- The node furthest left, of a tree or above it.
abbrev pub first_node : Shape → ℕ → ℕ
first_node leaf x = x
first_node (node l z r) x = first_node l z

first_node-All : (P : ℕ → Type 0) (l : Shape) (x : ℕ) → AllNodes P l → P x → P (first_node l x)
first_node-All P leaf x h k = k
first_node-All P (node l z r) x h k = first_node-All P l z h.0 h.1

first_node-least :
    (key : ℕ → ℕ) (l : Shape) (x : ℕ) (r : Shape)
    → Ordered key (node l x r)
    → AllNodes (λ c. key (first_node l x) ≤ key c) (node l x r)
first_node-least key leaf x r o = (tt, omega arith, o.1)
first_node-least key (node l₁ z l₂) x r o =
    let below = first_node-least key l₁ z l₂ o.2 in
    let least : key (first_node l₁ z) ≤ key x = omega (arith, below.1, o.0.1) in
    (
      below,
      least,
      AllNodes-map (λ c. key x ≤ key c) (λ c. key (first_node l₁ z) ≤ key c) r
          (λ c v. omega (arith, v, least)) o.1,
    )

leftmost-first_node :
    (fuel : ℕ) (t : Tree) (p up : ℕ) (l : Shape) (x : ℕ) (r : Shape)
    → Hangs t p up (node l x r)
    → AllNodes (λ c. c ≢ sentinel) (node l x r)
    → height (node l x r) ≤ fuel
    → leftmost fuel t p ≡ some (first_node l x)
unfolding leftmost
leftmost-first_node zero t p up l x r h i k = absurd (omega arith)
leftmost-first_node (suc fuel) t p up leaf x r h i k = rw h.0 (ground arith)
leftmost-first_node (suc fuel) t p up (node l₁ z l₂) x r h i k =
    let e = leftmost-first_node fuel t (t.left x) x l₁ z l₂ h.2 i.0 (ground arith) in
    rw h.0 (ground (arith, e, i.0.1, i.1))

-- `SeekToFirst` on a search tree that is not empty ends within the height of the tree, at one of its
-- nodes, and no node has a smaller key.
pub seek_to_first-least :
    (fuel : ℕ) (t : Tree) (l : Shape) (x : ℕ) (r : Shape)
    → Hangs t t.root null (node l x r)
    → AllNodes (λ c. c ≢ sentinel) (node l x r)
    → Ordered t.key (node l x r)
    → height (node l x r) ≤ fuel
    → (q : ℕ) × (seek_to_first fuel t ≡ some q)
      × ((P : ℕ → Type 0) → AllNodes P (node l x r) → P q)
      × AllNodes (λ c. t.key q ≤ t.key c) (node l x r)
unfolding seek_to_first
seek_to_first-least fuel t l x r h i o k = (
  first_node l x,
  leftmost-first_node fuel t t.root null l x r h i k,
  λ P f. first_node-All P l x f.0 f.1,
  first_node-least t.key l x r o,
)
