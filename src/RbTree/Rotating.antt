-- ===== src/RbTree/Rotating.antt =====
-- `LeftRotate` of netfram/RBTree.h turns the subtree at a node, and leaves what is around it.
use network_etc.Base.{ℕ, ◌≡◌, ◌≢◌, refl, sym, ◌∙◌, ◌++◌, append_assoc, ◌∷◌, ap, arith}
use network_etc.RbTree.{Tree, sentinel, null, left_rotate}
use network_etc.RbTree.Shapes.{
  Shape, leaf, node, in_order, AllNodes, Hangs, Around, top, in_left, in_right, plug, AllAround,
  above, Surrounds, Same, Hangs-frame, Surrounds-frame, AllNodes-map, AllNodes-zip, AllAround-map,
  AllAround-zip, DistinctNodes, IsApart, Hangs-apart, above-All, Surrounds-root,
}
use network_etc.RbTree.Turning.{
  Turn, rotate-other, rotate-x, rotate-y, rotate-z, rotate-root, rotate-deep, rotate-up_left,
  rotate-up_right,
}

module _ (s : Tree) (k : Around) (x y : ℕ) (a b c : Shape) (around : Surrounds s x k)
    (hung : Hangs s x (above k) (node a x (node b y c)))
    (apart : IsApart k (node a x (node b y c))) where
  above-apart : AllNodes (λ d. d ≢ above k) (node a x (node b y c)) × (above k ≢ sentinel)
  above-apart =
      above-All (λ q. AllNodes (λ d. d ≢ q) (node a x (node b y c)) × (q ≢ sentinel)) k
        (
          AllNodes-map _ (λ d. d ≢ null) (node a x (node b y c)) (λ d h. h.1) apart.inside,
          omega arith,
        )
        (AllAround-zip _ _ _ k (λ q f n. (f, n)) apart.apart apart.outside)

  turn : Turn s x y (s.left y) (above k)
  turn =
      let up = above-apart.0 in
      let inner = λ (q : ℕ) (n : q ≢ sentinel) (f : AllNodes (λ d. d ≢ q) b).
        Hangs-apart s (s.left y) y b q hung.3.2 n f in
      record {
        child = hung.3.0;
        inner = refl;
        upper = hung.1;
        x≢y = λ e. apart.distinct.1.1 (sym e);
        up≢x = λ e. up.1 (sym e);
        up≢y = λ e. up.2.1 (sym e);
        z≢x = inner x apart.inside.1.0 apart.distinct.1.0;
        z≢y = inner y apart.inside.2.1.0 apart.distinct.4.0;
        z≢up = inner (above k) above-apart.1 up.2.0;
      }

  -- A node that is not touched.
  abbrev Far : ℕ → Type 0
  Far d = (d ≢ x) × (d ≢ y) × (d ≢ s.left y) × (d ≢ above k)

  Far-Same : (d : ℕ) → Far d → Same s (left_rotate s x) d
  Far-Same d h = rotate-other s x y (s.left y) (above k) turn d h.0 h.1 h.2 h.3

  a-Far : AllNodes Far a
  a-Far =
      AllNodes-zip (λ d. (d ≢ x) × (d ≢ y) × (d ≢ s.left y)) (λ d. d ≢ above k) Far a
        (λ d h n. (h.0, h.1, h.2, n))
        (AllNodes-zip (λ d. (d ≢ x) × AllNodes (λ e. e ≢ d) (node b y c))
          (λ d. (d ≢ sentinel) × (d ≢ null)) (λ d. (d ≢ x) × (d ≢ y) × (d ≢ s.left y)) a
          (λ d f n. (
            f.0,
            λ e. f.1.1 (sym e),
            λ e. Hangs-apart s (s.left y) y b d hung.3.2 n.0 f.1.0 (sym e),
          ))
          (AllNodes-zip (λ d. d ≢ x) (λ d. AllNodes (λ e. e ≢ d) (node b y c)) _ a (λ d n f. (n, f))
            apart.distinct.0 apart.distinct.2)
          apart.inside.0)
        above-apart.0.0

  c-away :
      (b : Shape)
      → Hangs s (s.left y) y b
      → AllNodes (λ e. AllNodes (λ d. d ≢ e) c) b
      → AllNodes (λ d. d ≢ s.left y) c
  c-away leaf h f =
      AllNodes-map (λ d. (d ≢ sentinel) × (d ≢ null)) _ c (λ d n e. n.0 (e ∙ h)) apart.inside.2.2
  c-away (node l z r) h f = AllNodes-map (λ d. d ≢ z) _ c (λ d n e. n (e ∙ h.0)) f.1

  c-Far : AllNodes Far c
  c-Far =
      AllNodes-zip (λ d. (d ≢ x) × (d ≢ y)) (λ d. (d ≢ s.left y) × (d ≢ above k)) Far c
        (λ d f g. (f.0, f.1, g.0, g.1))
        (AllNodes-zip (λ d. d ≢ x) (λ d. d ≢ y) _ c (λ d f g. (f, g)) apart.distinct.1.2
          apart.distinct.4.1)
        (AllNodes-zip (λ d. d ≢ s.left y) (λ d. d ≢ above k) _ c (λ d f g. (f, g))
          (c-away b hung.3.2 apart.distinct.4.2) above-apart.0.2.2)

  part-Far :
      (part : Shape)
      → AllNodes (λ d. d ≢ x) part
      → AllNodes (λ d. d ≢ y) part
      → AllNodes (λ d. d ≢ s.left y) part
      → AllNodes (λ d. d ≢ above k) part
      → AllNodes (Same s (left_rotate s x)) part
  part-Far part f g h l =
      AllNodes-zip (λ d. (d ≢ x) × (d ≢ y)) (λ d. (d ≢ s.left y) × (d ≢ above k)) _ part
        (λ d v w. Far-Same d (v.0, v.1, w.0, w.1))
        (AllNodes-zip (λ d. d ≢ x) (λ d. d ≢ y) _ part (λ d v w. (v, w)) f g)
        (AllNodes-zip (λ d. d ≢ s.left y) (λ d. d ≢ above k) _ part (λ d v w. (v, w)) h l)

  b-Hangs :
      (b : Shape)
      → Hangs s (s.left y) y b
      → AllNodes (λ d. d ≢ x) b
      → AllNodes (λ d. d ≢ y) b
      → AllNodes (λ d. d ≢ above k) b
      → AllNodes (λ d. (d ≢ sentinel) × (d ≢ null)) b
      → DistinctNodes b
      → Hangs (left_rotate s x) (s.left y) x b
  b-Hangs leaf h f g n i d = h
  b-Hangs (node l z r) h f g n i d =
      let e : s.left y ≡ z = h.0 in
      let same = rotate-z s x y (s.left y) (above k) turn (λ q. i.1.0 (sym e ∙ q)) in
      let away = λ (part : Shape) (v : AllNodes (λ q. q ≢ z) part).
        AllNodes-map (λ q. q ≢ z) (λ q. q ≢ s.left y) part (λ q w u. w (u ∙ e)) v in
      (
        e,
        rw e at same.2,
        rw (rw e at same.0) (
            Hangs-frame s (left_rotate s x) (s.left z) z l (part-Far l f.0 g.0 (away l d.0) n.0)
              h.2),
        rw (rw e at same.1) (
            Hangs-frame s (left_rotate s x) (s.right z) z r (part-Far r f.2 g.2 (away r d.1) n.2)
              h.3),
      )

  turned-Hangs : Hangs (left_rotate s x) y (above k) (node (node a x b) y c)
  turned-Hangs =
      let at_x = rotate-x s x y (s.left y) (above k) turn in
      let at_y = rotate-y s x y (s.left y) (above k) turn in
      (
        refl,
        at_y.2,
        (
          at_y.0,
          at_x.2,
          rw at_x.0 (
              Hangs-frame s (left_rotate s x) (s.left x) x a (AllNodes-map Far _ a Far-Same a-Far)
                hung.2),
          rw at_x.1 (
              b-Hangs b hung.3.2 apart.distinct.1.0 apart.distinct.4.0 above-apart.0.2.0
                apart.inside.2.0 apart.distinct.4.3),
        ),
        rw at_y.1 (
            Hangs-frame s (left_rotate s x) (s.right y) y c (AllNodes-map Far _ c Far-Same c-Far)
              hung.3.3),
      )

  -- What is around is touched at no node but the one above.
  abbrev Near : ℕ → Type 0
  Near d = (d ≢ x) × (d ≢ y) × (d ≢ s.left y)

  around-Near : AllAround Near k
  around-Near =
      AllAround-zip (λ q. AllNodes (λ d. d ≢ q) (node a x (node b y c))) (λ q. q ≢ sentinel) Near k
        (λ q f n. (
          λ e. f.1 (sym e),
          λ e. f.2.1 (sym e),
          λ e. Hangs-apart s (s.left y) y b q hung.3.2 n f.2.0 (sym e),
        ))
        apart.apart apart.outside

-- What the rotation leaves around the place.
turned-Surrounds :
    (s : Tree) (k : Around) (x y : ℕ) (a b c : Shape)
    → Surrounds s x k
    → Hangs s x (above k) (node a x (node b y c))
    → IsApart k (node a x (node b y c))
    → Surrounds (left_rotate s x) y k
turned-Surrounds s top x y a b c w h i =
    rotate-root s x y (s.left y) null (turn s top x y a b c w h i) w
turned-Surrounds s (in_left k z r) x y a b c w h i =
    let u = turn s (in_left k z r) x y a b c w h i in
    let near = around-Near s (in_left k z r) x y a b c w h i in
    let far = Far-Same s (in_left k z r) x y a b c w h i in
    let deep : s.root ≢ x =
      Surrounds-root s z k x w.3 near.0.0 (AllAround-map _ (λ d. d ≢ x) k (λ d n. n.0) near.2) in
    let kept = rotate-deep s x y (s.left y) z u deep in
    let moved = rotate-up_left s x y (s.left y) z u deep w.0 in
    let t = left_rotate s x in
    (
      moved.0,
      kept.1 ∙ w.1,
      rw moved.1 (
          Hangs-frame s t (s.right z) z r
            (AllNodes-zip _ (λ d. d ≢ z) (Same s t) r (λ d n v. far d (n.0, n.1, n.2, v)) near.1
              i.proper.0)
            w.2),
      Surrounds-frame s t z k kept.0
          (AllAround-zip _ (λ d. d ≢ z) (Same s t) k (λ d n v. far d (n.0, n.1, n.2, v)) near.2
            i.proper.1)
          w.3,
    )
turned-Surrounds s (in_right l z k) x y a b c w h i =
    let u = turn s (in_right l z k) x y a b c w h i in
    let near = around-Near s (in_right l z k) x y a b c w h i in
    let far = Far-Same s (in_right l z k) x y a b c w h i in
    let deep : s.root ≢ x =
      Surrounds-root s z k x w.3 near.0.0 (AllAround-map _ (λ d. d ≢ x) k (λ d n. n.0) near.2) in
    let other : s.left z ≢ x =
      Hangs-apart s (s.left z) z l x w.2 i.inside.1.0
        (AllNodes-map _ (λ d. d ≢ x) l (λ d n. n.0) near.1) in
    let kept = rotate-deep s x y (s.left y) z u deep in
    let moved = rotate-up_right s x y (s.left y) z u deep other in
    let t = left_rotate s x in
    (
      moved.1,
      kept.1 ∙ w.1,
      rw moved.0 (
          Hangs-frame s t (s.left z) z l
            (AllNodes-zip _ (λ d. d ≢ z) (Same s t) l (λ d n v. far d (n.0, n.1, n.2, v)) near.1
              i.proper.0)
            w.2),
      Surrounds-frame s t z k kept.0
          (AllAround-zip _ (λ d. d ≢ z) (Same s t) k (λ d n v. far d (n.0, n.1, n.2, v)) near.2
            i.proper.1)
          w.3,
    )

pub in_order-plug :
    (k : Around) (sh sh' : Shape)
    → in_order sh ≡ in_order sh'
    → in_order (plug k sh) ≡ in_order (plug k sh')
in_order-plug top sh sh' e = e
in_order-plug (in_left k z r) sh sh' e =
    in_order-plug k (node sh z r) (node sh' z r) (ap (λ l. l ++ (z ∷ in_order r)) e)
in_order-plug (in_right l z k) sh sh' e =
    in_order-plug k (node l z sh) (node l z sh') (ap (λ m. in_order l ++ (z ∷ m)) e)

-- `LeftRotate` at a node with a right child, anywhere in a well-formed tree: the child takes its
-- place and it becomes the child's left child, with every parent pointer and whatever is around
-- right again, and the nodes of the whole tree stand in the same order from left to right.
pub left_rotate-Hangs :
    (s : Tree) (k : Around) (x y : ℕ) (a b c : Shape)
    → Surrounds s x k
    → Hangs s x (above k) (node a x (node b y c))
    → IsApart k (node a x (node b y c))
    → Surrounds (left_rotate s x) y k
      × Hangs (left_rotate s x) y (above k) (node (node a x b) y c)
      × (in_order (plug k (node (node a x b) y c)) ≡ in_order (plug k (node a x (node b y c))))
left_rotate-Hangs s k x y a b c w h i = (
  turned-Surrounds s k x y a b c w h i,
  turned-Hangs s k x y a b c w h i,
  in_order-plug k _ _ (append_assoc (in_order a) (x ∷ in_order b) (y ∷ in_order c)),
)
