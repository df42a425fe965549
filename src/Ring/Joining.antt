-- ===== src/Ring/Joining.antt =====
-- `Join` and `Split` of netfram/Queue.h: two rings become one, and one becomes two.
use network_etc.Base.{ℕ, ◌≡◌, ◌≢◌, sym, ◌∙◌, List, [], ◌∷◌, ◌++◌, All, arith}
use network_etc.Ring.{Links, join, split}
use network_etc.Ring.Segments.{
  Seg, Seg-append, Seg-split, Distinct, Ring, All-zip, All-split, All-append,
}

-- The node in front of the end is one of the stretch.
Seg-prev :
    (P : ℕ → Type 0) (s : Links) (a : ℕ) (xs : List ℕ) (b : ℕ)
    → Seg s a xs b
    → All P (a ∷ xs)
    → P (s.prev b)
Seg-prev P s a [] b h k = rw h.1 k.0
Seg-prev P s a (x ∷ xs) b h k = Seg-prev P s x xs b h.2 k.1

-- A stretch is given another end, behind its last node `l`.
Seg-reend :
    (s t : Links) (a : ℕ) (xs : List ℕ) (b b' : ℕ)
    → Seg s a xs b
    → Distinct (a ∷ xs)
    → t.next (s.prev b) ≡ b'
    → t.prev b' ≡ s.prev b
    → All (λ c. c ≢ s.prev b → t.next c ≡ s.next c) (a ∷ xs)
    → All (λ c. t.prev c ≡ s.prev c) xs
    → Seg t a xs b'
Seg-reend s t a [] b b' h d n p k l = (rw h.1 at n, p ∙ h.1)
Seg-reend s t a (x ∷ xs) b b' h d n p k l =
    let a≢l : a ≢ s.prev b = λ e. Seg-prev (λ c. c ≢ a) s x xs b h.2 d.0 (sym e) in
    (k.0 a≢l ∙ h.0, l.0 ∙ h.1, Seg-reend s t x xs b b' h.2 d.1 n p k.1 l.1)

-- No node of the one list is in the other.
abbrev pub Apart : List ℕ → List ℕ → Type 0
Apart xs ys = All (λ c. All (λ d. d ≢ c) ys) xs

All-map : (P Q : ℕ → Type 0) (xs : List ℕ) → ((c : ℕ) → P c → Q c) → All P xs → All Q xs
All-map P Q xs f h = All-zip P P Q xs (λ c k _. f c k) h h

Distinct-append : (xs ys : List ℕ) → Distinct xs → Distinct ys → Apart xs ys → Distinct (xs ++ ys)
Distinct-append [] ys d e f = e
Distinct-append (x ∷ xs) ys d e f = (All-append _ xs ys d.0 f.0, Distinct-append xs ys d.1 e f.1)

-- The two heads and their neighbours are apart.
record Joinable (s : Links) (p q : ℕ) : Type 0 where
  heads : p ≢ q
  first_apart : s.next q ≢ p
  first_other : s.next q ≢ q
  last_other : s.prev p ≢ q
  last_apart : s.prev q ≢ p
  last_own : s.prev q ≢ q
  lasts : s.prev p ≢ s.prev q

module _ (s : Links) (p q : ℕ) (j : Joinable s p q) where
  join-linked :
      ((join s p q).next (s.prev p) ≡ s.next q)
      × ((join s p q).prev (s.next q) ≡ s.prev p)
      × ((join s p q).next (s.prev q) ≡ p)
      × ((join s p q).prev p ≡ s.prev q)
      × ((join s p q).next q ≡ q)
      × ((join s p q).prev q ≡ q)
  unfolding join
  join-linked = (ground arith, ground arith, ground arith, ground arith, ground arith, ground arith)

  join-next_other : (c : ℕ) → c ≢ s.prev q → c ≢ q → c ≢ s.prev p → (join s p q).next c ≡ s.next c
  unfolding join
  join-next_other c h k l = ground arith

  join-prev_other : (c : ℕ) → c ≢ s.next q → c ≢ p → c ≢ q → (join s p q).prev c ≡ s.prev c
  unfolding join
  join-prev_other c h k l = ground arith

-- `Join` of two rings with no node in common, of which the second is not empty: its nodes follow
-- those of the first queue, in their order, and its head is left as an empty queue.
pub join-Ring :
    (s : Links) (p q : ℕ) (xs : List ℕ) (y : ℕ) (ys : List ℕ)
    → Ring s p xs
    → Ring s q (y ∷ ys)
    → Apart (p ∷ xs) (q ∷ y ∷ ys)
    → Ring (join s p q) p (xs ++ (y ∷ ys)) × Ring (join s p q) q []
join-Ring s p q xs y ys (h, d) ((next_q, prev_y, k), e) f =
    let ends : All (λ c. (q ≢ c) × (s.prev q ≢ c) × (y ≢ c)) (p ∷ xs) =
      All-map _ _ (p ∷ xs) (λ c g. (g.0, Seg-prev (λ b. b ≢ c) s y ys q k g.1, g.1.0)) f in
    let ml = Seg-prev (λ c. (q ≢ c) × (s.prev q ≢ c) × (y ≢ c)) s p xs p h ends in
    let lys : All (λ b. b ≢ s.prev p) (y ∷ ys) =
      (Seg-prev (λ c. All (λ b. b ≢ c) (q ∷ y ∷ ys)) s p xs p h f).1 in
    let pys : All (λ b. b ≢ p) (y ∷ ys) = f.0.1 in
    let j : Joinable s p q = record {
      heads = λ z. ends.0.0 (sym z);
      first_apart = λ z. ends.0.2 (sym next_q ∙ z);
      first_other = λ z. e.0.0 (sym next_q ∙ z);
      last_other = λ z. ml.0 (sym z);
      last_apart = ends.0.1;
      last_own = Seg-prev (λ b. b ≢ q) s y ys q k e.0;
      lasts = λ z. ml.1 (sym z);
    } in
    let n = join-next_other s p q j in
    let v = join-prev_other s p q j in
    let links = join-linked s p q j in
    let front : Seg (join s p q) p xs y =
      Seg-reend s (join s p q) p xs p y h d (links.0 ∙ next_q) (rw next_q at links.1)
        (All-map _ _ (p ∷ xs) (λ c g. n c (λ z. g.1 (sym z)) (λ z. g.0 (sym z))) ends)
        (All-zip _ _ _ xs (λ c a g. v c (λ z. g.2 (sym next_q ∙ sym z)) a (λ z. g.0 (sym z))) d.0
          ends.1) in
    let back : Seg (join s p q) y ys p =
      Seg-reend s (join s p q) y ys q p k e.1 links.2 links.3
        (All-zip _ _ _ (y ∷ ys) (λ c a g w. n c w a g) e.0 lys)
        (All-zip _ _ _ ys (λ c a g. v c (λ z. a.0 (z ∙ next_q)) g a.1)
          (All-zip _ _ (λ c. (c ≢ y) × (c ≢ q)) ys (λ c a g. (a, g)) e.1.0 e.0.1) pys.1) in
    (
      (
        Seg-append (join s p q) p xs y ys p front back,
        Distinct-append (p ∷ xs) (y ∷ ys) d e.1 (All-map _ _ (p ∷ xs) (λ c g. g.1) f),
      ),
      ((links.4, links.5), (tt, tt)),
    )

-- The head, the place and the new head of a split, and their neighbours, are apart.
record Splittable (s : Links) (a p d : ℕ) : Type 0 where
  fresh : a ≢ d
  inner : p ≢ a
  place_fresh : p ≢ d
  before_fresh : s.prev p ≢ d
  last_fresh : s.prev a ≢ d
  lasts : s.prev p ≢ s.prev a

module _ (s : Links) (a p d : ℕ) (j : Splittable s a p d) where
  split-linked :
      ((split s a p d).next (s.prev p) ≡ a)
      × ((split s a p d).prev a ≡ s.prev p)
      × ((split s a p d).next d ≡ p)
      × ((split s a p d).prev p ≡ d)
      × ((split s a p d).next (s.prev a) ≡ d)
      × ((split s a p d).prev d ≡ s.prev a)
  unfolding split
  split-linked =
      (ground arith, ground arith, ground arith, ground arith, ground arith, ground arith)

  split-next_other :
      (c : ℕ) → c ≢ s.prev p → c ≢ s.prev a → c ≢ d → (split s a p d).next c ≡ s.next c
  unfolding split
  split-next_other c h k l = ground arith

  split-prev_other : (c : ℕ) → c ≢ a → c ≢ p → c ≢ d → (split s a p d).prev c ≡ s.prev c
  unfolding split
  split-prev_other c h k l = ground arith

Distinct-split : (xs ys : List ℕ) → Distinct (xs ++ ys) → Distinct xs × Distinct ys × Apart xs ys
Distinct-split [] ys d = (tt, d, tt)
Distinct-split (x ∷ xs) ys d =
    let (left, right, apart) = Distinct-split xs ys d.1 in
    let (own, other) = All-split (λ y. y ≢ x) xs ys d.0 in ((own, left), right, (other, apart))

-- `Split` before `p` of a queue, for a new head `d`: the nodes before `p` stay behind their head,
-- and `p` and those behind it are the queue of `d`, each in their order.
pub split-Ring :
    (s : Links) (a d : ℕ) (xs : List ℕ) (p : ℕ) (ys : List ℕ)
    → Ring s a (xs ++ (p ∷ ys))
    → All (λ c. c ≢ d) (a ∷ (xs ++ (p ∷ ys)))
    → Ring (split s a p d) a xs × Ring (split s a p d) d (p ∷ ys)
split-Ring s a d xs p ys (h, e) f =
    let (left, right) = Seg-split s a xs p ys a h in
    let (own, other, apart) = Distinct-split (a ∷ xs) (p ∷ ys) e in
    let (new, new') = All-split (λ c. c ≢ d) (a ∷ xs) (p ∷ ys) f in
    let last_apart : All (λ c. s.prev a ≢ c) (a ∷ xs) =
      All-map _ _ (a ∷ xs) (λ c g. Seg-prev (λ b. b ≢ c) s p ys a right g) apart in
    let before_apart : All (λ b. b ≢ s.prev p) (p ∷ ys) =
      Seg-prev (λ c. All (λ b. b ≢ c) (p ∷ ys)) s a xs p left apart in
    let j : Splittable s a p d = record {
      fresh = f.0;
      inner = apart.0.0;
      place_fresh = new'.0;
      before_fresh = Seg-prev (λ b. b ≢ d) s a xs p left new;
      last_fresh = Seg-prev (λ b. b ≢ d) s p ys a right new';
      lasts = λ z. Seg-prev (λ b. s.prev a ≢ b) s a xs p left last_apart (sym z);
    } in
    let n = split-next_other s a p d j in
    let v = split-prev_other s a p d j in
    let links = split-linked s a p d j in
    let stay : Seg (split s a p d) a xs a =
      Seg-reend s (split s a p d) a xs p a left own links.0 links.1
        (All-zip _ _ _ (a ∷ xs) (λ c g w k. n c k (λ z. g (sym z)) w) last_apart new)
        (All-zip _ _ _ xs (λ c g w. v c g.0 g.1 w)
          (All-zip _ _ (λ c. (c ≢ a) × (c ≢ p)) xs (λ c g w. (g, λ z. w.0 (sym z))) own.0 apart.1)
          new.1) in
    let go : Seg (split s a p d) p ys d =
      Seg-reend s (split s a p d) p ys a d right other links.4 links.5
        (All-zip _ _ _ (p ∷ ys) (λ c g w k. n c g k w) before_apart new')
        (All-zip _ _ _ ys (λ c g w. v c g.0 g.1 w)
          (All-zip _ _ (λ c. (c ≢ a) × (c ≢ p)) ys (λ c g w. (g, w)) apart.0.1 other.0) new'.1) in
    ((stay, own), ((links.2, links.3, go), (All-map _ _ (p ∷ ys) (λ c g. g) new', other)))
