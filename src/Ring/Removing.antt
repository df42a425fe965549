-- ===== src/Ring/Removing.antt =====
-- `Remove` of netfram/Queue.h takes a node out of its ring.
use mathlib.Core.Path.{subst}
use network_etc.Base.{
  ℕ, ◌≡◌, ◌≢◌, refl, sym, ◌∙◌, Bool, true, false, List, [], ◌∷◌, ◌++◌, append_assoc, inl, inr, All,
  arith,
}
use network_etc.Ring.{Links, remove}
use network_etc.Ring.Segments.{
  Seg, Seg-relink, Seg-first, Behind, Distinct, Ring, first, All-zip, rotate-Ring, last_view,
}

module _ (s : Links) (q n : ℕ) (inside : s.inside n ≡ true) (linked : s.prev n ≡ q) (q≢n : q ≢ n)
    (away : s.next n ≢ n) where
  remove-linked :
      ((remove s n).1 ≡ true)
      × ((remove s n).0.next q ≡ s.next n)
      × ((remove s n).0.prev (s.next n) ≡ q)
      × ((remove s n).0.next n ≡ 0)
      × ((remove s n).0.prev n ≡ 0)
      × ((remove s n).0.inside n ≡ false)
  unfolding remove
  remove-linked =
      rw inside (refl, ground arith, ground arith, ground arith, ground arith, ground arith)

  remove-next_other : (c : ℕ) → c ≢ q → c ≢ n → (remove s n).0.next c ≡ s.next c
  unfolding remove
  remove-next_other c h k = rw inside (ground arith)

  remove-prev_other : (c : ℕ) → c ≢ s.next n → c ≢ n → (remove s n).0.prev c ≡ s.prev c
  unfolding remove
  remove-prev_other c h k = rw inside (ground arith)

first-apart : (zs : List ℕ) (b n : ℕ) → b ≢ n → All (λ c. c ≢ n) zs → first zs b ≢ n
first-apart [] b n h f = h
first-apart (x ∷ zs) b n h f = f.0

remove-Behind :
    (s : Links) (q n : ℕ)
    → s.inside n ≡ true
    → s.prev n ≡ q
    → q ≢ n
    → s.next n ≢ n
    → (zs : List ℕ) → Seg s n zs q
    → Distinct (q ∷ n ∷ zs)
    → s.next n ≡ first zs q
    → Behind s (remove s n).0 zs q
remove-Behind s q n i l qn a [] h d e = tt
remove-Behind s q n i l qn a (x ∷ zs) h d e = (
  All-zip _ _ _ (x ∷ zs) (remove-next_other s q n i l qn a) d.0.1 d.1.0,
  All-zip _ _ _ zs (λ c k. remove-prev_other s q n i l qn a c (λ b. k (b ∙ e))) d.1.1.0 d.1.0.1,
  remove-prev_other s q n i l qn a q (λ b. d.0.1.0 (sym (b ∙ e))) qn,
)

-- What `Remove` answers and leaves of the node.
abbrev pub Unlinked : Links → ℕ → Links × Bool → Type 0
Unlinked s n r = (r.1 ≡ true) × (r.0.next n ≡ 0) × (r.0.prev n ≡ 0) × (r.0.inside n ≡ false)

remove-behind :
    (s : Links) (q n : ℕ) (zs : List ℕ)
    → Ring s q (n ∷ zs)
    → s.inside n ≡ true
    → Ring (remove s n).0 q zs × Unlinked s n (remove s n)
remove-behind s q n zs (h, d) inside =
    let q≢n : q ≢ n = λ e. d.0.0 (sym e) in
    let e : s.next n ≡ first zs q = Seg-first s n zs q h.2 in
    let away : s.next n ≢ n = rw e (first-apart zs q n q≢n d.1.0) in
    let (answer, next_q, prev_first, next_n, prev_n, out) =
      remove-linked s q n inside h.1 q≢n away in
    (
      (
        Seg-relink s (remove s n).0 n q zs q h.2 (next_q ∙ e) (rw (← e) prev_first)
            (remove-Behind s q n inside h.1 q≢n away zs h.2 d e),
        (d.0.1, d.1.1),
      ),
      (answer, next_n, prev_n, out),
    )

remove-inner :
    (s : Links) (p : ℕ) (xs : List ℕ) (q n : ℕ) (ys : List ℕ)
    → Ring s p (xs ++ (q ∷ n ∷ ys))
    → s.inside n ≡ true
    → Ring (remove s n).0 p (xs ++ (q ∷ ys)) × Unlinked s n (remove s n)
remove-inner s p xs q n ys r inside =
    let (ring, out) =
      remove-behind s q n (ys ++ (p ∷ xs)) (rotate-Ring s p xs q (n ∷ ys) r) inside in
    (rotate-Ring (remove s n).0 q ys p xs ring, out)

-- `Remove` of a node that is marked as in a ring, and is not its head, takes it out: the others
-- are a ring in their order, the node is linked to nothing and no longer marked, and the answer is
-- true.
pub remove-Ring :
    (s : Links) (p : ℕ) (xs : List ℕ) (n : ℕ) (ys : List ℕ)
    → Ring s p (xs ++ (n ∷ ys))
    → s.inside n ≡ true
    → Ring (remove s n).0 p (xs ++ ys) × Unlinked s n (remove s n)
remove-Ring s p xs n ys r inside = elim (last_view xs) [
  | inl e ↦ rw e (remove-behind s p n ys (subst (λ l. Ring s p (l ++ (n ∷ ys))) e r) inside)
  | inr (zs, q, e) ↦ rw e (
      rw (append_assoc zs (q ∷ []) ys) (
        remove-inner s p zs q n ys
          (subst (Ring s p) (append_assoc zs (q ∷ []) (n ∷ ys))
            (subst (λ l. Ring s p (l ++ (n ∷ ys))) e r))
          inside))
]
