-- ===== src/Ring/Inserting.antt =====
-- `InsertAM` and `InsertBM` of netfram/Queue.h put a node into a ring.
use mathlib.Core.Path.{subst}
use network_etc.Base.{
  ℕ, ◌≡◌, ◌≢◌, sym, ◌∙◌, List, [], ◌∷◌, ◌++◌, append_assoc, inl, inr, All, arith,
}
use network_etc.Ring.{Links, insert_am, insert_bm}
use network_etc.Ring.Segments.{
  Seg-frame, Seg-relink, Seg-first, Behind, Ring, first, All-zip, All-split, rotate-Ring, last_view,
}

am-next_other : (s : Links) (p n c : ℕ) → c ≢ p → c ≢ n → (insert_am s p n).next c ≡ s.next c
unfolding insert_am
am-next_other s p n c h k = ground arith

am-prev_other :
    (s : Links) (p n c : ℕ) → p ≢ n → c ≢ s.next p → c ≢ n → (insert_am s p n).prev c ≡ s.prev c
unfolding insert_am
am-prev_other s p n c d h k = ground arith

am-linked :
    (s : Links) (p n : ℕ)
    → p ≢ n
    → s.next p ≢ n
    → ((insert_am s p n).next p ≡ n)
      × ((insert_am s p n).prev n ≡ p)
      × ((insert_am s p n).next n ≡ s.next p)
      × ((insert_am s p n).prev (s.next p) ≡ n)
unfolding insert_am
am-linked s p n d h = (ground arith, ground arith, ground arith, ground arith)

am-Behind :
    (s : Links) (p n : ℕ) (xs : List ℕ)
    → Ring s p xs
    → All (λ c. c ≢ n) (p ∷ xs)
    → Behind s (insert_am s p n) xs p
am-Behind s p n [] r f = tt
am-Behind s p n (x ∷ xs) (h, d) f = (
  All-zip _ _ _ (x ∷ xs) (λ c. am-next_other s p n c) d.0 f.1,
  All-zip _ _ _ xs (λ c k. am-prev_other s p n c f.0 (λ e. k (e ∙ h.0))) d.1.0 f.1.1,
  am-prev_other s p n p f.0 (λ e. d.0.0 (sym (e ∙ h.0))) f.0,
)

first-fresh : (xs : List ℕ) (b n : ℕ) → All (λ c. c ≢ n) (b ∷ xs) → first xs b ≢ n
first-fresh [] b n f = f.0
first-fresh (x ∷ xs) b n f = f.1.0

fresh-apart : (n : ℕ) (xs : List ℕ) → All (λ c. c ≢ n) xs → All (λ c. n ≢ c) xs
fresh-apart n [] f = tt
fresh-apart n (x ∷ xs) f = (λ e. f.0 (sym e), fresh-apart n xs f.1)

-- `InsertAM` puts a node that is not in the ring right behind `p`, and the ring is one again.
pub insert_am-Ring :
    (s : Links) (p n : ℕ) (xs : List ℕ)
    → Ring s p xs
    → All (λ c. c ≢ n) (p ∷ xs)
    → Ring (insert_am s p n) p (n ∷ xs)
insert_am-Ring s p n xs (h, d) f =
    let e : s.next p ≡ first xs p = Seg-first s p xs p h in
    let away : s.next p ≢ n = rw e (first-fresh xs p n f) in
    let (next_p, prev_n, next_n, prev_first) = am-linked s p n f.0 away in
    (
      (
        next_p,
        prev_n,
        Seg-relink s (insert_am s p n) p n xs p h (next_n ∙ e) (rw (← e) prev_first)
            (am-Behind s p n xs (h, d) f),
      ),
      ((λ q. f.0 (sym q), d.0), (f.1, d.1)),
    )

module _ (s : Links) (q p n : ℕ) (linked : s.prev p ≡ q) (q≢p : q ≢ p) (q≢n : q ≢ n)
    (p≢n : p ≢ n) where
  bm-linked :
      ((insert_bm s p n).next q ≡ n)
      × ((insert_bm s p n).prev n ≡ q)
      × ((insert_bm s p n).next n ≡ p)
      × ((insert_bm s p n).prev p ≡ n)
  unfolding insert_bm
  bm-linked = (ground arith, ground arith, ground arith, ground arith)

  bm-next_other : (c : ℕ) → c ≢ q → c ≢ n → (insert_bm s p n).next c ≡ s.next c
  unfolding insert_bm
  bm-next_other c h k = ground arith

  bm-prev_other : (c : ℕ) → c ≢ p → c ≢ n → (insert_bm s p n).prev c ≡ s.prev c
  unfolding insert_bm
  bm-prev_other c h k = ground arith

insert_bm-between :
    (s : Links) (q p n : ℕ) (zs : List ℕ)
    → Ring s q (p ∷ zs)
    → All (λ c. c ≢ n) (q ∷ p ∷ zs)
    → Ring (insert_bm s p n) q (n ∷ p ∷ zs)
insert_bm-between s q p n zs (h, d) f =
    let q≢p : q ≢ p = λ e. d.0.0 (sym e) in
    let (next_q, prev_n, next_n, prev_p) = bm-linked s q p n h.1 q≢p f.0 f.1.0 in
    let nexts =
      All-zip _ _ (λ c. (insert_bm s p n).next c ≡ s.next c) (p ∷ zs)
        (bm-next_other s q p n h.1 q≢p f.0 f.1.0) d.0 f.1 in
    let prevs =
      All-zip _ _ (λ c. (insert_bm s p n).prev c ≡ s.prev c) zs
        (bm-prev_other s q p n h.1 q≢p f.0 f.1.0) d.1.0 f.1.1 in
    let prev_q = bm-prev_other s q p n h.1 q≢p f.0 f.1.0 q q≢p f.0 in
    (
      (
        next_q,
        prev_n,
        (next_n, prev_p, Seg-frame s (insert_bm s p n) p zs q nexts prevs prev_q h.2),
      ),
      ((λ e. f.0 (sym e), d.0), (f.1, d.1)),
    )

insert_bm-alone : (s : Links) (p n : ℕ) → Ring s p [] → p ≢ n → Ring (insert_bm s p n) p (n ∷ [])
unfolding insert_bm
insert_bm-alone s p n h f =
    ((ground arith, ground arith, (ground arith, ground arith)), ((λ e. f (sym e), tt), (tt, tt)))

All-rotate :
    (P : ℕ → Type 0) (p : ℕ) (xs : List ℕ) (m : ℕ) → All P (p ∷ (xs ++ m ∷ [])) → All P (m ∷ p ∷ xs)
All-rotate P p xs m h = let (left, right) = All-split P xs (m ∷ []) h.1 in (right.0, (h.0, left))

insert_bm-last :
    (s : Links) (p n : ℕ) (xs : List ℕ) (q : ℕ)
    → Ring s p (xs ++ q ∷ [])
    → All (λ c. c ≢ n) (p ∷ (xs ++ q ∷ []))
    → Ring (insert_bm s p n) p (xs ++ (q ∷ n ∷ []))
insert_bm-last s p n xs q r f =
    rotate-Ring (insert_bm s p n) q (n ∷ []) p xs
      (insert_bm-between s q p n xs (rotate-Ring s p xs q [] r) (All-rotate _ p xs q f))

-- `InsertBM` puts a node that is not in the ring in front of its head `p`, which is at the end of
-- the queue that `p` heads, and the ring is one again.
pub insert_bm-Ring :
    (s : Links) (p n : ℕ) (xs : List ℕ)
    → Ring s p xs
    → All (λ c. c ≢ n) (p ∷ xs)
    → Ring (insert_bm s p n) p (xs ++ n ∷ [])
insert_bm-Ring s p n xs r f = elim (last_view xs) [
  | inl e ↦ rw e (insert_bm-alone s p n (subst (Ring s p) e r) f.0)
  | inr (zs, q, e) ↦ rw e (
      rw (append_assoc zs (q ∷ []) (n ∷ [])) (
        insert_bm-last s p n zs q (subst (Ring s p) e r)
          (subst (λ l. All (λ c. c ≢ n) (p ∷ l)) e f)))
]
