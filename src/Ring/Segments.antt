-- ===== src/Ring/Segments.antt =====
-- Stretches of a ring of netfram/Queue.h, and what writes to other nodes leave of them.
use network_etc.Base.{
  ℕ, ◌≡◌, ◌≢◌, ◌⊎◌, inl, inr, refl, ap, sym, append-nil, ◌∙◌, List, [], ◌∷◌, ◌++◌, All,
}
use network_etc.Ring.{Links}

-- From `a` through `xs` to `b`, linked in both directions.
abbrev pub Seg : Links → ℕ → List ℕ → ℕ → Type 0
Seg s a [] b = (s.next a ≡ b) × (s.prev b ≡ a)
Seg s a (x ∷ xs) b = (s.next a ≡ x) × (s.prev x ≡ a) × Seg s x xs b

-- No node twice.
abbrev pub Distinct : List ℕ → Type 0
Distinct [] = Unit
Distinct (x ∷ xs) = All (λ y. y ≢ x) xs × Distinct xs

-- The ring that `p` heads.
abbrev pub Ring : Links → ℕ → List ℕ → Type 0
Ring s p xs = Seg s p xs p × Distinct (p ∷ xs)

pub Seg-append :
    (s : Links) (a : ℕ) (xs : List ℕ) (m : ℕ) (ys : List ℕ) (b : ℕ)
    → Seg s a xs m
    → Seg s m ys b
    → Seg s a (xs ++ (m ∷ ys)) b
Seg-append s a [] m ys b h k = (h.0, h.1, k)
Seg-append s a (x ∷ xs) m ys b h k = (h.0, h.1, Seg-append s x xs m ys b h.2 k)

pub Seg-split :
    (s : Links) (a : ℕ) (xs : List ℕ) (m : ℕ) (ys : List ℕ) (b : ℕ)
    → Seg s a (xs ++ (m ∷ ys)) b
    → Seg s a xs m × Seg s m ys b
Seg-split s a [] m ys b h = ((h.0, h.1), h.2)
Seg-split s a (x ∷ xs) m ys b h =
    let (left, right) = Seg-split s x xs m ys b h.2 in ((h.0, h.1, left), right)

-- Another state links the stretch alike if it has the same `next` for all but the last node, and
-- the same `prev` for all but the first.
pub Seg-frame :
    (s t : Links) (a : ℕ) (xs : List ℕ) (b : ℕ)
    → All (λ c. t.next c ≡ s.next c) (a ∷ xs)
    → All (λ c. t.prev c ≡ s.prev c) xs
    → t.prev b ≡ s.prev b
    → Seg s a xs b
    → Seg t a xs b
Seg-frame s t a [] b n p e h = (n.0 ∙ h.0, e ∙ h.1)
Seg-frame s t a (x ∷ xs) b n p e h = (n.0 ∙ h.0, p.0 ∙ h.1, Seg-frame s t x xs b n.1 p.1 e h.2)

abbrev pub first : List ℕ → ℕ → ℕ
first [] b = b
first (x ∷ xs) b = x

pub Seg-first : (s : Links) (a : ℕ) (xs : List ℕ) (b : ℕ) → Seg s a xs b → s.next a ≡ first xs b
Seg-first s a [] b h = h.0
Seg-first s a (x ∷ xs) b h = h.0

-- The stretch behind its first link is as it was.
abbrev pub Behind : Links → Links → List ℕ → ℕ → Type 0
Behind s t [] b = Unit
Behind s t (x ∷ xs) b =
    All (λ c. t.next c ≡ s.next c) (x ∷ xs)
    × All (λ c. t.prev c ≡ s.prev c) xs
    × (t.prev b ≡ s.prev b)

-- A stretch is linked to another node in front.
pub Seg-relink :
    (s t : Links) (a a' : ℕ) (xs : List ℕ) (b : ℕ)
    → Seg s a xs b
    → t.next a' ≡ first xs b
    → t.prev (first xs b) ≡ a'
    → Behind s t xs b
    → Seg t a' xs b
Seg-relink s t a a' [] b h n p k = (n, p)
Seg-relink s t a a' (x ∷ xs) b h n p k = (n, p, Seg-frame s t x xs b k.0 k.1 k.2 h.2)

pub All-zip :
    (P Q R : ℕ → Type 0) (xs : List ℕ)
    → ((c : ℕ) → P c → Q c → R c)
    → All P xs
    → All Q xs
    → All R xs
All-zip P Q R [] f h k = tt
All-zip P Q R (x ∷ xs) f h k = (f x h.0 k.0, All-zip P Q R xs f h.1 k.1)

pub All-append : (P : ℕ → Type 0) (xs ys : List ℕ) → All P xs → All P ys → All P (xs ++ ys)
All-append P [] ys h k = k
All-append P (x ∷ xs) ys h k = (h.0, All-append P xs ys h.1 k)

pub All-split : (P : ℕ → Type 0) (xs ys : List ℕ) → All P (xs ++ ys) → All P xs × All P ys
All-split P [] ys h = (tt, h)
All-split P (x ∷ xs) ys h = let (l, r) = All-split P xs ys h.1 in ((h.0, l), r)

-- Moving one element to the back.
Distinct-move : (x : ℕ) (xs ys : List ℕ) → Distinct (x ∷ (xs ++ ys)) → Distinct (xs ++ (x ∷ ys))
Distinct-move x [] ys h = h
Distinct-move x (z ∷ xs) ys h =
    let (left, right) = All-split (λ y. y ≢ z) xs ys h.1.0 in
    (
      All-append (λ y. y ≢ z) xs (x ∷ ys) left (λ e. h.0.0 (sym e), right),
      Distinct-move x xs ys (h.0.1, h.1.1),
    )

Distinct-swap : (xs ys : List ℕ) → Distinct (xs ++ ys) → Distinct (ys ++ xs)
Distinct-swap [] ys h = rw (append-nil ys) h
Distinct-swap (x ∷ xs) ys h =
    Distinct-move x ys xs (Distinct-swap xs (x ∷ ys) (Distinct-move x xs ys h))

-- Any node of a ring can be taken for its head.
pub rotate-Ring :
    (s : Links) (p : ℕ) (xs : List ℕ) (m : ℕ) (ys : List ℕ)
    → Ring s p (xs ++ (m ∷ ys))
    → Ring s m (ys ++ (p ∷ xs))
rotate-Ring s p xs m ys (h, d) =
    let (left, right) = Seg-split s p xs m ys p h in
    (Seg-append s m ys p xs m right left, Distinct-swap (p ∷ xs) (m ∷ ys) d)

-- A list is empty or has a last element.
pub last_view : (xs : List ℕ) → (xs ≡ []) ⊎ ((zs : List ℕ) × (q : ℕ) × (xs ≡ zs ++ q ∷ []))
last_view [] = inl refl
last_view (x ∷ xs) = elim (last_view xs) [
  | inl e ↦ inr ([], x, ap (λ l. x ∷ l) e)
  | inr (zs, q, e) ↦ inr (x ∷ zs, q, ap (λ l. x ∷ l) e)
]
