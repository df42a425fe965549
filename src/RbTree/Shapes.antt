-- ===== src/RbTree/Shapes.antt =====
-- Trees in the memory of netfram/RBTree.h: which nodes hang below a pointer, and what is around.
use network_etc.Base.{ℕ, ◌≡◌, ◌≢◌, sym, ◌∙◌, List, [], ◌∷◌, ◌++◌}
use network_etc.RbTree.{Tree, sentinel, null}

-- The addresses of a tree's nodes as they hang.
pub data Shape : Type 0 where
  leaf : Shape
  node : Shape → ℕ → Shape → Shape

-- From left to right.
abbrev pub in_order : Shape → List ℕ
in_order leaf = []
in_order (node l x r) = in_order l ++ (x ∷ in_order r)

abbrev pub AllNodes : (ℕ → Type 0) → Shape → Type 0
AllNodes P leaf = Unit
AllNodes P (node l x r) = AllNodes P l × P x × AllNodes P r

-- The shape hangs at the pointer `p`, below the node `up`.
abbrev pub Hangs : Tree → ℕ → ℕ → Shape → Type 0
Hangs t p up leaf = p ≡ sentinel
Hangs t p up (node l x r) =
    (p ≡ x) × (t.parent x ≡ up) × Hangs t (t.left x) x l × Hangs t (t.right x) x r

-- What is around a subtree: nothing, or a node above with its other side.
pub data Around : Type 0 where
  top : Around
  in_left : Around → ℕ → Shape → Around
  in_right : Shape → ℕ → Around → Around

abbrev pub plug : Around → Shape → Shape
plug top s = s
plug (in_left k z r) s = plug k (node s z r)
plug (in_right l z k) s = plug k (node l z s)

abbrev pub AllAround : (ℕ → Type 0) → Around → Type 0
AllAround P top = Unit
AllAround P (in_left k z r) = P z × AllNodes P r × AllAround P k
AllAround P (in_right l z k) = P z × AllNodes P l × AllAround P k

-- The node above the hole.
abbrev pub above : Around → ℕ
above top = null
above (in_left k z r) = z
above (in_right l z k) = z

-- The pointer `p` stands where the hole is.
abbrev pub Surrounds : Tree → ℕ → Around → Type 0
Surrounds t p top = t.root ≡ p
Surrounds t p (in_left k z r) =
    (t.left z ≡ p) × (t.parent z ≡ above k) × Hangs t (t.right z) z r × Surrounds t z k
Surrounds t p (in_right l z k) =
    (t.right z ≡ p) × (t.parent z ≡ above k) × Hangs t (t.left z) z l × Surrounds t z k

-- No node above the hole is anywhere else in what is around it, or the root of what is above it.
abbrev pub Proper : Around → Type 0
Proper top = Unit
Proper (in_left k z r) = AllNodes (λ c. c ≢ z) r × AllAround (λ c. c ≢ z) k × Proper k
Proper (in_right l z k) = AllNodes (λ c. c ≢ z) l × AllAround (λ c. c ≢ z) k × Proper k

abbrev pub Same : Tree → Tree → ℕ → Type 0
Same s t c = (t.left c ≡ s.left c) × (t.right c ≡ s.right c) × (t.parent c ≡ s.parent c)

pub Hangs-frame :
    (s t : Tree) (p up : ℕ) (sh : Shape)
    → AllNodes (Same s t) sh
    → Hangs s p up sh
    → Hangs t p up sh
Hangs-frame s t p up leaf f h = h
Hangs-frame s t p up (node l x r) f h = (
  h.0,
  f.1.2 ∙ h.1,
  rw f.1.0 (Hangs-frame s t (s.left x) x l f.0 h.2),
  rw f.1.1 (Hangs-frame s t (s.right x) x r f.2 h.3),
)

pub Surrounds-frame :
    (s t : Tree) (p : ℕ) (k : Around)
    → t.root ≡ s.root
    → AllAround (Same s t) k
    → Surrounds s p k
    → Surrounds t p k
Surrounds-frame s t p top e f h = e ∙ h
Surrounds-frame s t p (in_left k z r) e f h = (
  f.0.0 ∙ h.0,
  f.0.2 ∙ h.1,
  rw f.0.1 (Hangs-frame s t (s.right z) z r f.1 h.2),
  Surrounds-frame s t z k e f.2 h.3,
)
Surrounds-frame s t p (in_right l z k) e f h = (
  f.0.1 ∙ h.0,
  f.0.2 ∙ h.1,
  rw f.0.0 (Hangs-frame s t (s.left z) z l f.1 h.2),
  Surrounds-frame s t z k e f.2 h.3,
)

pub AllNodes-map :
    (P Q : ℕ → Type 0) (sh : Shape) → ((c : ℕ) → P c → Q c) → AllNodes P sh → AllNodes Q sh
AllNodes-map P Q leaf f h = tt
AllNodes-map P Q (node l x r) f h = (AllNodes-map P Q l f h.0, f x h.1, AllNodes-map P Q r f h.2)

pub AllAround-map :
    (P Q : ℕ → Type 0) (k : Around) → ((c : ℕ) → P c → Q c) → AllAround P k → AllAround Q k
AllAround-map P Q top f h = tt
AllAround-map P Q (in_left k z r) f h =
    (f z h.0, AllNodes-map P Q r f h.1, AllAround-map P Q k f h.2)
AllAround-map P Q (in_right l z k) f h =
    (f z h.0, AllNodes-map P Q l f h.1, AllAround-map P Q k f h.2)

pub AllNodes-zip :
    (P Q R : ℕ → Type 0) (sh : Shape)
    → ((c : ℕ) → P c → Q c → R c)
    → AllNodes P sh
    → AllNodes Q sh
    → AllNodes R sh
AllNodes-zip P Q R leaf f h k = tt
AllNodes-zip P Q R (node l x r) f h k =
    (AllNodes-zip P Q R l f h.0 k.0, f x h.1 k.1, AllNodes-zip P Q R r f h.2 k.2)

pub AllAround-zip :
    (P Q R : ℕ → Type 0) (k : Around)
    → ((c : ℕ) → P c → Q c → R c)
    → AllAround P k
    → AllAround Q k
    → AllAround R k
AllAround-zip P Q R top f g h = tt
AllAround-zip P Q R (in_left k z r) f g h =
    (f z g.0 h.0, AllNodes-zip P Q R r f g.1 h.1, AllAround-zip P Q R k f g.2 h.2)
AllAround-zip P Q R (in_right l z k) f g h =
    (f z g.0 h.0, AllNodes-zip P Q R l f g.1 h.1, AllAround-zip P Q R k f g.2 h.2)

-- No node hangs at two places.
abbrev pub DistinctNodes : Shape → Type 0
DistinctNodes leaf = Unit
DistinctNodes (node l x r) =
    AllNodes (λ c. c ≢ x) l
    × AllNodes (λ c. c ≢ x) r
    × AllNodes (λ c. AllNodes (λ d. d ≢ c) r) l
    × DistinctNodes l
    × DistinctNodes r

-- A subtree and what is around it share no node, and neither has the sentinel or NULL for a node.
pub record IsApart (k : Around) (sh : Shape) : Type 0 where
  pub proper : Proper k
  pub distinct : DistinctNodes sh
  pub apart : AllAround (λ c. AllNodes (λ d. d ≢ c) sh) k
  pub inside : AllNodes (λ c. (c ≢ sentinel) × (c ≢ null)) sh
  pub outside : AllAround (λ c. c ≢ sentinel) k

-- The pointer to a subtree is not a node that is not in it.
pub Hangs-apart :
    (s : Tree) (p up : ℕ) (sh : Shape) (c : ℕ)
    → Hangs s p up sh
    → c ≢ sentinel
    → AllNodes (λ d. d ≢ c) sh
    → p ≢ c
Hangs-apart s p up leaf c h n f = λ e. n (sym e ∙ h)
Hangs-apart s p up (node l x r) c h n f = λ e. f.1 (sym h.0 ∙ e)

pub above-All : (P : ℕ → Type 0) (k : Around) → P null → AllAround P k → P (above k)
above-All P top n h = n
above-All P (in_left k z r) n h = h.0
above-All P (in_right l z k) n h = h.0

-- The root is not a node that is neither around nor at the hole.
pub Surrounds-root :
    (s : Tree) (p : ℕ) (k : Around) (c : ℕ)
    → Surrounds s p k
    → p ≢ c
    → AllAround (λ d. d ≢ c) k
    → s.root ≢ c
Surrounds-root s p top c h n f = λ e. n (sym h ∙ e)
Surrounds-root s p (in_left k z r) c h n f = Surrounds-root s z k c h.3 f.0 f.2
Surrounds-root s p (in_right l z k) c h n f = Surrounds-root s z k c h.3 f.0 f.2
