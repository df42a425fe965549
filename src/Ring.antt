-- ===== src/Ring.antt =====
-- `CQueueNode` of netfram/Queue.h: nodes linked in both directions into a ring, one of which serves
-- as the head of a queue. A node is its address; address 0 is NULL, which nothing is read through.
pub mod Segments
pub mod Inserting
pub mod Removing
pub mod Joining
use network_etc.Base.{ℕ, ◌≡◌, refl, Bool, true, false, ◌==◌, if◌then◌else◌}

-- `mpoNext`, `mpoPrev` and `mbIn` of each node.
pub record Links : Type 0 where
  pub next : ℕ → ℕ
  pub prev : ℕ → ℕ
  pub inside : ℕ → Bool

abbrev pub update {ℓ} : {A : Type ℓ} → (ℕ → A) → ℕ → A → ℕ → A
update f p v q = if q == p then v else f q

unfoldable pub set_next : Links → ℕ → ℕ → Links
set_next s p v = record s { next = update s.next p v }

unfoldable pub set_prev : Links → ℕ → ℕ → Links
set_prev s p v = record s { prev = update s.prev p v }

unfoldable pub set_inside : Links → ℕ → Bool → Links
set_inside s p v = record s { inside = update s.inside p v }

-- `Init` of `p`.
unfoldable pub init : Links → ℕ → Links
unfolding set_next set_prev set_inside
init s p = set_inside (set_next (set_prev s p p) p p) p false

unfoldable pub is_empty : Links → ℕ → Bool
is_empty s p = p == s.prev p

-- `this->InsertAM(n)`: `n` behind `p`. Each write sees those before it.
unfoldable pub insert_am : Links → ℕ → ℕ → Links
unfolding set_next set_prev set_inside
insert_am s p n =
    let s₁ = set_next s n (s.next p) in
    let s₂ = set_prev s₁ n p in
    let s₃ = set_prev s₂ (s₂.next p) n in let s₄ = set_next s₃ p n in set_inside s₄ n true

-- `this->InsertBM(n)`: `n` in front of `p`.
unfoldable pub insert_bm : Links → ℕ → ℕ → Links
unfolding set_next set_prev set_inside
insert_bm s p n =
    let s₁ = set_next s n p in
    let s₂ = set_prev s₁ n (s.prev p) in
    let s₃ = set_next s₂ (s₂.prev p) n in let s₄ = set_prev s₃ p n in set_inside s₄ n true

-- `Remove(n)`, with its answer.
unfoldable pub remove : Links → ℕ → Links × Bool
unfolding set_next set_prev set_inside
remove s n =
    let s₁ = set_prev s (s.next n) (s.prev n) in
    let s₂ = set_next s₁ (s₁.prev n) (s₁.next n) in
    let s₃ = set_next s₂ n 0 in
    let s₄ = set_prev s₃ n 0 in if s.inside n then (set_inside s₄ n false, true) else (s, false)

unfoldable pub add : Links → ℕ → ℕ → Links
add s p n = insert_am s p n

-- `this->Join(q)`: the nodes of the queue `q` behind those of the queue `p`.
unfoldable pub join : Links → ℕ → ℕ → Links
unfolding set_next set_prev init
join s p q =
    let s₁ = set_next s (s.prev p) (s.next q) in
    let s₂ = set_prev s₁ (s₁.next q) (s₁.prev p) in
    let s₃ = set_prev s₂ p (s₂.prev q) in let s₄ = set_next s₃ (s₃.prev p) p in init s₄ q

unfoldable pub head : Links → ℕ → ℕ
head s p = s.next p

unfoldable pub tail : Links → ℕ → ℕ
tail s p = s.prev p

-- `Split(source, pose, dest)`: the nodes from `pose` on move from `source` to `dest`.
unfoldable pub split : Links → ℕ → ℕ → ℕ → Links
unfolding set_next set_prev
split s source pose dest =
    let s₁ = set_prev s dest (s.prev source) in
    let s₂ = set_next s₁ (s₁.prev dest) dest in
    let s₃ = set_next s₂ dest pose in
    let s₄ = set_prev s₃ source (s₃.prev pose) in
    let s₅ = set_next s₄ (s₄.prev source) source in set_prev s₅ pose dest
