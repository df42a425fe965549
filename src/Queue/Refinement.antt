-- ===== src/Queue/Refinement.antt =====
-- The queue holds a list: `Append` adds at its end, `Get` takes from its front, `Clear` empties it.
use mathlib.Core.Path.{subst}
use network_etc.Base.{
  ℕ, zero, suc, ◌+◌, ◌-◌, ◌%◌, ◌<◌, ◌≡◌, ◌≢◌, ◌⊎◌, inl, inr, ◌∙◌, refl, sym, ap, some, List, [],
  ◌∷◌, ◌++◌, length, ◌==◌, if◌then◌else◌, u32, arith, length-append,
}
use network_etc.Queue.{Queue, store, append, get, clear}

-- From `p` on the pointers lead through just these elements, to the null pointer.
abbrev pub Chain : (ℕ → ℕ) → ℕ → List ℕ → Type 0
Chain next p [] = p ≡ 0
Chain next p (x ∷ xs) = (p ≡ x) × (x ≢ 0) × Chain next (next x) xs

abbrev pub Last : ℕ → List ℕ → Type 0
Last t [] = t ≡ 0
Last t (x ∷ []) = t ≡ x
Last t (x ∷ y ∷ xs) = Last t (y ∷ xs)

abbrev pub Absent : ℕ → List ℕ → Type 0
Absent e [] = Unit
Absent e (x ∷ xs) = (e ≢ x) × Absent e xs

abbrev pub Distinct : List ℕ → Type 0
Distinct [] = Unit
Distinct (x ∷ xs) = Absent x xs × Distinct xs

-- The queue holds these elements, in this order.
pub record Holds (q : Queue) (xs : List ℕ) : Type 0 where
  pub chain : Chain q.next q.head xs
  pub last : Last q.tail xs
  pub distinct : Distinct xs
  pub count : q.size ≡ length xs

Chain-store :
    (next : ℕ → ℕ) (e v p : ℕ) (xs : List ℕ)
    → Chain next p xs
    → Absent e xs
    → Chain (store next e v) p xs
Chain-store next e v p [] c a = c
Chain-store next e v p (x ∷ xs) (h, k, c) (n, a) =
    let same : store next e v x ≡ next x = ground arith in
    (h, k, rw same (Chain-store next e v (next x) xs c a))

-- An element that is not in the list is not its last one, which is none of the null pointers.
Last-Absent : (t e x : ℕ) (xs : List ℕ) → Last t (x ∷ xs) → Absent e (x ∷ xs) → e ≢ t
Last-Absent t e x [] l (n, a) h = n (h ∙ l)
Last-Absent t e x (y ∷ ys) l (n, a) h = Last-Absent t e y ys l a h

Last-Chain :
    (next : ℕ → ℕ) (t p x : ℕ) (xs : List ℕ) → Chain next p (x ∷ xs) → Last t (x ∷ xs) → t ≢ 0
Last-Chain next t p x [] (h, k, c) l z = k (sym l ∙ z)
Last-Chain next t p x (y ∷ ys) (h, k, c) l z = Last-Chain next t (next x) y ys c l z

-- Behind the last element of a chain another is hung.
Chain-append :
    (next : ℕ → ℕ) (e t p x : ℕ) (xs : List ℕ)
    → Chain next p (x ∷ xs)
    → Last t (x ∷ xs)
    → Distinct (x ∷ xs)
    → e ≢ 0
    → Absent e (x ∷ xs)
    → next e ≡ 0
    → Chain (store next t e) p ((x ∷ xs) ++ (e ∷ []))
Chain-append next e t p x [] (h, k, c) l d ne (n, a) z =
    let here : store next t e x ≡ e = ground arith in
    let end : store next t e e ≡ 0 = ground arith in (h, k, (here, ne, end))
Chain-append next e t p x (y ∷ ys) (h, k, c) l (away, d) ne (n, a) z =
    let same : store next t e x ≡ next x = ground (arith, Last-Absent t x y ys l away) in
    (h, k, rw same (Chain-append next e t (next x) y ys c l d ne a z))

Last-append : (e : ℕ) (x : ℕ) (xs : List ℕ) → Last e ((x ∷ xs) ++ (e ∷ []))
Last-append e x [] = refl
Last-append e x (y ∷ ys) = Last-append e y ys

Absent-append : (x e : ℕ) (xs : List ℕ) → Absent x xs → x ≢ e → Absent x (xs ++ (e ∷ []))
Absent-append x e [] a n = (n, tt)
Absent-append x e (y ∷ ys) (m, a) n = (m, Absent-append x e ys a n)

Distinct-append : (e : ℕ) (xs : List ℕ) → Distinct xs → Absent e xs → Distinct (xs ++ (e ∷ []))
Distinct-append e [] d a = (tt, tt)
Distinct-append e (x ∷ xs) (away, d) (n, a) =
    (Absent-append x e xs away (λ h. n (sym h)), Distinct-append e xs d a)

-- `Append` to a queue that holds a list of fewer than 2 ^ 32 - 1 elements, of an element that is not
-- null and not in the list, leaves a queue that holds the list with the element at its end.
pub append-Holds :
    (q : Queue) (xs : List ℕ) (e : ℕ)
    → Holds q xs
    → e ≢ 0
    → Absent e xs
    → length xs + 1 < u32
    → (q' : Queue) × (append e q ≡ some q') × Holds q' (xs ++ (e ∷ []))
unfolding append
append-Holds q [] e h ne a small = (
  record { next = store q.next e 0; head = e; tail = e; size = (q.size + 1) % u32 },
  ground (arith, h.last),
  record {
    chain = (refl, ne, ground arith);
    last = refl;
    distinct = (tt, tt);
    count = omega (arith, h.count);
  },
)
append-Holds q (x ∷ xs) e h ne a small =
    let full = Last-Chain q.next q.tail q.head x xs h.chain h.last in
    let next = store q.next e 0 in
    let c = Chain-store q.next e 0 q.head (x ∷ xs) h.chain a in
    let z : next e ≡ 0 = ground arith in
    (
      record { next = store next q.tail e; head = q.head; tail = e; size = (q.size + 1) % u32 },
      ground (arith, full),
      record {
        chain = Chain-append next e q.tail q.head x xs c h.last h.distinct ne a z;
        last = Last-append e x xs;
        distinct = Distinct-append e (x ∷ xs) h.distinct a;
        count = omega (arith, h.count, length-append (x ∷ xs) (e ∷ []));
      },
    )

Last-rest :
    (next : ℕ → ℕ) (t x p : ℕ) (xs : List ℕ)
    → Chain next p xs
    → Last t (x ∷ xs)
    → Distinct (x ∷ xs)
    → Last (if t == x then 0 else t) xs
Last-rest next t x p [] c l d = ground arith
Last-rest next t x p (y ∷ ys) c l (away, d) =
    let other : (if t == x then 0 else t) ≡ t = ground (arith, Last-Absent t x y ys l away) in
    subst (λ k. Last k (y ∷ ys)) (sym other) l

-- What `Get` leaves of a queue with a first element.
rest_of : Queue → Queue
rest_of q = record {
  next = store q.next q.head 0;
  head = q.next q.head;
  tail = if q.tail == q.head then 0 else q.tail;
  size = (q.size + u32 - 1) % u32;
}

get-rest_of : (q : Queue) → q.head ≢ 0 → get q ≡ (rest_of q, q.head)
unfolding get rest_of
get-rest_of q h = ground arith

rest_of-Holds :
    (q : Queue) (xs : List ℕ) → Holds q (q.head ∷ xs) → length xs + 1 < u32 → Holds (rest_of q) xs
unfolding rest_of
rest_of-Holds q xs h small =
    let (_, _, c) = h.chain in
    let (away, d) = h.distinct in
    record {
      chain = Chain-store q.next q.head 0 (q.next q.head) xs c away;
      last = Last-rest q.next q.tail q.head (q.next q.head) xs c h.last h.distinct;
      distinct = d;
      count = omega (arith, h.count);
    }

-- `Get` from a queue that holds a list: from the empty list it gives null and changes nothing; from
-- another it gives the first element, and leaves a queue that holds the rest.
pub get-Holds :
    (q : Queue) (xs : List ℕ)
    → Holds q xs
    → length xs < u32
    → ((xs ≡ []) × (get q ≡ (q, 0)))
      ⊎ ((x : ℕ) × (rest : List ℕ) × (xs ≡ x ∷ rest) × ((get q).1 ≡ x) × Holds (get q).0 rest)
unfolding get
get-Holds q [] h small = inl (refl, ground (arith, h.chain))
get-Holds q (x ∷ xs) h small =
    let (first, there, _) = h.chain in
    let e = get-rest_of q (λ z. there (sym first ∙ z)) in
    let held = rest_of-Holds q xs (subst (λ y. Holds q (y ∷ xs)) (sym first) h) (omega arith) in
    inr (x, xs, refl, ap (λ r. r.1) e ∙ first, subst (λ r. Holds r.0 xs) (sym e) held)

clear_stop : (fuel : ℕ) (q : Queue) → (get q).1 ≡ 0 → clear (suc fuel) q ≡ some (get q).0
unfolding clear
clear_stop fuel q h = ground (arith, h)

clear_more : (fuel : ℕ) (q : Queue) → (get q).1 ≢ 0 → clear (suc fuel) q ≡ clear fuel (get q).0
unfolding clear
clear_more fuel q h = ground (arith, h)

-- `Clear` of a queue that holds a list is done after one round more than the list has elements, and
-- leaves a queue that holds nothing.
pub clear-Holds :
    (fuel : ℕ) (q : Queue) (xs : List ℕ)
    → Holds q xs
    → length xs < u32
    → length xs < fuel
    → (q' : Queue) × (clear fuel q ≡ some q') × Holds q' []
clear-Holds zero q xs h small enough = absurd (omega arith)
clear-Holds (suc fuel) q xs h small enough = elim (get-Holds q xs h small) [
  | inl (none_left, e) ↦ (
    (get q).0,
    clear_stop fuel q (ap (λ r. r.1) e),
    subst (λ r. Holds r.0 []) (sym e) (subst (λ l. Holds q l) none_left h),
  )
  | inr (x, rest, split, front, held) ↦
      let there : x ≢ 0 = (subst (λ l. Holds q l) split h).chain.1 in
      let shorter : length xs ≡ suc (length rest) = ap (λ l. length l) split in
      let (q', e, empty) = clear-Holds fuel (get q).0 rest held (omega arith) (omega arith) in
      (q', clear_more fuel q (λ z. there (sym front ∙ z)) ∙ e, empty)
]
