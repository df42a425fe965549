-- ===== src/SessionManager/Next/Rotating.antt =====
-- `CNextSession` against the first open session of the rotated list.
use network_etc.Base.{
  ℕ, zero, suc, ◌+◌, ◌*◌, ◌%◌, ◌≡◌, ◌∙◌, ◌≤◌, ◌<◌, refl, ap, true, false, Option, none, some, List,
  [], ◌∷◌, ◌++◌, length, take, drop, ◌==◌, if◌then◌else◌, Bool-cases, inl, inr, u64, arith,
  length-take,
}
use network_etc.SessionManager.{Session}
use network_etc.SessionManager.Next.{skip, search, next_session}

skip_lem : (size n i : ℕ) → i + n ≤ size → skip size n i ≡ i + n
unfolding skip
skip_lem size zero i h = ground arith
skip_lem size (suc n) i h = ground (arith, skip_lem size n (i + 1))

drop_next : (i : ℕ) (x : ℕ) (xs ys : List ℕ) → drop i xs ≡ x ∷ ys → drop (i + 1) xs ≡ ys
drop_next zero x [] ys h = cc
drop_next zero x (z ∷ xs) ys h = ground arith
drop_next (suc i) x [] ys h = cc
drop_next (suc i) x (z ∷ xs) ys h =
    let e : suc i + 1 ≡ suc (i + 1) = omega arith in rw e (drop_next i x xs ys h)

take-append-drop : (n : ℕ) (xs : List ℕ) → xs ≡ take n xs ++ drop n xs
take-append-drop zero xs = refl
take-append-drop (suc n) [] = refl
take-append-drop (suc n) (x ∷ xs) = ap (λ l. x ∷ l) (take-append-drop n xs)

drop_inside :
    (n : ℕ) (xs : List ℕ)
    → n < length xs
    → (x : ℕ) × (rest : List ℕ) × (drop n xs ≡ x ∷ rest) × (n + 1 + length rest ≡ length xs)
drop_inside n [] h = absurd (omega arith)
drop_inside zero (x ∷ xs) h = (x, xs, refl, omega arith)
drop_inside (suc n) (x ∷ xs) h =
    let (y, rest, e, l) = drop_inside n xs (omega arith) in (y, rest, e, omega (arith, l))

module _ (object : ℕ → Session) where
  -- The first open session of a list, and how many closed ones stand before it.
  abbrev pub first_open : List ℕ → Option ℕ
  first_open [] = none
  first_open (p ∷ ps) = let rest = first_open ps in if (object p).closed then rest else some p

  abbrev pub leading : List ℕ → ℕ
  leading [] = 0
  leading (p ∷ ps) = let rest = leading ps in if (object p).closed then rest + 1 else 0

  -- The loop goes on at a place, unless it is back at the start.
  abbrev after : ℕ → List ℕ → ℕ → ℕ → ℕ → Option (Option ℕ × ℕ)
  after fuel ps start i count =
      let rest = search object fuel ps start i count in
      if i == start then some (none, count) else rest

  search-end :
      (fuel : ℕ) (ps : List ℕ) (start i count : ℕ)
      → drop i ps ≡ []
      → search object (suc fuel) ps start i count ≡ after fuel ps start 0 count
  unfolding search
  search-end fuel ps start i count e = rw (e, search) refl

  search-open :
      (fuel : ℕ) (ps : List ℕ) (start i count p : ℕ) (rest : List ℕ)
      → drop i ps ≡ p ∷ rest
      → (object p).closed ≡ false
      → search object (suc fuel) ps start i count ≡ some (some p, count)
  unfolding search
  search-open fuel ps start i count p rest e o = rw (e, search) (rw o refl)

  search-closed :
      (fuel : ℕ) (ps : List ℕ) (start i count p : ℕ) (rest : List ℕ)
      → drop i ps ≡ p ∷ rest
      → (object p).closed ≡ true
      → count + 1 < u64
      → search object (suc fuel) ps start i count ≡ after fuel ps start (i + 1) (count + 1)
  unfolding search
  search-closed fuel ps start i count p rest e o small =
      let wrap : (count + 1) % u64 ≡ count + 1 = omega arith in rw (e, search) (rw (o, wrap) refl)

  one_closed :
      (y count : ℕ) (ys : List ℕ)
      → (object y).closed ≡ true
      → (first_open (y ∷ ys) ≡ first_open ys) × (count + leading (y ∷ ys) ≡ count + 1 + leading ys)
  one_closed y count ys h = (ground (arith, h), ground (arith, h))

  one_open :
      (y count : ℕ) (ys : List ℕ)
      → (object y).closed ≡ false
      → (first_open (y ∷ ys) ≡ some y) × (count + leading (y ∷ ys) ≡ count)
  one_open y count ys h = (ground (arith, h), ground (arith, h))

  -- A step of the loop over a list of which the rest is known.
  search-step :
      (fuel : ℕ) (ps : List ℕ) (start i count y : ℕ) (ys tail : List ℕ)
      → drop i ps ≡ y ∷ tail
      → count + 1 < u64
      → after fuel ps start (i + 1) (count + 1) ≡ some (first_open ys, count + 1 + leading ys)
      → search object (suc fuel) ps start i count
        ≡ some (first_open (y ∷ ys), count + leading (y ∷ ys))
  search-step fuel ps start i count y ys tail e small next = elim (Bool-cases (object y).closed) [
    | inl shut ↦
        let (a, b) = one_closed y count ys shut in
        rw (a, b) (search-closed fuel ps start i count y tail e shut small ∙ next)
    | inr here ↦
        let (a, b) = one_open y count ys here in
        rw (a, b) (search-open fuel ps start i count y tail e here)
  ]

  -- In front of the start.
  wrapped :
      (ys : List ℕ) (fuel : ℕ) (ps : List ℕ) (start i count : ℕ) (tail : List ℕ)
      → drop i ps ≡ ys ++ tail
      → i + length ys ≡ start
      → length ys ≤ fuel
      → count + length ys < u64
      → after fuel ps start i count ≡ some (first_open ys, count + leading ys)
  wrapped [] fuel ps start i count tail e n enough small = ground arith
  wrapped (y ∷ ys) zero ps start i count tail e n enough small = absurd (omega arith)
  wrapped (y ∷ ys) (suc fuel) ps start i count tail e n enough small =
      let elsewhere : (i == start) ≡ false = ground arith in
      rw elsewhere (
        search-step fuel ps start i count y ys (ys ++ tail) e (omega arith) (
          wrapped ys fuel ps start (i + 1) (count + 1) tail (drop_next i y ps (ys ++ tail) e)
            (omega arith) (omega arith) (omega arith)))

  -- Behind the start.
  running :
      (zs ys : List ℕ) (fuel : ℕ) (ps : List ℕ) (start i count : ℕ) (tail : List ℕ)
      → drop i ps ≡ zs
      → ps ≡ ys ++ tail
      → length ys ≡ start
      → start < i
      → length zs + length ys + 1 ≤ fuel
      → count + length zs + length ys < u64
      → after fuel ps start i count ≡ some (first_open (zs ++ ys), count + leading (zs ++ ys))
  running zs ys zero ps start i count tail e w n past enough small = absurd (omega arith)
  running [] ys (suc fuel) ps start i count tail e w n past enough small =
      let elsewhere : (i == start) ≡ false = ground arith in
      rw elsewhere (
        search-end fuel ps start i count e
        ∙ wrapped ys fuel ps start 0 count tail w (omega arith) (omega arith) (omega arith))
  running (z ∷ zs) ys (suc fuel) ps start i count tail e w n past enough small =
      let elsewhere : (i == start) ≡ false = ground arith in
      rw elsewhere (
        search-step fuel ps start i count z (zs ++ ys) zs e (omega arith) (
          running zs ys fuel ps start (i + 1) (count + 1) tail (drop_next i z ps zs e) w n
            (omega arith) (omega arith) (omega arith)))

  -- `CNextSession` over at least one session and fewer than 2 ^ 63: it returns the first open session of
  -- the list turned by `muCount` modulo its length, or none if all are closed, and leaves `muCount` one
  -- behind the place where it has stopped, counted on from where it began.
  pub next_session-rotates :
      (ps : List ℕ) (muCount : ℕ)
      → 0 < length ps
      → length ps * 2 < u64
      → let first = muCount % length ps in
        let turned = drop first ps ++ take first ps in
        next_session object ps muCount ≡ some (first_open turned, first + 1 + leading turned)
  unfolding next_session
  next_session-rotates ps muCount some_there small =
      let first = muCount % length ps in
      let low : first < length ps = omega arith in
      let (p, rest, e, l) = drop_inside first ps low in
      let ys = take first ps in
      let n : length ys ≡ first = omega (arith, length-take first ps) in
      let not_empty : (length ps == 0) ≡ false = ground arith in
      let turned : drop first ps ++ ys ≡ p ∷ (rest ++ ys) = ap (λ l. l ++ ys) e in
      let fuel : length ps + 2 ≡ suc (length ps + 1) = omega arith in
      let there : skip (length ps) first 0 ≡ first =
        skip_lem (length ps) first 0 (omega arith) ∙ omega arith in
      rw (not_empty) (
        rw (there, turned, fuel)
          (search-step (length ps + 1) ps first first (first + 1) p (rest ++ ys) rest e
            (omega arith)
            (running rest ys (length ps + 1) ps first (first + 1) (first + 1 + 1) (drop first ps)
              (drop_next first p ps rest e) (take-append-drop first ps) n (omega arith)
              (omega arith) (omega arith))))
