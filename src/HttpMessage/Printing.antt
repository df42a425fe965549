-- ===== src/HttpMessage/Printing.antt =====
-- What `snprintf` and the loop over the header fields leave in a store that has the room that they
-- are told.
use network_etc.Base.{
  ℕ, zero, suc, ◌+◌, ◌-◌, ◌≤◌, ◌<◌, ◌≡◌, ◌∙◌, refl, sym, ap, Option, none, some, [], ◌∷◌, ◌++◌,
  Bytes, length, take, drop, arith, append_assoc, append-nil, length-append, length-take,
}
use native.Mathlib.Decide.{dec_lt}
use network_etc.Base.Maps.{Map}
use network_etc.Memblock.Contents.{splice_lem, length-splice, take-append_eq}
use network_etc.Lease.Msg.{printed}
use network_etc.Lease.Msg.Transmit.{take_all}
use network_etc.HttpMessage.{print_at, encode_fields, field_line}

-- Where `out` stands from `cur` on, the bytes before `cur + n` are those before `cur` and `text`.
pub front :
    (store : Bytes) (cur : ℕ) (text more : Bytes)
    → cur ≤ length store
    → take (cur + length text) (take cur store ++ (text ++ more)) ≡ take cur store ++ text
front store cur text more h = rw (← append_assoc (take cur store) text more) (
    take-append_eq (cur + length text) (take cur store ++ text) more
      (omega (arith, length-append (take cur store) text, length-take cur store)))

pub print_fits :
    (store : Bytes) (cur space : ℕ) (text : Bytes)
    → length text < space
    → cur + space ≤ length store
    → (s : Bytes) × (print_at store cur space text ≡ some s)
      × (length s ≡ length store)
      × (take (cur + length text) s ≡ take cur store ++ text)
unfolding print_at printed
print_fits store cur space text h k =
    let out = text ++ 0 ∷ [] in
    let n : length out ≡ length text + 1 = length-append text (0 ∷ []) in
    let rest = drop (cur + length out) store in
    (
      take cur store ++ (out ++ rest),
      ground
          (arith, take_all (space - 1) text (omega arith), splice_lem store cur out (omega arith)),
      length-splice store cur out (omega arith),
      rw (append_assoc text (0 ∷ []) rest) (front store cur text (0 ∷ rest) (omega arith)),
    )

length-printed : (space : ℕ) (text : Bytes) → length (printed space text) ≤ space
unfolding printed
length-printed space text =
    ground (arith, length-append (take (space - 1) text) (0 ∷ []), length-take (space - 1) text)

pub print_cut :
    (store : Bytes) (cur space : ℕ) (text : Bytes)
    → cur + space ≤ length store
    → (s : Bytes) × (print_at store cur space text ≡ some s)
      × (length s ≡ length store)
      × (take cur s ≡ take cur store)
unfolding print_at
print_cut store cur space text k =
    let out = printed space text in
    let n : cur + length out ≤ length store = omega (arith, length-printed space text) in
    (
      take cur store ++ (out ++ drop (cur + length out) store),
      splice_lem store cur out n,
      length-splice store cur out n,
      take-append_eq cur (take cur store) _ (omega (arith, length-take cur store)),
    )

unfoldable pub fields_text : Map Bytes Bytes → Bytes
fields_text [] = []
fields_text ((name, value) ∷ fields) = field_line name value ++ fields_text fields

-- The lines were written, or the room did not suffice and the bytes before `cur` are as they were.
pub data Filled (store : Bytes) (cur end : ℕ) (text : Bytes) (s : Bytes) (r : Option ℕ)
    : Type 0 where
  fits :
      cur + length text ≤ end
      → r ≡ some (cur + length text)
      → take (cur + length text) s ≡ take cur store ++ text
      → Filled store cur end text s r
  cut :
      end ≤ cur + length text
      → r ≡ none
      → take cur s ≡ take cur store
      → Filled store cur end text s r

take-take : (a n : ℕ) (xs : Bytes) → a ≤ n → take a (take n xs) ≡ take a xs
take-take zero n xs h = refl
take-take (suc a) zero xs h = absurd (omega arith)
take-take (suc a) (suc n) [] h = refl
take-take (suc a) (suc n) (x ∷ xs) h = ap (λ l. x ∷ l) (take-take a n xs (omega arith))

-- Stores that agree up to a place agree up to any before it.
pub take_less : (a n : ℕ) (xs ys : Bytes) → a ≤ n → take n xs ≡ take n ys → take a xs ≡ take a ys
take_less a n xs ys h e = sym (take-take a n xs h) ∙ ap (λ l. take a l) e ∙ take-take a n ys h

-- What was written behind a place leaves what is before it.
pub take_back :
    (a n : ℕ) (xs ys text : Bytes)
    → a ≤ n
    → a ≤ length ys
    → take n xs ≡ take a ys ++ text
    → take a xs ≡ take a ys
take_back a n xs ys text h k e =
    sym (take-take a n xs h)
    ∙ ap (λ l. take a l) e
    ∙ take-append_eq a (take a ys) text (omega (arith, length-take a ys))

-- A line that was written, in front of what the rest of the loop does.
line-Filled :
    (store s₁ : Bytes) (cur end : ℕ) (line text s : Bytes) (r : Option ℕ)
    → cur ≤ length store
    → take (cur + length line) s₁ ≡ take cur store ++ line
    → Filled s₁ (cur + length line) end text s r
    → Filled store cur end (line ++ text) s r
line-Filled store s₁ cur end line text s r h e (fits room found same) =
    let n : cur + length (line ++ text) ≡ cur + length line + length text =
      omega (arith, length-append line text) in
    fits (omega arith) (found ∙ ap (λ k. some k) (sym n))
      (rw n (rw (same, e) (append_assoc (take cur store) line text)))
line-Filled store s₁ cur end line text s r h e (cut full none_left same) =
    cut (omega (arith, length-append line text)) none_left (
      take_less cur (cur + length line) s s₁ (omega arith) same
      ∙ take_back cur (cur + length line) s₁ store line (omega arith) h e)

pub encode_fields-Filled :
    (fields : Map Bytes Bytes) (store : Bytes) (cur end : ℕ)
    → cur ≤ end
    → end ≤ length store
    → (s : Bytes) × (r : Option ℕ) × (encode_fields fields store cur end ≡ some (s, r))
      × (length s ≡ length store)
      × Filled store cur end (fields_text fields) s r
unfolding encode_fields fields_text
encode_fields-Filled [] store cur end h k =
    let z : cur + 0 ≡ cur = omega arith in
    (
      store,
      some cur,
      refl,
      refl,
      fits (omega arith) (ap (λ n. some n) (sym z)) (rw (z, append-nil) refl),
    )
encode_fields-Filled ((name, value) ∷ fields) store cur end h k =
    let line = field_line name value in
    elim (dec_lt (length line) (end - cur)) [
      | yes room ↦
          let (s₁, e, n, same) = print_fits store cur (end - cur) line room (omega arith) in
          let (s, r, e', n', f) =
            encode_fields-Filled fields s₁ (cur + length line) end (omega arith) (omega arith) in
          (
            s,
            r,
            ground (arith, e, e'),
            n' ∙ n,
            line-Filled store s₁ cur end line (fields_text fields) s r (omega arith) same f,
          )
      | no full ↦
          let (s₁, e, n, same) = print_cut store cur (end - cur) line (omega arith) in
          (
            s₁,
            none,
            ground (arith, e),
            n,
            cut (omega (arith, length-append line (fields_text fields))) refl same,
          )
    ]
