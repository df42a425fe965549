-- ===== src/Imf/Bounds.antt =====
-- The pointers that the parser of HTTP/IMF.cpp finds, and the fields that it keeps, are in the text.
use native.Mathlib.Decide.{dec_lt}
use network_etc.Base.{
  ℕ, zero, suc, ◌+◌, ◌-◌, ◌≤◌, ◌<◌, ◌≡◌, refl, ◌∙◌, true, Option, none, some, List, [], ◌∷◌, Bytes,
  length, take, All, arith, Bool, Bool-cases, inl, inr, lt→ltb,
}
use network_etc.Imf.{
  parse, parse_from, finish, init, skip_crlf, skip_whitespace, seek_ends, seek_crlf, seek_char,
  KeyValue, Header, Parse, set, get_headers, store, at_end, at_value, at_colon, field, fields,
  buffer_size,
}

pub skip_whitespace_bounds :
    (memory : Bytes) (p len v : ℕ) → skip_whitespace memory p len ≡ some v → (p ≤ v) × (v < p + len)
unfolding skip_whitespace
skip_whitespace_bounds memory p zero v h = cc
skip_whitespace_bounds memory p (suc len) v h =
    ground (arith, skip_whitespace_bounds memory (p + 1) len v)

seek_ends_bounds :
    (memory : Bytes) (p len v : ℕ) → seek_ends memory p len ≡ some v → (p ≤ v) × (v < p + len)
unfolding seek_ends
seek_ends_bounds memory p zero v h = cc
seek_ends_bounds memory p (suc len) v h = ground (arith, seek_ends_bounds memory (p + 1) len v)

pub seek_crlf_bounds :
    (memory : Bytes) (p len v : ℕ) → seek_crlf memory p len ≡ some v → (p ≤ v) × (v < p + len)
unfolding seek_crlf
seek_crlf_bounds memory p len v h = ground (arith, seek_ends_bounds memory p len v)

seek_char_bounds :
    (memory : Bytes) (p len c v : ℕ) → seek_char memory p len c ≡ some v → (p ≤ v) × (v < p + len)
unfolding seek_char
seek_char_bounds memory p zero c v h = cc
seek_char_bounds memory p (suc len) c v h = ground (arith, seek_char_bounds memory (p + 1) len c v)

-- The key, and behind its colon the value, which ends before the text does.
abbrev pub Fits : ℕ → KeyValue → Type 0
Fits len kv =
    (kv.key_start + kv.key_length < kv.value_start) × (kv.value_start + kv.value_length < len)

length-set : (l : List KeyValue) (i : ℕ) (v : KeyValue) → length (set l i v) ≡ length l
length-set [] i v = refl
length-set (x ∷ l) zero v = refl
length-set (x ∷ l) (suc i) v = omega (arith, length-set l i v)

take-set :
    (P : KeyValue → Type 0) (l : List KeyValue) (i : ℕ) (v : KeyValue)
    → All P (take i l)
    → P v
    → All P (take (suc i) (set l i v))
take-set P [] i v h k = tt
take-set P (x ∷ l) zero v h k = (k, tt)
take-set P (x ∷ l) (suc i) v h k = (h.0, take-set P l i v h.1 k)

-- As long as the array in the object has room, it holds the fields found so far.
pub record Kept (len : ℕ) (s : Parse) : Type 0 where
  pub cap_eq : s.header.cap ≡ buffer_size
  pub allocated : length s.header.table ≡ buffer_size
  pub fit : All (Fits len) (take s.nkv s.header.table)

-- The same, as long as the fields fit the array in the object.
abbrev pub Keeps : ℕ → Parse → Type 0
Keeps len s = s.nkv ≤ buffer_size → Kept len s

-- What a parse leaves, with the fields in the array of the object.
abbrev pub InText : ℕ → Option (Header × Bytes × Option ℕ) → Type 0
InText len none = ⊥
InText len (some (h, memory, answer)) = h.size ≤ buffer_size → All (Fits len) (take h.size h.table)

module _ (alloc : ℕ → List KeyValue) (len : ℕ) where
  get_headers-same :
      (h : Header) (n : ℕ) → h.cap ≡ buffer_size → n < buffer_size → get_headers alloc h n ≡ h
  unfolding get_headers
  get_headers-same h n e k = ground arith

  store-Keeps :
      (s : Parse) (memory : Bytes) (q v e : ℕ)
      → s.pos ≤ q
      → q < v
      → v ≤ e
      → e < len
      → Keeps len s
      → Keeps len (store alloc s memory q v e)
  unfolding store
  store-Keeps s memory q v e a b c d keeps room =
      let k = keeps (omega arith) in
      let next : s.nkv + 1 ≡ suc s.nkv = omega arith in
      rw (get_headers-same s.header s.nkv k.cap_eq (omega arith)) (record {
        cap_eq = k.cap_eq;
        allocated = length-set s.header.table s.nkv _ ∙ k.allocated;
        fit = rw next (take-set (Fits len) s.header.table s.nkv _ k.fit (omega arith, omega arith));
      })

  -- What a round leaves: the invariant, and where it goes on a later position.
  Round : Parse → Parse × Bool → Type 0
  Round s r = Keeps len r.0 × ((r.1 ≡ true) → s.pos < r.0.pos)

  at_end-Round :
      (s : Parse) (memory : Bytes) (q v : ℕ) (found : Option ℕ)
      → s.pos ≤ q
      → q < v
      → ((e : ℕ) → found ≡ some e → (v ≤ e) × (e < len))
      → Keeps len s
      → Round s (at_end alloc s memory q v found)
  unfolding at_end Round
  at_end-Round s memory q v none a b f k = (
    λ room. record { cap_eq = (k room).cap_eq; allocated = (k room).allocated; fit = (k room).fit },
    λ e. cc,
  )
  at_end-Round s memory q v (some e) a b f k =
      let (c, d) = f e refl in (store-Keeps s memory q v e a b c d k, λ _. later e c)
    where
      later : (e : ℕ) → v ≤ e → s.pos < e + 2
      later e c = omega arith

  at_value-Round :
      (s : Parse) (memory : Bytes) (q : ℕ) (found : Option ℕ)
      → s.pos ≤ q
      → ((v : ℕ) → found ≡ some v → (q < v) × (v < len))
      → Keeps len s
      → Round s (at_value alloc len s memory q found)
  unfolding at_value
  at_value-Round s memory q none a f k =
      at_end-Round s memory q (q + 1) none a (omega arith) (λ e h. cc) k
  at_value-Round s memory q (some v) a f k =
      let (b, c) = f v refl in
      at_end-Round s memory q v (seek_crlf memory v (len - v)) a b
        (λ e h. omega (arith, seek_crlf_bounds memory v (len - v) e h)) k

  field-Round : (s : Parse) → Keeps len s → Round s (field alloc len s)
  unfolding field Round
  field-Round s k =
      colon (seek_char s.memory s.pos (len - s.pos) b':')
        (λ q h. seek_char_bounds s.memory s.pos (len - s.pos) b':' q h)
    where
      colon :
          (found : Option ℕ)
          → ((q : ℕ) → found ≡ some q → (s.pos ≤ q) × (q < s.pos + (len - s.pos)))
          → Round s (at_colon alloc len s found)
      colon none f = (k, λ e. cc)
      colon (some q) f =
          let m = set s.memory q 0 in
          let (a, b) = f q refl in
          at_value-Round s m q (skip_whitespace m (q + 1) (len - (q + 1))) a
            (λ v h. omega (arith, skip_whitespace_bounds m (q + 1) (len - (q + 1)) v h)) k

  -- With fuel for each byte that is left the loop ends.
  fields-Keeps :
      (fuel : ℕ) (s : Parse)
      → len - s.pos < fuel
      → Keeps len s
      → (s' : Parse) × (fields alloc fuel len s ≡ some s') × Keeps len s'
  unfolding fields Round
  fields-Keeps zero s h k = absurd (omega arith)
  fields-Keeps (suc fuel) s h k = elim (dec_lt s.pos len) [
    | no done ↦ (s, ground arith, k)
    | yes inside ↦
        let (keeps, later) = field-Round s k in
        elim (Bool-cases (field alloc len s).1) [
          | inl more ↦
              let (s', e, keeps') =
                fields-Keeps fuel (field alloc len s).0 (omega (arith, later more)) keeps in
              (s', rw (lt→ltb _ _ inside) (rw more e), keeps')
          | inr stop ↦ ((field alloc len s).0, rw (lt→ltb _ _ inside) (rw stop refl), keeps)
        ]
  ]

  parse_from-InText :
      (h : Header) (memory : Bytes) (found : Option ℕ)
      → ((h.size ≤ buffer_size)
          → Kept len (record { memory = memory; pos = 0; nkv = h.size; header = h }))
      → InText len (parse_from alloc h memory len found)
  unfolding parse_from finish
  parse_from-InText h memory none k = λ room. (k room).fit
  parse_from-InText h memory (some p) k =
      let start : Parse = record { memory = memory; pos = p; nkv = h.size; header = h } in
      let (s', e, keeps) = fields-Keeps (suc len) start (omega arith) (λ room. record {
        cap_eq = (k room).cap_eq;
        allocated = (k room).allocated;
        fit = (k room).fit;
      }) in
      rw e (λ room. (keeps room).fit)

  -- `Parse` of a new object comes to an end, and while the fields are no more than the array in
  -- the object holds, each has its key, its colon and its value, in this order, inside the text.
  pub parse-InText :
      (array : List KeyValue) (memory : Bytes) (offs : ℕ)
      → length array ≡ buffer_size
      → InText len (parse alloc (init array) memory len offs)
  unfolding parse init
  parse-InText array memory offs a =
      parse_from-InText (init array) memory (skip_crlf memory offs (len - offs))
        (λ room. record { cap_eq = refl; allocated = a; fit = tt })
