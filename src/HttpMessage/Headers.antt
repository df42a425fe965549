-- ===== src/HttpMessage/Headers.antt =====
-- What `AddHeader`, `SetHeader` and `DelHeader` do to what `GetHeader` gives.
use network_etc.Base.{
  ℕ, ◌≡◌, ◌<◌, refl, sym, ap, ◌∙◌, true, false, none, some, Option, [], ◌∷◌, ◌++◌, Bytes, length,
  arith, if◌then◌else◌, Bool-cases, Option-cases, inl, inr,
}
use network_etc.Base.Maps.{Map, lookup, bytes_eq, bytes_same, bytes_refl, bytes_sound}
use network_etc.HttpMessage.{HttpMessage, put, is_empty, add_header, get_header}

pub lookup-put :
    (q k v : Bytes) (m : Map Bytes Bytes)
    → lookup q (put k v m) ≡ (if bytes_same q k then some v else lookup q m)
lookup-put q k v [] = ground arith
lookup-put q k v ((j, w) ∷ m) = ground (
  arith,
  lookup-put q k v m,
  bytes_sound q k,
  bytes_sound q j,
  bytes_sound k j,
  bytes_refl q,
  bytes_refl j,
)

-- The value of a field that gets another one.
abbrev pub joined : Bytes → Bytes → ℕ → Bytes
joined old value sep =
    if is_empty value then old else if is_empty old then value else old ++ (sep ∷ value)

empty_eq : (s : Bytes) → is_empty s ≡ true → s ≡ []
empty_eq [] h = refl
empty_eq (c ∷ s) h = absurd (ground arith)

get_header-lookup :
    (m : HttpMessage) (name : Bytes)
    → 0 < length name
    → get_header m name ≡ elim (lookup name m.fields) [ none ↦ [] | some value ↦ value ]
unfolding get_header
get_header-lookup m name h = ground arith

add_found :
    (m : HttpMessage) (name value old : Bytes) (sep : ℕ)
    → 0 < length name
    → lookup name m.fields ≡ some old
    → lookup name (add_header m name value sep).fields ≡ some (joined old value sep)
unfolding add_header
add_found m name value old sep h e = ground (
  arith,
  lookup-put name name value m.fields,
  lookup-put name name (old ++ (sep ∷ value)) m.fields,
  bytes_refl name,
)

add_new :
    (m : HttpMessage) (name value : Bytes) (sep : ℕ)
    → 0 < length name
    → lookup name m.fields ≡ none
    → lookup name (add_header m name value sep).fields ≡ some value
unfolding add_header
add_new m name value sep h e = ground (arith, lookup-put name name value m.fields, bytes_refl name)

add_other :
    (m : HttpMessage) (name value q : Bytes) (sep : ℕ)
    → bytes_same q name ≡ false
    → lookup q (add_header m name value sep).fields ≡ lookup q m.fields
unfolding add_header
add_other m name value q sep h = elim (Option-cases (lookup name m.fields)) [
  | inl e ↦ ground (arith, e, lookup-put q name value m.fields)
  | inr (old, e) ↦ ground (
    arith,
    e,
    lookup-put q name value m.fields,
    lookup-put q name (old ++ (sep ∷ value)) m.fields,
  )
]

get_of :
    (m : HttpMessage) (name : Bytes) (o : Option Bytes)
    → 0 < length name
    → lookup name m.fields ≡ o
    → get_header m name ≡ elim o [ none ↦ [] | some value ↦ value ]
get_of m name o h e =
    get_header-lookup m name h
    ∙ ap (λ (o : Option Bytes). elim o as (λ _. Bytes) [ none ↦ [] | some value ↦ value ]) e

joined_empty : (value : Bytes) (sep : ℕ) → value ≡ joined [] value sep
joined_empty value sep = ground (arith, empty_eq value)

add_self :
    (m : HttpMessage) (name value : Bytes) (sep : ℕ)
    → 0 < length name
    → get_header (add_header m name value sep) name ≡ joined (get_header m name) value sep
add_self m name value sep h = elim (Option-cases (lookup name m.fields)) [
  | inl new ↦
      get_of (add_header m name value sep) name (some value) h (add_new m name value sep h new)
      ∙ joined_empty value sep
      ∙ ap (λ old. joined old value sep) (sym (get_of m name none h new))
  | inr (old, found) ↦
      get_of (add_header m name value sep) name (some (joined old value sep)) h
        (add_found m name value old sep h found)
      ∙ ap (λ old. joined old value sep) (sym (get_of m name (some old) h found))
]

-- `AddHeader` of a name that is not empty: the value comes behind that of the field, with the
-- separator between them where neither is empty, and every other field is as it was.
pub get_header-add_header :
    (m : HttpMessage) (name value q : Bytes) (sep : ℕ)
    → 0 < length name
    → get_header (add_header m name value sep) q
      ≡ (if bytes_same q name then joined (get_header m name) value sep else get_header m q)
unfolding get_header
get_header-add_header m name value q sep h = elim (Bool-cases (bytes_same q name)) [
  | inl e ↦ rw e (
      ap (λ k. get_header (add_header m name value sep) k) (bytes_sound q name e)
      ∙ add_self m name value sep h)
  | inr e ↦ rw (e, add_other m name value q sep e) refl
]
