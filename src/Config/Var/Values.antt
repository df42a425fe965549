-- ===== src/Config/Var/Values.antt =====
-- The values of a `ConfigVar` (PL/Config.cpp): what `append` stores and `GetListValue` finds.
use native.Mathlib.Nat.{zero-add}
use network_etc.Base.{
  ℕ, zero, suc, ◌+◌, ◌≡◌, ◌≢◌, refl, ap, ◌∙◌, List, [], ◌∷◌, ◌++◌, append_assoc, append-nil, Bytes,
  length, drop, get_or, All, leb, if◌then◌else◌, arith,
}
use network_etc.Config.Var.{
  ConfigVar, new, append, c_string, next_value, advance, get_list_num, get_list_value,
}

abbrev pub append_all : ConfigVar → List Bytes → ConfigVar
append_all v [] = v
append_all v (t ∷ ts) = append_all (append v t) ts

-- A C string of its full length.
abbrev pub NoNul : Bytes → Type 0
NoNul = All (λ c. c ≢ 0)

joined : List Bytes → Bytes
joined [] = []
joined (t ∷ ts) = t ++ (0 ∷ joined ts)

append_all-value :
    (v : ConfigVar) (ts : List Bytes) → (append_all v ts).value ≡ v.value ++ joined ts
unfolding append joined
append_all-value v [] = rw append-nil
append_all-value v (t ∷ ts) =
    append_all-value (append v t) ts
    ∙ append_assoc v.value (t ++ 0 ∷ []) (joined ts)
    ∙ ap (λ s. v.value ++ s) (append_assoc t (0 ∷ []) (joined ts))

append_all-numelem :
    (v : ConfigVar) (ts : List Bytes) → (append_all v ts).numelem ≡ v.numelem + length ts
unfolding append
append_all-numelem v [] = omega arith
append_all-numelem v (t ∷ ts) = omega (arith, append_all-numelem (append v t) ts)

append_all-name : (v : ConfigVar) (ts : List Bytes) → (append_all v ts).name ≡ v.name
unfolding append
append_all-name v [] = refl
append_all-name v (t ∷ ts) = append_all-name (append v t) ts

pub append_all-new_name : (name : Bytes) (ts : List Bytes) → (append_all (new name) ts).name ≡ name
unfolding new
append_all-new_name name ts = append_all-name (new name) ts

c_string-nul : (t rest : Bytes) → NoNul t → c_string (t ++ (0 ∷ rest)) ≡ t
unfolding c_string
c_string-nul [] rest h = refl
c_string-nul (c ∷ t) rest (hc, h) = ground (arith, c_string-nul t rest h)

drop_string : (t rest : Bytes) → drop (length t + 1) (t ++ (0 ∷ rest)) ≡ rest
drop_string [] rest = refl
drop_string (c ∷ t) rest = ground (arith, drop_string t rest)

next_value-joined :
    (t : Bytes) (ts : List Bytes) → NoNul t → next_value (joined (t ∷ ts)) ≡ joined ts
unfolding next_value joined
next_value-joined t ts h = rw (c_string-nul t (joined ts) h) (drop_string t (joined ts))

-- The loop of `GetListValue` stops at the value that it is asked for.
value_at :
    (ts : List Bytes) (i : ℕ) (d : Bytes)
    → All NoNul ts
    → (if leb (length ts) i then d else c_string (advance i (joined ts))) ≡ get_or ts i d
unfolding advance joined
value_at [] i d h = ground arith
value_at (t ∷ ts) zero d (ht, h) = ground (arith, c_string-nul t (joined ts) ht)
value_at (t ∷ ts) (suc i) d (ht, h) = ground (arith, next_value-joined t ts ht, value_at ts i d h)

-- The values are found by their number, in the order in which they were appended; from their
-- count on, the answer is the default.
pub get_list_value-append_all :
    (name : Bytes) (ts : List Bytes) (i : ℕ) (d : Bytes)
    → All NoNul ts
    → get_list_value (append_all (new name) ts) i d ≡ get_or ts i d
unfolding get_list_value new
get_list_value-append_all name ts i d h =
    rw (append_all-numelem (new name) ts)
      (rw (append_all-value (new name) ts) (rw (zero-add (length ts)) (value_at ts i d h)))

pub get_list_num-append_all :
    (name : Bytes) (ts : List Bytes) → get_list_num (append_all (new name) ts) ≡ length ts
unfolding get_list_num new
get_list_num-append_all name ts = omega (arith, append_all-numelem (new name) ts)
