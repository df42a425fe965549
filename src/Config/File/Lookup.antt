-- ===== src/Config/File/Lookup.antt =====
-- The lookups of PL/Config.cpp: which variable a name finds, and what a loaded file answers.
use network_etc.Base.{
  ℕ, ◌≡◌, ◌⊎◌, ◌↔◌, refl, ap, true, some, List, [], ◌∷◌, ◌++◌, map, append-nil, sym, Bytes, length,
  get_or, All, Bool-cases, inl, inr, arith,
}
use network_etc.Config.Var.{ConfigVar, new, name_equals}
use network_etc.Config.Var.Names.{Begins, name_equals_iff}
use network_etc.Config.Var.Values.{
  append_all, append_all-new_name, NoNul, get_list_value-append_all, get_list_num-append_all,
}
use network_etc.Config.File.{get_var, get_list_num, get_list_value, init}
use network_etc.Config.File.Lines.{Entry, var_of, IsEntry, print_file, init-print}

-- The first variable in the list whose name is how `name` begins.
abbrev pub FirstMatch : List ConfigVar → Bytes → ConfigVar → Type 0
FirstMatch [] name v = ⊥
FirstMatch (w ∷ vars) name v =
    (Begins w.name name × (w ≡ v)) ⊎ ((¬ Begins w.name name) × FirstMatch vars name v)

get_var-FirstMatch :
    (vars : List ConfigVar) (name : Bytes) (v : ConfigVar)
    → get_var vars name ≡ some v
    → FirstMatch vars name v
unfolding get_var
get_var-FirstMatch [] name v h = cc
get_var-FirstMatch (w ∷ vars) name v h = elim (Bool-cases (name_equals w name)) [
  | inl same ↦ inl ((name_equals_iff w name).0 same, ground arith)
  | inr other ↦ inr (
    λ b. let t : name_equals w name ≡ true = (name_equals_iff w name).1 b in cc,
    get_var-FirstMatch vars name v (ground arith),
  )
]

FirstMatch-get_var :
    (vars : List ConfigVar) (name : Bytes) (v : ConfigVar)
    → FirstMatch vars name v
    → get_var vars name ≡ some v
unfolding get_var
FirstMatch-get_var [] name v h = absurd h
FirstMatch-get_var (w ∷ vars) name v (inl (b, e)) = rw ((name_equals_iff w name).1 b) (ap some e)
FirstMatch-get_var (w ∷ vars) name v (inr (n, h)) = elim (Bool-cases (name_equals w name)) [
  | inl same ↦ absurd (n ((name_equals_iff w name).0 same))
  | inr other ↦ rw other (FirstMatch-get_var vars name v h)
]

-- The lookup finds the first variable whose own name is how the asked name begins, and no other:
-- it need not have the asked name.
pub get_var_iff :
    (vars : List ConfigVar) (name : Bytes) (v : ConfigVar)
    → (get_var vars name ≡ some v) ↔ FirstMatch vars name v
get_var_iff vars name v = (get_var-FirstMatch vars name v, FirstMatch-get_var vars name v)

-- No entry has a name with which `name` begins.
abbrev pub Clear : Bytes → List Entry → Type 0
Clear name = All (λ e. ¬ Begins e.0 name)

FirstMatch-entries :
    (before after : List Entry) (name : Bytes) (ts : List Bytes)
    → Clear name before
    → FirstMatch (map var_of (before ++ ((name, ts) ∷ after))) name (append_all (new name) ts)
FirstMatch-entries [] after name ts h =
    inl (rw (append_all-new_name name ts) ([], sym (append-nil name)), refl)
FirstMatch-entries ((other, us) ∷ before) after name ts (n, h) =
    inr (rw (append_all-new_name other us) n, FirstMatch-entries before after name ts h)

-- The lookup of an entry's name in what the entries load to.
pub get_var-entry :
    (before after : List Entry) (name : Bytes) (ts : List Bytes)
    → Clear name before
    → get_var (map var_of (before ++ ((name, ts) ∷ after))) name ≡ some (append_all (new name) ts)
get_var-entry before after name ts clear =
    FirstMatch-get_var _ name _ (FirstMatch-entries before after name ts clear)

-- A file of printed entries, `name= "value","value"`, where each name is a word of the parser, no value
-- begins with a comma or has a quote or a line end in it, and each line with its end is at most 1022
-- bytes, answers for an entry whose name no earlier name begins and whose values have no zero byte:
-- `GetListNum` is the number of its values, and `GetListValue` gives each of them, and the default
-- beyond.
pub init-get_list_value :
    (before after : List Entry) (name : Bytes) (ts : List Bytes) (buffer : Bytes)
    → All IsEntry (before ++ ((name, ts) ∷ after))
    → Clear name before
    → All NoNul ts
    → (vars : List ConfigVar) × (init (some (print_file (before ++ ((name, ts) ∷ after)))) buffer []
        ≡ some (vars, true))
      × (get_list_num vars name ≡ length ts)
      × ((i : ℕ) (d : Bytes) → get_list_value vars name i d ≡ get_or ts i d)
unfolding get_list_num get_list_value
init-get_list_value before after name ts buffer valid clear text =
    let vars = map var_of (before ++ ((name, ts) ∷ after)) in
    let found : get_var vars name ≡ some (append_all (new name) ts) =
      get_var-entry before after name ts clear in
    (
      vars,
      init-print (before ++ ((name, ts) ∷ after)) buffer [] valid,
      rw found (get_list_num-append_all name ts),
      λ i d. rw found (get_list_value-append_all name ts i d text),
    )
