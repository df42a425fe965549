-- ===== src/Config/Var/Names.antt =====
-- `ConfigVar::NameEquals` of PL/Config.cpp compares as many bytes as the variable's own name has.
use network_etc.Base.{◌≡◌, ◌↔◌, refl, true, [], ◌∷◌, ◌++◌, Bytes, arith}
use network_etc.Config.Var.{ConfigVar, strncmp_same, name_equals}

-- The name of the variable is how the name begins that is asked for.
abbrev pub Begins : Bytes → Bytes → Type 0
Begins a name = (rest : Bytes) × (name ≡ a ++ rest)

strncmp_same-append : (a rest : Bytes) → strncmp_same a (a ++ rest) ≡ true
unfolding strncmp_same
strncmp_same-append [] rest = refl
strncmp_same-append (c ∷ a) rest = ground (arith, strncmp_same-append a rest)

strncmp_same-Begins : (a b : Bytes) → strncmp_same a b ≡ true → Begins a b
unfolding strncmp_same
strncmp_same-Begins [] b h = (b, refl)
strncmp_same-Begins (c ∷ a) [] h = cc
strncmp_same-Begins (c ∷ a) (d ∷ b) h =
    let (rest, e) = strncmp_same-Begins a b (ground arith) in (rest, ground arith)

pub name_equals_iff :
    (v : ConfigVar) (name : Bytes) → (name_equals v name ≡ true) ↔ Begins v.name name
unfolding name_equals
name_equals_iff v name =
    (strncmp_same-Begins v.name name, λ (rest, e). rw e (strncmp_same-append v.name rest))
