-- ===== src/Config/Var.antt =====
-- `ConfigVar` of PL/Config.cpp. `value` holds the values one behind another, each with its NUL.
pub mod Names
pub mod Values
pub mod Numbers
use network_etc.Base.{
  ℕ, zero, suc, ◌+◌, ◌-◌, ◌*◌, ◌%◌, ◌≡◌, refl, Bool, true, false, ◌&&◌, ◌||◌, [], ◌∷◌, ◌++◌, Bytes,
  length, drop, codes, leb, ◌==◌, if◌then◌else◌, u32, u64,
}
use network_etc.Text.{strntoint64, strntouint64, digits_loop}

pub record ConfigVar : Type 0 where
  pub name : Bytes
  pub numelem : ℕ
  pub value : Bytes

unfoldable pub new : Bytes → ConfigVar
new name = record { name = name; numelem = 0; value = [] }

unfoldable pub append : ConfigVar → Bytes → ConfigVar
append v value = record v { numelem = v.numelem + 1; value = v.value ++ (value ++ 0 ∷ []) }

-- `strncmp(a, b, n) == 0` for C strings of which `a` has at least `n` bytes, `n` being its length.
pub strncmp_same : Bytes → Bytes → Bool
strncmp_same [] b = true
strncmp_same (c ∷ a) [] = false
strncmp_same (c ∷ a) (d ∷ b) = c == d && strncmp_same a b

unfoldable pub name_equals : ConfigVar → Bytes → Bool
name_equals v name = strncmp_same v.name name

-- `strcmp(a, b) == 0`
pub strcmp_same : Bytes → Bytes → Bool
strcmp_same [] [] = true
strcmp_same [] (d ∷ b) = false
strcmp_same (c ∷ a) [] = false
strcmp_same (c ∷ a) (d ∷ b) = c == d && strcmp_same a b

-- The C string that starts here; `c_str()` puts a NUL behind the last byte.
pub c_string : Bytes → Bytes
c_string [] = []
c_string (c ∷ s) = if c == 0 then [] else c ∷ c_string s

-- `p += strlen(p) + 1`
pub next_value : Bytes → Bytes
unfolding c_string
next_value p = drop (length (c_string p) + 1) p

last_before_nul : Bytes → ℕ
last_before_nul [] = 0
last_before_nul (c ∷ []) = 0
last_before_nul (c ∷ d ∷ []) = c
last_before_nul (c ∷ d ∷ e ∷ s) = last_before_nul (d ∷ e ∷ s)

-- The `int` as its bit pattern. The products wrap, as the compiled code does.
pub get_int_value : ConfigVar → ℕ
unfolding last_before_nul
get_int_value v =
    let (n, nread) = strntoint64 v.value in
    let ret = n % u32 in
    let last = last_before_nul v.value in
    if nread + 2 == length v.value
    then if last == b'K'
      then ret * 1000 % u32
      else if last == b'M'
      then ret * 1000000 % u32
      else if last == b'G'
      then ret * 1000000000 % u32
      else ret
    else ret

unfoldable pub get_value : ConfigVar → Bytes
get_value v = c_string v.value

unfoldable pub get_bool_value : ConfigVar → Bool → Bool
unfolding strcmp_same c_string
get_bool_value v defval =
    let text = c_string v.value in
    if strcmp_same text (codes "yes")
      || strcmp_same text (codes "true")
      || strcmp_same text (codes "on")
    then true
    else if strcmp_same text (codes "no")
        || strcmp_same text (codes "false")
        || strcmp_same text (codes "off")
    then false
    else defval

unfoldable pub get_list_num : ConfigVar → ℕ
get_list_num v = v.numelem

-- The `for` over `num`.
pub advance : ℕ → Bytes → Bytes
unfolding next_value
advance zero p = p
advance (suc i) p = advance i (next_value p)

-- `num` is what the callers pass, from 0 on.
unfoldable pub get_list_value : ConfigVar → ℕ → Bytes → Bytes
unfolding advance c_string
get_list_value v num defval = if leb v.numelem num then defval else c_string (advance num v.value)

get_list_value_runs :
    get_list_value (append (append (new (codes "a")) (codes "x")) (codes "yz")) 1 [] ≡ codes "yz"
unfolding get_list_value new append
get_list_value_runs = refl

get_int_value_runs : get_int_value (append (new (codes "a")) (codes "12K")) ≡ 12000
unfolding get_int_value new append strntoint64 digits_loop
get_int_value_runs = refl
