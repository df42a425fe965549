-- ===== src/Imf.antt =====
-- `CIMFHeader` of HTTP/IMF.cpp: the fields of a message header. The memory from `buf` on is a list
-- of bytes, and a pointer into it its offset; `none` is NULL. The memory is longer than the text by
-- what follows it, since `SeekCrlf` looks one byte ahead.
pub mod Bounds
pub mod Growing
pub mod StartLine
use network_etc.Base.{
  ℕ, zero, suc, ◌+◌, ◌-◌, ◌*◌, ◌≡◌, refl, Bool, true, false, not, ◌&&◌, ◌||◌, Option, none, some,
  List, [], ◌∷◌, ◌++◌, Bytes, length, take, drop, get_or, codes, ltb, leb, ◌==◌, if◌then◌else◌,
}

abbrev pub at : Bytes → ℕ → ℕ
at memory p = get_or memory p 0

module _ {ℓ} {A : Type ℓ} where
  -- A write behind the end changes nothing here.
  abbrev pub set : List A → ℕ → A → List A
  set [] i v = []
  set (x ∷ xs) zero v = v ∷ xs
  set (x ∷ xs) (suc i) v = x ∷ set xs i v

-- `*p && *p <= ' '` for a signed char.
abbrev pub is_blank : ℕ → Bool
is_blank c = not (c == 0) && (leb c b' ' || leb 128 c)

-- The loops count `len` down; at 0 they answer NULL.
unfoldable pub skip_whitespace : Bytes → ℕ → ℕ → Option ℕ
skip_whitespace memory p zero = none
skip_whitespace memory p (suc len) =
    let rest = skip_whitespace memory (p + 1) len in
    if is_blank (at memory p) then rest else if at memory p == 0 then none else some p

unfoldable pub skip_ends : Bytes → ℕ → ℕ → Option ℕ
skip_ends memory p zero = none
skip_ends memory p (suc len) =
    let rest = skip_ends memory (p + 1) len in
    if at memory p == 13 || at memory p == 10
    then rest
    else if at memory p == 0
    then none
    else some p

unfoldable pub skip_crlf : Bytes → ℕ → ℕ → Option ℕ
unfolding skip_ends
skip_crlf memory p len = if ltb len 2 then none else skip_ends memory p len

-- `p[0] != CR && p[1] != LF`, as the source has it.
unfoldable pub seek_ends : Bytes → ℕ → ℕ → Option ℕ
seek_ends memory p zero = none
seek_ends memory p (suc len) =
    let rest = seek_ends memory (p + 1) len in
    if at memory p == 0
    then none
    else if not (at memory p == 13) && not (at memory (p + 1) == 10)
    then rest
    else some p

unfoldable pub seek_crlf : Bytes → ℕ → ℕ → Option ℕ
unfolding seek_ends
seek_crlf memory p len = if ltb len 2 then none else seek_ends memory p len

unfoldable pub seek_char : Bytes → ℕ → ℕ → ℕ → Option ℕ
seek_char memory p zero c = none
seek_char memory p (suc len) c =
    let rest = seek_char memory (p + 1) len c in
    if at memory p == 0 then none else if at memory p == c then some p else rest

pub record KeyValue : Type 0 where
  pub key_start : ℕ
  pub key_length : ℕ
  pub value_start : ℕ
  pub value_length : ℕ

-- `miHeaderSize`, `miCapHeaderSize` and `mpoHeaders`.
pub record Header : Type 0 where
  pub size : ℕ
  pub cap : ℕ
  pub table : List KeyValue

-- KEYVAL_BUFFER_SIZE
abbrev pub buffer_size : ℕ
buffer_size = 16

-- What the members start from: no fields, and the array in the object, whatever it holds.
unfoldable pub init : List KeyValue → Header
init array = record { size = 0; cap = buffer_size; table = array }

-- The variables of `Parse`: `nkv` counts the fields, and `size` of the header stays till the end.
pub record Parse : Type 0 where
  pub memory : Bytes
  pub pos : ℕ
  pub nkv : ℕ
  pub header : Header

-- `GetmpoHeaders`; `new KeyValue[n]` gives `n` elements of whatever content.
module _ (alloc : ℕ → List KeyValue) where
  unfoldable pub get_headers : Header → ℕ → Header
  get_headers h new_size = if ltb new_size h.cap then h else record h {
    cap = h.cap * 2;
    table = take h.size h.table ++ drop h.size (alloc (h.cap * 2));
  }

  -- The field with its key at `pos`, its colon at `q`, and its value from `v` to `e`.
  store : Parse → Bytes → ℕ → ℕ → ℕ → Parse
  store s memory q v e =
      let h = get_headers s.header s.nkv in
      record {
        memory = set memory e 0;
        pos = e + 2;
        nkv = s.nkv + 1;
        header = record h {
          table = set h.table s.nkv (record {
            key_start = s.pos;
            key_length = q - s.pos;
            value_start = v;
            value_length = e - v;
          });
        };
      }

  -- What `Parse` does with each pointer that it gets; `false` leaves the loop.
  at_end : Parse → Bytes → ℕ → ℕ → Option ℕ → Parse × Bool
  unfolding store
  at_end s memory q v none = (record s { memory = memory }, false)
  at_end s memory q v (some e) = (store s memory q v e, true)

  at_value : ℕ → Parse → Bytes → ℕ → Option ℕ → Parse × Bool
  unfolding at_end
  at_value len s memory q none = (record s { memory = memory }, false)
  at_value len s memory q (some v) = at_end s memory q v (seek_crlf memory v (len - v))

  at_colon : ℕ → Parse → Option ℕ → Parse × Bool
  unfolding at_value
  at_colon len s none = (s, false)
  at_colon len s (some q) =
      let memory = set s.memory q 0 in
      at_value len s memory q (skip_whitespace memory (q + 1) (len - (q + 1)))

  -- A round of the loop.
  unfoldable pub field : ℕ → Parse → Parse × Bool
  unfolding at_colon
  field len s = at_colon len s (seek_char s.memory s.pos (len - s.pos) b':')

  -- The loop; `none` means no fuel.
  pub fields : ℕ → ℕ → Parse → Option Parse
  unfolding field
  fields zero len s = none
  fields (suc fuel) len s =
      let r = field len s in
      let rest = fields fuel len r.0 in
      if ltb s.pos len then (if r.1 then rest else some r.0) else some s

  finish : Option Parse → Option (Header × Bytes × Option ℕ)
  finish none = none
  finish (some s) = some (record s.header { size = s.nkv }, s.memory, some s.pos)

  parse_from : Header → Bytes → ℕ → Option ℕ → Option (Header × Bytes × Option ℕ)
  unfolding finish
  parse_from h memory len none = some (h, memory, none)
  parse_from h memory len (some p) =
      finish (fields (suc len) len (record { memory = memory; pos = p; nkv = h.size; header = h }))

  -- `Parse`: the header and the memory that it leaves, and its answer, where `none` is -1. The outer
  -- `none` would be a lack of fuel.
  pub parse : Header → Bytes → ℕ → ℕ → Option (Header × Bytes × Option ℕ)
  unfolding parse_from
  parse h memory len offs = parse_from h memory len (skip_crlf memory offs (len - offs))

abbrev lower : ℕ → ℕ
lower c = if leb b'A' c && leb c b'Z' then c + 32 else c

-- `strncasecmp(key, p, n) == 0`; behind its end the key is 0.
pub strncasecmp_same : ℕ → Bytes → ℕ → Bytes → ℕ → Bool
strncasecmp_same zero key i memory p = true
strncasecmp_same (suc n) key i memory p =
    let rest = strncasecmp_same n key (i + 1) memory (p + 1) in
    if lower (at key i) == lower (at memory p)
    then (if at key i == 0 then true else rest)
    else false

-- `GetField` over the fields: where the value of the first that matches starts.
pub find_field : List KeyValue → Bytes → Bytes → Option ℕ
unfolding strncasecmp_same
find_field [] memory key = none
find_field (kv ∷ kvs) memory key =
    if strncasecmp_same kv.key_length key 0 memory kv.key_start
    then some kv.value_start
    else find_field kvs memory key

unfoldable pub get_field : Header → Bytes → Bytes → Option ℕ
unfolding find_field
get_field h memory key = find_field (take h.size h.table) memory key
