-- ===== src/HttpMessage.antt =====
-- HTTPClient/HttpMessage.h and HTTPClient/HttpMessage.cpp: messages of HTTP with their header
-- fields, and their text in a block. Names, values, lines and bodies are below 2 ^ 31 bytes, so that an
-- `int` holds their lengths.
pub mod Printing
pub mod Encoding
pub mod Sending
pub mod Headers
pub mod Overrun
use network_etc.Base.{
  ℕ, zero, suc, ◌+◌, ◌-◌, ◌/◌, ◌%◌, ◌≡◌, Bool, true, false, ◌||◌, Option, none, some, List, [], ◌∷◌,
  ◌++◌, Bytes, length, take, codes, ltb, ◌==◌, if◌then◌else◌, ◌>>=◌, u32,
}
use network_etc.Base.Maps.{Map, lookup, erase, bytes_eq, bytes_same}
use network_etc.Text.{decimal}
use network_etc.Memblock
use network_etc.Memblock.{Memblock}
use network_etc.Lease.Msg.{printed}

-- The three classes behind `CHttpMessage`: method and URI, status and reason, or neither.
pub data Kind : Type 0 where
  request : Bytes → Bytes → Kind
  response : ℕ → Bytes → Kind
  invalid : Kind

-- `fields` is a `std::map`, in the order of its keys.
pub record HttpMessage : Type 0 where
  pub kind : Kind
  pub fields : Map Bytes Bytes
  pub entity : Bytes
  pub version : Bytes
  pub content_length_flag : Bool
  pub transfer_encode_flag : Bool

unfoldable pub empty : Kind → HttpMessage
empty kind = record {
  kind = kind;
  fields = [];
  entity = [];
  version = codes "1.1";
  content_length_flag = true;
  transfer_encode_flag = false;
}

-- The order of `std::string`.
abbrev pub before : Bytes → Bytes → Bool
before xs [] = false
before [] (y ∷ ys) = true
before (x ∷ xs) (y ∷ ys) = let rest = before xs ys in if x == y then rest else ltb x y

-- `moFieldList[name] = value`
abbrev pub put : Bytes → Bytes → Map Bytes Bytes → Map Bytes Bytes
put k v [] = (k, v) ∷ []
put k v ((j, w) ∷ m) =
    let rest = put k v m in
    if bytes_same k j then (k, v) ∷ m else if before k j then (k, v) ∷ (j, w) ∷ m else (j, w) ∷ rest

abbrev pub is_empty : Bytes → Bool
is_empty s = length s == 0

-- `AddHeader`
unfoldable pub add_header : HttpMessage → Bytes → Bytes → ℕ → HttpMessage
add_header m name value sep = if is_empty name then m else (elim (lookup name m.fields) [
  | none ↦ record m { fields = put name value m.fields }
  | some old ↦
      if is_empty value
      then m
      else if is_empty old
      then record m { fields = put name value m.fields }
      else record m { fields = put name (old ++ (sep ∷ value)) m.fields }
])

unfoldable pub del_header : HttpMessage → Bytes → HttpMessage
del_header m name = if is_empty name then m else record m { fields = erase name m.fields }

unfoldable pub get_header : HttpMessage → Bytes → Bytes
get_header m name =
    if is_empty name then [] else (elim (lookup name m.fields) [ none ↦ [] | some value ↦ value ])

unfoldable pub set_header : HttpMessage → Bytes → Bytes → HttpMessage
set_header m name value = if is_empty name then m else record m { fields = put name value m.fields }

unfoldable pub clear_header : HttpMessage → HttpMessage
clear_header m = record m { fields = [] }

-- `AddBody`, with the number of bytes that it adds.
unfoldable pub add_body : HttpMessage → Bytes → HttpMessage × ℕ
add_body m bytes = (record m { entity = m.entity ++ bytes }, length bytes)

unfoldable pub set_body : HttpMessage → Bytes → HttpMessage × ℕ
set_body m bytes = (record m { entity = bytes }, length bytes)

unfoldable pub clear_body : HttpMessage → HttpMessage
clear_body m = record m { entity = [] }

-- `c_str` as `%s` prints it: up to the first zero.
abbrev pub c_str : Bytes → Bytes
c_str [] = []
c_str (c ∷ s) = let rest = c_str s in if c == 0 then [] else c ∷ rest

abbrev pub crlf : Bytes
crlf = 13 ∷ 10 ∷ []

-- `%03u` of a number below 1000.
abbrev pub three_digits : ℕ → Bytes
three_digits n = (48 + n / 100) ∷ (48 + n / 10 % 10) ∷ (48 + n % 10) ∷ []

-- What the three `EncodeStartLine` print, if they do.
abbrev pub start_line : Kind → Bytes → Option Bytes
start_line (request method uri) version =
    some (c_str method ++ (32 ∷ (c_str uri ++ (codes " HTTP/" ++ (c_str version ++ crlf)))))
start_line (response status reason) version = some (
    codes "HTTP/"
    ++ (c_str version ++ (32 ∷ (three_digits (status % 1000) ++ (32 ∷ (c_str reason ++ crlf))))))
start_line invalid version = none

abbrev pub field_line : Bytes → Bytes → Bytes
field_line name value = c_str name ++ (b':' ∷ (c_str value ++ crlf))

abbrev pub content_length : Bytes
content_length = codes "Content-Length"

-- The results of the encoders: `HTTP_ERROR_INVAL`, `HTTP_ERROROOBIG`, or a number that is not below 0.
pub data Result : Type 0 where
  inval : Result
  too_big : Result
  ok : ℕ → Result

-- `snprintf` at `cur`, which is told that there is room for `space` bytes.
unfoldable pub print_at : Bytes → ℕ → ℕ → Bytes → Option Bytes
print_at store cur space text = Memblock.splice store cur (printed space text)

-- `GetWrite` is null where nothing is allocated.
abbrev pub is_null : Memblock → Bool
is_null b = b.capacity == 0

-- `EncodeStartLine`. The room is taken for `GetSpace`, which counts the bytes that were read.
unfoldable pub encode_start_line : HttpMessage → Memblock → Option (Memblock × Result)
encode_start_line m b = elim (start_line m.kind m.version) [
  | none ↦ some (b, inval)
  | some text ↦
      if is_null b
      then some (b, inval)
      else (print_at b.store b.write_pt (Memblock.get_space b) text >>= λ store.
          let b' : Memblock = record b { store = store } in
          if ltb (Memblock.get_space b) (length text + 1)
          then some (b', too_big)
          else some ((Memblock.set_write_at b' (b.write_pt + length text)).0, ok 0))
]

-- The loop over the fields, up to `end`: the store, and `lpcCur` behind the last line if they fit.
pub encode_fields : Map Bytes Bytes → Bytes → ℕ → ℕ → Option (Bytes × Option ℕ)
encode_fields [] store cur end = some (store, some cur)
encode_fields ((name, value) ∷ fields) store cur end =
    let line = field_line name value in
    print_at store cur (end - cur) line >>= λ store'.
    let rest = encode_fields fields store' (cur + length line) end in
    if ltb (end - cur) (length line + 1) then some (store', none) else rest

-- The fields with the length of the body among them.
unfoldable pub with_length : HttpMessage → HttpMessage
with_length m =
    let m' = del_header m content_length in
    let size = length m.entity in
    if m.content_length_flag
    then (if ltb 0 size then add_header m' content_length (decimal size) b',' else m')
    else m

-- The blank line behind the fields, with a zero that is not counted.
finish : Memblock → Bytes → ℕ → ℕ → Option (Memblock × Result)
finish b store cur end =
    if ltb (end - cur) 3
    then some (record b { store = store }, too_big)
    else (Memblock.splice store cur (13 ∷ 10 ∷ 0 ∷ []) >>= λ store'.
        some ((Memblock.set_write_at (record b { store = store' }) (cur + 2)).0, ok 0))

-- What is done behind the loop.
pub finish_header :
    HttpMessage → Memblock → ℕ → Bytes × Option ℕ → Option (HttpMessage × Memblock × Result)
unfolding finish
finish_header m b end (store, none) = some (m, record b { store = store }, too_big)
finish_header m b end (store, some cur) = finish b store cur end >>= λ (b', r). some (m, b', r)

unfoldable pub encode_header : HttpMessage → Memblock → Option (HttpMessage × Memblock × Result)
unfolding finish_header
encode_header m b =
    if is_null b
    then some (m, b, inval)
    else (let m' = with_length m in
        let end = b.write_pt + Memblock.get_space b in
        encode_fields m'.fields b.store b.write_pt end >>= finish_header m' b end)

-- `RestoreMBWrite`, at the pointer that `SaveMBWrite` kept.
abbrev pub restore : ℕ → HttpMessage × Memblock × Result → HttpMessage × Memblock × Result
restore start (m, b, r) = (m, (Memblock.set_write_at b start).0, r)

-- `new char[n]` gives `n` bytes of whatever content.
module _ (alloc : ℕ → Bytes) where
  -- `EncodeBody`; the size is returned as an `int`.
  unfoldable pub encode_body : HttpMessage → Memblock → Option (Memblock × Result)
  encode_body m b =
      if is_null b
      then some (b, inval)
      else (Memblock.write alloc b m.entity >>= λ b'. some (b', ok (length m.entity)))

  -- What `EncodeMessage` does behind a start line that fits. The result is the difference of two write
  -- pointers, which C++ leaves open where the body has made the block allocate anew.
  pub encode_rest : ℕ → HttpMessage → Memblock → Option (HttpMessage × Memblock × Result)
  encode_rest start m b = encode_header m b >>= λ (m', b', r). elim r [
    | ok _ ↦
        (encode_body m' b' >>= λ (b'', r'). elim r' [
          | ok _ ↦ some (m', b'', ok (b''.write_pt - start))
          | other ↦ some (restore start (m', b'', other))
        ])
    | other ↦ some (restore start (m', b', other))
  ]

  unfoldable pub encode_message : HttpMessage → Memblock → Option (HttpMessage × Memblock × Result)
  unfolding encode_rest
  encode_message m b =
      if is_null b
      then some (m, b, inval)
      else (encode_start_line m b >>= λ (b', r). elim r [
        | ok _ ↦ encode_rest b.write_pt m b'
        | other ↦ some (restore b.write_pt (m, b', other))
      ])
