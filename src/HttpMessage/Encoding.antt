-- ===== src/HttpMessage/Encoding.antt =====
-- `EncodeMessage` into a block that nothing has been read from: the text of the message, or nothing.
use network_etc.Base.{
  ℕ, ◌+◌, ◌-◌, ◌≤◌, ◌<◌, ◌≡◌, ◌∙◌, refl, ap, Option, some, [], ◌∷◌, ◌++◌, Bytes, length, take, drop,
  arith, append_assoc, length-append, ltb, ◌==◌, false, true,
}
use native.Mathlib.Decide.{dec_lt}
use network_etc.Memblock
use network_etc.Memblock.{Memblock}
use network_etc.Memblock.Contents.{IsValid, splice_lem, length-splice}
use network_etc.HttpMessage.{
  HttpMessage, Result, too_big, ok, crlf, start_line, encode_start_line, with_length, finish,
  finish_header, encode_header,
}
use network_etc.HttpMessage.Printing.{
  front, print_fits, print_cut, take_less, take_back, fields_text, Filled, fits, cut,
  encode_fields-Filled,
}

-- A valid block that nothing has been read from.
pub record IsFresh (b : Memblock) : Type 0 where
  pub valid : IsValid b
  pub unread : b.read_pt ≡ 0
  pub some_room : 0 < b.capacity

-- From `b` to `b'` the text was written behind the bytes that were there.
pub record Wrote (b : Memblock) (text : Bytes) (b' : Memblock) : Type 0 where
  pub fresh : IsFresh b'
  pub capacity : b'.capacity ≡ b.capacity
  pub end : b'.write_pt ≡ b.write_pt + length text
  pub held : take b'.write_pt b'.store ≡ take b.write_pt b.store ++ text

-- Nothing in front of the write pointer of `b` has changed.
pub record Kept (b b' : Memblock) : Type 0 where
  pub allocated : length b'.store ≡ b'.capacity
  pub unread : b'.read_pt ≡ 0
  pub capacity : b'.capacity ≡ b.capacity
  pub held : take b.write_pt b'.store ≡ take b.write_pt b.store

pub Wrote-trans :
    {b b' b'' : Memblock} {s t : Bytes} → Wrote b s b' → Wrote b' t b'' → Wrote b (s ++ t) b''
Wrote-trans {b} {s = s} {t = t} v w = record {
  fresh = w.fresh;
  capacity = w.capacity ∙ v.capacity;
  end = omega (arith, v.end, w.end, length-append s t);
  held = w.held ∙ ap (λ l. l ++ t) v.held ∙ append_assoc (take b.write_pt b.store) s t;
}

pub Wrote-Kept :
    {b b' b'' : Memblock} {s : Bytes} → IsFresh b → Wrote b s b' → Kept b' b'' → Kept b b''
Wrote-Kept {b} {b'} {b''} {s} f v k = record {
  allocated = k.allocated;
  unread = k.unread;
  capacity = k.capacity ∙ v.capacity;
  held =
      take_less b.write_pt b'.write_pt b''.store b'.store (omega (arith, v.end)) k.held
      ∙ take_back b.write_pt b'.write_pt b'.store b.store s (omega (arith, v.end))
          (omega (arith, f.valid.allocated, f.valid.fits)) v.held;
}

pub set_write_at_lem :
    (b : Memblock) (p : ℕ)
    → b.read_pt ≤ p
    → p ≤ b.capacity
    → (Memblock.set_write_at b p).0 ≡ record b { write_pt = p; size = p - b.read_pt }
unfolding Memblock.set_write_at
set_write_at_lem b p h k = ground arith

-- `SetWrite(char*)` behind what was printed.
advance :
    (b : Memblock) (s : Bytes) (text : Bytes)
    → IsFresh b
    → length s ≡ length b.store
    → b.write_pt + length text ≤ b.capacity
    → take (b.write_pt + length text) s ≡ take b.write_pt b.store ++ text
    → Wrote b text (Memblock.set_write_at (record b { store = s }) (b.write_pt + length text)).0
advance b s text f n room held =
    rw
      (set_write_at_lem (record b { store = s }) (b.write_pt + length text)
        (omega (arith, f.unread)) room)
      (record {
        fresh = record {
          valid = record {
            allocated = n ∙ f.valid.allocated;
            spans = omega (arith, f.unread);
            fits = room;
          };
          unread = f.unread;
          some_room = f.some_room;
        };
        capacity = refl;
        end = refl;
        held = held;
      })

kept :
    (b : Memblock) (s : Bytes)
    → IsFresh b
    → length s ≡ length b.store
    → take b.write_pt s ≡ take b.write_pt b.store
    → Kept b (record b { store = s })
kept b s f n same = record {
  allocated = n ∙ f.valid.allocated;
  unread = f.unread;
  capacity = refl;
  held = same;
}

-- What becomes of a text: it is written if there is room for it and a zero.
pub data Outcome (b : Memblock) (text : Bytes) (b' : Memblock) (r : Result) : Type 0 where
  wrote : b.write_pt + length text < b.capacity → r ≡ ok 0 → Wrote b text b' → Outcome b text b' r
  refused : b.capacity ≤ b.write_pt + length text → r ≡ too_big → Kept b b' → Outcome b text b' r

space_lem : (b : Memblock) → IsFresh b → Memblock.get_space b ≡ b.capacity - b.write_pt
unfolding Memblock.get_space
space_lem b f = omega (arith, f.unread, f.valid.spans)

pub not_null : (b : Memblock) → IsFresh b → (b.capacity == 0) ≡ false
not_null b f = ground (arith, f.some_room)

pub encode_start_line-Outcome :
    (m : HttpMessage) (b : Memblock) (text : Bytes)
    → IsFresh b
    → start_line m.kind m.version ≡ some text
    → (b' : Memblock) × (r : Result) × (encode_start_line m b ≡ some (b', r)) × Outcome b text b' r
unfolding encode_start_line
encode_start_line-Outcome m b text f e =
    let room = b.capacity - b.write_pt in
    elim (dec_lt (length text) room) [
      | yes h ↦
          let (s, p, n, same) =
            print_fits b.store b.write_pt room text h
              (omega (arith, f.valid.allocated, f.valid.fits)) in
          let test : ltb room (length text + 1) ≡ false = ground arith in
          (
            _,
            ok 0,
            rw (e, encode_start_line) (rw (not_null b f, space_lem b f, p, test) refl),
            wrote (omega arith) refl (advance b s text f n (omega arith) same),
          )
      | no h ↦
          let (s, p, n, same) =
            print_cut b.store b.write_pt room text
              (omega (arith, f.valid.allocated, f.valid.fits)) in
          let test : ltb room (length text + 1) ≡ true = ground arith in
          (
            _,
            too_big,
            rw (e, encode_start_line) (rw (not_null b f, space_lem b f, p, test) refl),
            refused (omega arith) refl (kept b s f n same),
          )
    ]

finish-Outcome :
    (b : Memblock) (s text : Bytes) (cur : ℕ)
    → IsFresh b
    → length s ≡ length b.store
    → cur ≡ b.write_pt + length text
    → cur ≤ b.capacity
    → take cur s ≡ take b.write_pt b.store ++ text
    → (b' : Memblock) × (r : Result) × (finish b s cur b.capacity ≡ some (b', r))
      × Outcome b (text ++ crlf) b' r
unfolding finish
finish-Outcome b s text cur f n at room held = elim (dec_lt (b.capacity - cur) 3) [
  | yes h ↦
      let test : ltb (b.capacity - cur) 3 ≡ true = ground arith in
      (
        _,
        too_big,
        rw (test) refl,
        refused (omega (arith, length-append text crlf)) refl (
            kept b s f n (
              take_back b.write_pt cur s b.store text (omega arith)
                (omega (arith, f.valid.allocated, f.valid.fits)) held)),
      )
  | no h ↦
      let test : ltb (b.capacity - cur) 3 ≡ false = ground arith in
      let out : Bytes = 13 ∷ 10 ∷ 0 ∷ [] in
      let fit : cur + length out ≤ length s = omega (arith, f.valid.allocated) in
      let s' = take cur s ++ (out ++ drop (cur + length out) s) in
      let here : cur + 2 ≡ b.write_pt + length (text ++ crlf) =
        omega (arith, length-append text crlf) in
      let held' : take (b.write_pt + length (text ++ crlf)) s'
          ≡ take b.write_pt b.store ++ (text ++ crlf) =
        rw (← here) (
          front s cur crlf (0 ∷ drop (cur + 3) s) (omega arith)
          ∙ ap (λ l. l ++ crlf) held
          ∙ append_assoc (take b.write_pt b.store) text crlf) in
      (
        (Memblock.set_write_at (record b { store = s' }) (b.write_pt + length (text ++ crlf))).0,
        ok 0,
        rw (test, splice_lem s cur out fit, here) refl,
        wrote (omega (arith, length-append text crlf)) refl
            (advance b s' (text ++ crlf) f (length-splice s cur out fit ∙ n) (omega arith) held'),
      )
]

finish_header-Outcome :
    (m : HttpMessage) (b : Memblock) (text s : Bytes) (r : Option ℕ)
    → IsFresh b
    → length s ≡ length b.store
    → Filled b.store b.write_pt b.capacity text s r
    → (b' : Memblock) × (r' : Result) × (finish_header m b b.capacity (s, r) ≡ some (m, b', r'))
      × Outcome b (text ++ crlf) b' r'
unfolding finish_header
finish_header-Outcome m b text s r f n (fits room found same) =
    let (b', r', e, o) = finish-Outcome b s text (b.write_pt + length text) f n refl room same in
    (b', r', rw (found, e) refl, o)
finish_header-Outcome m b text s r f n (cut full lost same) = (
  record b { store = s },
  too_big,
  rw lost refl,
  refused (omega (arith, length-append text crlf)) refl (kept b s f n same),
)

pub encode_header-Outcome :
    (m : HttpMessage) (b : Memblock)
    → IsFresh b
    → (b' : Memblock) × (r : Result) × (encode_header m b ≡ some (with_length m, b', r))
      × Outcome b (fields_text (with_length m).fields ++ crlf) b' r
unfolding encode_header
encode_header-Outcome m b f =
    let m' = with_length m in
    let end : b.write_pt + (b.capacity - b.write_pt) ≡ b.capacity = omega (arith, f.valid.fits) in
    let (s, r, e, n, filled) =
      encode_fields-Filled m'.fields b.store b.write_pt b.capacity (omega (arith, f.valid.fits))
        (omega (arith, f.valid.allocated)) in
    let (b', r', e', o) = finish_header-Outcome m' b (fields_text m'.fields) s r f n filled in
    (b', r', rw (not_null b f, space_lem b f, end, e) e', o)
