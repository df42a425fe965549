-- ===== src/Imf/Growing.antt =====
-- What `GetmpoHeaders` of HTTP/IMF.cpp does to the fields of the parse that calls it.
use network_etc.Base.{
  ℕ, zero, suc, ◌+◌, ◌-◌, ◌*◌, ◌≤◌, ◌≡◌, refl, ap, true, Option, none, some, List, [], ◌∷◌, Bytes,
  take, ltb, false, arith,
}
use network_etc.Imf.{
  skip_whitespace, seek_crlf, seek_char, KeyValue, Parse, set, get_headers, store, at_end, at_value,
  at_colon, field,
}

take-set_behind :
    (l : List KeyValue) (i j : ℕ) (v : KeyValue) → i ≤ j → take i (set l j v) ≡ take i l
take-set_behind l zero j v h = refl
take-set_behind [] (suc i) j v h = refl
take-set_behind (x ∷ l) (suc i) zero v h = absurd (omega arith)
take-set_behind (x ∷ l) (suc i) (suc j) v h =
    ap (λ m. x ∷ m) (take-set_behind l i j v (omega arith))

module _ (alloc : ℕ → List KeyValue) (len : ℕ) (s : Parse) (nothing : s.header.size ≡ 0)
    (full : s.header.cap ≡ s.nkv) where
  grown_table : (get_headers alloc s.header s.nkv).table ≡ alloc (s.nkv * 2)
  unfolding get_headers
  grown_table =
      let test : ltb s.nkv s.header.cap ≡ false = ground arith in
      rw test (rw nothing (ap (λ n. alloc (n * 2)) full))

  store_growth :
      (memory : Bytes) (q v e : ℕ)
      → take s.nkv (store alloc s memory q v e).header.table ≡ take s.nkv (alloc (s.nkv * 2))
  unfolding store
  store_growth memory q v e =
      rw grown_table (take-set_behind (alloc (s.nkv * 2)) s.nkv s.nkv _ (omega arith))

  end_growth :
      (memory : Bytes) (q v : ℕ) (found : Option ℕ)
      → (at_end alloc s memory q v found).1 ≡ true
      → take s.nkv (at_end alloc s memory q v found).0.header.table ≡ take s.nkv (alloc (s.nkv * 2))
  unfolding at_end
  end_growth memory q v none h = cc
  end_growth memory q v (some e) h = store_growth memory q v e

  value_growth :
      (memory : Bytes) (q : ℕ) (found : Option ℕ)
      → (at_value alloc len s memory q found).1 ≡ true
      → take s.nkv (at_value alloc len s memory q found).0.header.table
        ≡ take s.nkv (alloc (s.nkv * 2))
  unfolding at_value
  value_growth memory q none h = cc
  value_growth memory q (some v) h = end_growth memory q v (seek_crlf memory v (len - v)) h

  colon_growth :
      (found : Option ℕ)
      → (at_colon alloc len s found).1 ≡ true
      → take s.nkv (at_colon alloc len s found).0.header.table ≡ take s.nkv (alloc (s.nkv * 2))
  unfolding at_colon
  colon_growth none h = cc
  colon_growth (some q) h =
      let m = set s.memory q 0 in value_growth m q (skip_whitespace m (q + 1) (len - (q + 1))) h

  -- In the first parse of an object, where the array is full of fields already found, the round that
  -- finds one more leaves none of them: their places hold what the new array held before.
  pub field_growth :
      (field alloc len s).1 ≡ true
      → take s.nkv (field alloc len s).0.header.table ≡ take s.nkv (alloc (s.nkv * 2))
  unfolding field
  field_growth h = colon_growth (seek_char s.memory s.pos (len - s.pos) b':') h
