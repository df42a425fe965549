-- ===== src/Chunked/Decoding.antt =====
-- `ParseChunked` of a well-formed body.
use network_etc.Base.{
  take, drop, ℕ, zero, suc, ◌+◌, ◌-◌, ◌≡◌, ◌∙◌, ◌≤◌, ◌<◌, refl, sym, ap, true, false, some, List,
  [], ◌∷◌, ◌++◌, Bytes, All, length, arith, append_assoc, length-append, ltb, ◌==◌,
  drop-append_length,
}
use network_etc.Imf
use network_etc.Imf.{skip_crlf, seek_crlf}
use network_etc.Chunked.{
  Chunk, Chunks, chunk, chunkd, hex2int, get_chunks, parse_chunks, parse_chunked,
}
use network_etc.Chunked.Steps.{
  IsPlain, at-append, at_behind, skip_crlf-stays, skip_crlf-skips, seek_crlf-line,
}
use network_etc.Chunked.Noting.{put_all, read_back}
use network_etc.Chunked.Texts.{
  line-IsPlain, hex2int-line, length-places, Part, IsPart, part_text, texts, cleared, places,
  end_of, contents_of, bodies, part-split, length-part, line-part, set-part, first-IsPlain, passed,
  passed_text, length-passed, contents_of-places, end_of_above, rounds_enough,
}

module _ (alloc : ℕ → List Chunk) where
  round :
      (fuel len pos n : ℕ) (front tail : Bytes) (p : Part) (h : Chunks)
      → IsPart p
      → skip_crlf (front ++ part_text p (13 ∷ 10 ∷ tail)) pos (len - pos) ≡ some (length front)
      → length front + length p.line + 2 ≤ len
      → n < h.cap
      → parse_chunks alloc (suc fuel) len (record {
        memory = front ++ part_text p (13 ∷ 10 ∷ tail);
        pos = pos;
        count = n;
        chunks = h;
      })
        ≡ parse_chunks alloc fuel len (record {
          memory = front ++ part_text p (0 ∷ 10 ∷ tail);
          pos = length front + length p.line + 2 + length p.body + 2;
          count = n + 1;
          chunks = record h {
            table =
                Imf.set h.table n
                  (record { start = length front + length p.line + 2; length = length p.body });
          };
        })
  unfolding parse_chunks get_chunks
  round fuel len pos n front tail p h part skip room small =
      let q = length front + length p.line in
      let seek =
        seek_crlf-line p.line front (p.body ++ (13 ∷ 10 ∷ tail)) (len - length front)
          (line-IsPlain p part) (omega arith) (omega arith) in
      let fits : ltb 9 (q - length front) ≡ false = ground (arith, part.short) in
      let there : (length p.body == 0) ≡ false = ground (arith, part.full) in
      let free : ltb n h.cap ≡ true = ground arith in
      let inside : ltb (q + 2 + length p.body) (length (front ++ part_text p (13 ∷ 10 ∷ tail)))
          ≡ true =
        ground (
          arith,
          part-split front (13 ∷ 10 ∷ tail) p,
          length-append (front ++ part_text p []) (13 ∷ 10 ∷ tail),
          length-part front p,
        ) in
      rw (skip, parse_chunks)
        (rw (seek) (
          rw (fits, line-part front (13 ∷ 10 ∷ tail) p, hex2int-line p part)
            (rw (there, inside, free, set-part front tail p) refl)))

  -- The last line.
  last_round :
      (fuel len pos n : ℕ) (front tail : Bytes) (h : Chunks)
      → skip_crlf (front ++ (48 ∷ 13 ∷ 10 ∷ tail)) pos (len - pos) ≡ some (length front)
      → length front + 3 ≤ len
      → parse_chunks alloc
          (suc fuel)
          len
          (record { memory = front ++ (48 ∷ 13 ∷ 10 ∷ tail); pos = pos; count = n; chunks = h })
        ≡ some (record {
          memory = front ++ (48 ∷ 13 ∷ 10 ∷ tail);
          pos = length front + 3;
          count = n;
          chunks = record h { finished = chunkd };
        })
  unfolding parse_chunks hex2int
  last_round fuel len pos n front tail h skip room =
      let zero_plain : All IsPlain (48 ∷ []) = (
        record {
          no_zero = λ e. omega (arith, e);
          no_cr = λ e. omega (arith, e);
          no_lf = λ e. omega (arith, e);
        },
        tt,
      ) in
      let seek =
        seek_crlf-line (48 ∷ []) front tail (len - length front) zero_plain (omega arith)
          (omega arith) in
      let one : length front + 1 - length front ≡ 1 = omega arith in
      let three : length front + 1 + 2 ≡ length front + 3 = omega arith in
      rw (skip, parse_chunks)
        (rw (seek) (rw (one, drop-append_length front (48 ∷ 13 ∷ 10 ∷ tail)) (rw three refl)))

  runs :
      (ps : List Part) (fuel len pos n : ℕ) (front tail : Bytes) (h : Chunks)
      → All IsPart ps
      → skip_crlf (front ++ texts ps tail) pos (len - pos) ≡ some (length front)
      → end_of (length front) ps ≤ len
      → n + length ps ≤ h.cap
      → length ps < fuel
      → parse_chunks alloc fuel len
          (record { memory = front ++ texts ps tail; pos = pos; count = n; chunks = h })
        ≡ some (record {
          memory = front ++ cleared ps tail;
          pos = end_of (length front) ps;
          count = n + length ps;
          chunks = record h {
            table = put_all h.table n (places (length front) ps);
            finished = chunkd;
          };
        })
  runs ps zero len pos n front tail h parts skip room small enough = absurd (omega arith)
  runs [] (suc fuel) len pos n front tail h parts skip room small enough =
      let none_more : n + 0 ≡ n = omega arith in
      rw none_more (last_round fuel len pos n front tail h skip room)
  runs (p ∷ ps) (suc fuel) len pos n front tail h (part, parts) skip room small enough =
      let behind = length front + length p.line + 2 + length p.body + 2 in
      let h' : Chunks = record h {
        table =
            Imf.set h.table n
              (record { start = length front + length p.line + 2; length = length p.body });
      } in
      let front' = passed front p in
      let n' = length-passed front p in
      let (c, first, plain) = first-IsPlain ps tail parts in
      let above = end_of_above ps behind in
      let at_next : Imf.at (front' ++ texts ps tail) behind ≡ c =
        ap (λ k. Imf.at (front' ++ texts ps tail) k) (sym n')
        ∙ at-append front' (texts ps tail)
        ∙ first in
      let skip' : skip_crlf (front' ++ texts ps tail) behind (len - behind) ≡ some (length front') =
        skip_crlf-stays (front' ++ texts ps tail) behind (len - behind) c at_next plain
          (omega arith)
        ∙ ap (λ k. some k) (sym n') in
      let ih =
        runs ps fuel len behind (n + 1) front' tail h' parts skip'
          (omega (arith, ap (λ k. end_of k ps) n')) (omega arith) (omega arith) in
      let count : n + 1 + length ps ≡ n + suc (length ps) = omega arith in
      round fuel len pos n front (texts ps tail) p h part skip (omega arith) (omega arith)
      ∙ (rw
          (
            ← passed_text front (texts ps tail) p,
            ← passed_text front (cleared ps tail) p,
            n',
            count,
          )
          at ih)

  -- `ParseChunked` from the empty line behind the header, where chunks that are not empty follow, each
  -- behind a line with the number of its bytes in hexadecimal notation, of fewer than 10 digits and
  -- below 2 ^ 31, and then a line `0`, all within the text, and the array has room: it takes
  -- everything up to the end of that line, is finished, and has noted behind the chunks of before, for
  -- each chunk in turn, the place and the length of its bytes, which are left in the memory as they came.
  pub decodes :
      (ps : List Part) (front tail : Bytes) (len : ℕ) (h : Chunks)
      → All IsPart ps
      → h.size + length ps ≤ h.cap
      → h.cap ≤ length h.table
      → end_of (length front + 2) ps ≤ len
      → let memory = (front ++ (13 ∷ 10 ∷ [])) ++ cleared ps tail in
        let found = places (length front + 2) ps in
        (table : List Chunk) × (parse_chunked alloc
            (front ++ (13 ∷ 10 ∷ texts ps tail))
            len
            (length front)
            h
          ≡ some (
            record h { size = h.size + length ps; table = table; finished = chunkd },
            memory,
            end_of (length front + 2) ps,
          ))
        × (take (length ps) (drop h.size table) ≡ found)
        × (contents_of memory found ≡ bodies ps)
  unfolding parse_chunked
  decodes ps front tail len h parts small whole room =
      let front' = front ++ (13 ∷ 10 ∷ []) in
      let n' : length front' ≡ length front + 2 = length-append front (13 ∷ 10 ∷ []) in
      let e : front' ++ texts ps tail ≡ front ++ (13 ∷ 10 ∷ texts ps tail) =
        append_assoc front (13 ∷ 10 ∷ []) (texts ps tail) in
      let (c, first, plain) = first-IsPlain ps tail parts in
      let above = end_of_above ps (length front + 2) in
      let text = 13 ∷ 10 ∷ texts ps tail in
      let skip : skip_crlf (front ++ text) (length front) (len - length front)
          ≡ some (length front + 2) =
        skip_crlf-skips (front ++ text) (length front) (len - length front) c (at-append front text)
          (at_behind front text 1) (at_behind front text 2 ∙ first) plain (omega arith) in
      let run =
        runs ps (length (front' ++ texts ps tail) + 1) len (length front) h.size front' tail
          (record h { finished = chunk }) parts
          (ap (λ m. skip_crlf m (length front) (len - length front)) e
            ∙ skip
            ∙ ap (λ k. some k) (sym n'))
          (omega (arith, ap (λ k. end_of k ps) n')) small
          (omega (arith, length-append front' (texts ps tail), rounds_enough ps tail)) in
      let found = places (length front + 2) ps in
      let count = length-places ps (length front + 2) in
      let back = read_back h.table h.size found (omega (arith, count)) in
      (
        put_all h.table h.size found,
        rw (rw (e, n') at run) refl,
        rw count at back,
        rw (← n') (contents_of-places ps front' tail),
      )
