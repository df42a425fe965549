-- ===== src/Lease/Msg/Formats.antt =====
-- `snreadf` over the five formats of `PLeaseMsg::Read`, where their fields were printed by `Write`.
use network_etc.Base.{
  ℕ, ◌+◌, ◌<◌, ◌≡◌, true, List, [], ◌∷◌, Bytes, length, u32, u64, arith, codes, length-append, ap,
}
use network_etc.Text.{decimal}
use network_etc.Text.Scan.{Value, ch, unsigned, uint64, read as read_all, scan, Scan}
use network_etc.Text.Scan.Fields.{
  type_field, unsigned_field, uint64_field, unsigned_last, uint64_last,
}
use network_etc.Lease.Msg.{◌:+◌, consumed}

pub length-:+ : (a b : Bytes) → length (a :+ b) ≡ length a + 1 + length b
length-:+ a b = omega (arith, length-append a (b':' ∷ b))

pub consumed_all : {n len : ℕ} → n ≡ len → consumed (read_all n) len ≡ true
unfolding consumed
consumed_all {n} {len} h = ground arith

done_eq :
    (vs : List Value) {n k : ℕ}
    → n ≡ k
    → ◌≡◌ {A = Scan}
        (record { outcome = read_all n; stored = vs })
        (record { outcome = read_all k; stored = vs })
done_eq vs e = ap (λ n. record { outcome = read_all n; stored = vs }) e

-- The five formats, over what is printed by them.
abbrev pub Scans : Bytes → Bytes → List Value → Type 0
Scans format text vs =
    scan format text [] 0 ≡ record { outcome = read_all (length text); stored = vs }

module _ (t a b : ℕ) (p : a < u32) (q : b < u64) where
  pub scan_short :
      Scans
        (codes "%c:%u:%U")
        (t ∷ b':' ∷ (decimal a :+ decimal b))
        (ch t ∷ unsigned a ∷ uint64 b ∷ [])
  scan_short =
      rw (type_field, unsigned_field _ _ _ _ a p, uint64_last _ b q)
        (done_eq _ (omega (arith, length-:+ (decimal a) (decimal b))))

  pub scan_prepare :
      (c : ℕ)
      → c < u64
      → Scans
          (codes "%c:%u:%U:%U")
          (t ∷ b':' ∷ (decimal a :+ decimal b :+ decimal c))
          (ch t ∷ unsigned a ∷ uint64 b ∷ uint64 c ∷ [])
  scan_prepare c r =
      rw (type_field, unsigned_field _ _ _ _ a p, uint64_field _ _ _ _ b q, uint64_last _ c r)
        (done_eq _ (
          omega (
            arith,
            length-:+ (decimal a) (decimal b :+ decimal c),
            length-:+ (decimal b) (decimal c),
          )))

  pub scan_propose :
      (c d : ℕ)
      → c < u32
      → d < u32
      → Scans
          (codes "%c:%u:%U:%u:%u")
          (t ∷ b':' ∷ (decimal a :+ decimal b :+ decimal c :+ decimal d))
          (ch t ∷ unsigned a ∷ uint64 b ∷ unsigned c ∷ unsigned d ∷ [])
  scan_propose c d r s =
      rw
        (
          type_field,
          unsigned_field _ _ _ _ a p,
          uint64_field _ _ _ _ b q,
          unsigned_field _ _ _ _ c r,
          unsigned_last _ d s,
        )
        (done_eq _ (
          omega (
            arith,
            length-:+ (decimal a) (decimal b :+ decimal c :+ decimal d),
            length-:+ (decimal b) (decimal c :+ decimal d),
            length-:+ (decimal c) (decimal d),
          )))

  pub scan_previous :
      (c d e : ℕ)
      → c < u64
      → d < u32
      → e < u32
      → Scans
          (codes "%c:%u:%U:%U:%u:%u")
          (t ∷ b':' ∷ (decimal a :+ decimal b :+ decimal c :+ decimal d :+ decimal e))
          (ch t ∷ unsigned a ∷ uint64 b ∷ uint64 c ∷ unsigned d ∷ unsigned e ∷ [])
  scan_previous c d e r s u =
      rw
        (
          type_field,
          unsigned_field _ _ _ _ a p,
          uint64_field _ _ _ _ b q,
          uint64_field _ _ _ _ c r,
          unsigned_field _ _ _ _ d s,
          unsigned_last _ e u,
        )
        (done_eq _ (
          omega (
            arith,
            length-:+ (decimal a) (decimal b :+ decimal c :+ decimal d :+ decimal e),
            length-:+ (decimal b) (decimal c :+ decimal d :+ decimal e),
            length-:+ (decimal c) (decimal d :+ decimal e),
            length-:+ (decimal d) (decimal e),
          )))

pub scan_chosen :
    (t a b c d : ℕ)
    → a < u32
    → b < u32
    → c < u32
    → d < u64
    → Scans
        (codes "%c:%u:%u:%u:%U")
        (t ∷ b':' ∷ (decimal a :+ decimal b :+ decimal c :+ decimal d))
        (ch t ∷ unsigned a ∷ unsigned b ∷ unsigned c ∷ uint64 d ∷ [])
scan_chosen t a b c d p q r s =
    rw
      (
        type_field,
        unsigned_field _ _ _ _ a p,
        unsigned_field _ _ _ _ b q,
        unsigned_field _ _ _ _ c r,
        uint64_last _ d s,
      )
      (done_eq _ (
        omega (
          arith,
          length-:+ (decimal a) (decimal b :+ decimal c :+ decimal d),
          length-:+ (decimal b) (decimal c :+ decimal d),
          length-:+ (decimal c) (decimal d),
        )))
