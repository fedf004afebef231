-- ===== src/Bitmap/First.antt =====
-- kernel/src/libs/bitmap.cpp: the search of `find_range` for one set bit finds the first.
use ion_os.Base.{
  ℕ, zero, suc, ◌+◌, ◌*◌, ◌/◌, ◌<◌, ◌≡◌, ◌≢◌, inl, inr, refl, sym, ap, ◌∙◌, subst, true, false,
  arith, ◌==◌, npos, Bool-cases,
}
use native.Mathlib.Decide.{dec_le}
use ion_os.Base.Bits.{shifted_bit}
use ion_os.Bitmap.{
  Bitmap, get, Scan, found, going, scan_bits, scan_byte, scan_bytes, result, proceed, find_range,
}
use ion_os.Bitmap.Cells.{IsBytes}
use ion_os.Bitmap.Runs.{AllIs}
use ion_os.Bitmap.FindRange.{shifted-get}
use ion_os.Bitmap.Complete.{AllIs-zero}

module _ (b : Bitmap) (bytes : IsBytes b) where
  -- The bits in front of the found one are clear, or those in front of `pos`, and no run is open.
  abbrev First : (pos : ℕ) → Scan → Type 0
  First pos (found r) = AllIs b false 0 r
  First pos (going c s) = (c ≡ 0) × AllIs b false 0 pos

  -- Clear bits from 0 to `lo` and from `lo` to `hi`.
  AllIs-join : (lo hi : ℕ) → AllIs b false 0 lo → AllIs b false lo hi → AllIs b false 0 hi
  AllIs-join lo hi low high i p q = elim (dec_le lo i) [
    | yes above ↦ high i above q
    | no under ↦ low i p (omega arith)
  ]

  scan_bits-First :
      (left q bit s : ℕ)
      → left + bit ≡ 8
      → AllIs b false 0 (q * 8 + bit)
      → First (q * 8 + 8) (scan_bits left (b.bytes q) q bit true 1 0 s)
  unfolding scan_bits
  scan_bits-First zero q bit s e clear =
      (refl, subst (λ k. AllIs b false 0 (q * 8 + k)) (omega arith) clear)
  scan_bits-First (suc left) q bit s e clear =
      let here = shifted-get b true 1 bytes q bit (omega arith) in
      elim (Bool-cases (shifted_bit (b.bytes q) bit)) [
        | inl on ↦ rw on clear
        | inr off ↦
            let next : AllIs b false 0 (q * 8 + (bit + 1)) =
              AllIs-join (q * 8 + bit) (q * 8 + (bit + 1)) clear
                λ i p h. ap (get b) (omega arith) ∙ sym here ∙ off in
            rw off (scan_bits-First left q (bit + 1) s (omega arith) next)
      ]

  scan_byte-First :
      (q s : ℕ) → AllIs b false 0 (q * 8) → First (q * 8 + 8) (scan_byte (b.bytes q) q true 1 0 s)
  unfolding scan_byte
  scan_byte-First q s clear = elim (Bool-cases (b.bytes q == 0)) [
    | inl zero_byte ↦ rw zero_byte (
      refl,
      AllIs-join (q * 8) (q * 8 + 8) clear (AllIs-zero b 1 bytes (omega arith) q (ground arith)),
    )
    | inr mixed ↦ elim (Bool-cases (b.bytes q == 255)) [
      | inl full ↦ rw (mixed, full) clear
      | inr partial ↦
          rw (mixed, partial)
            (scan_bits-First 8 q 0 s refl (subst (λ k. AllIs b false 0 k) (omega arith) clear))
    ]
  ]

  proceed-First :
      (mid limit : ℕ) (o : Scan) (next : ℕ → ℕ → Scan)
      → First mid o
      → ((s : ℕ) → AllIs b false 0 mid → First limit (next 0 s))
      → First limit (proceed o next)
  proceed-First mid limit (found r) next h k = h
  proceed-First mid limit (going c s) next h k =
      subst (λ n. First limit (next n s)) (sym h.0) (k s h.1)

  scan_bytes-First :
      (left q s : ℕ)
      → AllIs b false 0 (q * 8)
      → First ((q + left) * 8) (scan_bytes left b.bytes q true 1 0 s)
  unfolding scan_bytes
  scan_bytes-First zero q s clear = (refl, subst (λ k. AllIs b false 0 k) (omega arith) clear)
  scan_bytes-First (suc left) q s clear =
      proceed-First (q * 8 + 8) ((q + suc left) * 8) _ _ (scan_byte-First q s clear) λ s' clear'.
        subst (λ k. First k (scan_bytes left b.bytes (q + 1) true 1 0 s')) (omega arith)
          (scan_bytes-First left (q + 1) s' (subst (λ k. AllIs b false 0 k) (omega arith) clear'))

  result-First :
      (limit : ℕ) (o : Scan) → First limit o → result o ≢ npos → AllIs b false 0 (result o)
  result-First limit (found r) h hit = h
  result-First limit (going c s) h hit = absurd (hit refl)

  -- Every bit in front of the one that `find_range(true, 1)` finds is clear.
  pub find_range-first :
      find_range b true 1 ≢ npos → (j : ℕ) → j < find_range b true 1 → get b j ≡ false
  unfolding find_range
  find_range-first hit j lt =
      result-First ((0 + b.size / 8) * 8) _
        (scan_bytes-First (b.size / 8) 0 0 (λ i p h. absurd (omega arith))) hit j (omega arith) lt
