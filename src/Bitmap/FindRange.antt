-- ===== src/Bitmap/FindRange.antt =====
-- kernel/src/libs/bitmap.cpp: the range that `find_range` returns.
use ion_os.Base.{
  ℕ, zero, suc, ◌+◌, ◌-◌, ◌*◌, ◌/◌, ◌<◌, ◌≤◌, ◌≡◌, inl, inr, ◌≢◌, refl, ◌∙◌, sym, subst, Bool,
  arith, ◌==◌, if◌then◌else◌, ltb, leb, beq, beq→eq, npos, Bool-cases,
}
use ion_os.Base.Bits.{shifted_bit, shifted_bit-test_bit, test_bit-full, test_bit-empty}
use ion_os.Bitmap.{
  Bitmap, get, Scan, found, going, fill_byte, not_byte, scan_bits, scan_byte, scan_bytes, result,
  proceed, find_range,
}
use ion_os.Bitmap.Cells.{IsBytes}
use ion_os.Bitmap.Runs.{AllIs, get-byte, Run, Run-none, Run-more, AllIs-Run}

-- A byte whose bits all have the value.
pub AllIs-fill :
    (b : Bitmap) (v : Bool) (q : ℕ) → b.bytes q ≡ fill_byte v → AllIs b v (q * 8) (q * 8 + 8)
AllIs-fill b v q e i p h =
    ground (arith, get-byte b q (i - q * 8), test_bit-full (i - q * 8), test_bit-empty (i - q * 8))

module _ (b : Bitmap) (v : Bool) (length : ℕ) (bytes : IsBytes b) where
  pub shifted-get : (q k : ℕ) → k < 8 → shifted_bit (b.bytes q) k ≡ get b (q * 8 + k)
  shifted-get q k h =
      ground (arith, bytes.byte q, shifted_bit-test_bit (b.bytes q) k, get-byte b q k)

  -- A found range has the value and ends by `limit`; otherwise the count describes a run.
  abbrev pub Sound : (pos limit : ℕ) → Scan → Type 0
  Sound pos limit (found r) = AllIs b v r (r + length) × (r + length ≤ limit)
  Sound pos limit (going c s) = Run b v pos c s

  -- A run that is long enough ends the scan at its first bit.
  found-Sound :
      (pos limit c s : ℕ)
      → Run b v pos c s
      → 0 < c
      → length ≤ c
      → pos ≤ limit
      → Sound 0 limit (found s)
  found-Sound pos limit c s r h e lim =
      (λ i p q. AllIs-Run b v pos c s h r i p (omega arith), ground (arith, r.begins))

  -- A run longer by the bit at `pos`.
  bit-Run :
      (pos c s : ℕ)
      → Run b v pos c s
      → get b pos ≡ v
      → Run b v (pos + 1) (c + 1) (if c == 0 then pos else s)
  bit-Run pos c s r on =
      Run-more b v pos c s 1 (omega arith) r (λ i p q. subst (λ k. get b k ≡ v) (omega arith) on)

  scan_bits-Sound :
      (left q bit c s : ℕ)
      → left + bit ≡ 8
      → Run b v (q * 8 + bit) c s
      → Sound (q * 8 + 8) (q * 8 + 8) (scan_bits left (b.bytes q) q bit v length c s)
  unfolding scan_bits
  scan_bits-Sound zero q bit c s e r = subst (λ k. Run b v (q * 8 + k) c s) (omega arith) r
  scan_bits-Sound (suc left) q bit c s e r =
      elim (Bool-cases (beq (shifted_bit (b.bytes q) bit) v)) [
        | inl on ↦
            let start : ℕ = if c == 0 then q * 8 + bit else s in
            let longer : Run b v (q * 8 + bit + 1) (c + 1) start =
              bit-Run (q * 8 + bit) c s r (sym (shifted-get q bit (omega arith)) ∙ beq→eq _ _ on) in
            elim (Bool-cases (c + 1 == length)) [
              | inl full ↦
                  rw (on, full)
                    (found-Sound (q * 8 + bit + 1) (q * 8 + 8) (c + 1) start longer (omega arith)
                      (ground arith) (omega arith))
              | inr short ↦
                  rw (on, short)
                    (scan_bits-Sound left q (bit + 1) (c + 1) start (omega arith)
                      (subst (λ k. Run b v k (c + 1) start) (omega arith) longer))
            ]
        | inr off ↦ rw off (scan_bits-Sound left q (bit + 1) 0 s (omega arith) (Run-none b v _ s))
      ]

  scan_byte-Sound :
      (q c s : ℕ)
      → Run b v (q * 8) c s
      → Sound (q * 8 + 8) (q * 8 + 8) (scan_byte (b.bytes q) q v length c s)
  unfolding scan_byte
  scan_byte-Sound q c s r = elim (Bool-cases (b.bytes q == not_byte (fill_byte v))) [
    | inl other ↦ rw other (Run-none b v _ s)
    | inr mixed ↦ elim (Bool-cases (b.bytes q == fill_byte v)) [
      | inl full ↦
          let all : AllIs b v (q * 8) (q * 8 + 8) = AllIs-fill b v q (ground arith) in
          let start : ℕ = if c == 0 then q * 8 else s in
          let longer : Run b v (q * 8 + 8) (c + 8) start =
            Run-more b v (q * 8) c s 8 (omega arith) r all in
          elim (Bool-cases (ltb length 8)) [
            | inl small ↦ rw (mixed, full, small) (λ i p k. all i p (ground arith), ground arith)
            | inr large ↦ elim (Bool-cases (leb length (c + 8))) [
              | inl long ↦
                  rw (mixed, full, large, long)
                    (found-Sound (q * 8 + 8) (q * 8 + 8) (c + 8) start longer (omega arith)
                      (ground arith) (omega arith))
              | inr short ↦ rw (mixed, full, large, short) longer
            ]
          ]
      | inr partial ↦
          rw (mixed, partial)
            (scan_bits-Sound 8 q 0 c s refl (subst (λ k. Run b v k c s) (omega arith) r))
    ]
  ]

  proceed-Sound :
      (mid limit : ℕ) (o : Scan) (next : ℕ → ℕ → Scan)
      → mid ≤ limit
      → Sound mid mid o
      → ((c s : ℕ) → Run b v mid c s → Sound limit limit (next c s))
      → Sound limit limit (proceed o next)
  proceed-Sound mid limit (found r) next le h k = (h.0, omega arith)
  proceed-Sound mid limit (going c s) next le h k = k c s h

  scan_bytes-Sound :
      (left q c s : ℕ)
      → Run b v (q * 8) c s
      → Sound ((q + left) * 8) ((q + left) * 8) (scan_bytes left b.bytes q v length c s)
  unfolding scan_bytes
  scan_bytes-Sound zero q c s r = subst (λ k. Run b v k c s) (omega arith) r
  scan_bytes-Sound (suc left) q c s r =
      proceed-Sound (q * 8 + 8) ((q + suc left) * 8) _ _ (omega arith) (scan_byte-Sound q c s r)
        λ c' s' r'.
          subst (λ k. Sound k k (scan_bytes left b.bytes (q + 1) v length c' s')) (omega arith)
            (scan_bytes-Sound left (q + 1) c' s' (subst (λ k. Run b v k c' s') (omega arith) r'))

  pub scan_bytes-Sound_start : (n : ℕ) → Sound (n * 8) (n * 8) (scan_bytes n b.bytes 0 v length 0 0)
  scan_bytes-Sound_start n =
      subst (λ k. Sound (k * 8) (k * 8) (scan_bytes n b.bytes 0 v length 0 0)) (omega arith)
        (scan_bytes-Sound n 0 0 0 (Run-none b v _ 0))

  result-AllIs :
      (limit : ℕ) (o : Scan)
      → Sound limit limit o
      → result o ≢ npos
      → AllIs b v (result o) (result o + length) × (result o + length ≤ limit)
  result-AllIs limit (found r) h ne = h
  result-AllIs limit (going c s) h ne = absurd (ne refl)

  -- A result other than `npos` is the first bit of a range of `length` bits that all have the
  -- value, and that lies inside the whole bytes of the map.
  pub find_range-AllIs :
      let r = find_range b v length in
      r ≢ npos → AllIs b v r (r + length) × (r + length ≤ b.size / 8 * 8)
  unfolding find_range
  find_range-AllIs = result-AllIs (b.size / 8 * 8) _ (scan_bytes-Sound_start (b.size / 8))
