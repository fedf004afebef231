-- ===== src/Bitmap/Complete.antt =====
-- kernel/src/libs/bitmap.cpp: the ranges that `find_range` passes over.
use ion_os.Base.{
  ℕ, zero, suc, ◌+◌, ◌-◌, ◌*◌, ◌/◌, ◌<◌, ◌≤◌, ◌≡◌, inl, inr, refl, ◌∙◌, sym, subst, ◌↔◌, true,
  false, arith, ◌==◌, if◌then◌else◌, ltb, leb, npos, Bool-cases,
}
use native.Mathlib.Decide.{dec_le, ℕ_discrete}
use ion_os.Base.Bits.{shifted_bit, test_bit-empty}
use ion_os.Bitmap.{
  Bitmap, get, Scan, found, going, scan_bits, scan_byte, scan_bytes, result, proceed, find_range,
}
use ion_os.Bitmap.Cells.{IsBytes}
use ion_os.Bitmap.Runs.{AllIs, get-byte}
use ion_os.Bitmap.FindRange.{shifted-get, Sound, scan_bytes-Sound_start, find_range-AllIs}

module _ (b : Bitmap) (length : ℕ) (bytes : IsBytes b) (pos_len : 0 < length) where
  -- No range of `length` set bits ends by `pos`, and a run of set bits that ends at `pos` has at
  -- most `c` bits.
  record Missed (pos c : ℕ) : Type 0 where
    none_yet : (s : ℕ) → s + length ≤ pos → ¬ AllIs b true s (s + length)
    longest : (s : ℕ) → s ≤ pos → AllIs b true s pos → pos ≤ s + c
    short : c < length

  abbrev Complete : ℕ → Scan → Type 0
  Complete pos (found r) = Unit {0}
  Complete pos (going c s) = Missed pos c

  -- `n` further bits, whatever they are, lengthen a run by at most `n`.
  Missed-grow : (pos c n : ℕ) → Missed pos c → c + n < length → Missed (pos + n) (c + n)
  Missed-grow pos c n m lt = record {
    none_yet = λ s p all. elim (dec_le (s + length) pos) [
      | yes old ↦ m.none_yet s old all
      | no late ↦ elim (dec_le s pos) [
        | yes before ↦
            let far = m.longest s before (λ i q r. all i q (omega arith)) in absurd (omega arith)
        | no after ↦ absurd (omega arith)
      ]
    ];
    longest = λ s p all. elim (dec_le s pos) [
      | yes before ↦ omega (arith, m.longest s before (λ i q r. all i q (omega arith)))
      | no after ↦ omega arith
    ];
    short = lt;
  }

  -- Clear bits end every run.
  Missed-off :
      (pos n c : ℕ) → 0 < n → Missed pos c → AllIs b false pos (pos + n) → Missed (pos + n) 0
  Missed-off pos n c hn m off = record {
    none_yet = λ s p all. elim (dec_le (s + length) pos) [
      | yes old ↦ m.none_yet s old all
      | no late ↦
          let clear = off (s + length - 1) (omega arith) (omega arith) in
          let raised = all (s + length - 1) (omega arith) (omega arith) in cc
    ];
    longest = λ s p all. elim (dec_le (pos + n) s) [
      | yes after ↦ omega arith
      | no before ↦
          let clear = off (pos + n - 1) (omega arith) (omega arith) in
          let raised = all (pos + n - 1) (omega arith) (omega arith) in cc
    ];
    short = pos_len;
  }

  scan_bits-Complete :
      (left q bit c s : ℕ)
      → left + bit ≡ 8
      → Missed (q * 8 + bit) c
      → Complete (q * 8 + 8) (scan_bits left (b.bytes q) q bit true length c s)
  unfolding scan_bits
  scan_bits-Complete zero q bit c s e m = subst (λ k. Missed (q * 8 + k) c) (omega arith) m
  scan_bits-Complete (suc left) q bit c s e m =
      let here = shifted-get b true length bytes q bit (omega arith) in
      let start : ℕ = if c == 0 then q * 8 + bit else s in
      elim (Bool-cases (shifted_bit (b.bytes q) bit)) [
        | inl on ↦ elim (Bool-cases (c + 1 == length)) [
          | inl full ↦ rw (on, full) tt
          | inr short ↦
              rw (on, short)
                (scan_bits-Complete left q (bit + 1) (c + 1) start (omega arith) (
                  subst (λ k. Missed k (c + 1)) (omega arith)
                    (Missed-grow (q * 8 + bit) c 1 m (ground (arith, m.short)))))
        ]
        | inr off ↦ rw off (
            scan_bits-Complete left q (bit + 1) 0 s (omega arith) (
              subst (λ k. Missed k 0) (omega arith)
                (Missed-off (q * 8 + bit) 1 c (omega arith) m
                  (λ i p r. subst (λ k. get b k ≡ false) (omega arith) (sym here ∙ off)))))
      ]

  pub AllIs-zero : (q : ℕ) → b.bytes q ≡ 0 → AllIs b false (q * 8) (q * 8 + 8)
  AllIs-zero q e i p h = ground (arith, get-byte b q (i - q * 8), test_bit-empty (i - q * 8))

  scan_byte-Complete :
      (q c s : ℕ)
      → Missed (q * 8) c
      → Complete (q * 8 + 8) (scan_byte (b.bytes q) q true length c s)
  unfolding scan_byte
  scan_byte-Complete q c s m = elim (Bool-cases (b.bytes q == 0)) [
    | inl zero_byte ↦
        rw zero_byte (Missed-off (q * 8) 8 c (omega arith) m (AllIs-zero q (ground arith)))
    | inr mixed ↦ elim (Bool-cases (b.bytes q == 255)) [
      | inl full ↦ elim (Bool-cases (ltb length 8)) [
        | inl small ↦ rw (mixed, full, small) tt
        | inr large ↦ elim (Bool-cases (leb length (c + 8))) [
          | inl long ↦ rw (mixed, full, large, long) tt
          | inr short ↦ rw (mixed, full, large, short) (Missed-grow (q * 8) c 8 m (ground arith))
        ]
      ]
      | inr partial ↦
          rw (mixed, partial)
            (scan_bits-Complete 8 q 0 c s refl (subst (λ k. Missed k c) (omega arith) m))
    ]
  ]

  proceed-Complete :
      (mid limit : ℕ) (o : Scan) (next : ℕ → ℕ → Scan)
      → Complete mid o
      → ((c s : ℕ) → Missed mid c → Complete limit (next c s))
      → Complete limit (proceed o next)
  proceed-Complete mid limit (found r) next h k = tt
  proceed-Complete mid limit (going c s) next h k = k c s h

  scan_bytes-Complete :
      (left q c s : ℕ)
      → Missed (q * 8) c
      → Complete ((q + left) * 8) (scan_bytes left b.bytes q true length c s)
  unfolding scan_bytes
  scan_bytes-Complete zero q c s m = subst (λ k. Missed k c) (omega arith) m
  scan_bytes-Complete (suc left) q c s m =
      proceed-Complete (q * 8 + 8) ((q + suc left) * 8) _ _ (scan_byte-Complete q c s m) λ c' s' m'.
        subst (λ k. Complete k (scan_bytes left b.bytes (q + 1) true length c' s')) (omega arith)
          (scan_bytes-Complete left (q + 1) c' s' (subst (λ k. Missed k c') (omega arith) m'))

  Missed-start : Missed 0 0
  Missed-start = record {
    none_yet = λ s p all. omega arith;
    longest = λ s p all. omega arith;
    short = pos_len;
  }

  fresh : ℕ → Scan
  fresh n = scan_bytes n b.bytes 0 true length 0 0

  fresh-Complete : (n : ℕ) → Complete (n * 8) (fresh n)
  unfolding fresh
  fresh-Complete n =
      subst (λ k. Complete (k * 8) (scan_bytes n b.bytes 0 true length 0 0)) (omega arith)
        (scan_bytes-Complete n 0 0 0 Missed-start)

  none_of_npos :
      (limit : ℕ) (o : Scan)
      → limit < npos
      → Sound b true length bytes limit limit o
      → Complete limit o
      → result o ≡ npos
      → (s : ℕ) → s + length ≤ limit
      → ¬ AllIs b true s (s + length)
  none_of_npos limit (found r) small sound done e s p all = omega (arith, sound.1)
  none_of_npos limit (going c s') small sound done e s p all = done.none_yet s p all

  -- `find_range(true, length)` returns `npos` exactly when the whole bytes of the map hold no
  -- range of `length` set bits (for a positive length and a map of less than 2 ^ 64 - 1 bits).
  pub find_range-npos_iff :
      b.size < npos
      → (find_range b true length ≡ npos)
        ↔ ((s : ℕ) → s + length ≤ b.size / 8 * 8 → ¬ AllIs b true s (s + length))
  unfolding find_range fresh
  find_range-npos_iff small = (
    none_of_npos (b.size / 8 * 8) _ (omega arith)
        (scan_bytes-Sound_start b true length bytes (b.size / 8)) (fresh-Complete (b.size / 8)),
    λ none. elim (ℕ_discrete (find_range b true length) npos) [
      | yes missing ↦ missing
      | no hit ↦
          let range = find_range-AllIs b true length bytes hit in absurd (none _ range.1 range.0)
    ],
  )
