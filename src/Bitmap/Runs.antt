-- ===== src/Bitmap/Runs.antt =====
-- kernel/src/libs/bitmap.cpp: runs of equal bits, the vocabulary of `find_range`.
use ion_os.Base.{
  ℕ, ◌+◌, ◌*◌, ◌/◌, ◌%◌, ◌<◌, ◌≤◌, ◌≡◌, ◌⊎◌, inl, refl, Bool, arith, ◌==◌, if◌then◌else◌,
}
use ion_os.Base.Bits.{test_bit}
use ion_os.Bitmap.{Bitmap, get}

-- Every bit of [lo, hi) has the value.
abbrev pub AllIs : Bitmap → Bool → ℕ → ℕ → Type 0
AllIs b v lo hi = (i : ℕ) → lo ≤ i → i < hi → get b i ≡ v

-- Bit `k` of byte `q` is bit `q * 8 + k` of the map.
pub get-byte : (b : Bitmap) (q k : ℕ) → k < 8 → get b (q * 8 + k) ≡ test_bit (b.bytes q) k
unfolding get
get-byte b q k h =
    let e : (q * 8 + k) / 8 ≡ q = omega arith in
    let f : (q * 8 + k) % 8 ≡ k = omega arith in rw (e, f)

module _ (b : Bitmap) (v : Bool) where
  -- The `c` bits before `pos` have the value, and they begin at `s`.
  pub record Run (pos c s : ℕ) : Type 0 where
    pub matched : (i : ℕ) → pos ≤ i + c → i < pos → get b i ≡ v
    pub fits : c ≤ pos
    pub begins : (c ≡ 0) ⊎ (s + c ≡ pos)

  pub Run-none : (pos s : ℕ) → Run pos 0 s
  Run-none pos s = record {
    matched = λ i p q. absurd (omega arith);
    fits = omega arith;
    begins = inl refl;
  }

  -- `n` further bits with the value make the run longer by `n`.
  pub Run-more :
      (pos c s n : ℕ)
      → 0 < n
      → Run pos c s
      → AllIs b v pos (pos + n)
      → Run (pos + n) (c + n) (if c == 0 then pos else s)
  Run-more pos c s n hn r all = record {
    matched = λ i p q. ground (arith, r.matched i, all i);
    fits = omega (arith, r.fits);
    begins = ground (arith, r.begins);
  }

  pub AllIs-Run : (pos c s : ℕ) → 0 < c → Run pos c s → AllIs b v s (s + c)
  AllIs-Run pos c s h r i p q = ground (arith, r.matched i, r.begins)
