-- ===== src/Bitmap/SetRange.antt =====
-- kernel/src/libs/bitmap.cpp: the bits after `set_range`.
use ion_os.Base.{
  ℕ, zero, suc, ◌+◌, ◌-◌, ◌*◌, ◌/◌, ◌%◌, ◌≡◌, refl, ◌∙◌, Bool, ◌&&◌, arith, ◌==◌, if◌then◌else◌,
  ltb, leb,
}
use ion_os.Base.Bits.{test_bit-full, test_bit-empty}
use ion_os.Bitmap.{Bitmap, get, set, set_bits, fill_words, fill_byte, head_end, set_range}
use ion_os.Bitmap.Cells.{IsBytes, set-IsBytes, get-set, size-set}

-- `lo ≤ j < hi`
abbrev pub within : ℕ → ℕ → ℕ → Bool
within lo hi j = leb lo j && ltb j hi

pub set_bits-IsBytes :
    (n : ℕ) (b : Bitmap) (i : ℕ) (v : Bool) → IsBytes b → IsBytes (set_bits n b i v)
unfolding set_bits
set_bits-IsBytes zero b i v h = h
set_bits-IsBytes (suc n) b i v h = set_bits-IsBytes n (set b i v) (i + 1) v (set-IsBytes b i v h)

get-set_bits :
    (n : ℕ) (b : Bitmap) (i : ℕ) (v : Bool) (j : ℕ)
    → IsBytes b
    → get (set_bits n b i v) j ≡ (if within i (i + n) j then v else get b j)
unfolding set_bits
get-set_bits zero b i v j h = ground arith
get-set_bits (suc n) b i v j h =
    ground (arith, get-set b i v j h, get-set_bits n (set b i v) (i + 1) v j (set-IsBytes b i v h))

size-set_bits : (n : ℕ) (b : Bitmap) (i : ℕ) (v : Bool) → (set_bits n b i v).size ≡ b.size
unfolding set_bits
size-set_bits zero b i v = refl
size-set_bits (suc n) b i v = size-set_bits n (set b i v) (i + 1) v ∙ size-set b i v

abbrev filled : Bitmap → ℕ → Bool → Bitmap
filled b i v = record b { bytes = λ k. if k == i then fill_byte v else b.bytes k }

filled-IsBytes : (b : Bitmap) (i : ℕ) (v : Bool) → IsBytes b → IsBytes (filled b i v)
filled-IsBytes b i v h = record { byte = λ k. ground (arith, h.byte k) }

get-filled :
    (b : Bitmap) (i : ℕ) (v : Bool) (j : ℕ)
    → get (filled b i v) j ≡ (if j / 8 == i then v else get b j)
unfolding get
get-filled b i v j = ground (arith, test_bit-full (j % 8), test_bit-empty (j % 8))

fill_words-IsBytes :
    (n : ℕ) (b : Bitmap) (i : ℕ) (v : Bool) → IsBytes b → IsBytes (fill_words n b i v)
unfolding fill_words
fill_words-IsBytes zero b i v h = h
fill_words-IsBytes (suc n) b i v h =
    fill_words-IsBytes n (filled b i v) (i + 1) v (filled-IsBytes b i v h)

get-fill_words :
    (n : ℕ) (b : Bitmap) (i : ℕ) (v : Bool) (j : ℕ)
    → get (fill_words n b i v) j ≡ (if within i (i + n) (j / 8) then v else get b j)
unfolding fill_words
get-fill_words zero b i v j = ground arith
get-fill_words (suc n) b i v j =
    ground (arith, get-filled b i v j, get-fill_words n (filled b i v) (i + 1) v j)

size-fill_words : (n : ℕ) (b : Bitmap) (i : ℕ) (v : Bool) → (fill_words n b i v).size ≡ b.size
unfolding fill_words
size-fill_words zero b i v = refl
size-fill_words (suc n) b i v = size-fill_words n (filled b i v) (i + 1) v

module _ (b : Bitmap) (start end : ℕ) (v : Bool) (h : IsBytes b) where
  -- the bitmap after the first loop, and after the second
  abbrev headed : Bitmap
  headed = set_bits (head_end start end - start) b start v

  abbrev bodied : Bitmap
  bodied = fill_words (end / 8 - (start + 7) / 8) headed ((start + 7) / 8) v

  headed-IsBytes : IsBytes headed
  headed-IsBytes = set_bits-IsBytes (head_end start end - start) b start v h

  bodied-IsBytes : IsBytes bodied
  bodied-IsBytes =
      fill_words-IsBytes (end / 8 - (start + 7) / 8) headed ((start + 7) / 8) v headed-IsBytes

  pub set_range-IsBytes : IsBytes (set_range b start end v)
  unfolding set_range
  set_range-IsBytes = record {
    byte = λ k. ground (
      arith,
      h.byte k,
      headed-IsBytes.byte k,
      (set_bits-IsBytes (end - end / 8 * 8) bodied (end / 8 * 8) v bodied-IsBytes).byte k,
    );
  }

  pub size-set_range : (set_range b start end v).size ≡ b.size
  unfolding set_range
  size-set_range = ground (
    arith,
    size-set_bits (head_end start end - start) b start v,
    size-fill_words (end / 8 - (start + 7) / 8) headed ((start + 7) / 8) v,
    size-set_bits (end - end / 8 * 8) bodied (end / 8 * 8) v,
  )

  pub get-set_range :
      (j : ℕ)
      → get (set_range b start end v) j
        ≡ (if within start end j && ltb start b.size then v else get b j)
  unfolding set_range head_end
  get-set_range j = ground (
    arith,
    get-set_bits (head_end start end - start) b start v j h,
    get-fill_words (end / 8 - (start + 7) / 8) headed ((start + 7) / 8) v j,
    get-set_bits (end - end / 8 * 8) bodied (end / 8 * 8) v j bodied-IsBytes,
  )
