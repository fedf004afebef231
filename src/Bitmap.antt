-- ===== src/Bitmap.antt =====
-- kernel/src/libs/bitmap.cpp and include/libs/bitmap.hpp: the bit map of the frame allocator.
-- The memory behind `data` is a function from the byte's offset, since no access is checked
-- against `size`; `size` counts bits.
pub mod Cells
pub mod SetRange
pub mod Runs
pub mod FindRange
pub mod First
pub mod Complete
mod Tests
use ion_os.Base.{
  ℕ, zero, suc, ◌+◌, ◌-◌, ◌*◌, ◌/◌, ◌%◌, Bool, ◌||◌, ltb, leb, ◌==◌, if◌then◌else◌, beq, npos,
}
use ion_os.Base.Bits.{test_bit, raise_bit, clear_bit, shifted_bit}

pub record Bitmap : Type 0 where
  pub bytes : ℕ → ℕ
  pub size : ℕ

-- One byte of memory is written.
abbrev pub write : (ℕ → ℕ) → ℕ → ℕ → ℕ → ℕ
write bytes at v i = if i == at then v else bytes i

-- memset(data, 0, size / sizeof(*data) / 8) over the memory that `data` points at
unfoldable pub init : (ℕ → ℕ) → ℕ → Bitmap
init bytes size = record { bytes = λ i. if ltb i (size / 1 / 8) then 0 else bytes i; size = size }

unfoldable pub get : Bitmap → ℕ → Bool
get b index = test_bit (b.bytes (index / 8)) (index % 8)

unfoldable pub set : Bitmap → ℕ → Bool → Bitmap
set b index value =
    let byte = b.bytes (index / 8) in
    record b {
      bytes =
          write b.bytes (index / 8)
            (if value then raise_bit byte (index % 8) else clear_bit byte (index % 8));
    }

-- for (i = start; i < end; i++) set(i, value), in `left` rounds
unfoldable pub set_bits : ℕ → Bitmap → ℕ → Bool → Bitmap
set_bits zero b i value = b
set_bits (suc left) b i value = set_bits left (set b i value) (i + 1) value

-- value ? (uint8_t)-1 : 0
abbrev pub fill_byte : Bool → ℕ
fill_byte value = if value then 255 else 0

-- for (i = start_word; i < end_word; i++) data[i] = fill_value, in `left` rounds
unfoldable pub fill_words : ℕ → Bitmap → ℕ → Bool → Bitmap
fill_words zero b i value = b
fill_words (suc left) b i value =
    fill_words left (record b { bytes = write b.bytes i (fill_byte value) }) (i + 1) value

-- The first loop ends at the first byte boundary or at `end`.
unfoldable pub head_end : ℕ → ℕ → ℕ
head_end start end = let top = (start + 7) / 8 * 8 in if ltb top end then top else end

unfoldable pub set_range : Bitmap → ℕ → ℕ → Bool → Bitmap
unfolding head_end
set_range b start end value =
    let start_word = (start + 7) / 8 in
    let end_word = end / 8 in
    let head = set_bits (head_end start end - start) b start value in
    let body = fill_words (end_word - start_word) head start_word value in
    if leb end start || leb b.size start
    then b
    else if ltb end_word start_word
    then head
    else set_bits (end - end_word * 8) body (end_word * 8) value

-- Where a scan stands: the range is found, or `count` bits from `start_index` on match so far.
pub data Scan : Type 0 where
  found : ℕ → Scan
  going : (count start_index : ℕ) → Scan

-- The inner loop: bits `bit` to 7 of the byte at `byte_idx`, in `left` rounds.
unfoldable pub scan_bits :
    ℕ → (byte byte_idx bit : ℕ) → Bool → (length count start_index : ℕ) → Scan
scan_bits zero byte byte_idx bit value length count start_index = going count start_index
scan_bits (suc left) byte byte_idx bit value length count start_index =
    let start = if count == 0 then byte_idx * 8 + bit else start_index in
    let on = scan_bits left byte byte_idx (bit + 1) value length (count + 1) start in
    let off = scan_bits left byte byte_idx (bit + 1) value length 0 start_index in
    if beq (shifted_bit byte bit) value
    then (if count + 1 == length then found start else on)
    else off

-- !byte_match, a logical negation
abbrev pub not_byte : ℕ → ℕ
not_byte b = if b == 0 then 1 else 0

-- One round of the outer loop.
unfoldable pub scan_byte : (byte byte_idx : ℕ) → Bool → (length count start_index : ℕ) → Scan
unfolding scan_bits
scan_byte byte byte_idx value length count start_index =
    let start = if count == 0 then byte_idx * 8 else start_index in
    if byte == not_byte (fill_byte value)
    then going 0 start_index
    else if byte == fill_byte value
    then (if ltb length 8
        then found (byte_idx * 8)
        else if leb length (count + 8)
        then found start
        else going (count + 8) start)
    else scan_bits 8 byte byte_idx 0 value length count start_index

-- The scan ends when a range is found, and goes on otherwise.
abbrev pub proceed : Scan → (ℕ → ℕ → Scan) → Scan
proceed (found i) next = found i
proceed (going c s) next = next c s

-- The outer loop, in `left` rounds.
unfoldable pub scan_bytes :
    ℕ → (ℕ → ℕ) → (byte_idx : ℕ) → Bool → (length count start_index : ℕ) → Scan
scan_bytes zero bytes byte_idx value length count start_index = going count start_index
scan_bytes (suc left) bytes byte_idx value length count start_index =
    proceed (scan_byte (bytes byte_idx) byte_idx value length count start_index)
      λ c s. scan_bytes left bytes (byte_idx + 1) value length c s

abbrev pub result : Scan → ℕ
result (found i) = i
result (going c s) = npos

unfoldable pub find_range : Bitmap → Bool → ℕ → ℕ
unfolding scan_bytes
find_range b value length = result (scan_bytes (b.size / 8) b.bytes 0 value length 0 0)
