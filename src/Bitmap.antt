-- ===== src/Bitmap.antt =====
-- lab8/code/kern/fs/sfs/bitmap.c: the map of free blocks; a bit that is set is free. A word is
-- given by its bits, so `1 << offset` is the place `offset`, and `^=` and `|=` change one bit.
pub mod Bits
pub mod Create
mod Tests
use os_labs.Prelude.{
  ℕ, zero, suc, ◌+◌, ◌-◌, ◌*◌, ◌/◌, ◌%◌, Bool, true, false, not, ◌&&◌, ltb, ◌==◌, if◌then◌else◌,
  Option, none, some, ◌>>=◌, ◌>>◌, assert,
}

abbrev pub word_bits : ℕ
word_bits = 32

-- The bit at an offset of a word.
abbrev pub Words : Type 0
Words = ℕ → ℕ → Bool

pub record Bitmap : Type 0 where
  pub nbits : ℕ
  pub nwords : ℕ
  pub map : Words

abbrev pub set_bit : Words → ℕ → ℕ → Bool → Words
set_bit map ix offset b w o = if w == ix && o == offset then b else map w o

-- `map[ix] ^= (1 << offset)`
abbrev pub flip_bit : Words → ℕ → ℕ → Words
flip_bit map ix offset = set_bit map ix offset (not (map ix offset))

-- The loop that marks the bits of the last word from `overbits` on, `room` of them, as in use.
unfoldable pub mark_over : ℕ → Words → ℕ → ℕ → Words
mark_over zero map ix overbits = map
mark_over (suc room) map ix overbits = mark_over room (flip_bit map ix overbits) ix (overbits + 1)

-- `allocated`: both calls of `kmalloc` gave memory. The inner option is the pointer returned.
unfoldable pub bitmap_create : Bool → ℕ → Option (Option Bitmap)
bitmap_create allocated nbits =
    let nwords = (nbits + word_bits - 1) / word_bits in
    let ix = nwords - 1 in
    let overbits = nbits - ix * word_bits in
    let ones : Words = λ w o. true in
    let full = some (some (record { nbits = nbits; nwords = nwords; map = ones })) in
    let partial =
      assert (nbits / word_bits == ix)
      >> (assert (ltb 0 overbits && ltb overbits word_bits)
          >> some (
              some (record {
                nbits = nbits;
                nwords = nwords;
                map = mark_over (word_bits - overbits) ones ix overbits;
              }))) in
    assert (not (nbits == 0) && ltb nbits (nbits + word_bits))
    >> (if not allocated then some none else if nbits == nwords * word_bits then full else partial)

-- The inner loop of `bitmap_alloc`, over `room` bits from `offset` on.
unfoldable pub find_bit : ℕ → (ℕ → Bool) → ℕ → Option ℕ
find_bit zero word offset = none
find_bit (suc room) word offset =
    let rest = find_bit room word (offset + 1) in if word offset then some offset else rest

-- `map[ix] != 0`
unfoldable pub is_nonzero : ℕ → (ℕ → Bool) → ℕ → Bool
is_nonzero zero word offset = false
is_nonzero (suc room) word offset =
    let rest = is_nonzero room word (offset + 1) in if word offset then true else rest

-- The outer loop, over `room` words from `ix` on. The inner option is the word and the offset; the
-- outer one is `none` at `assert(0)`.
unfoldable pub find_word : ℕ → Words → ℕ → Option (Option (ℕ × ℕ))
unfolding find_bit is_nonzero
find_word zero map ix = some none
find_word (suc room) map ix =
    let rest = find_word room map (ix + 1) in
    let here : Option (Option (ℕ × ℕ)) = elim (find_bit word_bits (map ix) 0) [
      | none ↦ none
      | some offset ↦ some (some (ix, offset))
    ] in
    if is_nonzero word_bits (map ix) 0 then here else rest

-- The inner option is `*index_store`, or `-E_NO_MEM`.
unfoldable pub bitmap_alloc : Bitmap → Option (Bitmap × Option ℕ)
unfolding find_word
bitmap_alloc b = find_word b.nwords b.map 0 >>= λ r. elim r [
  | none ↦ some (b, none)
  | some (ix, offset) ↦
      some (record b { map = flip_bit b.map ix offset }, some (ix * word_bits + offset))
]

-- The word and the offset of an index.
unfoldable pub bitmap_translate : Bitmap → ℕ → Option (ℕ × ℕ)
bitmap_translate b index = assert (ltb index b.nbits) >> some (index / word_bits, index % word_bits)

unfoldable pub bitmap_test : Bitmap → ℕ → Option Bool
unfolding bitmap_translate
bitmap_test b index = bitmap_translate b index >>= λ p. some (b.map p.0 p.1)

unfoldable pub bitmap_free : Bitmap → ℕ → Option Bitmap
unfolding bitmap_translate
bitmap_free b index = bitmap_translate b index >>= λ p.
    assert (not (b.map p.0 p.1)) >> some (record b { map = set_bit b.map p.0 p.1 true })
