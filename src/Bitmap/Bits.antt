-- ===== src/Bitmap/Bits.antt =====
-- The bitmap of lab8/code/kern/fs/sfs/bitmap.c as a set of free indices.
use os_labs.Prelude.{
  ℕ, zero, suc, ◌+◌, ◌*◌, ◌/◌, ◌%◌, ◌≡◌, ◌≢◌, ◌≤◌, ◌<◌, ◌⊎◌, inl, inr, refl, ap, sym, ◌∙◌, arith,
  Bool, true, false, ◌&&◌, ltb, ◌==◌, ==-refl, if◌then◌else◌, Bool-cases, Option-cases, Option,
  none, some,
}
use mathlib.Core.Path.{subst}
use os_labs.Bitmap.{
  Words, Bitmap, word_bits, set_bit, flip_bit, find_bit, is_nonzero, find_word, bitmap_alloc,
  bitmap_translate, bitmap_free,
}

-- Is the block of this index free?
abbrev pub is_free : Bitmap → ℕ → Bool
is_free b k = b.map (k / word_bits) (k % word_bits)

-- The first bit that is set, or none of `room` bits is.
abbrev First : (ℕ → Bool) → ℕ → ℕ → Option ℕ → Type 0
First word lo hi none = (o : ℕ) → lo ≤ o → o < hi → word o ≡ false
First word lo hi (some i) =
    (lo ≤ i) × (i < hi) × (word i ≡ true) × ((o : ℕ) → lo ≤ o → o < i → word o ≡ false)

below_next :
    (word : ℕ → Bool) (lo hi : ℕ)
    → word lo ≡ false
    → ((o : ℕ) → lo + 1 ≤ o → o < hi → word o ≡ false)
    → (o : ℕ) → lo ≤ o
    → o < hi
    → word o ≡ false
below_next word lo hi e h o a b = elim (Bool-cases (lo == o)) [
  | inl same ↦ let eq : lo ≡ o = ground (arith, same) in ap word (sym eq) ∙ e
  | inr ne ↦ h o (ground (arith, ne)) b
]

First-next :
    (word : ℕ → Bool) (lo hi : ℕ) (r : Option ℕ)
    → word lo ≡ false
    → First word (lo + 1) hi r
    → First word lo hi r
First-next word lo hi none e h = below_next word lo hi e h
First-next word lo hi (some i) e h = (omega (arith, h.0), h.1, h.2, below_next word lo i e h.3)

find_bit-First :
    (room : ℕ) (word : ℕ → Bool) (lo hi : ℕ)
    → hi ≡ lo + room
    → First word lo hi (find_bit room word lo)
unfolding find_bit
find_bit-First zero word lo hi e = λ o a b. absurd (omega (arith, e))
find_bit-First (suc room) word lo hi e = elim (Bool-cases (word lo)) [
  | inl t ↦ rw t (omega arith, omega (arith, e), t, λ o a b. absurd (omega arith))
  | inr t ↦ rw t (
      First-next word lo hi (find_bit room word (lo + 1)) t
        (find_bit-First room word (lo + 1) hi (omega (arith, e))))
]

-- The test of a word for zero is whether the loop over_bits its bits finds nothing.
abbrev is_some : Option ℕ → Bool
is_some none = false
is_some (some i) = true

is_nonzero_lem :
    (room : ℕ) (word : ℕ → Bool) (lo : ℕ)
    → is_nonzero room word lo ≡ is_some (find_bit room word lo)
unfolding is_nonzero find_bit
is_nonzero_lem zero word lo = refl
is_nonzero_lem (suc room) word lo = ground (arith, is_nonzero_lem room word (lo + 1))

-- What the outer loop finds: no word has a free bit, or the first free bit.
abbrev FirstFree : Words → ℕ → ℕ → Option (ℕ × ℕ) → Type 0
FirstFree map lo hi none = (w o : ℕ) → lo ≤ w → w < hi → o < 32 → map w o ≡ false
FirstFree map lo hi (some (ix, offset)) =
    (lo ≤ ix)
    × (ix < hi)
    × (offset < 32)
    × (map ix offset ≡ true)
    × ((w o : ℕ) → lo ≤ w → o < 32 → w < ix → map w o ≡ false)
    × ((o : ℕ) → o < offset → map ix o ≡ false)

FirstFree-next :
    (map : Words) (lo hi : ℕ) (r : Option (ℕ × ℕ))
    → ((o : ℕ) → o < 32 → map lo o ≡ false)
    → FirstFree map (lo + 1) hi r
    → FirstFree map lo hi r
FirstFree-next map lo hi none e h = λ w o a b c. elim (Bool-cases (lo == w)) [
  | inl same ↦ let eq : lo ≡ w = ground (arith, same) in ap (λ k. map k o) (sym eq) ∙ e o c
  | inr ne ↦ h w o (ground (arith, ne)) b c
]
FirstFree-next map lo hi (some (ix, offset)) e h = (
  omega (arith, h.0),
  h.1,
  h.2,
  h.3,
  λ w o a b c. elim (Bool-cases (lo == w)) [
    | inl same ↦ let eq : lo ≡ w = ground (arith, same) in ap (λ k. map k o) (sym eq) ∙ e o b
    | inr ne ↦ h.4 w o (ground (arith, ne)) b c
  ],
  h.5,
)

find_word-FirstFree :
    (room : ℕ) (map : Words) (lo hi : ℕ)
    → hi ≡ lo + room
    → (r : Option (ℕ × ℕ)) × (find_word room map lo ≡ some r) × FirstFree map lo hi r
unfolding find_word
find_word-FirstFree zero map lo hi e = (none, refl, λ w o a b c. absurd (omega (arith, e)))
find_word-FirstFree (suc room) map lo hi e =
    let first = find_bit-First 32 (map lo) 0 32 refl in
    elim (Option-cases (find_bit 32 (map lo) 0)) [
      | inl none_here ↦
          let zero_word = is_nonzero_lem 32 (map lo) 0 ∙ ap is_some none_here in
          let all = subst (First (map lo) 0 32) none_here first in
          let (r, run, f) = find_word-FirstFree room map (lo + 1) hi (omega (arith, e)) in
          (
            r,
            rw (find_word, zero_word) run,
            FirstFree-next map lo hi r (λ o h. all o (omega arith) h) f,
          )
      | inr (i, here) ↦
          let nonzero = is_nonzero_lem 32 (map lo) 0 ∙ ap is_some here in
          let it = subst (First (map lo) 0 32) here first in
          (
            some (lo, i),
            rw (find_word, nonzero, here),
            (
              omega arith,
              omega (arith, e),
              it.1,
              it.2,
              λ w o a b c. absurd (omega arith),
              λ o h. it.3 o (omega arith) h,
            ),
          )
    ]

-- What `bitmap_alloc` leaves and returns.
abbrev pub Allocated : Bitmap → Bitmap → Option ℕ → Type 0
Allocated b b' none = (b' ≡ b) × ((k : ℕ) → k < b.nwords * 32 → is_free b k ≡ false)
Allocated b b' (some i) =
    (i < b.nwords * 32)
    × (is_free b i ≡ true)
    × ((k : ℕ) → k < i → is_free b k ≡ false)
    × ((k : ℕ) → is_free b' k ≡ (if k == i then false else is_free b k))
    × (b'.nbits ≡ b.nbits)
    × (b'.nwords ≡ b.nwords)

place_div : (ix offset : ℕ) → offset < 32 → (ix * 32 + offset) / 32 ≡ ix
place_div ix offset h = omega arith

place_mod : (ix offset : ℕ) → offset < 32 → (ix * 32 + offset) % 32 ≡ offset
place_mod ix offset h = omega arith

lower_place :
    (k ix offset : ℕ)
    → offset < 32
    → k < ix * 32 + offset
    → (k / 32 < ix) ⊎ ((k / 32 ≡ ix) × (k % 32 < offset))
lower_place k ix offset h lt = elim (Bool-cases (ltb (k / 32) ix)) [
  | inl e ↦ inl (ground (arith, e))
  | inr e ↦ let ge : ix ≤ k / 32 = ground (arith, e) in inr (omega arith, omega arith)
]

flipped :
    (map : Words) (ix offset k : ℕ)
    → offset < 32
    → map ix offset ≡ true
    → flip_bit map ix offset (k / 32) (k % 32)
      ≡ (if k == ix * 32 + offset then false else map (k / 32) (k % 32))
flipped map ix offset k h set = elim (Bool-cases (k == ix * 32 + offset)) [
  | inl e ↦
      let same : k ≡ ix * 32 + offset = ground (arith, e) in
      let w : k / 32 ≡ ix = omega (arith, same) in
      let o : k % 32 ≡ offset = omega (arith, same) in
      rw (e, w, o) (rw (==-refl ix, ==-refl offset, set))
  | inr e ↦
      let ne : k ≢ ix * 32 + offset = ground (arith, e) in
      elim (Bool-cases (k / 32 == ix && k % 32 == offset)) [
        | inl both ↦
            let w : k / 32 ≡ ix = ground (arith, both) in
            let o : k % 32 ≡ offset = ground (arith, both) in absurd (ne (omega (arith, w, o)))
        | inr other ↦ rw (e, other)
      ]
]

alloc_result :
    (b : Bitmap) (r : Option (ℕ × ℕ))
    → find_word b.nwords b.map 0 ≡ some r
    → FirstFree b.map 0 b.nwords r
    → (b' : Bitmap) × (i : Option ℕ) × (bitmap_alloc b ≡ some (b', i)) × Allocated b b' i
unfolding bitmap_alloc
alloc_result b none run f =
    (b, none, rw run, (refl, λ k h. f (k / 32) (k % 32) (omega arith) (omega arith) (omega arith)))
alloc_result b (some (ix, offset)) run f = (
  record b { map = flip_bit b.map ix offset },
  some (ix * 32 + offset),
  rw run,
  (
    omega (arith, f.1, f.2),
    ap (λ w. b.map w ((ix * 32 + offset) % 32)) (place_div ix offset f.2)
        ∙ ap (b.map ix) (place_mod ix offset f.2)
        ∙ f.3,
    λ k h. elim (lower_place k ix offset f.2 h) [
      | inl low ↦ f.4 (k / 32) (k % 32) (omega arith) (omega arith) low
      | inr (same, low) ↦ ap (λ w. b.map w (k % 32)) same ∙ f.5 (k % 32) low
    ],
    λ k. flipped b.map ix offset k f.2 f.3,
    refl,
    refl,
  ),
)

-- `bitmap_alloc` fails no assertion. It returns the lowest free index and takes exactly that block,
-- or, if no word has a free bit, `-E_NO_MEM`, and nothing changes. The size stays.
pub bitmap_alloc_lem :
    (b : Bitmap)
    → (b' : Bitmap) × (i : Option ℕ) × (bitmap_alloc b ≡ some (b', i)) × Allocated b b' i
bitmap_alloc_lem b =
    let (r, run, f) = find_word-FirstFree b.nwords b.map 0 b.nwords (omega arith) in
    alloc_result b r run f

-- `bitmap_free` of a block that is in use frees exactly that block, keeps the size, and fails no
-- assertion.
pub bitmap_free_lem :
    (b : Bitmap) (i : ℕ)
    → i < b.nbits
    → is_free b i ≡ false
    → (b' : Bitmap) × (bitmap_free b i ≡ some b')
      × ((k : ℕ) → is_free b' k ≡ (if k == i then true else is_free b k))
      × (b'.nbits ≡ b.nbits)
      × (b'.nwords ≡ b.nwords)
unfolding bitmap_free bitmap_translate
bitmap_free_lem b i lt used = (
  record b { map = set_bit b.map (i / 32) (i % 32) true },
  ground (arith, lt, used),
  λ k. elim (Bool-cases (k == i)) [
    | inl e ↦
        let same : k ≡ i = ground (arith, e) in
        rw (e, same) (rw (==-refl (i / 32), ==-refl (i % 32)))
    | inr e ↦
        let ne : k ≢ i = ground (arith, e) in
        elim (Bool-cases (k / 32 == i / 32 && k % 32 == i % 32)) [
          | inl both ↦
              let w : k / 32 ≡ i / 32 = ground (arith, both) in
              let o : k % 32 ≡ i % 32 = ground (arith, both) in absurd (ne (omega (arith, w, o)))
          | inr other ↦ rw (e, other)
        ]
  ],
  refl,
  refl,
)
