-- ===== src/Bitmap/Create.antt =====
-- `bitmap_create` of lab8/code/kern/fs/sfs/bitmap.c: the bits behind the last block.
use os_labs.Prelude.{
  ℕ, zero, suc, ◌+◌, ◌-◌, ◌*◌, ◌/◌, ◌%◌, ◌≡◌, ◌≢◌, ◌≤◌, ◌<◌, inl, inr, refl, ◌∙◌, arith, true,
  false, not, ◌&&◌, ltb, leb, ◌==◌, ==-refl, if◌then◌else◌, Bool-cases, some,
}
use os_labs.Bitmap.{Words, Bitmap, flip_bit, mark_over, bitmap_create}
use os_labs.Bitmap.Bits.{is_free}

mark_over_lem :
    (room : ℕ) (map : Words) (ix lo w o : ℕ)
    → mark_over room map ix lo w o
      ≡ (if w == ix && leb lo o && ltb o (lo + room) then not (map w o) else map w o)
unfolding mark_over
mark_over_lem zero map ix lo w o = ground arith
mark_over_lem (suc room) map ix lo w o =
    ground (arith, mark_over_lem room (flip_bit map ix lo) ix (lo + 1) w o)

last_word :
    (nbits : ℕ)
    → 0 < nbits
    → (nbits == (nbits + 32 - 1) / 32 * 32) ≡ false
    → (nbits / 32 == (nbits + 32 - 1) / 32 - 1) ≡ true
last_word nbits h e =
    let ne : nbits ≢ (nbits + 32 - 1) / 32 * 32 = ground (arith, e) in
    let eq : nbits / 32 ≡ (nbits + 32 - 1) / 32 - 1 = omega (arith, ne) in rw eq (==-refl _)

over_bits :
    (nbits : ℕ)
    → 0 < nbits
    → (nbits == (nbits + 32 - 1) / 32 * 32) ≡ false
    → (ltb 0 (nbits - ((nbits + 32 - 1) / 32 - 1) * 32)
        && ltb (nbits - ((nbits + 32 - 1) / 32 - 1) * 32) 32)
      ≡ true
over_bits nbits h e =
    let ne : nbits ≢ (nbits + 32 - 1) / 32 * 32 = ground (arith, e) in
    let a : 0 < nbits - ((nbits + 32 - 1) / 32 - 1) * 32 = omega (arith, ne) in
    let b : nbits - ((nbits + 32 - 1) / 32 - 1) * 32 < 32 = omega (arith, ne) in
    ground (arith, a, b)

bit_place_by :
    (q r ix lo k nbits : ℕ)
    → k ≡ q * 32 + r
    → r < 32
    → nbits ≡ ix * 32 + lo
    → lo < 32
    → q ≤ ix
    → (if q == ix && leb lo r && ltb r (lo + (32 - lo)) then not true else true) ≡ ltb k nbits
bit_place_by q r ix lo k nbits ek hr en hl le = ground arith

bit_place :
    (nbits k : ℕ)
    → 0 < nbits
    → (nbits == (nbits + 32 - 1) / 32 * 32) ≡ false
    → k < (nbits + 32 - 1) / 32 * 32
    → let ix = (nbits + 32 - 1) / 32 - 1 in
      let lo = nbits - ix * 32 in
      (if k / 32 == ix && leb lo (k % 32) && ltb (k % 32) (lo + (32 - lo)) then not true else true)
      ≡ ltb k nbits
bit_place nbits k h e lt =
    let ne : nbits ≢ (nbits + 32 - 1) / 32 * 32 = ground (arith, e) in
    let ix = (nbits + 32 - 1) / 32 - 1 in
    let lo = nbits - ix * 32 in
    bit_place_by (k / 32) (k % 32) ix lo k nbits (omega arith) (omega arith) (omega (arith, ne))
      (omega (arith, ne)) (omega (arith, ne))

-- `bitmap_create` with memory, for at least one block, fails no assertion: the words hold all the
-- blocks, every block is free, and the bits behind them are marked as in use.
pub bitmap_create_lem :
    (nbits : ℕ)
    → 0 < nbits
    → (b : Bitmap) × (bitmap_create true nbits ≡ some (some b))
      × (b.nbits ≡ nbits)
      × (nbits ≤ b.nwords * 32)
      × ((k : ℕ) → k < b.nwords * 32 → is_free b k ≡ ltb k nbits)
unfolding bitmap_create
bitmap_create_lem nbits h =
    let nwords = (nbits + 32 - 1) / 32 in
    let ix = nwords - 1 in
    let overbits = nbits - ix * 32 in
    let some_bits : (not (nbits == 0) && ltb nbits (nbits + 32)) ≡ true = ground (arith, h) in
    let enough : nbits ≤ nwords * 32 = omega (arith, h) in
    elim (Bool-cases (nbits == nwords * 32)) [
      | inl e ↦ (
        record { nbits = nbits; nwords = nwords; map = λ w o. true },
        rw (some_bits, e),
        refl,
        enough,
        λ k lt. ground (arith, e),
      )
      | inr e ↦ (
        record {
          nbits = nbits;
          nwords = nwords;
          map = mark_over (32 - overbits) (λ w o. true) ix overbits;
        },
        rw (some_bits, e, last_word nbits h e, over_bits nbits h e),
        refl,
        enough,
        λ k lt.
            mark_over_lem (32 - overbits) (λ w o. true) ix overbits (k / 32) (k % 32)
            ∙ bit_place nbits k h e lt,
      )
    ]
