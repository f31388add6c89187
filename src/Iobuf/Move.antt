-- ===== src/Iobuf/Move.antt =====
-- The transfers of lab8/code/kern/fs/iobuf.c.
use os_labs.Prelude.{
  ℕ, ◌+◌, ◌-◌, ◌≡◌, ◌≤◌, ◌↔◌, refl, arith, Bool, true, ◌==◌, ltb, if◌then◌else◌, some, Bool-cases,
  ◌⊎◌, inl, inr, ap, ◌∙◌,
}
use os_labs.Strings.{Memory, memmove, memset}
use os_labs.Strings.Move.{within, memmove_lem, memset_lem}
use os_labs.Iobuf.{Iobuf, Moved, iobuf_skip, transfer, iobuf_move, iobuf_move_zeros}

-- The number of bytes that are transferred, the smaller of `len` and what the buffer has left.
abbrev pub amount : Iobuf → ℕ → ℕ
amount iob len = if ltb len iob.io_resid then len else iob.io_resid

-- What a transfer of up to `len` bytes does to the buffer and what it returns.
pub record Transferred (iob : Iobuf) (len : ℕ) (r : Moved) : Type 0 where
  pub copied : r.copied ≡ amount iob len
  pub base : r.buffer.io_base ≡ iob.io_base + r.copied
  pub offset : r.buffer.io_offset ≡ iob.io_offset + r.copied
  pub resid : r.buffer.io_resid + r.copied ≡ iob.io_resid
  pub size : r.buffer.io_len ≡ iob.io_len
  pub complete : (r.complete ≡ true) ↔ (len ≤ iob.io_resid)

transfer-Transferred :
    (write : ℕ → Memory) (m : Memory) (iob : Iobuf) (len : ℕ)
    → (r : Moved) × (transfer write m iob len ≡ some r)
      × Transferred iob len r
      × ((amount iob len ≡ 0) ⊎ (r.memory ≡ write (amount iob len)))
      × (amount iob len ≡ 0 → r.memory ≡ m)
unfolding transfer iobuf_skip
transfer-Transferred write m iob len = elim (Bool-cases (ltb 0 (amount iob len))) [
  | inr none_left ↦ (
    record { memory = m; buffer = iob; copied = amount iob len; complete = len == 0 },
    rw none_left,
    record {
      copied = ground arith;
      base = ground (arith, none_left);
      offset = ground (arith, none_left);
      resid = ground (arith, none_left);
      size = refl;
      complete = ground (arith, none_left);
    },
    inl (ground (arith, none_left)),
    λ e. refl,
  )
  | inl more ↦ (
    record {
      memory = write (amount iob len);
      buffer = record iob {
        io_base = iob.io_base + amount iob len;
        io_offset = iob.io_offset + amount iob len;
        io_resid = iob.io_resid - amount iob len;
      };
      copied = amount iob len;
      complete = len - amount iob len == 0;
    },
    ground (arith, more),
    record {
      copied = ground arith;
      base = refl;
      offset = refl;
      resid = ground arith;
      size = refl;
      complete = ground arith;
    },
    inr refl,
    λ e. absurd (ground (arith, more, e)),
  )
]

moved_memory :
    (m m' : Memory) (dst src n c : ℕ)
    → c ≡ n
    → (n ≡ 0) ⊎ (m' ≡ memmove m dst src n)
    → (n ≡ 0 → m' ≡ m)
    → (q : ℕ) → m' q ≡ (if within dst c q then m (src + (q - dst)) else m q)
moved_memory m m' dst src n c e (inl z) kept q =
    ap (λ (w : Memory). w q) (kept z) ∙ ground (arith, e, z)
moved_memory m m' dst src n c e (inr w) kept q =
    rw e (ap (λ (w : Memory). w q) w ∙ memmove_lem m dst src n q)

zeroed_memory :
    (m m' : Memory) (dst n c : ℕ)
    → c ≡ n
    → (n ≡ 0) ⊎ (m' ≡ memset m dst 0 n)
    → (n ≡ 0 → m' ≡ m)
    → (q : ℕ) → m' q ≡ (if within dst c q then 0 else m q)
zeroed_memory m m' dst n c e (inl z) kept q =
    ap (λ (w : Memory). w q) (kept z) ∙ ground (arith, e, z)
zeroed_memory m m' dst n c e (inr w) kept q =
    rw e (ap (λ (w : Memory). w q) w ∙ memset_lem n m dst 0 q)

-- `iobuf_move` never fails an assertion: it copies the smaller of `len` and what the buffer has
-- left, as if through a second buffer and in the direction asked for, advances the buffer by that
-- much, and returns 0 exactly if the buffer had `len` bytes left.
pub iobuf_move-Transferred :
    (m : Memory) (iob : Iobuf) (bytes len : ℕ) (m2b : Bool)
    → (r : Moved) × (iobuf_move m iob bytes len m2b ≡ some r)
      × Transferred iob len r
      × ((q : ℕ)
          → let src = if m2b then bytes else iob.io_base in
            let dst = if m2b then iob.io_base else bytes in
            r.memory q ≡ (if within dst r.copied q then m (src + (q - dst)) else m q))
unfolding iobuf_move
iobuf_move-Transferred m iob bytes len m2b =
    let src = if m2b then bytes else iob.io_base in
    let dst = if m2b then iob.io_base else bytes in
    let (r, run, t, wrote, kept) = transfer-Transferred (λ n. memmove m dst src n) m iob len in
    (r, run, t, moved_memory m r.memory dst src (amount iob len) r.copied t.copied wrote kept)

-- `iobuf_move_zeros` never fails an assertion: it clears the smaller of `len` and what the buffer
-- has left, advances the buffer by that much, and returns 0 exactly if it had `len` bytes left.
pub iobuf_move_zeros-Transferred :
    (m : Memory) (iob : Iobuf) (len : ℕ)
    → (r : Moved) × (iobuf_move_zeros m iob len ≡ some r)
      × Transferred iob len r
      × ((q : ℕ) → r.memory q ≡ (if within iob.io_base r.copied q then 0 else m q))
unfolding iobuf_move_zeros
iobuf_move_zeros-Transferred m iob len =
    let (r, run, t, wrote, kept) = transfer-Transferred (λ n. memset m iob.io_base 0 n) m iob len in
    (r, run, t, zeroed_memory m r.memory iob.io_base (amount iob len) r.copied t.copied wrote kept)
