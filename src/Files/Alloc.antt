-- ===== src/Files/Alloc.antt =====
-- `fd_array_alloc` of lab8/code/kern/fs/file.c.
use os_labs.Prelude.{
  ℕ, zero, suc, ◌+◌, ◌≡◌, ◌≤◌, ◌<◌, ◌⊎◌, inl, inr, refl, ap, sym, ◌∙◌, arith, true, false, ◌==◌,
  Bool-cases, Option-cases, Option, none, some, negsuc,
}
use os_labs.Files.{
  fd_init, is_none, File, Files, set_file, take_entry, find_none, fd_array_alloc, AllocResult,
  found, max_open,
}
use mathlib.Core.Path.{subst}
use os_labs.Files.Valid.{IsValid, IsValid-change}

-- Every entry from `lo` up to `i` is in use.
abbrev pub InUse : (ℕ → File) → ℕ → ℕ → Type 0
InUse files lo i = (j : ℕ) → lo ≤ j → j < i → is_none (files j).status ≡ false

-- What the search for a free entry returns.
abbrev pub Lowest : (ℕ → File) → ℕ → ℕ → Option ℕ → Type 0
Lowest files lo hi none = InUse files lo hi
Lowest files lo hi (some i) =
    (lo ≤ i) × (i < hi) × (is_none (files i).status ≡ true) × InUse files lo i

InUse-next :
    (files : ℕ → File) (lo hi : ℕ)
    → is_none (files lo).status ≡ false
    → InUse files (lo + 1) hi
    → InUse files lo hi
InUse-next files lo hi e h = λ j a b. elim (Bool-cases (lo == j)) [
  | inl same ↦
      let eq : lo ≡ j = ground (arith, same) in ap (λ k. is_none (files k).status) (sym eq) ∙ e
  | inr ne ↦ h j (ground (arith, ne)) b
]

Lowest-next :
    (files : ℕ → File) (lo hi : ℕ) (r : Option ℕ)
    → is_none (files lo).status ≡ false
    → Lowest files (lo + 1) hi r
    → Lowest files lo hi r
Lowest-next files lo hi none e h = InUse-next files lo hi e h
Lowest-next files lo hi (some i) e h = (omega (arith, h.0), h.1, h.2, InUse-next files lo i e h.3)

-- The loop of `fd_array_alloc` finds the lowest free entry, and nothing only if all are in use.
pub find_none-Lowest :
    (room : ℕ) (files : ℕ → File) (fd : ℕ) → Lowest files fd (fd + room) (find_none room files fd)
unfolding find_none
find_none-Lowest zero files fd = λ j a b. absurd (omega arith)
find_none-Lowest (suc room) files fd = elim (Bool-cases (is_none (files fd).status)) [
  | inl e ↦ rw e (omega arith, omega arith, e, λ j a b. absurd (omega arith))
  | inr e ↦ rw e (
      Lowest-next files fd (fd + suc room) (find_none room files (fd + 1)) e (
        subst (λ hi. Lowest files (fd + 1) hi (find_none room files (fd + 1))) shift
          (find_none-Lowest room files (fd + 1))))
]
  where
    shift : fd + 1 + room ≡ fd + suc room
    shift = omega arith

-- The entry that `fd_array_alloc` sets up.
abbrev fresh : File → File
fresh f = record f { status = fd_init; node = none }

take_entry-IsValid :
    (s : Files) (i : ℕ)
    → IsValid s
    → i < s.nentry
    → is_none (s.fd_array i).status ≡ true
    → (s' : Files) × (take_entry s i ≡ some (s', found i))
      × IsValid s'
      × (s' ≡ set_file s i (fresh (s.fd_array i)))
unfolding take_entry
take_entry-IsValid s i v lt free =
    let file = v.sound i lt in
    let empty : (s.fd_array i).open_count ≡ 0 = file.unopened (ground (arith, free)) in
    let f = fresh (s.fd_array i) in
    (
      set_file s i f,
      ground (arith, empty),
      IsValid-change s (set_file s i f) i f v lt refl (λ j ne. ground arith) (ground arith)
          (record { index = file.index; unopened = λ e. empty; opened = λ e. cc; noded = λ e. cc })
          (λ n. (omega arith, (v.counted n).1)),
      refl,
    )

zero_add : (n : ℕ) → 0 + n ≡ n
zero_add n = omega arith

-- `fd_array_alloc(NO_FD)` on a valid table fails no assertion and keeps it valid: it returns the
-- lowest free entry, set up, and `-E_MAX_OPEN` only if every entry is in use.
pub fd_array_alloc-Lowest :
    (s : Files)
    → IsValid s
    → (s' : Files) × (r : AllocResult) × (fd_array_alloc s (negsuc 0x9526) ≡ some (s', r))
      × IsValid s'
      × (((r ≡ max_open) × InUse s.fd_array 0 s.nentry)
          ⊎ ((i : ℕ) × (r ≡ found i)
              × Lowest s.fd_array 0 s.nentry (some i)
              × (s' ≡ set_file s i (record (s.fd_array i) { status = fd_init; node = none }))))
unfolding fd_array_alloc
fd_array_alloc-Lowest s v =
    let low : Lowest s.fd_array 0 s.nentry (find_none s.nentry s.fd_array 0) =
      subst (λ hi. Lowest s.fd_array 0 hi (find_none s.nentry s.fd_array 0)) (zero_add s.nentry)
        (find_none-Lowest s.nentry s.fd_array 0) in
    elim (Option-cases (find_none s.nentry s.fd_array 0)) [
      | inl e ↦
          let all = subst (Lowest s.fd_array 0 s.nentry) e low in
          (s, max_open, rw e, v, inl (refl, all))
      | inr (i, e) ↦
          let it = subst (Lowest s.fd_array 0 s.nentry) e low in
          let (s', ran, ok, same) = take_entry-IsValid s i v it.1 it.2 in
          (s', found i, rw (fd_array_alloc, e) ran, ok, inr (i, refl, it, same))
    ]
