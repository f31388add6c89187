-- ===== src/Strings/Copy.antt =====
-- The copying of strings in lab8/code/libs/string.c.
use os_labs.Prelude.{
  ℕ, zero, suc, ◌+◌, ◌-◌, ◌<◌, ◌≤◌, ◌≡◌, refl, ◌⊎◌, inl, ◌∙◌, get_or, length-append, some, List, [],
  ◌∷◌, ◌++◌, length, ◌==◌, if◌then◌else◌, arith,
}
use os_labs.Strings.{Memory, store, size_mod, strcpy, strncpy, strcat}
use native.Mathlib.Nat.{add-zero}
use os_labs.Strings.Move.{within}
use os_labs.Strings.Scan.{Holds, strlen_lem}

-- Two areas of memory of `n` and `k` bytes do not overlap.
abbrev pub Apart : ℕ → ℕ → ℕ → ℕ → Type 0
Apart p n q k = (p + n ≤ q) ⊎ (q + k ≤ p)

-- A write outside a string and its NUL leaves the string.
pub Holds-store :
    (cs : List ℕ) (m : Memory) (s p v : ℕ)
    → (p < s) ⊎ (s + length cs < p)
    → Holds m s cs
    → Holds (store m p v) s cs
Holds-store [] m s p v out h = ground arith
Holds-store (c ∷ cs) m s p v out h =
    (ground arith, h.1, Holds-store cs m (s + 1) p v (omega arith) h.2)

-- What a copy of the string `cs` to `dst` leaves behind.
pub record Copied (m : Memory) (dst : ℕ) (cs : List ℕ) (m' : Memory) : Type 0 where
  pub holds : Holds m' dst cs
  pub same : (q : ℕ) → (q < dst) ⊎ (dst + length cs < q) → m' q ≡ m q

-- `strcpy` returns if the fuel exceeds the length: `dst` then holds the string of `src`, and no
-- byte outside it and its NUL has changed, if the two areas do not overlap.
pub strcpy_lem :
    (cs : List ℕ) (f : ℕ) (m : Memory) (dst src : ℕ)
    → Holds m src cs
    → Apart dst (length cs + 1) src (length cs + 1)
    → length cs < f
    → (m' : Memory) × (strcpy f m dst src ≡ some m') × Copied m dst cs m'
unfolding strcpy
strcpy_lem cs zero m dst src h a lt = absurd (omega arith)
strcpy_lem [] (suc f) m dst src h a lt = (
  store m dst (m src),
  ground arith,
  record { holds = ground arith; same = λ q out. ground arith },
)
strcpy_lem (c ∷ cs) (suc f) m dst src h a lt =
    let r =
      strcpy_lem cs f (store m dst (m src)) (dst + 1) (src + 1)
        (Holds-store cs m (src + 1) dst (m src) (omega arith) h.2) (omega arith) (omega arith) in
    (
      r.0,
      ground (arith, r.1),
      record {
        holds = (ground (arith, r.2.same dst (inl (omega arith))), h.1, r.2.holds);
        same = λ q out. ground (arith, r.2.same q (omega arith));
      },
    )

-- A string in front of one that is kept.
Holds-append :
    (ds cs : List ℕ) (m m' : Memory) (s : ℕ)
    → Holds m s ds
    → ((q : ℕ) → q < s + length ds → m' q ≡ m q)
    → Holds m' (s + length ds) cs
    → Holds m' s (ds ++ cs)
Holds-append [] cs m m' s h same k = rw add-zero at k
Holds-append (d ∷ ds) cs m m' s h same k = (
  same s (omega arith) ∙ h.0,
  h.1,
  Holds-append ds cs m m' (s + 1) h.2 (λ q lt. same q (omega arith)) (rw shift at k),
)
  where
    shift : s + suc (length ds) ≡ s + 1 + length ds
    shift = omega arith

-- `strcat` leaves the concatenation of the two strings at `dst` and changes no byte outside it.
pub strcat_lem :
    (ds cs : List ℕ) (f : ℕ) (m : Memory) (dst src : ℕ)
    → Holds m dst ds
    → Holds m src cs
    → Apart dst (length ds + length cs + 1) src (length cs + 1)
    → length ds + length cs < f
    → length ds < size_mod
    → (m' : Memory) × (strcat f m dst src ≡ some m') × Copied m dst (ds ++ cs) m'
unfolding strcat
strcat_lem ds cs f m dst src h k a lt small =
    let r = strcpy_lem cs f m (dst + length ds) src k (omega arith) (omega arith) in
    (
      r.0,
      ground (arith, strlen_lem ds f m dst h, r.1),
      record {
        holds = Holds-append ds cs m r.0 dst h (λ q p. r.2.same q (inl p)) r.2.holds;
        same = λ q out. r.2.same q (omega (arith, length-append ds cs));
      },
    )

get_or-cons :
    (c : ℕ) (cs : List ℕ) (k : ℕ)
    → get_or (c ∷ cs) k 0 ≡ (if k == 0 then c else get_or cs (k - 1) 0)
get_or-cons c cs zero = refl
get_or-cons c cs (suc k) = ground (arith, back)
  where
    back : suc k - 1 ≡ k
    back = omega arith

-- `strncpy` writes exactly `len` bytes: those of the string, cut off or padded with NULs.
pub strncpy_lem :
    (cs : List ℕ) (len : ℕ) (m : Memory) (dst src q : ℕ)
    → Holds m src cs
    → Apart dst len src (length cs + 1)
    → strncpy len m dst src q ≡ (if within dst len q then get_or cs (q - dst) 0 else m q)
unfolding strncpy
strncpy_lem cs zero m dst src q h a = ground arith
strncpy_lem [] (suc n) m dst src q h a = ground (
  arith,
  strncpy_lem [] n (store m dst (m src)) (dst + 1) src q
      (Holds-store [] m src dst (m src) (omega arith) h),
)
strncpy_lem (c ∷ cs) (suc n) m dst src q h a =
    let kept = Holds-store cs m (src + 1) dst (m src) (omega arith) h.2 in
    ground (
      arith,
      strncpy_lem cs n (store m dst (m src)) (dst + 1) (src + 1) q kept,
      get_or-cons c cs (q - dst),
      back,
    )
  where
    back : q - (dst + 1) ≡ q - dst - 1
    back = omega arith
