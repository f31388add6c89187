-- ===== src/Strings/Convert.antt =====
-- `strtol` of lab8/code/libs/string.c on the decimal notation of a number.
use os_labs.Prelude.{
  ℕ, zero, suc, ◌+◌, ◌-◌, ◌*◌, ◌%◌, ◌<◌, ◌≤◌, ◌≡◌, refl, Bool, true, false, ◌||◌, some, List, [],
  ◌∷◌, ◌++◌, length, replicate, length-replicate, length-append, ◌==◌, if◌then◌else◌, arith,
}
use native.Mathlib.Nat.{add-zero}
use os_labs.Strings.{
  Memory, size_mod, skip_blanks, read_sign, read_base, digit, read_digits, strtol,
}
use os_labs.Strings.Scan.{Holds}

-- The digits of a number, most significant first, and the number that they stand for.
abbrev pub Decimal : List ℕ → Type 0
Decimal [] = Unit
Decimal (d ∷ ds) = (d < 10) × Decimal ds

abbrev pub numeral : List ℕ → List ℕ
numeral [] = []
numeral (d ∷ ds) = (d + b'0') ∷ numeral ds

unfoldable pub value : ℕ → List ℕ → ℕ
value acc [] = acc
value acc (d ∷ ds) = value (acc * 10 + d) ds

acc-le-value : (ds : List ℕ) (acc : ℕ) → acc ≤ value acc ds
unfolding value
acc-le-value [] acc = omega arith
acc-le-value (d ∷ ds) acc = omega (arith, acc-le-value ds (acc * 10 + d))

digit_lem : (d : ℕ) → d < 10 → digit (d + b'0') ≡ some d
unfolding digit
digit_lem d h = ground arith

read_digits_lem :
    (ds : List ℕ) (f : ℕ) (m : Memory) (s acc : ℕ)
    → Decimal ds
    → Holds m s (numeral ds)
    → length ds < f
    → value acc ds < size_mod
    → read_digits f m s 10 acc ≡ some (s + length ds, value acc ds)
unfolding read_digits value
read_digits_lem ds zero m s acc dec h lt small = absurd (omega arith)
read_digits_lem [] (suc f) m s acc dec h lt small = ground arith
read_digits_lem (d ∷ ds) (suc f) m s acc dec h lt small = ground (
  arith,
  digit_lem d dec.0,
  acc-le-value ds (acc * 10 + d),
  read_digits_lem ds f m (s + 1) (acc * 10 + d) dec.1 h.2,
)

skip_blanks_lem :
    (k : ℕ) (cs : List ℕ) (f : ℕ) (m : Memory) (s : ℕ)
    → Holds m s (replicate k b' ' ++ cs)
    → (m (s + k) == b' ' || m (s + k) == 9) ≡ false
    → k < f
    → skip_blanks f m s ≡ some (s + k)
unfolding skip_blanks
skip_blanks_lem k cs zero m s h stop lt = absurd (omega arith)
skip_blanks_lem zero cs (suc f) m s h stop lt = ground (arith, same)
  where
    same : s + 0 ≡ s
    same = omega arith
skip_blanks_lem (suc k) cs (suc f) m s h stop lt =
    ground (arith, skip_blanks_lem k cs f m (s + 1) h.2, shift)
  where
    shift : s + suc k ≡ s + 1 + k
    shift = omega arith

-- The text of a number: blanks, an optional minus, and its digits.
abbrev pub text : ℕ → Bool → List ℕ → List ℕ
text k neg ds = replicate k b' ' ++ (if neg then b'-' ∷ numeral ds else numeral ds)

abbrev pub signed_value : Bool → List ℕ → ℕ
signed_value neg ds = if neg then (size_mod - value 0 ds) % size_mod else value 0 ds

Holds-drop :
    (bs cs : List ℕ) (m : Memory) (s : ℕ) → Holds m s (bs ++ cs) → Holds m (s + length bs) cs
Holds-drop [] cs m s h = rw add-zero h
Holds-drop (b ∷ bs) cs m s h = rw shift (Holds-drop bs cs m (s + 1) h.2)
  where
    shift : s + suc (length bs) ≡ s + 1 + length bs
    shift = omega arith

length-numeral : (ds : List ℕ) → length (numeral ds) ≡ length ds
length-numeral [] = refl
length-numeral (d ∷ ds) = omega (arith, length-numeral ds)

-- The text past the blanks.
text-Holds :
    (k : ℕ) (cs : List ℕ) (m : Memory) (s : ℕ)
    → Holds m s (replicate k b' ' ++ cs)
    → Holds m (s + k) cs
text-Holds k cs m s h =
    let past = Holds-drop (replicate k b' ') cs m s h in
    rw (length-replicate {A = ℕ} k b' ') at past

strtol_unsigned :
    (k : ℕ) (d : ℕ) (ds : List ℕ) (f : ℕ) (m : Memory) (s : ℕ)
    → Decimal (d ∷ ds)
    → Holds m s (replicate k b' ' ++ numeral (d ∷ ds))
    → k + length ds + 1 < f
    → value 0 (d ∷ ds) < size_mod
    → strtol f m s 10 ≡ some (value 0 (d ∷ ds), s + k + length (d ∷ ds))
unfolding strtol read_sign read_base
strtol_unsigned k d ds f m s dec h lt small =
    let here = text-Holds k (numeral (d ∷ ds)) m s h in
    ground (
      arith,
      here.0,
      skip_blanks_lem k (numeral (d ∷ ds)) f m s h (ground (arith, here.0)),
      read_digits_lem (d ∷ ds) f m (s + k) 0 dec here (omega arith) small,
    )

strtol_negative :
    (k : ℕ) (ds : List ℕ) (f : ℕ) (m : Memory) (s : ℕ)
    → Decimal ds
    → Holds m s (replicate k b' ' ++ (b'-' ∷ numeral ds))
    → k + length ds < f
    → value 0 ds < size_mod
    → strtol f m s 10 ≡ some ((size_mod - value 0 ds) % size_mod, s + k + 1 + length ds)
unfolding strtol read_sign read_base
strtol_negative k ds f m s dec h lt small =
    let here = text-Holds k (b'-' ∷ numeral ds) m s h in
    ground (
      arith,
      here.0,
      skip_blanks_lem k (b'-' ∷ numeral ds) f m s h (ground (arith, here.0)),
      read_digits_lem ds f m (s + k + 1) 0 dec here.2 (omega arith) small,
    )

-- `strtol` in base 10 reads blanks, an optional minus and decimal digits: it returns the number
-- (its 64-bit pattern, negated after a minus, where a `long` wraps), and `endptr` points at the
-- NUL.
pub strtol_lem :
    (k : ℕ) (neg : Bool) (d : ℕ) (ds : List ℕ) (f : ℕ) (m : Memory) (s : ℕ)
    → Decimal (d ∷ ds)
    → Holds m s (text k neg (d ∷ ds))
    → k + length ds + 1 < f
    → value 0 (d ∷ ds) < size_mod
    → strtol f m s 10 ≡ some (signed_value neg (d ∷ ds), s + length (text k neg (d ∷ ds)))
strtol_lem k true d ds f m s dec h lt small = ground (
  arith,
  strtol_negative k (d ∷ ds) f m s dec h (omega arith) small,
  length-append (replicate k b' ') (b'-' ∷ numeral (d ∷ ds)),
  length-replicate {A = ℕ} k b' ',
  length-numeral ds,
)
strtol_lem k false d ds f m s dec h lt small = ground (
  arith,
  strtol_unsigned k d ds f m s dec h lt small,
  length-append (replicate k b' ') (numeral (d ∷ ds)),
  length-replicate {A = ℕ} k b' ',
  length-numeral ds,
)
