-- ===== src/Strings/Compare.antt =====
-- The comparisons of lab8/code/libs/string.c.
use os_labs.Prelude.{
  ℕ, zero, suc, ◌+◌, ◌<◌, ◌≡◌, ◌↔◌, refl, some, List, [], ◌∷◌, length, ◌==◌, if◌then◌else◌, arith,
  ℤ, pos, sub_ℕ, sub_ℕ-eq-zero, take,
}
use os_labs.Strings.{Memory, strcmp, strncmp}
use os_labs.Strings.Scan.{Holds}

-- The difference of the first bytes that differ, the NUL included; 0 if there are none.
unfoldable pub order : List ℕ → List ℕ → ℤ
order [] [] = pos 0
order [] (d ∷ ds) = sub_ℕ 0 d
order (c ∷ cs) [] = sub_ℕ c 0
order (c ∷ cs) (d ∷ ds) = let rest = order cs ds in if c == d then rest else sub_ℕ c d

pub order-eq-zero :
    (cs ds : List ℕ) (m : Memory) (s t : ℕ)
    → Holds m s cs
    → Holds m t ds
    → order cs ds ≡ pos 0
    → cs ≡ ds
unfolding order
order-eq-zero [] [] m s t h k e = refl
order-eq-zero [] (d ∷ ds) m s t h k e = absurd (k.1 (sym-eq (sub_ℕ-eq-zero 0 d e)))
  where
    sym-eq : 0 ≡ d → d ≡ 0
    sym-eq p = omega arith
order-eq-zero (c ∷ cs) [] m s t h k e = absurd (h.1 (sub_ℕ-eq-zero c 0 e))
order-eq-zero (c ∷ cs) (d ∷ ds) m s t h k e =
    ground (arith, sub_ℕ-eq-zero c d, order-eq-zero cs ds m (s + 1) (t + 1) h.2 k.2)

order_self : (cs : List ℕ) → order cs cs ≡ pos 0
unfolding order
order_self [] = refl
order_self (c ∷ cs) = ground (arith, order_self cs)

pub strcmp_lem :
    (cs ds : List ℕ) (f : ℕ) (m : Memory) (s t : ℕ)
    → Holds m s cs
    → Holds m t ds
    → length cs < f
    → strcmp f m s t ≡ some (order cs ds)
unfolding strcmp order
strcmp_lem cs ds zero m s t h k lt = absurd (omega arith)
strcmp_lem [] [] (suc f) m s t h k lt = ground arith
strcmp_lem [] (d ∷ ds) (suc f) m s t h k lt = ground arith
strcmp_lem (c ∷ cs) [] (suc f) m s t h k lt = ground arith
strcmp_lem (c ∷ cs) (d ∷ ds) (suc f) m s t h k lt =
    ground (arith, strcmp_lem cs ds f m (s + 1) (t + 1))

-- `strcmp` returns, and returns zero exactly when the two strings are the same.
pub strcmp-eq-zero :
    (cs ds : List ℕ) (f : ℕ) (m : Memory) (s t : ℕ)
    → Holds m s cs
    → Holds m t ds
    → length cs < f
    → (r : ℤ) × (strcmp f m s t ≡ some r) × ((r ≡ pos 0) ↔ (cs ≡ ds))
strcmp-eq-zero cs ds f m s t h k lt =
    (order cs ds, strcmp_lem cs ds f m s t h k lt, (order-eq-zero cs ds m s t h k, back))
  where
    back : cs ≡ ds → order cs ds ≡ pos 0
    back e = rw (← e) (order_self cs)

-- `strncmp` compares the strings cut off after `n` bytes.
pub strncmp_lem :
    (n : ℕ) (cs ds : List ℕ) (m : Memory) (s t : ℕ)
    → Holds m s cs
    → Holds m t ds
    → strncmp n m s t ≡ order (take n cs) (take n ds)
unfolding strncmp order
strncmp_lem zero cs ds m s t h k = refl
strncmp_lem (suc n) [] [] m s t h k = ground arith
strncmp_lem (suc n) [] (d ∷ ds) m s t h k = ground arith
strncmp_lem (suc n) (c ∷ cs) [] m s t h k = ground arith
strncmp_lem (suc n) (c ∷ cs) (d ∷ ds) m s t h k =
    ground (arith, strncmp_lem n cs ds m (s + 1) (t + 1))
