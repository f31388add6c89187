-- ===== src/Files/Counts.antt =====
-- How many open files of a process stand for an inode.
use os_labs.Prelude.{
  ℕ, zero, suc, ◌+◌, ◌≡◌, ◌≢◌, ◌≤◌, ◌<◌, inl, inr, refl, ap, arith, Bool, false, ◌&&◌, ◌||◌, ◌==◌,
  if◌then◌else◌, Bool-cases, Option, none, some,
}
use os_labs.Files.{is_opened, is_closed, File}

abbrev pub is_node : ℕ → Option ℕ → Bool
is_node n none = false
is_node n (some k) = k == n

-- 1 if the entry holds the inode, else 0.
abbrev pub holds : ℕ → File → ℕ
holds n f = if (is_opened f.status || is_closed f.status) && is_node n f.node then 1 else 0

unfoldable pub holders : ℕ → ℕ → (ℕ → File) → ℕ
holders n zero files = 0
holders n (suc k) files = holds n (files k) + holders n k files

holders-above :
    (n k : ℕ) (files files' : ℕ → File) (i : ℕ)
    → k ≤ i
    → ((j : ℕ) → j ≢ i → files' j ≡ files j)
    → holders n k files' ≡ holders n k files
unfolding holders
holders-above n zero files files' i h o = refl
holders-above n (suc k) files files' i h o =
    omega
      (arith, ap (holds n) (o k (omega arith)), holders-above n k files files' i (omega arith) o)

-- Where one entry changes, the number changes by that entry.
pub holders-change :
    (n k : ℕ) (files files' : ℕ → File) (i : ℕ)
    → i < k
    → ((j : ℕ) → j ≢ i → files' j ≡ files j)
    → holders n k files' + holds n (files i) ≡ holders n k files + holds n (files' i)
unfolding holders
holders-change n zero files files' i h o = absurd (omega arith)
holders-change n (suc k) files files' i h o = elim (Bool-cases (i == k)) [
  | inl e ↦
      let same : i ≡ k = ground (arith, e) in
      omega (
        arith,
        holders-above n k files files' i (omega (arith, same)) o,
        ap (λ j. holds n (files j)) same,
        ap (λ j. holds n (files' j)) same,
      )
  | inr e ↦
      let below : i < k = ground (arith, e) in
      omega (
        arith,
        ap (holds n) (o k (omega (arith, below))),
        holders-change n k files files' i below o,
      )
]

pub holders-at :
    (n k : ℕ) (files : ℕ → File) (i : ℕ) → i < k → holds n (files i) ≤ holders n k files
unfolding holders
holders-at n zero files i h = absurd (omega arith)
holders-at n (suc k) files i h = elim (Bool-cases (i == k)) [
  | inl e ↦ let same : i ≡ k = ground (arith, e) in omega (arith, ap (λ j. holds n (files j)) same)
  | inr e ↦ let below : i < k = ground (arith, e) in omega (arith, holders-at n k files i below)
]
