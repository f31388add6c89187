-- ===== src/UserMem/Copy.antt =====
-- The safety of the copies to and from user memory of lab8/code/kern/mm/vmm.c.
use os_labs.Prelude.{
  ℕ, ◌+◌, ◌-◌, ◌%◌, ◌≡◌, ◌≤◌, ◌⊎◌, refl, ◌∙◌, Bool, true, false, if◌then◌else◌, some,
}
use os_labs.Strings.{Memory, memcpy}
use os_labs.Strings.Move.{within, memcpy-eq-memmove, memmove_lem}
use os_labs.Vmm.{Mm, ulong_mod, user_access}
use os_labs.Vmm.Areas.{IsValid}
use os_labs.Vmm.Check.{Permitted, user_mem_check-Permitted}
use os_labs.UserMem.{Result, copy_from_user, copy_to_user}

-- The user range is one that the process may access in this way.
abbrev pub Allowed : Mm → ℕ → ℕ → Bool → Type 0
Allowed mm addr len write =
    (user_access addr ((addr + len) % ulong_mod) ≡ true)
    × Permitted mm.mmap_list addr ((addr + len) % ulong_mod) write

-- What a copy of `len` bytes leaves, where the user range starts at `addr`.
pub record Copied (mm : Mm) (m : Memory) (dst src len addr : ℕ) (write : Bool) (r : Result)
    : Type 0 where
  pub valid : IsValid r.0
  pub kept : r.0.mmap_list ≡ mm.mmap_list
  pub allowed : r.2 ≡ true → Allowed mm addr len write
  pub copied :
      r.2 ≡ true → (q : ℕ) → r.1 q ≡ (if within dst len q then m (src + (q - dst)) else m q)
  pub refused : r.2 ≡ false → r.1 ≡ m

-- A copy of the bytes if the check accepts.
checked-Copied :
    (mm mm' : Mm) (m : Memory) (dst src len addr : ℕ) (write ok : Bool)
    → (dst + len ≤ src) ⊎ (src + len ≤ dst)
    → IsValid mm'
    → mm'.mmap_list ≡ mm.mmap_list
    → (ok ≡ true → Allowed mm addr len write)
    → Copied mm m dst src len addr write
        (if ok then (mm', memcpy m dst src len, true) else (mm', m, false))
checked-Copied mm mm' m dst src len addr write true apart v k a = record {
  valid = v;
  kept = k;
  allowed = a;
  copied = λ e q. memcpy-eq-memmove m dst src len q apart ∙ memmove_lem m dst src len q;
  refused = λ e. cc;
}
checked-Copied mm mm' m dst src len addr write false apart v k a = record {
  valid = v;
  kept = k;
  allowed = a;
  copied = λ e q. cc;
  refused = λ e. refl;
}

-- `copy_to_user` from an area that does not overlap the user's, on a valid list of areas and with
-- fuel for the check, returns: either the process may write the whole range and exactly the `len`
-- bytes are copied, or it returns false and no byte has changed.
pub copy_to_user-Copied :
    (fuel : ℕ) (mm : Mm) (m : Memory) (dst src len : ℕ)
    → IsValid mm
    → ulong_mod ≤ fuel
    → (dst + len ≤ src) ⊎ (src + len ≤ dst)
    → (r : Result) × (copy_to_user fuel mm m dst src len ≡ some r)
      × Copied mm m dst src len dst true r
unfolding copy_to_user
copy_to_user-Copied fuel mm m dst src len v big apart =
    let (c, run, valid, kept, safe) = user_mem_check-Permitted fuel mm dst len true v big in
    (
      if c.1 then (c.0, memcpy m dst src len, true) else (c.0, m, false),
      rw run,
      checked-Copied mm c.0 m dst src len dst true c.1 apart valid kept safe,
    )

-- The same of `copy_from_user`, for the range that is read; `writable` asks for write access.
pub copy_from_user-Copied :
    (fuel : ℕ) (mm : Mm) (m : Memory) (dst src len : ℕ) (writable : Bool)
    → IsValid mm
    → ulong_mod ≤ fuel
    → (dst + len ≤ src) ⊎ (src + len ≤ dst)
    → (r : Result) × (copy_from_user fuel mm m dst src len writable ≡ some r)
      × Copied mm m dst src len src writable r
unfolding copy_from_user
copy_from_user-Copied fuel mm m dst src len writable v big apart =
    let (c, run, valid, kept, safe) = user_mem_check-Permitted fuel mm src len writable v big in
    (
      if c.1 then (c.0, memcpy m dst src len, true) else (c.0, m, false),
      rw run,
      checked-Copied mm c.0 m dst src len src writable c.1 apart valid kept safe,
    )
