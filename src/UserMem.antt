-- ===== src/UserMem.antt =====
-- lab8/code/kern/mm/vmm.c: the copies between kernel and user memory, which are one memory. The
-- process has an `mm`.
pub mod Copy
mod Tests
use os_labs.Prelude.{
  ℕ, zero, suc, ◌+◌, ◌-◌, ◌%◌, ◌==◌, Bool, true, false, ltb, if◌then◌else◌, Option, none, some,
  ◌>>=◌,
}
use os_labs.Strings.{Memory, memcpy, strnlen}
use os_labs.Vmm.{Mm, page_size, round_down, ulong_mod, user_mem_check}

-- The result is the list of areas, whose cache may change, the memory, and what is returned.
abbrev pub Result : Type 0
Result = Mm × Memory × Bool

unfoldable pub copy_from_user : ℕ → Mm → Memory → ℕ → ℕ → ℕ → Bool → Option Result
copy_from_user fuel mm m dst src len writable = user_mem_check fuel mm src len writable >>= λ r.
    some (if r.1 then (r.0, memcpy m dst src len, true) else (r.0, m, false))

unfoldable pub copy_to_user : ℕ → Mm → Memory → ℕ → ℕ → ℕ → Option Result
copy_to_user fuel mm m dst src len = user_mem_check fuel mm dst len true >>= λ r.
    some (if r.1 then (r.0, memcpy m dst src len, true) else (r.0, m, false))

-- The loop of `copy_string`; `fuel` is that of the checks, the first argument that of the loop.
unfoldable pub copy_string_loop : ℕ → ℕ → Mm → Memory → ℕ → ℕ → ℕ → ℕ → Option Result
copy_string_loop zero fuel mm m dst src maxn room = none
copy_string_loop (suc f) fuel mm m dst src maxn room =
    let part = if ltb maxn room then maxn else room in
    user_mem_check fuel mm src part false >>= λ r.
    let alen = strnlen m src part in
    elim r.1 [
      | false ↦ some (r.0, m, false)
      | true ↦ elim (ltb alen part) [
        | true ↦ some (r.0, memcpy m dst src (alen + 1), true)
        | false ↦ elim (part == maxn) [
          | true ↦ some (r.0, m, false)
          | false ↦
              copy_string_loop f fuel r.0 (memcpy m dst src part) (dst + part) (src + part)
                (maxn - part) page_size
        ]
      ]
    ]

unfoldable pub copy_string : ℕ → ℕ → Mm → Memory → ℕ → ℕ → ℕ → Option Result
unfolding copy_string_loop
copy_string f fuel mm m dst src maxn =
    copy_string_loop f fuel mm m dst src maxn (round_down ((src + page_size) % ulong_mod) - src)
