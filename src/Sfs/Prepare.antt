-- ===== src/Sfs/Prepare.antt =====
-- An entry block for a new block of a file, in lab8/code/kern/fs/sfs/sfs_inode.c: one that is
-- there, or a new one.
use os_labs.Prelude.{
  ℕ, ◌+◌, ◌-◌, ◌*◌, ◌≡◌, ◌≢◌, inl, inr, refl, sym, ap, arith, true, false, ltb, ◌==◌, ==-refl,
}
use os_labs.Bitmap.{Bitmap}
use os_labs.Sfs.{Sfs, deliver}
use os_labs.Sfs.Freemap.{Taken, Taken-count, Taken-free, Taken-IsMounted, allocated}
use os_labs.Sfs.Allocate.{Taken-InUse}
use os_labs.Sfs.Entry.{word_at, IsFile, IsMounted-buffer}
use os_labs.Sfs.Append.{still_used, same_block, new_zeros}
use os_labs.Sfs.Indirect.{Prepared}

-- An entry block that is there, read into the buffer.
pub existing-Prepared :
    (s : Sfs)
    → IsFile s
    → s.indirect ≢ 0
    → Prepared s (record s { sfs_buffer = s.disk s.indirect }) s.indirect
existing-Prepared s file nz =
    let u = file.indirect_use nz in
    record {
      mounted = IsMounted-buffer s (s.disk s.indirect) file.mounted;
      still = λ c v. record { nonzero = v.nonzero; below = v.below; taken = v.taken };
      fewer_free = λ k h. h;
      used = record { nonzero = u.nonzero; below = u.below; taken = u.taken };
      words = λ j h.
          let e : (s.indirect == 0) ≡ false = ground (arith, nz) in
          let up : ltb (j + 12) 12 ≡ false = ground arith in
          let back : j + 12 - 12 ≡ j = omega arith in
          sym (rw (up, e) (ap (word_at (s.disk s.indirect)) back));
      where_from = inl refl;
      direct = λ i. refl;
      blocks = refl;
      outside = record {
        super_blocks = refl;
        d_blocks = refl;
        memory = refl;
        size = refl;
        type = refl;
        ino = refl;
        contents = λ c v ne. refl;
      };
    }

-- A new entry block.
pub fresh-Prepared :
    (s : Sfs) (g : Bitmap) (ent : ℕ)
    → IsFile s
    → s.indirect ≡ 0
    → Taken s g ent
    → Prepared s (allocated s g ent) ent
fresh-Prepared s g ent file z t =
    let s0 = allocated s g ent in
    let c = Taken-count s g ent t in
    let u = file.mounted.unused in
    let zeros = deliver s.sfs_buffer 0 (λ k. 0) 4096 in
    record {
      mounted = Taken-IsMounted s s0 g ent file.mounted t refl refl refl (omega (arith, c, u));
      still = λ c v. still_used s s0 g ent c t refl refl v;
      fewer_free = λ k h. (Taken-free s g ent k t h).1;
      used = Taken-InUse s s0 g ent t refl refl;
      words = λ j h.
          let e : (s.indirect == 0) ≡ true = ground (arith, z) in
          let up : ltb (j + 12) 12 ≡ false = ground arith in
          let z0 = new_zeros s.sfs_buffer (j * 4 + 0) (omega (arith, h)) in
          let z1 = new_zeros s.sfs_buffer (j * 4 + 1) (omega (arith, h)) in
          let z2 = new_zeros s.sfs_buffer (j * 4 + 2) (omega (arith, h)) in
          let z3 = new_zeros s.sfs_buffer (j * 4 + 3) (omega (arith, h)) in
          let all : word_at zeros j ≡ 0 = omega (arith, z0, z1, z2, z3) in
          rw (up, e, ==-refl ent) all;
      where_from = inr (z, t.was_free);
      direct = λ i. refl;
      blocks = refl;
      outside = record {
        super_blocks = refl;
        d_blocks = refl;
        memory = refl;
        size = refl;
        type = refl;
        ino = refl;
        contents = λ c v ne. same_block s ent c zeros t.was_free v;
      };
    }
