-- ===== src/Descriptors/Tests.antt =====
-- kernel/sysfile.c in a process with descriptors 0 and 2 open.
use os_lab.Base.{ℕ, ◌+◌, ◌-◌, ◌≤◌, ◌≡◌, refl, arith, true, ◌==◌, if◌then◌else◌, pos, ok}
use os_lab.File.{Ftable, fd_inode, nothing}
use os_lab.Descriptors.{sys_dup, sys_close}
use os_lab.Descriptors.Slots.{sys_close-sys_dup}

abbrev ofile : ℕ → ℕ
ofile = λ fd. if fd == 0 then 4 else (if fd == 2 then 5 else 0)

abbrev table : Ftable
table = λ f. record {
  type = fd_inode;
  ref = 1;
  readable = true;
  writable = true;
  pipe = 0;
  ip = 8;
  off = 0;
  major = 0;
}

sys_close-sys_dup_example :
    (fd' : ℕ) × (ofile' : ℕ → ℕ) × (t' : Ftable) × (sys_dup (pos 2) ofile table
      ≡ ok (pos fd', ofile', t'))
    × (fd' ≤ 9)
    × (ofile fd' ≡ 0)
    × (ofile' fd' ≡ ofile 2)
    × ((t' (ofile 2 - 1)).ref ≡ (table (ofile 2 - 1)).ref + 1)
    × (sys_close (pos fd') ofile' t' ≡ ok (pos 0, nothing, ofile, table))
sys_close-sys_dup_example =
    sys_close-sys_dup 2 9 ofile table (omega arith) (omega arith) (omega arith) (omega arith) refl
