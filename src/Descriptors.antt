-- ===== src/Descriptors.antt =====
-- kernel/sysfile.c: file descriptors, the slots of a process's `ofile`. An open slot holds the index
-- of its file in the table of File, plus one.
mod Slots
mod Tests
use os_lab.Base.{
  ℕ, zero, suc, ◌+◌, ◌-◌, ◌<◌, ◌≡◌, Bool, true, false, ltb, ◌==◌, if◌then◌else◌, update, Option,
  none, some, scan, ℤ, pos, negsuc, minus_one, Outcome, ok, panic, ◌>>=◌,
}
use os_lab.File.{Ftable, filedup, fileclose, Closing, nothing}

abbrev pub nofile : ℕ
nofile = 16

-- The descriptor and its file
unfoldable pub argfd : ℤ → (ℕ → ℕ) → Option (ℕ × ℕ)
argfd (negsuc k) ofile = none
argfd (pos fd) ofile =
    if ltb fd nofile then (if ofile fd == 0 then none else some (fd, ofile fd - 1)) else none

unfoldable pub fdalloc : (f : ℕ) → (ℕ → ℕ) → Option (ℕ × (ℕ → ℕ))
fdalloc f ofile = elim (scan (λ fd. ofile fd == 0) nofile 0) [
  | none ↦ none
  | some fd ↦ some (fd, update ofile fd (f + 1))
]

unfoldable pub sys_dup : ℤ → (ℕ → ℕ) → Ftable → Outcome (ℤ × (ℕ → ℕ) × Ftable)
unfolding argfd fdalloc
sys_dup fd ofile t = elim (argfd fd ofile) [
  | none ↦ ok (minus_one, ofile, t)
  | some (_, f) ↦ elim (fdalloc f ofile) [
    | none ↦ ok (minus_one, ofile, t)
    | some (fd', ofile') ↦ filedup f t >>= λ t'. ok (pos fd', ofile', t')
  ]
]

-- `sys_close`, with what `fileclose` goes on to do
unfoldable pub sys_close : ℤ → (ℕ → ℕ) → Ftable → Outcome (ℤ × Closing × (ℕ → ℕ) × Ftable)
unfolding argfd
sys_close fd ofile t = elim (argfd fd ofile) [
  | none ↦ ok (minus_one, nothing, ofile, t)
  | some (k, f) ↦ fileclose f t >>= λ c. ok (pos 0, c.0, update ofile k 0, c.1)
]
