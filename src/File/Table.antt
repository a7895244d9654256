-- ===== src/File/Table.antt =====
-- The reference counts of kernel/file.c.
use os_lab.Base.{
  ℕ, ◌+◌, ◌-◌, ◌<◌, ◌≡◌, fun_ext, ◌≢◌, ◌⊎◌, inl, inr, arith, ◌==◌, update, none, some, scan,
  scan-First, scan-none, ok, ◌>>=◌, Option-cases,
}
use os_lab.File.{fd_none, Ftable, nfile, filealloc, filedup, fileclose, nothing, closing}

-- `filealloc` takes the first unused slot, with one reference, and no other slot changes; it
-- fails only when each of the NFILE slots has a reference.
pub filealloc_lem :
    (t : Ftable)
    → ((f : ℕ) × (filealloc t ≡ (some f, update t f (record (t f) { ref = 1 })))
        × (f < nfile)
        × ((t f).ref ≡ 0)
        × ((g : ℕ) → g < f → (t g).ref ≢ 0))
      ⊎ ((filealloc t ≡ (none, t)) × ((g : ℕ) → g < nfile → (t g).ref ≢ 0))
unfolding filealloc
filealloc_lem t = elim (Option-cases (scan (λ f. (t f).ref == 0) nfile 0)) [
  | inl e ↦
      inr (rw (e, filealloc), λ g lt. ground (arith, scan-none (λ f. (t f).ref == 0) nfile 0 e g))
  | inr (f, e) ↦
      let r = scan-First (λ f. (t f).ref == 0) nfile 0 f e in
      inl (
        f,
        rw (e, filealloc),
        omega (arith, r.to),
        ground (arith, r.passes),
        λ g lt. ground (arith, r.before g),
      )
]

-- The table with one more reference to a file.
abbrev pub referred : ℕ → Ftable → Ftable
referred f t = update t f (record (t f) { ref = (t f).ref + 1 })

pub filedup-referred : (f : ℕ) (t : Ftable) → 0 < (t f).ref → filedup f t ≡ ok (referred f t)
unfolding filedup
filedup-referred f t h = ground arith

-- One more reference and one fewer.
restored :
    (f : ℕ) (t : Ftable)
    → let more = record (t f) { ref = (t f).ref + 1 } in
      update (update t f more) f (record more { ref = (t f).ref + 1 - 1 }) ≡ t
restored f t = fun_ext λ g. ground arith

-- A `filedup` that is followed by a `fileclose` leaves the table as it was, and closes nothing.
pub fileclose-filedup :
    (f : ℕ) (t : Ftable) → 0 < (t f).ref → (filedup f t >>= fileclose f) ≡ ok (nothing, t)
unfolding filedup fileclose
fileclose-filedup f t h = ground (arith, restored f t)

-- The last `fileclose` frees the slot, and closes the end of the pipe or drops the inode that
-- the file names.
pub fileclose-last :
    (f : ℕ) (t : Ftable)
    → (t f).ref ≡ 1
    → (t' : Ftable) × (fileclose f t ≡ ok (closing (t f), t'))
      × ((t' f).ref ≡ 0)
      × ((t' f).type ≡ fd_none)
      × ((g : ℕ) → g ≢ f → t' g ≡ t g)
unfolding fileclose
fileclose-last f t e = (
  update t f (record (t f) { ref = 0; type = fd_none }),
  ground arith,
  ground arith,
  ground arith,
  λ g ne. ground arith,
)

-- The table with slot `f` taken by `filealloc`.
abbrev pub taken : ℕ → Ftable → Ftable
taken f t = update t f (record (t f) { ref = 1 })

pub fileclose-taken :
    (f : ℕ) (t : Ftable)
    → (t f).ref ≡ 0
    → (t f).type ≡ fd_none
    → fileclose f (taken f t) ≡ ok (nothing, t)
unfolding fileclose closing
fileclose-taken f t unused untyped =
    let restored : update (taken f t) f (record (taken f t f) { ref = 0; type = fd_none }) ≡ t =
      fun_ext λ g. ground arith in
    let closes : closing (taken f t f) ≡ nothing = ground arith in ground (arith, closes, restored)
