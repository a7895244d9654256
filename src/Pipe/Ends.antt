-- ===== src/Pipe/Ends.antt =====
-- `pipealloc` and `pipeclose` of kernel/pipe.c: the two ends of a pipe.
use os_lab.Base.{
  ℕ, zero, suc, ◌<◌, ◌≡◌, ◌≢◌, ◌⊎◌, inl, inr, refl, fun_ext, Bool, true, false, not, arith, ◌==◌,
  update, Option, none, some, List, [], ◌∷◌, ok, Outcome, ◌>>=◌, Bool-cases,
}
use os_lab.File.{Ftable, nfile, fileclose, Closing, nothing, fd_none}
use os_lab.File.Table.{filealloc_lem, taken, fileclose-taken}
use os_lab.Pipe.{Pipe, pipealloc, pipeclose, pipe_end}

abbrev pub nothings : ℕ → List Closing
nothings zero = []
nothings (suc n) = nothing ∷ nothings n

taken-swap : (r w : ℕ) (t : Ftable) → w ≢ r → taken w (taken r t) ≡ taken r (taken w t)
taken-swap r w t ne = fun_ext λ g. ground arith

-- Giving back the two files of which neither names anything.
fileclose-both :
    (r w : ℕ) (t : Ftable)
    → ((f : ℕ) → (t f).ref ≡ 0 → (t f).type ≡ fd_none)
    → w ≢ r
    → (t r).ref ≡ 0
    → (t w).ref ≡ 0
    → let both : Outcome (Option (ℕ × ℕ) × List Closing × Ftable) =
        fileclose r (taken w (taken r t)) >>= λ c.
        fileclose w c.1 >>= λ d. ok (none, c.0 ∷ d.0 ∷ [], d.1) in
      both ≡ ok (none, nothings 2, t)
fileclose-both r w t untyped ne r0 w0 =
    let still : taken w t r ≡ t r = ground arith in
    let first = fileclose-taken r (taken w t) (rw (still) r0) (rw (still) (untyped r r0)) in
    rw (taken-swap r w t ne, first, fileclose-taken w t w0 (untyped w w0))

-- The two ends as `pipealloc` leaves them
abbrev pub ends : (pi r w : ℕ) → Ftable → Ftable
ends pi r w t =
    update (update t r (pipe_end pi true false (record (t r) { ref = 1 }))) w
      (pipe_end pi false true (record (t w) { ref = 1 }))

ends-eq :
    (pi r w : ℕ) (t : Ftable)
    → w ≢ r
    → let t2 = taken w (taken r t) in
      let t3 = update t2 r (pipe_end pi true false (t2 r)) in
      update t3 w (pipe_end pi false true (t3 w)) ≡ ends pi r w t
ends-eq pi r w t ne = fun_ext λ g. ground arith

-- `pipealloc` with a page and two unused files makes the first the end that is read and the second the
-- end that is written, each with one reference, and changes no other file. It fails only without
-- a page or when at most one file is unused, and leaves the table as it was. This is when no
-- unused file has a type.
pub pipealloc_lem :
    (pi : ℕ) (t : Ftable)
    → ((f : ℕ) → (t f).ref ≡ 0 → (t f).type ≡ fd_none)
    → ((r : ℕ) × (w : ℕ) × (pipealloc pi t ≡ ok (some (r, w), [], ends pi r w t))
        × (w ≢ r)
        × ((t r).ref ≡ 0)
        × ((t w).ref ≡ 0))
      ⊎ ((n : ℕ) × (pipealloc pi t ≡ ok (none, nothings n, t))
          × ((pi ≡ 0)
              ⊎ ((f g : ℕ) → f < nfile → g < nfile → (t f).ref ≡ 0 → (t g).ref ≡ 0 → f ≡ g)))
unfolding pipealloc
pipealloc_lem pi t untyped = elim (filealloc_lem t) [
  | inr (e, used) ↦ inr (0, ground (arith, e), inr λ f g lt _ f0 _. absurd (used f lt f0))
  | inl (r, e, lt, r0, _) ↦ elim (filealloc_lem (taken r t)) [
    | inr (e', used) ↦ inr (
      1,
      ground (arith, e, e', fileclose-taken r t r0 (untyped r r0)),
      inr λ f g ltf ltg f0 g0. ground (arith, used f ltf, used g ltg),
    )
    | inl (w, e', lt', w0, _) ↦
        let ne : w ≢ r = λ same. ground arith in
        let w0' : (t w).ref ≡ 0 = ground arith in
        elim (Bool-cases (pi == 0)) [
          | inl no_page ↦ inr (
            2,
            ground (arith, e, e', no_page, fileclose-both r w t untyped ne r0 w0'),
            inl (ground arith),
          )
          | inr page ↦ inl (r, w, ground (arith, e, e', page, ends-eq pi r w t ne), ne, r0, w0')
        ]
  ]
]

-- Closing the two ends of an open pipe frees its page at the second and not at the first, whichever goes
-- first, and the bytes in it stay for the reader until then.
pub pipeclose_lem :
    (p : Pipe) (writable : Bool)
    → p.readopen ≡ true
    → p.writeopen ≡ true
    → let (p1, freed1, woken1) = pipeclose p writable in
      let (p2, freed2, woken2) = pipeclose p1 (not writable) in
      (freed1 ≡ false)
      × (freed2 ≡ true)
      × (p1.bytes ≡ p.bytes)
      × (p1.nread ≡ p.nread)
      × (p1.nwrite ≡ p.nwrite)
unfolding pipeclose
pipeclose_lem p true r w = (rw (r), refl, refl, refl, refl)
pipeclose_lem p false r w = (rw (w), refl, refl, refl, refl)
