-- ===== src/Descriptors/Slots.antt =====
-- Opening and closing descriptors of kernel/sysfile.c.
use os_lab.Base.{
  ℕ, ◌+◌, ◌-◌, ◌<◌, ◌≤◌, ◌≡◌, ◌≢◌, refl, sym, ap, fun_ext, ◌∙◌, arith, ltb, ◌==◌, Bool-cases, inl,
  inr, update, update_self, some, scan, scan-hit, pos, ok, ◌>>=◌,
}
use os_lab.File.{Ftable, filedup, fileclose, nothing}
use os_lab.File.Table.{referred, filedup-referred, fileclose-filedup}
use os_lab.Descriptors.{nofile, argfd, fdalloc, sys_dup, sys_close}

argfd-some :
    (fd : ℕ) (ofile : ℕ → ℕ)
    → fd < nofile
    → ofile fd ≢ 0
    → argfd (pos fd) ofile ≡ some (fd, ofile fd - 1)
unfolding argfd
argfd-some fd ofile lt opened = ground arith

sys_dup-eq :
    (fd f fd' : ℕ) (ofile : ℕ → ℕ) (t t' : Ftable)
    → argfd (pos fd) ofile ≡ some (fd, f)
    → scan (λ i. ofile i == 0) nofile 0 ≡ some fd'
    → filedup f t ≡ ok t'
    → sys_dup (pos fd) ofile t ≡ ok (pos fd', update ofile fd' (f + 1), t')
unfolding sys_dup fdalloc
sys_dup-eq fd f fd' ofile t t' arg found dup = rw (sys_dup, arg, found, dup) refl

sys_close-eq :
    (fd f : ℕ) (ofile : ℕ → ℕ) (t t' : Ftable)
    → argfd (pos fd) ofile ≡ some (fd, f)
    → fileclose f t ≡ ok (nothing, t')
    → sys_close (pos fd) ofile t ≡ ok (pos 0, nothing, update ofile fd 0, t')
unfolding sys_close
sys_close-eq fd f ofile t t' arg close = rw (sys_close, arg, close) refl

-- A `sys_dup` of an open descriptor, in a process with a free one, gives the lowest free descriptor,
-- which names the same file, and takes a reference to it; a `sys_close` of that descriptor puts the
-- descriptors and the table of files back as they were.
pub sys_close-sys_dup :
    (fd k : ℕ) (ofile : ℕ → ℕ) (t : Ftable)
    → fd < nofile
    → ofile fd ≢ 0
    → 0 < (t (ofile fd - 1)).ref
    → k < nofile
    → ofile k ≡ 0
    → (fd' : ℕ) × (ofile' : ℕ → ℕ) × (t' : Ftable) × (sys_dup (pos fd) ofile t
        ≡ ok (pos fd', ofile', t'))
      × (fd' ≤ k)
      × (ofile fd' ≡ 0)
      × (ofile' fd' ≡ ofile fd)
      × ((t' (ofile fd - 1)).ref ≡ (t (ofile fd - 1)).ref + 1)
      × (sys_close (pos fd') ofile' t' ≡ ok (pos 0, nothing, ofile, t))
sys_close-sys_dup fd k ofile t lt opened counted lt_k free =
    let f = ofile fd - 1 in
    let (fd', found, first) =
      scan-hit (λ i. ofile i == 0) nofile 0 k (omega arith) (omega arith) (ground arith) in
    let free' : ofile fd' ≡ 0 = ground (arith, first.passes) in
    let ofile' = update ofile fd' (f + 1) in
    let named : ofile' fd' ≡ f + 1 = update_self ofile fd' (f + 1) in
    let same : f + 1 ≡ ofile fd = omega (arith, opened) in
    let arg' = argfd-some fd' ofile' (omega (arith, first.to)) (λ e. omega (arith, named)) in
    let lowest : fd' ≤ k = elim (Bool-cases (ltb k fd')) [
      | inl before ↦ ground (arith, first.before k)
      | inr after ↦ ground arith
    ] in
    let cleared : update ofile' fd' 0 ≡ ofile = fun_ext λ i. ground (arith, free') in
    let given_back : fileclose f (referred f t) ≡ ok (nothing, t) =
      sym (ap (λ o. o >>= fileclose f) (filedup-referred f t counted))
      ∙ fileclose-filedup f t counted in
    let arg'' : argfd (pos fd') ofile' ≡ some (fd', f) =
      arg' ∙ ap (λ n. some (fd', n - 1)) named ∙ ap (λ n. some (fd', n)) (omega arith) in
    let closed = sys_close-eq fd' f ofile' (referred f t) t arg'' given_back in
    (
      fd',
      ofile',
      referred f t,
      sys_dup-eq fd f fd' ofile t (referred f t) (argfd-some fd ofile lt opened) found
          (filedup-referred f t counted),
      lowest,
      free',
      named ∙ same,
      ground arith,
      closed ∙ ap (λ o. ok (pos 0, nothing, o, t)) cleared,
    )
