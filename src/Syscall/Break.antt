-- ===== src/Syscall/Break.antt =====
-- `sys_sbrk` of kernel/sysproc.c over the page tables of kernel/vm.c.
use os_lab.Base.{
  ℕ, ◌+◌, ◌-◌, ◌/◌, ◌%◌, ◌^◌, ◌<◌, ◌≤◌, ◌≡◌, ◌⊎◌, inl, inr, refl, sym, ap, subst, ◌∙◌, arith, true,
  false, ◌&&◌, int_lt, ltb, leb, ◌==◌, Bool-cases, ==-ne, if◌then◌else◌, update_self, Outcome, ok,
  ◌>>=◌, panic, length, ◌≢◌, ◌*◌, Bool, false≢true,
}
use os_lab.Proc.{Proc, Table}
use os_lab.Vm.Walk.{Space, maxva}
use os_lab.Vm.Tree.{IsTree}
use os_lab.Vm.Sizes.{sign_extend, uvmdealloc, uvmalloc}
use os_lab.Vm.Lookup.{leaf}
use os_lab.Vm.Frames.{IsMappedPage, Unmapped}
use os_lab.Vm.Alloc.{Grew, IsBlank, page_end, uvmdealloc-Unmapped}
use os_lab.Vm.Enlarging.{uvmalloc-Enlarged}
use os_lab.Syscall.Memory.{set_sz, growproc, sys_sbrk}

growproc-up :
    (me n to r : ℕ) (t : Table) (s s' : Space)
    → 0 < n
    → n < 2 ^ 31
    → ((t.proc me).sz + sign_extend n) % 2 ^ 64 ≡ to
    → uvmalloc (t.proc me).pagetable (t.proc me).sz to 4 s ≡ ok (r, s')
    → growproc me n t s ≡ (if r == 0 then ok (false, t, s') else ok (true, set_sz me r t, s'))
unfolding growproc
growproc-up me n to r t s s' positive small to-eq e =
    let up : int_lt 0 n ≡ true = ground arith in rw (up, to-eq, e) refl

growproc-panic :
    (me n to : ℕ) (t : Table) (s : Space)
    → 0 < n
    → n < 2 ^ 31
    → ((t.proc me).sz + sign_extend n) % 2 ^ 64 ≡ to
    → uvmalloc (t.proc me).pagetable (t.proc me).sz to 4 s ≡ panic
    → growproc me n t s ≡ panic
unfolding growproc
growproc-panic me n to t s positive small to-eq e =
    let up : int_lt 0 n ≡ true = ground arith in rw (up, to-eq, e) refl

-- A process that asks for `n > 0` bytes more, within `MAXVA` and over pages whose entries are 0, gets its old
-- size back and has grown by `n`, with each new page mapped for it and all other entries as before; or
-- `kalloc` panics, and then fewer pages were free than three for each new one.
pub sys_sbrk-Sbrk :
    (me n : ℕ) (place : ℕ → ℕ) (t : Table) (s : Space)
    → IsTree (t.proc me).pagetable place s
    → 0 < n
    → n < 2 ^ 31
    → (t.proc me).sz + n ≤ maxva
    → IsBlank
        (t.proc me).pagetable
        (page_end (t.proc me).sz)
        (page_end ((t.proc me).sz + n) - page_end (t.proc me).sz)
        s
    → ((s' : Space) × (place' : ℕ → ℕ) × (sys_sbrk me n t s
          ≡ ok ((t.proc me).sz, set_sz me ((t.proc me).sz + n) t, s'))
        × IsTree (t.proc me).pagetable place' s'
        × Grew
            (t.proc me).pagetable
            (page_end (t.proc me).sz)
            (page_end ((t.proc me).sz + n) - page_end (t.proc me).sz)
            s
            s')
      ⊎ ((sys_sbrk me n t s ≡ panic)
          × (length s.free < 3 * (page_end ((t.proc me).sz + n) - page_end (t.proc me).sz)))
unfolding sys_sbrk
sys_sbrk-Sbrk me n place t s v positive small fits blank =
    let sz = (t.proc me).sz in
    let root = (t.proc me).pagetable in
    let extended : sign_extend n ≡ n = ground arith in
    let to-eq : (sz + sign_extend n) % 2 ^ 64 ≡ sz + n = rw extended (omega arith) in
    elim (uvmalloc-Enlarged root sz (sz + n) 4 place s v (omega arith) (omega arith) fits blank) [
      | inl (s', place', e, v', g, _) ↦
          let step = growproc-up me n (sz + n) (sz + n) t s s' positive small to-eq e in
          let some_size : sz + n == 0 ≡ false = ==-ne (sz + n) 0 (λ z. omega arith) in
          inl (
            s',
            place',
            ap (λ o. o >>= λ x. ok ((if x.0 then sz else 2 ^ 64 - 1), x.1, x.2))
                (rw some_size at step),
            v',
            g,
          )
      | inr (e, short) ↦ inr (
        ap (λ o. o >>= λ x. ok ((if x.0 then sz else 2 ^ 64 - 1), x.1, x.2))
            (growproc-panic me n (sz + n) t s positive small to-eq e),
        short,
      )
    ]

growproc-down :
    (me n to : ℕ) (t : Table) (s s' : Space)
    → 2 ^ 31 ≤ n
    → n < 2 ^ 32
    → ((t.proc me).sz + sign_extend n) % 2 ^ 64 ≡ to
    → uvmdealloc (t.proc me).pagetable (t.proc me).sz to s ≡ ok (to, s')
    → growproc me n t s ≡ ok (true, set_sz me to t, s')
unfolding growproc
growproc-down me n to t s s' negative bits to-eq e =
    let up : int_lt 0 n ≡ false = ground arith in
    let down : int_lt n 0 ≡ true = ground arith in rw (up, down, to-eq, e) refl

-- The process has `sz` bytes more than `new`, whose pages are mapped: `sys_sbrk` takes them back.
sys_sbrk-down :
    (me n new : ℕ) (place : ℕ → ℕ) (t : Table) (s : Space)
    → IsTree (t.proc me).pagetable place s
    → 0 < n
    → n < 2 ^ 31
    → (t.proc me).sz ≡ new + n
    → new + n ≤ maxva
    → ((vb : ℕ)
        → vb < maxva
        → page_end new ≤ vb / 4096
        → vb / 4096 < page_end (new + n)
        → IsMappedPage (t.proc me).pagetable vb s)
    → (s' : Space) × (sys_sbrk me (2 ^ 32 - n) t s ≡ ok (new + n, set_sz me new t, s'))
      × Unmapped (t.proc me).pagetable (page_end new) (page_end (new + n) - page_end new) true s s'
unfolding sys_sbrk
sys_sbrk-down me n new place t s v positive small sz-eq fits mapped =
    let root = (t.proc me).pagetable in
    let (s', e, v', u) =
      uvmdealloc-Unmapped root (new + n) new place s v (omega arith) fits mapped in
    let extended : sign_extend (2 ^ 32 - n) ≡ 2 ^ 64 - n = ground arith in
    let to-eq : ((t.proc me).sz + sign_extend (2 ^ 32 - n)) % 2 ^ 64 ≡ new =
      rw (extended, sz-eq) (omega arith) in
    let down : uvmdealloc root (t.proc me).sz new s ≡ ok (new, s') =
      ap (λ x. uvmdealloc root x new s) sz-eq ∙ e in
    let step = growproc-down me (2 ^ 32 - n) new t s s' (omega arith) (omega arith) to-eq down in
    (
      s',
      ap (λ o. o >>= λ x. ok ((if x.0 then (t.proc me).sz else 2 ^ 64 - 1), x.1, x.2)) step
          ∙ ap (λ x. ok (x, set_sz me new t, s')) sz-eq,
      u,
    )

-- A process that has got `n > 0` bytes more, as in `sys_sbrk-Sbrk`, and gives them back by a `sys_sbrk` of
-- `-n`, gets its size then, has the size that it had at first, and every entry of its page table is what it
-- was at first.
pub sys_sbrk-back :
    (me n : ℕ) (place : ℕ → ℕ) (t t' : Table) (s s' : Space)
    → IsTree (t.proc me).pagetable place s
    → 0 < n
    → n < 2 ^ 31
    → (t.proc me).sz + n ≤ maxva
    → IsBlank
        (t.proc me).pagetable
        (page_end (t.proc me).sz)
        (page_end ((t.proc me).sz + n) - page_end (t.proc me).sz)
        s
    → sys_sbrk me n t s ≡ ok ((t.proc me).sz, t', s')
    → (t'' : Table) × (s'' : Space) × (sys_sbrk me (2 ^ 32 - n) t' s'
        ≡ ok ((t.proc me).sz + n, t'', s''))
      × ((t''.proc me).sz ≡ (t.proc me).sz)
      × ((vb : ℕ)
          → vb < maxva
          → leaf (t.proc me).pagetable vb s'' ≡ leaf (t.proc me).pagetable vb s)
sys_sbrk-back me n place t t' s s' v positive small fits blank ran =
    let sz = (t.proc me).sz in
    let root = (t.proc me).pagetable in
    elim (sys_sbrk-Sbrk me n place t s v positive small fits blank) [
      | inr (e, _) ↦ absurd (panic-≢-ok (sz, t', s') (sym e ∙ ran))
      | inl (s1, place1, e, v1, g) ↦
          let x1 : ℕ × Table × Space = (sz, t', s') in
          let x2 : ℕ × Table × Space = (sz, set_sz me (sz + n) t, s1) in
          let same : x1 ≡ x2 = ok-inj x1 x2 (sym ran ∙ e) in
          let s-eq : s' ≡ s1 = ap (λ x. x.2) same in
          let grown : Proc = record (t.proc me) { sz = sz + n } in
          let me-eq : t'.proc me ≡ grown =
            ap (λ x. x.1.proc me) same ∙ update_self t.proc me grown in
          let root-eq : (t'.proc me).pagetable ≡ root = ap (λ p. p.pagetable) me-eq in
          let sz-eq : (t'.proc me).sz ≡ sz + n = ap (λ p. p.sz) me-eq in
          let v' =
            subst (λ x. IsTree x place1 s') (sym root-eq)
              (subst (IsTree root place1) (sym s-eq) v1) in
          let g' =
            subst (Grew root (page_end sz) (page_end (sz + n) - page_end sz) s) (sym s-eq) g in
          let (s'', e'', u) =
            sys_sbrk-down me n sz place1 t' s' v' positive small sz-eq fits λ vb hb lo hi.
              subst (λ x. IsMappedPage x vb s') (sym root-eq)
                (g'.inside vb hb lo (omega arith)).0 in
          let u' =
            subst (λ x. Unmapped x (page_end sz) (page_end (sz + n) - page_end sz) true s' s'')
              root-eq u in
          let last : Proc = record (t'.proc me) { sz = sz } in
          (
            set_sz me sz t',
            s'',
            e'',
            ap (λ p. p.sz) (update_self t'.proc me last),
            λ vb hb.
                elim (Bool-cases
                  (leb (page_end sz) (vb / 4096) && ltb (vb / 4096) (page_end (sz + n)))) [
                    | inl within ↦
                        u'.inside vb hb (ground arith) (ground arith)
                        ∙ sym (blank vb hb (ground arith) (ground arith))
                    | inr without ↦
                        let away : (vb / 4096 < page_end sz)
                            ⊎ (page_end sz + (page_end (sz + n) - page_end sz) ≤ vb / 4096) =
                          ground arith in
                        u'.outside vb hb away ∙ g'.outside vb hb away
                  ],
          )
    ]
  where
    ok-inj : (a b : ℕ × Table × Space) → ok a ≡ ok b → a ≡ b
    ok-inj a b e = ap (result a) e
      where
        result : ℕ × Table × Space → Outcome (ℕ × Table × Space) → ℕ × Table × Space
        result d (ok r) = r
        result d _ = d

    panic-≢-ok : (r : ℕ × Table × Space) → panic ≢ ok r
    panic-≢-ok r e = false≢true (ap returned e)
      where
        returned : Outcome (ℕ × Table × Space) → Bool
        returned (ok r) = true
        returned _ = false
