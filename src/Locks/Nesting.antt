-- ===== src/Locks/Nesting.antt =====
-- `push_off` and `pop_off` of kernel/spinlock.c are matched.
use os_lab.Base.{
  ℕ, zero, suc, ◌<◌, ◌≡◌, refl, arith, false, ◌==◌, if◌then◌else◌, Outcome, ok, ◌>>=◌,
}
use os_lab.Locks.{Cpu, push_off, pop_off}
use os_lab.Locks.Exclusion.{push_off_lem}

abbrev pub pushes : ℕ → Cpu → Cpu
pushes zero c = c
pushes (suc n) c = pushes n (push_off c)

abbrev pub pops : ℕ → Cpu → Outcome Cpu
pops zero c = ok c
pops (suc n) c = pops n c >>= pop_off

pop_off-push_off :
    (c : Cpu)
    → (0 < c.noff → c.intr ≡ false)
    → (c' : Cpu) × (pop_off (push_off c) ≡ ok c')
      × (c'.noff ≡ c.noff)
      × (c'.intr ≡ c.intr)
      × (0 < c.noff → c' ≡ c)
unfolding push_off pop_off
pop_off-push_off c quiet =
    let c' : Cpu = record {
      noff = c.noff;
      intena = if c.noff == 0 then c.intr else c.intena;
      intr = c.intr;
    } in
    (c', ground arith, refl, refl, λ nested. ground arith)

-- As many calls of `pop_off` as of `push_off` restore the depth and the interrupts of a processor
-- that takes no interrupts while its depth is not 0.
pub pops-pushes :
    (n : ℕ) (c : Cpu)
    → (0 < c.noff → c.intr ≡ false)
    → (c' : Cpu) × (pops n (pushes n c) ≡ ok c')
      × (c'.noff ≡ c.noff)
      × (c'.intr ≡ c.intr)
      × (0 < c.noff → c' ≡ c)
pops-pushes zero c quiet = (c, refl, refl, refl, λ _. refl)
pops-pushes (suc n) c quiet =
    let (deeper, off) = push_off_lem c in
    let (c1, e, _, _, same) = pops-pushes n (push_off c) (λ _. off) in
    let (c', e', n_eq, i_eq, all) = pop_off-push_off c quiet in
    let back : c1 ≡ push_off c = same (omega (arith, deeper)) in
    (c', rw (e, back) e', n_eq, i_eq, all)
