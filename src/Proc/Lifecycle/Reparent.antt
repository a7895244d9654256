-- ===== src/Proc/Lifecycle/Reparent.antt =====
-- `reparent` of kernel/proc.c: the children of a process that exits.
use os_lab.Base.{
  ℕ, zero, suc, ◌+◌, ◌<◌, ◌≤◌, ◌≡◌, ◌≢◌, refl, sym, subst, ◌⊎◌, inl, inr, true, false, ◌&&◌, arith,
  ltb, leb, Bool-cases, ◌==◌, if◌then◌else◌,
}
use os_lab.Proc.{sleeping, runnable, nproc, addr, Table, put, wakeup}
use os_lab.Proc.Wakeup.{wakeup-proc}
use os_lab.Proc.Lifecycle.{reparent_loop}

-- `wakeup` leaves the parent of each slot, and every slot that does not sleep.
pub parent-wakeup :
    (self chan : ℕ) (t : Table) (j : ℕ) → ((wakeup self chan t).proc j).parent ≡ (t.proc j).parent
parent-wakeup self chan t j = rw (wakeup-proc self chan t j) (ground arith)

initproc-wakeup : (self chan : ℕ) (t : Table) → (wakeup self chan t).initproc ≡ t.initproc
unfolding wakeup
initproc-wakeup self chan t = refl

-- The body of the loop of `reparent` at slot `i`.
abbrev adopt : ℕ → ℕ → Table → Table
adopt i self t =
    if (t.proc i).parent == addr self
    then wakeup self t.initproc (put t i (record (t.proc i) { parent = t.initproc }))
    else t

initproc-adopt : (i self : ℕ) (t : Table) → (adopt i self t).initproc ≡ t.initproc
initproc-adopt i self t =
    ground
      (arith, initproc-wakeup self t.initproc (put t i (record (t.proc i) { parent = t.initproc })))

parent-adopt :
    (i self : ℕ) (t : Table) (j : ℕ)
    → ((adopt i self t).proc j).parent
      ≡ (if j == i && (t.proc j).parent == addr self then t.initproc else (t.proc j).parent)
parent-adopt i self t j =
    ground
      (arith, parent-wakeup self t.initproc (put t i (record (t.proc i) { parent = t.initproc })) j)

pub reparent_loop-parent :
    (n i self : ℕ) (t : Table) (j : ℕ)
    → ((reparent_loop n i self t).proc j).parent ≡ (
        if (leb i j && ltb j (i + n)) && (t.proc j).parent == addr self
        then t.initproc
        else (t.proc j).parent)
unfolding reparent_loop
reparent_loop-parent zero i self t j = ground arith
reparent_loop-parent (suc n) i self t j = ground (
  arith,
  reparent_loop-parent n (i + 1) self (adopt i self t) j,
  parent-adopt i self t j,
  initproc-adopt i self t,
)

-- A runnable process stays runnable.
runnable-adopt :
    (i self : ℕ) (t : Table) (k : ℕ)
    → (t.proc k).state ≡ runnable
    → ((adopt i self t).proc k).state ≡ runnable
runnable-adopt i self t k r =
    ground
      (arith, wakeup-proc self t.initproc (put t i (record (t.proc i) { parent = t.initproc })) k)

runnable-reparent_loop :
    (n i self : ℕ) (t : Table) (k : ℕ)
    → (t.proc k).state ≡ runnable
    → ((reparent_loop n i self t).proc k).state ≡ runnable
unfolding reparent_loop
runnable-reparent_loop zero i self t k r = r
runnable-reparent_loop (suc n) i self t k r =
    runnable-reparent_loop n (i + 1) self (adopt i self t) k (runnable-adopt i self t k r)

-- The process that waits at its own address, as `wait` does.
pub record Waits (t : Table) (self k : ℕ) : Type 0 where
  pub slot : k < nproc
  pub other : k ≢ self
  pub sleeps : (t.proc k).state ≡ sleeping
  pub on : (t.proc k).chan ≡ addr k

adopt-wakes :
    (i self : ℕ) (t : Table) (k : ℕ)
    → Waits t self k
    → t.initproc ≡ addr k
    → ((t.proc i).parent == addr self) ≡ true
    → ((adopt i self t).proc k).state ≡ runnable
adopt-wakes i self t k w init kid = rw kid (
    ground (
      arith,
      w.sleeps,
      w.on,
      w.slot,
      wakeup-proc self t.initproc (put t i (record (t.proc i) { parent = t.initproc })) k,
    ))

adopt-none :
    (i self : ℕ) (t : Table) → ((t.proc i).parent == addr self) ≡ false → adopt i self t ≡ t
adopt-none i self t e = rw e

pub reparent_loop-wakes :
    (n i self : ℕ) (t : Table) (k j : ℕ)
    → Waits t self k
    → t.initproc ≡ addr k
    → i ≤ j
    → j < i + n
    → ((t.proc j).parent == addr self) ≡ true
    → ((reparent_loop n i self t).proc k).state ≡ runnable
unfolding reparent_loop
reparent_loop-wakes zero i self t k j w init lo hi kid = absurd (omega arith)
reparent_loop-wakes (suc n) i self t k j w init lo hi kid =
    elim (Bool-cases ((t.proc i).parent == addr self)) [
      | inl here ↦
          runnable-reparent_loop n (i + 1) self (adopt i self t) k
            (adopt-wakes i self t k w init here)
      | inr not_here ↦ elim (Bool-cases (i == j)) [
        | inl same ↦ ground arith
        | inr ne ↦
            subst (λ z. ((reparent_loop n (i + 1) self z).proc k).state ≡ runnable)
              (sym (adopt-none i self t not_here))
              (reparent_loop-wakes n (i + 1) self t k j w init (ground arith) (omega arith) kid)
      ]
    ]

-- Slot `k` is runnable, or still sleeps on the channel `c`.
abbrev pub Stirs : Table → ℕ → ℕ → Type 0
Stirs t k c =
    ((t.proc k).state ≡ runnable) ⊎ (((t.proc k).state ≡ sleeping) × ((t.proc k).chan ≡ c))

adopt-Stirs : (i self : ℕ) (t : Table) (k c : ℕ) → Stirs t k c → Stirs (adopt i self t) k c
adopt-Stirs i self t k c h =
    ground
      (arith, wakeup-proc self t.initproc (put t i (record (t.proc i) { parent = t.initproc })) k)

pub reparent_loop-Stirs :
    (n i self : ℕ) (t : Table) (k c : ℕ) → Stirs t k c → Stirs (reparent_loop n i self t) k c
unfolding reparent_loop
reparent_loop-Stirs zero i self t k c h = h
reparent_loop-Stirs (suc n) i self t k c h =
    reparent_loop-Stirs n (i + 1) self (adopt i self t) k c (adopt-Stirs i self t k c h)
