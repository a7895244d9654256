-- ===== src/Proc/Lifecycle/Exit.antt =====
-- `exit` of kernel/proc.c, from its call of `reparent` on.
use os_lab.Base.{ℕ, ◌<◌, ◌≡◌, refl, ◌∙◌, inr, arith, ◌==◌, ==_iff, if◌then◌else◌, ℤ}
use os_lab.Proc.{zombie, runnable, nproc, addr, Table, wakeup}
use os_lab.Proc.Wakeup.{wakeup-proc}
use os_lab.Proc.Lifecycle.{reparent_loop, reparent, exit_table}
use os_lab.Proc.Lifecycle.Reparent.{
  parent-wakeup, reparent_loop-parent, reparent_loop-wakes, Waits, Stirs, reparent_loop-Stirs,
}

module _ (self : ℕ) (status : ℤ) (t : Table) where
  -- The table after `reparent` and after the `wakeup` of the parent.
  t1 : Table
  t1 = reparent self t

  t2 : Table
  unfolding t1
  t2 = wakeup self (t1.proc self).parent t1

  parent-t2 :
      (j : ℕ)
      → j < nproc
      → (t2.proc j).parent
        ≡ (if (t.proc j).parent == addr self then t.initproc else (t.proc j).parent)
  unfolding t2 reparent
  parent-t2 j lt =
      parent-wakeup self _ (reparent_loop nproc 0 self t) j
      ∙ reparent_loop-parent nproc 0 self t j
      ∙ ground arith

  exit_table-proc :
      (j : ℕ)
      → (exit_table self status t).proc j ≡ (
          if j == self
          then record (t2.proc self) { xstate = status; state = zombie }
          else t2.proc j)
  unfolding exit_table t2 t1
  exit_table-proc j = refl

  -- A process that exits becomes a zombie with its status, and each of its children a child of
  -- init.
  pub exit_table-parent :
      (j : ℕ)
      → j < nproc
      → let t' = exit_table self status t in
        ((t'.proc self).state ≡ zombie)
        × ((t'.proc self).xstate ≡ status)
        × ((t'.proc j).parent
            ≡ (if (t.proc j).parent == addr self then t.initproc else (t.proc j).parent))
  exit_table-parent j lt = (
    ground (arith, exit_table-proc self),
    ground (arith, exit_table-proc self),
    ground (arith, exit_table-proc j, parent-t2 j lt),
  )

  -- A parent that waits is woken by the exit of its child.
  pub exit_table-wakes_parent :
      (k : ℕ)
      → self < nproc
      → Waits t self k
      → (t.proc self).parent ≡ addr k
      → ((exit_table self status t).proc k).state ≡ runnable
  exit_table-wakes_parent k lt w parent = ground (arith, exit_table-proc k, w.other, runnable-t2)
    where
      parent-t1 : (t1.proc self).parent ≡ addr k
      parent-t1 =
          unfold t1 reparent in (reparent_loop-parent nproc 0 self t self ∙ ground (arith, w.other))

      stirs-t1 : Stirs t1 k (addr k)
      stirs-t1 =
          unfold t1 reparent in reparent_loop-Stirs nproc 0 self t k (addr k) (inr (w.sleeps, w.on))

      runnable-t2 : (t2.proc k).state ≡ runnable
      runnable-t2 =
          unfold t2 in
          ground (
            arith,
            wakeup-proc self (t1.proc self).parent t1 k,
            parent-t1,
            w.slot,
            w.other,
            stirs-t1,
          )

  -- Init, waiting, is woken by the exit of a process with children.
  pub exit_table-wakes_init :
      (k j : ℕ)
      → Waits t self k
      → t.initproc ≡ addr k
      → j < nproc
      → (t.proc j).parent ≡ addr self
      → ((exit_table self status t).proc k).state ≡ runnable
  exit_table-wakes_init k j w init lt kid = ground (arith, exit_table-proc k, w.other, runnable-t2)
    where
      runnable-t1 : (t1.proc k).state ≡ runnable
      runnable-t1 =
          unfold t1 reparent in
          reparent_loop-wakes nproc 0 self t k j w init (omega arith) (omega arith)
            ((==_iff _ _).1 kid)

      runnable-t2 : (t2.proc k).state ≡ runnable
      runnable-t2 =
          unfold t2 in ground (arith, wakeup-proc self (t1.proc self).parent t1 k, runnable-t1)
