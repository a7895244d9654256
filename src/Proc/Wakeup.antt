-- ===== src/Proc/Wakeup.antt =====
-- `wakeup` of kernel/proc.c.
use os_lab.Base.{ℕ, ◌≡◌, ◌∙◌, not, ◌&&◌, arith, ltb, ◌==◌, if◌then◌else◌, each-at}
use os_lab.Proc.{runnable, is_sleeping, nproc, Table, set_state, woken, wakeup}

pub wakeup-proc :
    (self chan : ℕ) (t : Table) (j : ℕ)
    → (wakeup self chan t).proc j ≡ (
        if ltb j nproc
          && (not (j == self) && (is_sleeping (t.proc j).state && (t.proc j).chan == chan))
        then set_state runnable (t.proc j)
        else t.proc j)
unfolding wakeup woken
wakeup-proc self chan t j = each-at (woken self chan) nproc 0 t.proc j ∙ ground arith
