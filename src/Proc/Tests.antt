-- ===== src/Proc/Tests.antt =====
-- kernel/proc.c on concrete tables.
use os_lab.Base.{
  ℕ, suc, ◌<◌, ◌≡◌, ◌≢◌, ◌⊎◌, refl, true, false, arith, update, none, some, pos, minus_one, ok,
  scan, min, replicate,
}
use os_lab.File.{Ftable, fd_inode}
use os_lab.Proc.{
  unused, used, sleeping, runnable, running, zombie, is_unused, Trapframe, Proc, nproc, nofile,
  addr, Table, put, kill, is_sleeping, woken,
}
use os_lab.Proc.Lifecycle.{asleep_on}
use os_lab.Proc.Handover.{
  in_sched, through, before, finished, Moment, moment, Move, acquires, calls, takes, hands, sleeps,
  locks, posts, visits, wakes, unlocks, at_start, moves, Run-awake,
}
use os_lab.Proc.Kill.{FreeIds, kill_zero}
use os_lab.Proc.Lifecycle.{allocproc, fork, exit_table, wait, returned}
use os_lab.Proc.Lifecycle.Fork.{Duplicated, IsChild, fork_lem}
use os_lab.Proc.Lifecycle.Reparent.{Waits}
use os_lab.Proc.Lifecycle.Exit.{exit_table-wakes_parent}
use os_lab.Proc.Lifecycle.Wait.{wait-bad_address}
use os_lab.Proc.Listing.{UserProc, ps}
use os_lab.Proc.Listing.Lists.{used_run, IsName, Shows, ps_lem, ps-start}

abbrev registers : Trapframe
registers = record { epc = 24; sp = 4096; a0 = 7; others = λ _. 0 }

-- A slot that was never used.
abbrev blank : Proc
blank = record {
  state = unused;
  chan = 0;
  killed = 0;
  xstate = pos 0;
  pid = 0;
  parent = 0;
  kstack = 0;
  sz = 0;
  pagetable = 0;
  trapframe = none;
  context = record { ra = 0; sp = 0; saved = λ _. 0 };
  ofile = λ _. 0;
  cwd = 0;
  name = replicate 16 0;
}

-- Init waits for its child, the shell, which runs; the shell's child has exited.
abbrev init : Proc
init = record blank { state = sleeping; chan = addr 0; pid = 1 }

abbrev shell : Proc
shell = record blank {
  state = running;
  pid = 2;
  parent = addr 0;
  sz = 8192;
  trapframe = some registers;
  pagetable = 0x80030000;
  ofile = update (λ _. 0) 1 (suc 4);
}

abbrev dead : Proc
dead = record blank { state = zombie; pid = 3; parent = addr 1; xstate = pos 5 }

abbrev table : Table
table = record {
  proc = update (update (update (λ _. blank) 0 init) 1 shell) 2 dead;
  nextpid = 4;
  initproc = addr 0;
}

kill_runs : kill 9 table ≡ (minus_one, table)
unfolding kill scan
kill_runs = refl

table-FreeIds : FreeIds table
table-FreeIds j lt = (λ e. ground arith, λ e. ground arith)

kill_zero_example :
    let (r, t1) = kill 0 table in
    let (slot, t2) = allocproc 99 (some registers) 0x80040000 t1 in
    (r ≡ pos 0)
    × ((j : ℕ) × (slot ≡ some j) × ((t2.proc j).killed ≡ 1) × ((t2.proc j).state ≡ used))
kill_zero_example =
    kill_zero table table-FreeIds 3 (omega arith) refl 99 registers 0x80040000 (omega arith)

free_slot : scan (λ i. is_unused (table.proc i).state) nproc 0 ≡ some 3
unfolding scan
free_slot = refl

wait-bad_address_example : wait 1 64 false table ≡ returned minus_one table
wait-bad_address_example = wait-bad_address 1 64 2 table (omega arith) (omega arith) refl

init-Waits : Waits table 1 0
init-Waits = record { slot = omega arith; other = omega arith; sleeps = refl; on = refl }

exit_table-wakes_parent_example : ((exit_table 1 (pos 9) table).proc 0).state ≡ runnable
exit_table-wakes_parent_example =
    exit_table-wakes_parent 1 (pos 9) table 0 (omega arith) init-Waits refl

-- The shell forks; its one open file is at slot 4.
abbrev files : Ftable
files = λ _. record {
  type = fd_inode;
  ref = 1;
  readable = true;
  writable = true;
  pipe = 0;
  ip = 5;
  off = 0;
  major = 0;
}

abbrev with_child : Table
with_child =
    record (put table 3 (record blank {
      state = used;
      pid = 4;
      trapframe = some registers;
      pagetable = 0x80040000;
      context = record { ra = 99; sp = 4096; saved = λ _. 0 };
    })) { nextpid = 5 }

child_made : allocproc 99 (some registers) 0x80040000 table ≡ (some 3, with_child)
unfolding allocproc scan
child_made = refl

fork_lem_example :
    (t' : Table) × (ft' : Ftable) × (fork 99 1 (some registers) 0x80040000 true table files
      ≡ ok (pos 4, t', ft'))
    × IsChild 1 shell registers (with_child.proc 3) (t'.proc 3)
    × Duplicated nofile 0 shell.ofile (with_child.proc 3).ofile files (t'.proc 3).ofile ft'
    × ((j : ℕ) → j ≢ 3 → t'.proc j ≡ with_child.proc j)
fork_lem_example =
    fork_lem 99 1 3 (some registers) 0x80040000 table with_child files child_made registers refl
      λ k ne. omega arith

abbrev stack : ℕ → UserProc
stack _ = record {
  state = running;
  killed = 0;
  xstate = pos 0;
  pid = 0;
  parent_id = 0;
  name = replicate 16 0;
}

table-IsName : (j : ℕ) → IsName (table.proc j).name
table-IsName j = ground arith

ps_lem_example :
    let (result, loc) = ps 360 8192 true stack 0 5 table in
    let m = min (used_run nproc 0 table) 5 in
    (result ≡ 8192)
    × ((k : ℕ) → k < m → Shows table (table.proc k) (loc k))
    × (m < 5 → (loc m).state ≡ unused)
ps_lem_example = ps_lem 360 8192 stack 5 table (omega arith) (omega arith) table-IsName λ j. refl

ps-start_example : ps 360 8192 true stack 1 5 table ≡ (0, stack)
ps-start_example = ps-start 360 8192 true stack 1 5 table (omega arith) (omega arith)

used_slots : used_run nproc 0 table ≡ 3
unfolding used_run
used_slots = refl

-- The shell finds no event and falls asleep; then the other process runs.
Run-awake_example :
    let p = woken 1 77 0 (asleep_on 77 shell) in
    (is_sleeping p.state ≡ false)
    × ((in_sched ≡ through)
        ⊎ ((m : Moment) × Move 77 0 1 (moment false false true p in_sched finished) m))
Run-awake_example =
    Run-awake 77 0 1 (omega arith) false false true shell (woken 1 77 0 (asleep_on 77 shell))
      in_sched refl
      (moves _ _
        (moves _ _
          (moves _ _
            (moves _ _
              (moves _ _
                (moves _ _
                  (moves _ _
                    (moves _ _
                      (moves _ _ (moves _ _ at_start (acquires false false shell before))
                        (calls true false shell before))
                      (takes true false shell before))
                    (hands true true false shell before))
                  (sleeps false true false shell before))
                (locks false false (asleep_on 77 shell) in_sched))
              (posts true false false (asleep_on 77 shell) in_sched))
            (visits true true (asleep_on 77 shell) in_sched))
          (wakes true true true (asleep_on 77 shell) in_sched))
        (unlocks true false true (woken 1 77 0 (asleep_on 77 shell)) in_sched))
