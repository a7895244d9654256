-- ===== src/Proc/Lifecycle.antt =====
-- The life of a process in kernel/proc.c: `allocproc`, `fork`, `exit`, `wait`, `sleep` and the
-- steps of the scheduler. What memory management answers is an argument: the trapframe page
-- (`none` when `kalloc` fails), the page table (0 when `proc_pagetable` fails), whether
-- `uvmcopy` and `copyout` succeed.
pub mod Alloc
pub mod Fork
pub mod Exit
pub mod Reparent
pub mod Wait
use os_lab.Base.{
  ℕ, zero, suc, ◌+◌, ◌-◌, ◌≡◌, Bool, true, false, not, ◌&&◌, ◌||◌, ltb, leb, ◌==◌, if◌then◌else◌,
  update, Option, none, some, List, [], ◌∷◌, ◌++◌, scan, ℤ, pos, minus_one, Outcome, ok, panic,
  ◌>>=◌,
}
use os_lab.File.{Ftable, Closing, filedup, fileclose}
use os_lab.Strings.{safestrcpy}
use os_lab.Proc.{
  ProcState, unused, used, sleeping, runnable, running, zombie, is_unused, is_runnable, is_running,
  is_zombie, Trapframe, Context, Proc, nproc, nofile, addr, Table, put, set_state, wakeup, allocpid,
  freeproc,
}

abbrev pub pgsize : ℕ
pgsize = 4096

-- The first unused slot, with a process id, a trapframe page and a page table.
unfoldable pub allocproc :
    (forkret : ℕ) → Option Trapframe → (pagetable : ℕ) → Table → Option ℕ × Table
unfolding allocpid
allocproc forkret tf pagetable t = elim (scan (λ i. is_unused (t.proc i).state) nproc 0) [
  | none ↦ (none, t)
  | some i ↦
      let (pid, t1) = allocpid t in
      let p : Proc = record (t1.proc i) { pid = pid; state = used; trapframe = tf } in
      elim tf [
        | none ↦ (none, put t1 i (freeproc p))
        | some page ↦
            if pagetable == 0 then (none, put t1 i (freeproc (record p { pagetable = 0 }))) else (
              some i,
              put t1 i (record p {
                pagetable = pagetable;
                context = record { ra = forkret; sp = p.kstack + pgsize; saved = λ _. 0 };
              }),
            )
      ]
]

-- `for (i = 0; i < NOFILE; i++) if (p->ofile[i]) np->ofile[i] = filedup(p->ofile[i]);`. The
-- pointer `suc f` is to slot `f` of the file table.
unfoldable pub dup_loop : ℕ → ℕ → (ℕ → ℕ) → (ℕ → ℕ) → Ftable → Outcome ((ℕ → ℕ) × Ftable)
dup_loop zero i from to ft = ok (to, ft)
dup_loop (suc n) i from to ft =
    if from i == 0
    then dup_loop n (i + 1) from to ft
    else filedup (from i - 1) ft >>= dup_loop n (i + 1) from (update to i (from i))

-- What `fork` sets in the child `np`, once its memory and its files are copied. The inode that `idup`
-- counts for `cwd` is not in the model.
unfoldable pub fork_child : ℕ → Proc → Trapframe → (ℕ → ℕ) → Proc → Proc
fork_child self p tf ofile np = record np {
  sz = p.sz;
  trapframe = some (record tf { a0 = 0 });
  ofile = ofile;
  cwd = p.cwd;
  name = safestrcpy np.name p.name 16;
  parent = addr self;
  state = runnable;
}

-- `fork` once `allocproc` has found slot `i`. A parent without a trapframe would be read through
-- the null pointer.
unfoldable pub fork_slot :
    (self i : ℕ) → (copied : Bool) → Table → Ftable → Outcome (ℤ × Table × Ftable)
fork_slot self i copied t ft =
    if not copied
    then ok (minus_one, put t i (freeproc (t.proc i)), ft)
    else elim (t.proc self).trapframe [
      | none ↦ panic
      | some tf ↦ dup_loop nofile 0 (t.proc self).ofile (t.proc i).ofile ft >>= λ r.
          ok (pos (t.proc i).pid, put t i (fork_child self (t.proc self) tf r.0 (t.proc i)), r.1)
    ]

unfoldable pub fork :
    (forkret self : ℕ)
    → Option Trapframe
    → (pagetable : ℕ) → (copied : Bool) → Table
    → Ftable
    → Outcome (ℤ × Table × Ftable)
fork forkret self tf pagetable copied t ft =
    let (slot, t1) = allocproc forkret tf pagetable t in
    elim slot [ none ↦ ok (minus_one, t1, ft) | some i ↦ fork_slot self i copied t1 ft ]

-- The loop of `reparent`, over the slots from `i` on.
unfoldable pub reparent_loop : ℕ → ℕ → ℕ → Table → Table
reparent_loop zero i self t = t
reparent_loop (suc n) i self t = reparent_loop n (i + 1) self (
    if (t.proc i).parent == addr self
    then wakeup self t.initproc (put t i (record (t.proc i) { parent = t.initproc }))
    else t)

unfoldable pub reparent : ℕ → Table → Table
reparent self t = reparent_loop nproc 0 self t

-- `exit` closes the open files; what each `fileclose` goes on to do is listed.
unfoldable pub close_loop :
    ℕ → ℕ → (ℕ → ℕ) → Ftable → List Closing → Outcome ((ℕ → ℕ) × Ftable × List Closing)
close_loop zero fd ofile ft done = ok (ofile, ft, done)
close_loop (suc n) fd ofile ft done =
    if ofile fd == 0
    then close_loop n (fd + 1) ofile ft done
    else fileclose (ofile fd - 1) ft >>= λ r.
        close_loop n (fd + 1) (update ofile fd 0) r.1 (done ++ r.0 ∷ [])

-- The part of `exit` under `wait_lock`.
unfoldable pub exit_table : ℕ → ℤ → Table → Table
exit_table self status t =
    let t1 = reparent self t in
    let t2 = wakeup self (t1.proc self).parent t1 in
    put t2 self (record (t2.proc self) { xstate = status; state = zombie })

-- The `iput` of the current directory, in a transaction of the log, is left out.
unfoldable pub exit : ℕ → ℤ → Table → Ftable → Outcome (Table × Ftable × List Closing)
exit self status t ft =
    if addr self == t.initproc
    then panic
    else close_loop nofile 0 (t.proc self).ofile ft [] >>= λ r. ok (
      exit_table self status (put t self (record (t.proc self) { ofile = r.0; cwd = 0 })),
      r.1,
      r.2,
    )

-- `p->chan = chan; p->state = SLEEPING;`
abbrev pub asleep_on : (chan : ℕ) → Proc → Proc
asleep_on chan p = record p { chan = chan; state = sleeping }

-- What `sleep` writes before its call of `sched`, and when it runs again. Its locks are in Handover.
unfoldable pub sleep : ℕ → ℕ → Table → Table
sleep self chan t = put t self (asleep_on chan (t.proc self))

unfoldable pub slept : ℕ → Table → Table
slept self t = put t self (record (t.proc self) { chan = 0 })

-- One scan of `wait` from slot `i` on: the first child that is a zombie, and `havekids`.
unfoldable pub wait_loop : ℕ → ℕ → ℕ → Bool → Table → Option ℕ × Bool
wait_loop zero i self havekids t = (none, havekids)
wait_loop (suc n) i self havekids t =
    let child = (t.proc i).parent == addr self in
    let rest = wait_loop n (i + 1) self (child || havekids) t in
    if child && is_zombie (t.proc i).state then (some i, true) else rest

-- `wait` returns, or goes to sleep, to scan again when it is woken.
pub data WaitResult : Type 0 where
  returned : ℤ → Table → WaitResult
  asleep : Table → WaitResult

unfoldable pub wait : ℕ → (address : ℕ) → (copied : Bool) → Table → WaitResult
wait self address copied t =
    let (found, havekids) = wait_loop nproc 0 self false t in
    elim found [
      | some i ↦
          if not (address == 0) && not copied
          then returned minus_one t
          else returned (pos (t.proc i).pid) (put t i (freeproc (t.proc i)))
      | none ↦
          if not havekids || not ((t.proc self).killed == 0)
          then returned minus_one t
          else asleep (sleep self (addr self) t)
    ]

-- The body of the loop of `rr_scheduler` at slot `i`: whether it switches to that process.
unfoldable pub dispatch : ℕ → Table → Bool × Table
dispatch i t =
    if is_runnable (t.proc i).state
    then (true, put t i (set_state running (t.proc i)))
    else (false, t)

-- `yield` up to its call of `sched`
unfoldable pub yield : ℕ → Table → Table
yield self t = put t self (set_state runnable (t.proc self))

-- The checks of `sched`: the lock held, one `push_off`, not running, interrupts off.
unfoldable pub sched : (holding : Bool) → (noff : ℕ) → ProcState → (intr : Bool) → Outcome ProcState
sched holding noff state intr =
    if not holding
    then panic
    else if not (noff == 1)
    then panic
    else if is_running state
    then panic
    else if intr
    then panic
    else ok state
