-- ===== src/Proc/Lifecycle/Fork.antt =====
-- `fork` of kernel/proc.c.
use os_lab.Base.{
  ℕ, zero, suc, ◌+◌, ◌-◌, ◌<◌, ◌≡◌, ◌≢◌, refl, sym, subst, ◌∙◌, inl, inr, Bool, true, false, not,
  ◌&&◌, arith, ltb, leb, update, update_self, update-ne, some, Option, Bool-cases, ◌==◌,
  if◌then◌else◌, pos, minus_one, ok,
}
use os_lab.File.{Ftable}
use os_lab.File.Table.{referred, filedup-referred}
use os_lab.Strings.{safestrcpy}
use os_lab.Proc.{runnable, Trapframe, Proc, nofile, addr, Table, put, freeproc}
use os_lab.Proc.Lifecycle.{allocproc, dup_loop, fork_child, fork_slot, fork}

-- How many of the `n` descriptors from `i` on name slot `f` of the file table.
unfoldable pub uses : ℕ → ℕ → (ℕ → ℕ) → ℕ → ℕ
uses zero i ofile f = 0
uses (suc n) i ofile f = (if ofile i == suc f then 1 else 0) + uses n (i + 1) ofile f

-- Each open descriptor names a file with a reference.
abbrev pub OpenFiles : (ℕ → ℕ) → Ftable → Type 0
OpenFiles ofile ft = (k : ℕ) → ofile k ≢ 0 → 0 < (ft (ofile k - 1)).ref

-- What the loop of `fork` over the descriptors does: the child has the open ones of the parent,
-- and each file one more reference for each descriptor that names it.
pub record Duplicated (n i : ℕ) (from to : ℕ → ℕ) (ft : Ftable) (to' : ℕ → ℕ) (ft' : Ftable)
    : Type 0 where
  pub copied :
      (k : ℕ) → to' k ≡ (if (leb i k && ltb k (i + n)) && not (from k == 0) then from k else to k)
  pub counted : (f : ℕ) → (ft' f).ref ≡ (ft f).ref + uses n i from f

dup_loop-Duplicated :
    (n i : ℕ) (from to : ℕ → ℕ) (ft : Ftable)
    → OpenFiles from ft
    → (to' : ℕ → ℕ) × (ft' : Ftable) × (dup_loop n i from to ft ≡ ok (to', ft'))
      × Duplicated n i from to ft to' ft'
unfolding dup_loop uses
dup_loop-Duplicated zero i from to ft open_files =
    (to, ft, refl, record { copied = λ k. ground arith; counted = λ f. omega arith })
dup_loop-Duplicated (suc n) i from to ft open_files = elim (Bool-cases (from i == 0)) [
  | inl shut ↦
      let (to', ft', e, d) = dup_loop-Duplicated n (i + 1) from to ft open_files in
      (
        to',
        ft',
        rw shut e,
        record {
          copied = λ k. ground (arith, d.copied k);
          counted = λ f. ground (arith, d.counted f);
        },
      )
  | inr isopen ↦
      let ft1 : Ftable = referred (from i - 1) ft in
      let (to', ft', e, d) =
        dup_loop-Duplicated n (i + 1) from (update to i (from i)) ft1
          (λ k ne. ground (arith, open_files k ne)) in
      (
        to',
        ft',
        rw (isopen, filedup-referred (from i - 1) ft (open_files i (ground arith))) e,
        record {
          copied = λ k. ground (arith, d.copied k);
          counted = λ f. ground (arith, d.counted f);
        },
      )
]

-- The child that a `fork` of `p` leaves at its slot, beside what `allocproc` gave it.
pub record IsChild (self : ℕ) (p : Proc) (tf : Trapframe) (np c : Proc) : Type 0 where
  pub state : c.state ≡ runnable
  pub parent : c.parent ≡ addr self
  pub sz : c.sz ≡ p.sz
  pub cwd : c.cwd ≡ p.cwd
  pub trapframe : c.trapframe ≡ some (record tf { a0 = 0 })
  pub pid : c.pid ≡ np.pid
  pub pagetable : c.pagetable ≡ np.pagetable
  pub name : c.name ≡ safestrcpy np.name p.name 16

fork_child-IsChild :
    (self : ℕ) (p : Proc) (tf : Trapframe) (ofile : ℕ → ℕ) (np : Proc)
    → IsChild self p tf np (fork_child self p tf ofile np)
unfolding fork_child
fork_child-IsChild self p tf ofile np = record {
  state = refl;
  parent = refl;
  sz = refl;
  cwd = refl;
  trapframe = refl;
  pid = refl;
  pagetable = refl;
  name = refl;
}

fork_slot-ok :
    (self i : ℕ) (t : Table) (ft : Ftable) (tf : Trapframe) (to' : ℕ → ℕ) (ft' : Ftable)
    → (t.proc self).trapframe ≡ some tf
    → dup_loop nofile 0 (t.proc self).ofile (t.proc i).ofile ft ≡ ok (to', ft')
    → fork_slot self i true t ft
      ≡ ok (pos (t.proc i).pid, put t i (fork_child self (t.proc self) tf to' (t.proc i)), ft')
unfolding fork_slot
fork_slot-ok self i t ft tf to' ft' has_tf e = ground arith

module _ (forkret self i : ℕ) (tf' : Option Trapframe) (pagetable : ℕ) (t t1 : Table) (ft : Ftable)
    (got : allocproc forkret tf' pagetable t ≡ (some i, t1)) where
  fork-slot :
      (copied : Bool) → fork forkret self tf' pagetable copied t ft ≡ fork_slot self i copied t1 ft
  unfolding fork
  fork-slot copied = ground arith

  -- A `fork` whose memory is copied returns the child's id. The child is runnable, with the
  -- parent's size, directory, files and registers but 0 in `a0`; each file has one more reference
  -- for each descriptor that names it; no other slot changes.
  pub fork_lem :
      (tf : Trapframe)
      → (t1.proc self).trapframe ≡ some tf
      → OpenFiles (t1.proc self).ofile ft
      → (t' : Table) × (ft' : Ftable) × (fork forkret self tf' pagetable true t ft
          ≡ ok (pos (t1.proc i).pid, t', ft'))
        × IsChild self (t1.proc self) tf (t1.proc i) (t'.proc i)
        × Duplicated nofile 0 (t1.proc self).ofile (t1.proc i).ofile ft (t'.proc i).ofile ft'
        × ((j : ℕ) → j ≢ i → t'.proc j ≡ t1.proc j)
  fork_lem tf has_tf open_files =
      let (to', ft', e, d) =
        dup_loop-Duplicated nofile 0 (t1.proc self).ofile (t1.proc i).ofile ft open_files in
      let c : Proc = fork_child self (t1.proc self) tf to' (t1.proc i) in
      (
        put t1 i c,
        ft',
        fork-slot true ∙ fork_slot-ok self i t1 ft tf to' ft' has_tf e,
        subst (IsChild self (t1.proc self) tf (t1.proc i)) (sym (update_self t1.proc i c))
            (fork_child-IsChild self (t1.proc self) tf to' (t1.proc i)),
        subst
            (λ (z : Proc).
              Duplicated nofile 0 (t1.proc self).ofile (t1.proc i).ofile ft z.ofile ft')
            (sym (update_self t1.proc i c)) (unfold fork_child in d),
        λ j ne. update-ne t1.proc i j c ne,
      )

  -- When the memory cannot be copied `fork` returns -1 and the new slot is free again.
  pub fork-no_memory :
      fork forkret self tf' pagetable false t ft
      ≡ ok (minus_one, put t1 i (freeproc (t1.proc i)), ft)
  unfolding fork_slot
  fork-no_memory = fork-slot false
