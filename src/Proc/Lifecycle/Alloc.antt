-- ===== src/Proc/Lifecycle/Alloc.antt =====
-- `allocproc` of kernel/proc.c on each of its paths.
use os_lab.Base.{
  ℕ, ◌+◌, ◌<◌, ◌≡◌, ◌≢◌, refl, ◌⊎◌, inl, inr, true, false, arith, none, some, Option, scan,
  scan-First, scan-none, Option-cases,
}
use os_lab.Proc.{unused, used, is_unused, Trapframe, Proc, nproc, Table, freeproc}
use os_lab.Proc.Lifecycle.{allocproc}

-- What a free slot is after `freeproc`.
pub record IsFree (p : Proc) : Type 0 where
  pub state : p.state ≡ unused
  pub pid : p.pid ≡ 0
  pub parent : p.parent ≡ 0
  pub chan : p.chan ≡ 0
  pub killed : p.killed ≡ 0
  pub sz : p.sz ≡ 0
  pub pagetable : p.pagetable ≡ 0
  pub trapframe : p.trapframe ≡ none

pub freeproc-IsFree : (p : Proc) → IsFree (freeproc p)
unfolding freeproc
freeproc-IsFree p = ground arith

-- The outcome of `allocproc` at its slot `i`: a process with the next id, or a free slot.
pub record Allocated (pt : ℕ) (page : Trapframe) (t t' : Table) (i : ℕ) : Type 0 where
  pub state : (t'.proc i).state ≡ used
  pub pid : (t'.proc i).pid ≡ t.nextpid
  pub pagetable : (t'.proc i).pagetable ≡ pt
  pub trapframe : (t'.proc i).trapframe ≡ some page

module _ (forkret : ℕ) (t : Table) where
  -- With memory for the trapframe and the page table `allocproc` makes the first unused slot a
  -- process with the next id and touches no other slot; it fails only when no slot is unused, and
  -- then changes nothing.
  pub allocproc_lem :
      (page : Trapframe) (pagetable : ℕ)
      → pagetable ≢ 0
      → let (slot, t') = allocproc forkret (some page) pagetable t in
        ((i : ℕ) × (slot ≡ some i)
          × (i < nproc)
          × (is_unused (t.proc i).state ≡ true)
          × Allocated pagetable page t t' i
          × (t'.nextpid ≡ t.nextpid + 1)
          × ((j : ℕ) → j ≢ i → t'.proc j ≡ t.proc j))
        ⊎ ((slot ≡ none) × (t' ≡ t) × ((j : ℕ) → j < nproc → is_unused (t.proc j).state ≡ false))
  unfolding allocproc
  allocproc_lem page pagetable pt =
      elim (Option-cases (scan (λ i. is_unused (t.proc i).state) nproc 0)) [
        | inl e ↦ inr (
          rw (e, allocproc),
          rw (e, allocproc),
          λ j lt.
              scan-none (λ i. is_unused (t.proc i).state) nproc 0 e j (omega arith) (omega arith),
        )
        | inr (i, e) ↦
            let r = scan-First (λ i. is_unused (t.proc i).state) nproc 0 i e in
            inl (
              i,
              rw (e, allocproc) (ground arith),
              omega (arith, r.to),
              r.passes,
              rw (e, allocproc) (ground arith),
              rw (e, allocproc) (ground arith),
              λ j ne. rw (e, allocproc) (ground arith),
            )
      ]

  -- Without that memory `allocproc` fails, uses up a process id, and leaves the slot free.
  pub allocproc-no_memory :
      (tf : Option Trapframe) (i : ℕ)
      → scan (λ i. is_unused (t.proc i).state) nproc 0 ≡ some i
      → let (slot, t') = allocproc forkret tf 0 t in
        (slot ≡ none)
        × (t'.nextpid ≡ t.nextpid + 1)
        × IsFree (t'.proc i)
        × ((j : ℕ) → j ≢ i → t'.proc j ≡ t.proc j)
  unfolding allocproc freeproc
  allocproc-no_memory none i e = rw (e, allocproc) (refl, refl, ground arith, λ j ne. ground arith)
  allocproc-no_memory (some page) i e =
      rw (e, allocproc) (refl, refl, ground arith, λ j ne. ground arith)
