-- ===== src/Proc/Listing.antt =====
-- `ps` of kernel/proc.c: the listing of the process table that a program can ask for.
pub mod Lists
use os_lab.Base.{
  ℕ, zero, suc, ◌+◌, ◌-◌, ◌*◌, ◌%◌, ◌<◌, ◌≡◌, ◌≢◌, Bool, true, false, not, arith, ltb, leb, ◌==◌,
  if◌then◌else◌, update, Option, none, some, List, [], ◌∷◌, ℤ,
}
use os_lab.Proc.{ProcState, unused, is_unused, Proc, nproc, Table}

-- `struct user_proc`
pub record UserProc : Type 0 where
  pub state : ProcState
  pub killed : ℕ
  pub xstate : ℤ
  pub pid : ℕ
  pub parent_id : ℕ
  pub name : List ℕ

-- `copy_array(src, dst, len)` over the arrays from their starts
copy_array : List ℕ → List ℕ → ℕ → List ℕ
copy_array src dst zero = dst
copy_array [] dst (suc len) = dst
copy_array (c ∷ src) [] (suc len) = []
copy_array (c ∷ src) (d ∷ dst) (suc len) = c ∷ copy_array src dst len

-- What the loop of `ps` writes for a process. The parent's id is left as it was for a process
-- without a parent.
unfoldable pub entry : Table → Proc → UserProc → UserProc
unfolding copy_array
entry t p old = record {
  state = p.state;
  killed = p.killed;
  xstate = p.xstate;
  pid = p.pid;
  parent_id = if not (p.parent == 0) then (t.proc (p.parent - 1)).pid else old.parent_id;
  name = copy_array p.name old.name 16;
}

-- The loop over the slots from `i` on: `localCount` and `loc_result`. The count is a `uint8`.
unfoldable pub ps_loop : (n i count localCount : ℕ) → (ℕ → UserProc) → Table → ℕ × (ℕ → UserProc)
ps_loop zero i count localCount loc t = (localCount, loc)
ps_loop (suc n) i count localCount loc t =
    let rest =
      ps_loop n (i + 1) count ((localCount + 1) % 256)
        (update loc localCount (entry t (t.proc i) (loc localCount))) t in
    if localCount == count
    then (localCount, loc)
    else if is_unused (t.proc i).state
    then (localCount, update loc localCount (record (loc localCount) { state = unused }))
    else rest

-- `ps` returns an address, 0 on an error, and copies `count` entries out to it. The arguments
-- are `sizeof(struct proc)`, the caller's size, whether `growproc` succeeds, and what stood on
-- the stack in place of `loc_result`. `sizeof(proc)` is the size of the whole table.
unfoldable pub ps :
    (proc_size sz : ℕ)
    → (grown : Bool) → (ℕ → UserProc)
    → (start count : ℕ) → Table
    → ℕ × (ℕ → UserProc)
ps proc_size sz grown stack start count t =
    if count == 0
    then (0, stack)
    else if not grown
    then (0, stack)
    else let p = start * (nproc * proc_size) in
      if leb nproc p
      then (0, stack)
      else let (localCount, loc) = ps_loop (nproc - p) p count 0 stack t in
        (
          sz,
          if ltb localCount count
              then update loc localCount (record (loc localCount) { state = unused })
              else loc,
        )
