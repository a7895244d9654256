-- ===== src/Syscall/Memory.antt =====
-- The calls of kernel/sysproc.c about memory and time, with `growproc` of kernel/proc.c. The process that
-- calls is slot `me` of the table, and its arguments are those that `argint` and `argaddr` fetch.
use os_lab.Base.{
  ℕ, ◌+◌, ◌-◌, ◌%◌, ◌^◌, Bool, true, false, not, int_lt, ltb, ◌==◌, if◌then◌else◌, none, some, scan,
  Outcome, ok, ◌>>=◌,
}
use os_lab.Proc.{Table, nproc, put}
use os_lab.Vm.Walk.{Space, walkaddr}
use os_lab.Vm.Sizes.{sign_extend, uvmdealloc, uvmalloc}

abbrev pub set_sz : (me sz : ℕ) → Table → Table
set_sz me sz t = put t me (record (t.proc me) { sz = sz })

-- Whether it has succeeded: true for 0. The `int` n is given by its bits, PTE_W is 4.
unfoldable pub growproc : (me n : ℕ) → Table → Space → Outcome (Bool × Table × Space)
growproc me n t s =
    let p = t.proc me in
    let to = (p.sz + sign_extend n) % 2 ^ 64 in
    if int_lt 0 n
    then (uvmalloc p.pagetable p.sz to 4 s >>= λ r.
        if r.0 == 0 then ok (false, t, r.1) else ok (true, set_sz me r.0 t, r.1))
    else if int_lt n 0
    then (uvmdealloc p.pagetable p.sz to s >>= λ r. ok (true, set_sz me r.0 t, r.1))
    else ok (true, set_sz me p.sz t, s)

-- The old size, or -1
unfoldable pub sys_sbrk : (me n : ℕ) → Table → Space → Outcome (ℕ × Table × Space)
sys_sbrk me n t s =
    growproc me n t s >>= λ r. ok ((if r.0 then (t.proc me).sz else 2 ^ 64 - 1), r.1, r.2)

-- The process whose id is `pid`, or the one that calls where `pid` is 0; then the page of `va`
unfoldable pub sys_va2pa : (me pid va : ℕ) → Table → Space → Outcome ℕ
sys_va2pa me pid va t s =
    if not (pid == 0)
    then elim (scan (λ i. (t.proc i).pid == pid) nproc 0) [
      | none ↦ ok 0
      | some i ↦ walkaddr (t.proc i).pagetable va s
    ]
    else walkaddr (t.proc me).pagetable va s

-- What `sys_sleep` does next, with the ticks now and at its start: goes on to sleep, or returns. The
-- comparison of a `uint` and an `int` is one of `uint`s.
pub data Sleeping : Type 0 where
  sleeps : Sleeping
  returns : ℕ → Sleeping

unfoldable pub sys_sleep : (ticks ticks0 n : ℕ) → (is_killed : Bool) → Sleeping
sys_sleep ticks ticks0 n is_killed =
    if ltb ((ticks + 2 ^ 32 - ticks0) % 2 ^ 32) n
    then (if is_killed then returns (2 ^ 64 - 1) else sleeps)
    else returns 0
