-- ===== src/Syscall/Tests.antt =====
-- kernel/syscall.c for a process of 4100 bytes, and kernel/sysproc.c for one of 100 with an empty page
-- table.
use os_lab.Base.{
  ℕ, ◌+◌, ◌%◌, ◌-◌, ◌^◌, ◌<◌, ◌≤◌, ◌≡◌, ◌⊎◌, refl, arith, true, false, ◌==◌, if◌then◌else◌, [], ◌∷◌,
  none, pos, Outcome, ok, panic, length, ◌*◌,
}
use os_lab.Strings.{Mem}
use os_lab.Vm.{physical}
use os_lab.Proc.{Proc, Table, Trapframe, unused}
use os_lab.Vm.Walk.{Space, maxva, walk_loop, walk, mappages_loop, mappages}
use os_lab.Vm.Tree.{IsTree}
use os_lab.Vm.Lookup.{leaf}
use os_lab.Vm.Sizes.{uvmcreate, uvmalloc_loop, uvmalloc}
use os_lab.Vm.Alloc.{with_page, Grew, page_end}
use os_lab.Vm.Create.{only_root, uvmcreate-IsTree}
use os_lab.Syscall.Memory.{set_sz, growproc, sys_sbrk, sys_sleep, sleeps}
use os_lab.Syscall.Break.{sys_sbrk-Sbrk, sys_sbrk-back}
use os_lab.Syscall.{argraw, fetchaddr, syscall}
use os_lab.Syscall.Arguments.{fetchaddr_lem}

abbrev pages : ℕ → ℕ
pages va = if va == 0 then 40960 else (if va == 4096 then 8192 else 0)

abbrev memory : Mem
memory = λ a. a % 251

fetchaddr_lem_example :
    ((m' : Mem) × (fetchaddr pages 4100 4090 64 memory ≡ ok (true, m'))
      × (4090 + 8 ≤ 4100)
      × ((i : ℕ) → i < 8 → m' (64 + i) ≡ memory (physical pages (4090 + i))))
    ⊎ ((fetchaddr pages 4100 4090 64 memory ≡ ok (false, memory)) × (4100 < 4090 + 8))
fetchaddr_lem_example =
    fetchaddr_lem pages 4100 4090 64 memory (omega arith) (omega arith) (λ va lt e. ground arith)
      λ va j lt ltj e. ground arith

-- The registers of call 11, of which the first argument is 7.
abbrev frame : Trapframe
frame = record { epc = 0; sp = 0; a0 = 7; others = λ r. if r == 168 then 11 else r }

abbrev set_a0 : ℕ → Trapframe → Trapframe
set_a0 v tf = record tf { a0 = v }

dispatches : syscall (λ tf. tf) set_a0 (λ num tf. ok (num + tf.a0, tf)) frame ≡ ok (set_a0 18 frame)
unfolding syscall
dispatches = refl

unknown_call :
    syscall (λ tf. tf) set_a0 (λ num tf. panic) (record frame { others = λ r. 28 })
    ≡ ok (record { epc = 0; sp = 0; a0 = 2 ^ 64 - 1; others = λ r. 28 })
unfolding syscall
unknown_call = refl

second_argument : argraw 1 frame ≡ ok 120
unfolding argraw
second_argument = refl

abbrev pool : Space
pool = record { word = λ a. 0; free = 4096 ∷ 8192 ∷ 12288 ∷ 16384 ∷ 20480 ∷ []; freed = [] }

abbrev space : Space
space = with_page 4096 (8192 ∷ 12288 ∷ 16384 ∷ 20480 ∷ []) pool

created :
    (uvmcreate pool ≡ ok (4096, space))
    × IsTree 4096 (only_root 4096) space
    × ((vb : ℕ) → leaf 4096 vb space ≡ 0)
created =
    uvmcreate-IsTree 4096 (8192 ∷ 12288 ∷ 16384 ∷ 20480 ∷ []) pool refl
      (
        (refl, omega arith, omega arith),
        (
          (refl, omega arith, omega arith),
          (
            (refl, omega arith, omega arith),
            ((refl, omega arith, omega arith), ((refl, omega arith, omega arith), tt)),
          ),
        ),
      )
      (
        (omega arith, (omega arith, (omega arith, (omega arith, tt)))),
        (
          (omega arith, (omega arith, (omega arith, tt))),
          ((omega arith, (omega arith, tt)), ((omega arith, tt), (tt, tt))),
        ),
      )

abbrev small : Proc
small = record {
  state = unused;
  chan = 0;
  killed = 0;
  xstate = pos 0;
  pid = 7;
  parent = 0;
  kstack = 0;
  sz = 100;
  pagetable = 4096;
  trapframe = none;
  context = record { ra = 0; sp = 0; saved = λ r. 0 };
  ofile = λ fd. 0;
  cwd = 0;
  name = [];
}

abbrev table : Table
table = record { proc = λ i. small; nextpid = 8; initproc = 1 }

sys_sbrk-Sbrk_example :
    ((s' : Space) × (place' : ℕ → ℕ) × (sys_sbrk 0 5000 table space
        ≡ ok (100, set_sz 0 5100 table, s'))
      × IsTree 4096 place' s'
      × Grew 4096 (page_end 100) (page_end 5100 - page_end 100) space s')
    ⊎ ((sys_sbrk 0 5000 table space ≡ panic)
        × (length space.free < 3 * (page_end 5100 - page_end 100)))
sys_sbrk-Sbrk_example =
    sys_sbrk-Sbrk 0 5000 (only_root 4096) table space created.1 (omega arith) (omega arith)
      (omega arith) λ vb hb lo hi. created.2 vb

abbrev result_of : Outcome (ℕ × Table × Space) → Table × Space
result_of (ok r) = (r.1, r.2)
result_of _ = (table, space)

abbrev grown : Table × Space
grown = result_of (sys_sbrk 0 5000 table space)

grown-eq : sys_sbrk 0 5000 table space ≡ ok (100, grown.0, grown.1)
unfolding sys_sbrk growproc uvmalloc uvmalloc_loop mappages mappages_loop walk walk_loop
grown-eq = refl

sys_sbrk-back_example :
    (t'' : Table) × (s'' : Space) × (sys_sbrk 0 (2 ^ 32 - 5000) grown.0 grown.1
      ≡ ok (100 + 5000, t'', s''))
    × ((t''.proc 0).sz ≡ 100)
    × ((vb : ℕ) → vb < maxva → leaf 4096 vb s'' ≡ leaf 4096 vb space)
sys_sbrk-back_example =
    sys_sbrk-back 0 5000 (only_root 4096) table grown.0 space grown.1 created.1 (omega arith)
      (omega arith) (omega arith) (λ vb hb lo hi. created.2 vb) grown-eq

-- `sleep(-1)`, a tick after its start
sleep_negative : sys_sleep 11 10 (2 ^ 32 - 1) false ≡ sleeps
unfolding sys_sleep
sleep_negative = refl
