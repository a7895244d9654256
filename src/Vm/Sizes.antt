-- ===== src/Vm/Sizes.antt =====
-- kernel/vm.c: user memory that grows, shrinks, is copied for `fork` and is freed. A page's contents
-- are its words.
use os_lab.Base.{
  ℕ, zero, suc, ◌+◌, ◌-◌, ◌*◌, ◌/◌, ◌%◌, ◌^◌, Bool, true, false, not, ◌&&◌, ltb, leb, ◌==◌,
  if◌then◌else◌, none, some, Outcome, ok, panic, ◌>>=◌,
}
use os_lab.Vm.{pgsize, pgrounddown}
use os_lab.Vm.Walk.{
  Space, pte_v, pte_u, pte_rwx, pte2pa, pte_flags, entry, write, clear_page, kalloc, kfree, walk,
  mappages, uvmunmap,
}

abbrev pub pgroundup : ℕ → ℕ
pgroundup sz = pgrounddown ((sz + (pgsize - 1)) % 2 ^ 64)

-- An `int` by its 32 bits, as a `uint64`
abbrev pub sign_extend : ℕ → ℕ
sign_extend n = if ltb n (2 ^ 31) then n else n + (2 ^ 64 - 2 ^ 32)

-- `PTE_R | PTE_U | xperm`
abbrev pub user_perm : (xperm : ℕ) → ℕ
user_perm xperm =
    let readable = xperm + 2 * (1 - xperm / 2 % 2) in readable + 16 * (1 - readable / 16 % 2)

-- `memmove(dst, src, PGSIZE)` for two pages
abbrev pub copy_page : (dst src : ℕ) → Space → Space
copy_page dst src s = record s {
  word = λ a. if leb dst a && ltb a (dst + pgsize) then s.word (src + (a - dst)) else s.word a;
}

unfoldable pub uvmcreate : Space → Outcome (ℕ × Space)
uvmcreate s = kalloc s >>= λ k. if k.0 == 0 then ok (0, k.1) else ok (k.0, clear_page k.0 k.1)

unfoldable pub uvmdealloc : (pagetable oldsz newsz : ℕ) → Space → Outcome (ℕ × Space)
uvmdealloc pagetable oldsz newsz s =
    let npages = (pgroundup oldsz - pgroundup newsz) / pgsize % 2 ^ 32 in
    if leb oldsz newsz
    then ok (oldsz, s)
    else if ltb (pgroundup newsz) (pgroundup oldsz)
    then (uvmunmap pagetable (pgroundup newsz) (sign_extend npages) true s >>= λ s1. ok (newsz, s1))
    else ok (newsz, s)

-- The loop of `uvmalloc` with `n` pages left: `oldsz` is rounded up.
unfoldable pub uvmalloc_loop : (n pagetable a oldsz newsz xperm : ℕ) → Space → Outcome (ℕ × Space)
uvmalloc_loop zero pagetable a oldsz newsz xperm s = ok (newsz, s)
uvmalloc_loop (suc n) pagetable a oldsz newsz xperm s = kalloc s >>= λ k.
    if k.0 == 0
    then (uvmdealloc pagetable a oldsz k.1 >>= λ r. ok (0, r.1))
    else (mappages pagetable a pgsize k.0 (user_perm xperm) (clear_page k.0 k.1) >>= λ r.
        let rest = uvmalloc_loop n pagetable (a + pgsize) oldsz newsz xperm r.1 in
        if r.0 then rest else (uvmdealloc pagetable a oldsz (kfree k.0 r.1) >>= λ r. ok (0, r.1)))

-- How often `for (a = from; a < to; a += PGSIZE)` goes round
abbrev pub page_rounds : (from to : ℕ) → ℕ
page_rounds from to = (to - from + (pgsize - 1)) / pgsize

unfoldable pub uvmalloc : (pagetable oldsz newsz xperm : ℕ) → Space → Outcome (ℕ × Space)
uvmalloc pagetable oldsz newsz xperm s =
    let old = pgroundup oldsz in
    if ltb newsz oldsz
    then ok (oldsz, s)
    else uvmalloc_loop (page_rounds old newsz) pagetable old old newsz xperm s

-- The loop of `freewalk` with `n` entries left, over a table with `level` levels below
unfoldable pub freewalk_loop : (level n i pagetable : ℕ) → Space → Outcome Space
freewalk_loop level zero i pagetable s = ok s
freewalk_loop zero (suc n) i pagetable s =
    let pte = s.word (entry pagetable i) in
    let rest = freewalk_loop zero n (i + 1) pagetable s in
    if pte_v pte && not (pte_rwx pte)
    then Outcome.out_of_fuel
    else if pte_v pte
    then panic
    else rest
freewalk_loop (suc level) (suc n) i pagetable s =
    let pte = s.word (entry pagetable i) in
    let below = freewalk_loop level 512 0 (pte2pa pte) s >>= λ s1.
    freewalk_loop (suc level) n (i + 1) pagetable
      (write (entry pagetable i) 0 (kfree (pte2pa pte) s1)) in
    let rest = freewalk_loop (suc level) n (i + 1) pagetable s in
    if pte_v pte && not (pte_rwx pte) then below else if pte_v pte then panic else rest

unfoldable pub freewalk : (level pagetable : ℕ) → Space → Outcome Space
freewalk level pagetable s = freewalk_loop level 512 0 pagetable s >>= λ s1. ok (kfree pagetable s1)

-- The hardware walks three levels of tables.
unfoldable pub uvmfree : (pagetable sz : ℕ) → Space → Outcome Space
uvmfree pagetable sz s =
    if ltb 0 sz
    then (uvmunmap pagetable 0 (pgroundup sz / pgsize) true s >>= λ s1. freewalk 2 pagetable s1)
    else freewalk 2 pagetable s

-- The loop of `uvmcopy` with `n` pages left: true for 0, false for -1
unfoldable pub uvmcopy_loop : (n old new i : ℕ) → Space → Outcome (Bool × Space)
uvmcopy_loop zero old new i s = ok (true, s)
uvmcopy_loop (suc n) old new i s = walk old i false s >>= λ r. elim r.0 [
  | none ↦ panic
  | some pte ↦
      let w = r.1.word pte in
      let err : Space → Outcome (Bool × Space) =
        λ s2. uvmunmap new 0 (i / pgsize) true s2 >>= λ s3. ok (false, s3) in
      if not (pte_v w)
      then panic
      else kalloc r.1 >>= λ k.
          if k.0 == 0
          then err k.1
          else (mappages new i pgsize k.0 (pte_flags w) (copy_page k.0 (pte2pa w) k.1) >>= λ m.
              let rest = uvmcopy_loop n old new (i + pgsize) m.1 in
              if m.0 then rest else err (kfree k.0 m.1))
]

unfoldable pub uvmcopy : (old new sz : ℕ) → Space → Outcome (Bool × Space)
uvmcopy old new sz s = uvmcopy_loop (page_rounds 0 sz) old new 0 s

unfoldable pub uvmclear : (pagetable va : ℕ) → Space → Outcome Space
uvmclear pagetable va s = walk pagetable va false s >>= λ r. elim r.0 [
  | none ↦ panic
  | some pte ↦ ok (write pte (r.1.word pte - (if pte_u (r.1.word pte) then 16 else 0)) r.1)
]
