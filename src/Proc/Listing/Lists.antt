-- ===== src/Proc/Listing/Lists.antt =====
-- What `ps` of kernel/proc.c lists.
use os_lab.Base.{
  ℕ, zero, suc, ◌+◌, ◌-◌, ◌*◌, ◌%◌, ◌<◌, ◌≤◌, ◌≡◌, ◌≢◌, refl, sym, subst, Bool, true, false, arith,
  ltb, leb, ◌==◌, if◌then◌else◌, update, inl, inr, ap, ◌∙◌, List, [], ◌∷◌, length, Bool-cases,
  update_self, ==-ne, ==-self, lt→ltb, min,
}
use os_lab.Proc.{unused, is_unused, Proc, nproc, Table}
use os_lab.Proc.Listing.{UserProc, copy_array, entry, ps_loop, ps}

-- The number of slots from `i` on before the first unused one, of `n` at most.
unfoldable pub used_run : ℕ → ℕ → Table → ℕ
used_run zero i t = 0
used_run (suc n) i t = if is_unused (t.proc i).state then 0 else suc (used_run n (i + 1) t)

-- `sizeof(struct user_proc)`
abbrev pub user_proc_size : ℕ
user_proc_size = 36

-- An entry that shows a process.
pub record Shows (t : Table) (p : Proc) (u : UserProc) : Type 0 where
  pub state : u.state ≡ p.state
  pub killed : u.killed ≡ p.killed
  pub xstate : u.xstate ≡ p.xstate
  pub pid : u.pid ≡ p.pid
  pub parent : p.parent ≢ 0 → u.parent_id ≡ (t.proc (p.parent - 1)).pid
  pub name : u.name ≡ p.name

-- A copy of a whole array over one of the same length
copy_array-all :
    (n : ℕ) (src dst : List ℕ) → length src ≡ n → length dst ≡ n → copy_array src dst n ≡ src
unfolding copy_array
copy_array-all zero [] [] hs hd = refl
copy_array-all zero [] (d ∷ dst) hs hd = absurd (omega arith)
copy_array-all zero (c ∷ src) dst hs hd = absurd (omega arith)
copy_array-all (suc n) [] dst hs hd = absurd (omega arith)
copy_array-all (suc n) (c ∷ src) [] hs hd = absurd (omega arith)
copy_array-all (suc n) (c ∷ src) (d ∷ dst) hs hd =
    ap (λ l. c ∷ l) (copy_array-all n src dst (omega arith) (omega arith))

-- `char name[16]`
abbrev pub IsName : List ℕ → Type 0
IsName name = length name ≡ 16

entry-Shows :
    (t : Table) (p : Proc) (u : UserProc) → IsName p.name → IsName u.name → Shows t p (entry t p u)
unfolding entry
entry-Shows t p u hp hu = record {
  state = refl;
  killed = refl;
  xstate = refl;
  pid = refl;
  parent = λ ne. ground arith;
  name = copy_array-all 16 p.name u.name hp hu;
}

-- A round that lists a process.
abbrev listed : ℕ → ℕ → (ℕ → UserProc) → Table → ℕ → UserProc
listed i c loc t = update loc c (entry t (t.proc i) (loc c))

ps_loop-next :
    (n i count c : ℕ) (loc : ℕ → UserProc) (t : Table)
    → count < 256
    → c < count
    → is_unused (t.proc i).state ≡ false
    → ps_loop (suc n) i count c loc t ≡ ps_loop n (i + 1) count (c + 1) (listed i c loc t) t
unfolding ps_loop
ps_loop-next n i count c loc t small lt busy =
    let e : (c + 1) % 256 ≡ c + 1 = omega arith in rw (==-ne c count (omega arith), busy, e)

-- The loop leaves the entries before `localCount`, and its count.
ps_loop-before :
    (n i count c : ℕ) (loc : ℕ → UserProc) (t : Table) (k : ℕ)
    → count < 256
    → c ≤ count
    → k < c
    → (ps_loop n i count c loc t).1 k ≡ loc k
unfolding ps_loop
ps_loop-before zero i count c loc t k small le lt = refl
ps_loop-before (suc n) i count c loc t k small le lt =
    ground
      (arith, ps_loop-before n (i + 1) count (c + 1) (listed i c loc t) t k small, wrap c count)
  where
    wrap : (c count : ℕ) → c ≤ count → count < 256 → c ≢ count → (c + 1) % 256 ≡ c + 1
    wrap c count le small ne = omega arith

ps_loop-count :
    (n i count c : ℕ) (loc : ℕ → UserProc) (t : Table)
    → count < 256
    → c ≤ count
    → (ps_loop n i count c loc t).0 ≡ c + min (used_run n i t) (count - c)
unfolding ps_loop used_run
ps_loop-count zero i count c loc t small le = omega arith
ps_loop-count (suc n) i count c loc t small le =
    ground (arith, ps_loop-count n (i + 1) count (c + 1) (listed i c loc t) t small)

used_run-suc :
    (n i : ℕ) (t : Table) (k : ℕ)
    → k < used_run (suc n) i t
    → (is_unused (t.proc i).state ≡ false) × (used_run (suc n) i t ≡ suc (used_run n (i + 1) t))
unfolding used_run
used_run-suc n i t k h = ground arith

listed-IsName :
    (i c : ℕ) (loc : ℕ → UserProc) (t : Table)
    → IsName (t.proc i).name
    → ((j : ℕ) → IsName (loc j).name)
    → (j : ℕ) → IsName (listed i c loc t j).name
listed-IsName i c loc t named slots j = elim (Bool-cases (j == c)) [
  | inl here ↦ rw here (ap length (entry-Shows t (t.proc i) (loc c) named (slots c)).name ∙ named)
  | inr ne ↦ rw ne (slots j)
]

ps_loop-Shows :
    (n i count c : ℕ) (loc : ℕ → UserProc) (t : Table) (k : ℕ)
    → count < 256
    → c ≤ count
    → k < min (used_run n i t) (count - c)
    → ((j : ℕ) → IsName (t.proc j).name)
    → ((j : ℕ) → IsName (loc j).name)
    → Shows t (t.proc (i + k)) ((ps_loop n i count c loc t).1 (c + k))
ps_loop-Shows zero i count c loc t k small le lt names slots =
    unfold used_run in absurd (omega arith)
ps_loop-Shows (suc n) i count c loc t zero small le lt names slots =
    let (busy, _) = used_run-suc n i t 0 (omega arith) in
    let e1 : i + 0 ≡ i = omega arith in
    let e2 : c + 0 ≡ c = omega arith in
    rw
      (
        e1,
        e2,
        ps_loop-next n i count c loc t small (omega arith) busy,
        ps_loop-before n (i + 1) count (c + 1) (listed i c loc t) t c small (omega arith)
            (omega arith),
        update_self,
      )
      (entry-Shows t (t.proc i) (loc c) (names i) (slots c))
ps_loop-Shows (suc n) i count c loc t (suc k) small le lt names slots =
    let (busy, run) = used_run-suc n i t (suc k) (omega arith) in
    let e1 : i + suc k ≡ i + 1 + k = omega arith in
    let e2 : c + suc k ≡ c + 1 + k = omega arith in
    rw (e1, e2, ps_loop-next n i count c loc t small (omega arith) busy)
      (ps_loop-Shows n (i + 1) count (c + 1) (listed i c loc t) t k small (omega arith)
        (omega (arith, run)) names (listed-IsName i c loc t (names i) slots))

-- Whatever slot but the first the caller asks to start from, `ps` answers 0.
pub ps-start :
    (proc_size sz : ℕ) (grown : Bool) (stack : ℕ → UserProc) (start count : ℕ) (t : Table)
    → 0 < proc_size
    → 0 < start
    → ps proc_size sz grown stack start count t ≡ (0, stack)
unfolding ps
ps-start proc_size sz grown stack start count t pos later =
    ground (arith, past start proc_size later pos)
  where
    past : (a b : ℕ) → 0 < a → 0 < b → leb nproc (a * (nproc * b)) ≡ true
    past a b ha hb = grind arith

ps_loop-all :
    (proc_size sz : ℕ) (stack : ℕ → UserProc) (count : ℕ) (t : Table)
    → 0 < count
    → let (localCount, loc) = ps_loop nproc 0 count 0 stack t in
      ps proc_size sz true stack 0 count t ≡ (
        sz,
        if ltb localCount count
            then update loc localCount (record (loc localCount) { state = unused })
            else loc,
      )
unfolding ps
ps_loop-all proc_size sz stack count t h =
    let e : 0 * (nproc * proc_size) ≡ 0 = omega arith in rw (==-ne count 0 (omega arith), e)

-- The entry behind the last one, if it was asked for.
abbrev ended : ℕ → ℕ → (ℕ → UserProc) → ℕ → UserProc
ended m count loc = if ltb m count then update loc m (record (loc m) { state = unused }) else loc

ended-before : (m count : ℕ) (loc : ℕ → UserProc) (k : ℕ) → k < m → ended m count loc k ≡ loc k
ended-before m count loc k h = ground arith

ended-at : (m count : ℕ) (loc : ℕ → UserProc) → m < count → (ended m count loc m).state ≡ unused
ended-at m count loc h = rw (lt→ltb m count h, ==-self m)

-- A listing from the start shows, in order, the processes before the first unused slot, as many
-- as were asked for, with their names, and marks the entry behind them as unused if there is room for it.
-- The entries asked for fit into the page of the kernel stack, and names are arrays of 16 bytes.
pub ps_lem :
    (proc_size sz : ℕ) (stack : ℕ → UserProc) (count : ℕ) (t : Table)
    → 0 < count
    → count * user_proc_size < 4096
    → ((j : ℕ) → IsName (t.proc j).name)
    → ((j : ℕ) → IsName (stack j).name)
    → let (result, loc) = ps proc_size sz true stack 0 count t in
      let m = min (used_run nproc 0 t) count in
      (result ≡ sz)
      × ((k : ℕ) → k < m → Shows t (t.proc k) (loc k))
      × (m < count → (loc m).state ≡ unused)
ps_lem proc_size sz stack count t pos fits names slots =
    let small : count < 256 = omega arith in
    let all = ps_loop-all proc_size sz stack count t pos in
    let n : (ps_loop nproc 0 count 0 stack t).0 ≡ min (used_run nproc 0 t) count =
      omega (arith, ps_loop-count nproc 0 count 0 stack t small) in
    rw (all, n)
      (
        refl,
        λ k lt.
            let e : 0 + k ≡ k = omega arith in
            subst (Shows t (t.proc k))
              (sym (
                ended-before (min (used_run nproc 0 t) count) count
                  (ps_loop nproc 0 count 0 stack t).1 k lt))
              (rw e at (
                ps_loop-Shows nproc 0 count 0 stack t k small (omega arith) (omega arith) names
                  slots)),
        ended-at (min (used_run nproc 0 t) count) count (ps_loop nproc 0 count 0 stack t).1,
      )
