-- ===== src/Log/Space.antt =====
-- The space that `begin_op` of kernel/log.c reserves: file system calls that keep to MAXOPBLOCKS
-- blocks each never overrun the log.
use os_lab.Base.{
  ℕ, zero, suc, ◌+◌, ◌-◌, ◌*◌, ◌%◌, ◌^◌, ◌<◌, ◌≤◌, ◌≡◌, inl, inr, refl, sym, ap, subst, ◌∙◌, arith,
  true, false, int_lt, ◌==◌, Bool-cases, none, some, List, [], ◌∷◌, length, All, set, get_elem?,
  length-set, ok,
}
use os_lab.Log.{
  Store, Log, logsize, maxopblocks, begin_op, end_op, log_write, bpin, commit, emptied,
}
use os_lab.Log.Writes.{HasRoom, placed, log_write-cases}

abbrev pub total : List ℕ → ℕ
total [] = 0
total (q ∷ qs) = q + total qs

-- A list without its `i`th element.
abbrev pub removed : List ℕ → ℕ → List ℕ
removed [] i = []
removed (q ∷ qs) zero = qs
removed (q ∷ qs) (suc i) = q ∷ removed qs i

-- The log while operations run of which each may write as many blocks more as `quotas` says.
pub record Reserved (quotas : List ℕ) (log : Log) : Type 0 where
  pub running : log.outstanding ≡ length quotas
  pub reserved : log.lh.n + total quotas ≤ logsize
  pub few : length quotas ≤ 3
  pub bounded : All (λ q. q ≤ maxopblocks) quotas
  pub quiet : log.committing ≡ false
  pub region : logsize < log.size
  pub region_int : log.size < 2 ^ 31

total-bounded : (qs : List ℕ) → All (λ q. q ≤ maxopblocks) qs → total qs ≤ length qs * maxopblocks
total-bounded [] h = omega arith
total-bounded (q ∷ qs) (le, h) = omega (arith, le, total-bounded qs h)

total-set :
    (qs : List ℕ) (i q : ℕ) → get_elem? qs i ≡ some (suc q) → total qs ≡ suc (total (set qs i q))
total-set [] i q e = cc
total-set (x ∷ qs) zero q e = ground arith
total-set (x ∷ qs) (suc i) q e = omega (arith, total-set qs i q e)

bounded-set :
    (qs : List ℕ) (i q : ℕ)
    → get_elem? qs i ≡ some (suc q)
    → All (λ q. q ≤ maxopblocks) qs
    → All (λ q. q ≤ maxopblocks) (set qs i q)
bounded-set [] i q e h = tt
bounded-set (x ∷ qs) zero q e (le, h) = (ground arith, h)
bounded-set (x ∷ qs) (suc i) q e (le, h) = (le, bounded-set qs i q e h)

removed_lem :
    (qs : List ℕ) (i : ℕ)
    → i < length qs
    → All (λ q. q ≤ maxopblocks) qs
    → (length qs ≡ suc (length (removed qs i)))
      × (total (removed qs i) ≤ total qs)
      × All (λ q. q ≤ maxopblocks) (removed qs i)
removed_lem [] i lt h = absurd (omega arith)
removed_lem (x ∷ qs) zero lt (le, h) = (refl, omega arith, h)
removed_lem (x ∷ qs) (suc i) lt (le, h) =
    let (l, t, h') = removed_lem qs i (omega arith) h in (ap suc l, omega (arith, t), (le, h'))

length-some : (qs : List ℕ) (i q : ℕ) → get_elem? qs i ≡ some q → i < length qs
length-some [] i q e = cc
length-some (x ∷ qs) zero q e = omega arith
length-some (x ∷ qs) (suc i) q e = omega (arith, length-some qs i q e)

-- In a log in which the running operations have their blocks reserved, an operation that
-- `begin_op` admits has all of its blocks reserved as well.
pub begin_op-Reserved :
    (quotas : List ℕ) (log log' : Log)
    → Reserved quotas log
    → begin_op log ≡ some log'
    → Reserved (maxopblocks ∷ quotas) log'
unfolding begin_op
begin_op-Reserved quotas log log' r e =
    let over = int_lt logsize ((log.lh.n + (log.outstanding + 1) * maxopblocks) % 2 ^ 32) in
    elim (Bool-cases over) [
      | inl full ↦ let refused : none ≡ some log' = rw (r.quiet, full) at e in cc
      | inr fits ↦
          let admitted : some
                (record log { outstanding = (log.outstanding + 1) % 2 ^ 32; committing = false })
              ≡ some log' =
            rw (r.quiet, fits) at e in
          let log'-eq : record log {
            outstanding = (log.outstanding + 1) % 2 ^ 32;
            committing = false;
          }
              ≡ log' =
            cc in
          let fits' : log.lh.n + (log.outstanding + 1) * maxopblocks ≤ logsize =
            ground (arith, r.running, r.few, r.reserved) in
          subst (Reserved (maxopblocks ∷ quotas)) log'-eq (record {
            running = omega (arith, r.running, r.few);
            reserved = omega (arith, r.running, fits', total-bounded quotas r.bounded);
            few = omega (arith, r.running, fits');
            bounded = (omega arith, r.bounded);
            quiet = refl;
            region = r.region;
            region_int = r.region_int;
          })
    ]

-- In a log in which the running operations have their blocks reserved, one with a block of its
-- quota left writes it: `log_write` does not panic, and the rest stays reserved.
pub log_write-Reserved :
    (quotas : List ℕ) (i q b : ℕ) (log : Log) (s : Store)
    → Reserved quotas log
    → get_elem? quotas i ≡ some (suc q)
    → (log' : Log) × (s' : Store) × (log_write b log s ≡ ok (log', s'))
      × Reserved (set quotas i q) log'
log_write-Reserved quotas i q b log s r e =
    let spent = total-set quotas i q e in
    let same_length = length-set quotas i q in
    let after : (k n : ℕ) → n ≤ log.lh.n + 1 → Reserved (set quotas i q) (placed k n b log) =
      λ k n le. record {
        running = r.running ∙ sym same_length;
        reserved = omega (arith, spent, r.reserved);
        few = omega (arith, same_length, r.few);
        bounded = bounded-set quotas i q e r.bounded;
        quiet = r.quiet;
        region = r.region;
        region_int = r.region_int;
      } in
    let room : HasRoom log = record {
      room = omega (arith, spent, r.reserved);
      region = omega (arith, spent, r.reserved, r.region);
      region_int = r.region_int;
      outstanding = omega (arith, r.running, length-some quotas i (suc q) e);
      outstanding_int = omega (arith, r.running, r.few);
    } in
    elim (log_write-cases b log s room) [
      | inl (k, lt, _, e') ↦ (placed k log.lh.n b log, s, e', after k log.lh.n (omega arith))
      | inr (_, e') ↦ (
        placed log.lh.n (log.lh.n + 1) b log,
        bpin b s,
        e',
        after log.lh.n (log.lh.n + 1) (omega arith),
      )
    ]

commit-emptied : (log : Log) (s : Store) → log.lh.n ≤ logsize → (commit log s).0 ≡ emptied log
unfolding commit
commit-emptied log s fits = elim (Bool-cases (int_lt 0 log.lh.n)) [
  | inl e ↦ rw e refl
  | inr e ↦
      let nothing_logged : log.lh.n ≡ 0 = ground arith in
      rw e (ap (λ n. record log { lh = record log.lh { n = n } }) nothing_logged)
]

-- In a log in which the running operations have their blocks reserved, the end of one does not
-- panic and gives back what it did not use; the last one leaves an empty log.
pub end_op-Reserved :
    (quotas : List ℕ) (i : ℕ) (log : Log) (s : Store)
    → Reserved quotas log
    → i < length quotas
    → (log' : Log) × (s' : Store) × (end_op log s ≡ ok (log', s'))
      × Reserved (removed quotas i) log'
      × ((length quotas ≡ 1) → log'.lh.n ≡ 0)
unfolding end_op
end_op-Reserved quotas i log s r lt =
    let (shorter, less, bounded) = removed_lem quotas i lt r.bounded in
    let left = (log.outstanding + 2 ^ 32 - 1) % 2 ^ 32 in
    let left-eq : left ≡ length (removed quotas i) = omega (arith, r.running, r.few, shorter) in
    let log0 : Log = record log { outstanding = left; committing = true } in
    let after : (n : ℕ)
        → n ≤ log.lh.n
        → Reserved (removed quotas i)
            (record log0 { committing = false; lh = record log.lh { n = n } }) =
      λ n le. record {
        running = left-eq;
        reserved = omega (arith, less, r.reserved);
        few = omega (arith, shorter, r.few);
        bounded = bounded;
        quiet = refl;
        region = r.region;
        region_int = r.region_int;
      } in
    elim (Bool-cases (left == 0)) [
      | inl last ↦
          let emptied-eq = commit-emptied log0 s (omega (arith, r.reserved)) in
          (
            record (emptied log0) { committing = false },
            (commit log0 s).1,
            rw (r.quiet, last)
                (ap (λ log1. ok (record log1 { committing = false }, (commit log0 s).1))
                  emptied-eq),
            after 0 (omega arith),
            λ _. refl,
          )
      | inr more ↦ (
        record log0 { committing = false },
        s,
        rw (r.quiet, more) refl,
        after log.lh.n (omega arith),
        λ one. ground (arith, left-eq, shorter),
      )
    ]
