-- ===== src/Log/Atomic.antt =====
-- `commit` of kernel/log.c and crashes: all of a transaction reaches the disk, or none of it.
use os_lab.Base.{
  ℕ, ◌+◌, ◌<◌, ◌≤◌, ◌≡◌, ◌≢◌, ◌⊎◌, inl, inr, sym, ap, subst, ◌∙◌, arith, false, int_lt, int_count,
  ◌==◌, Bool-cases, ==_iff, List, [], ◌∷◌,
}
use os_lab.Log.{
  Block, Store, Log, install_trans, write_log, write_head, commit, initlog, restart, emptied,
}
use os_lab.Log.Loops.{IsHome, write_log_loop-Logged}
use os_lab.Log.Recovery.{
  Heads, Names, IsFit, Committed, write_head-Heads, install-Committed, install-dark,
  initlog-Committed,
}

-- A log that is ready for its commit: the header on the disk is clear, and the blocks that the log
-- does not name are on the disk as the cache has them.
pub record IsReady (log : Log) (s : Store) : Type 0 where
  pub fit : IsFit log
  pub clear : s.disk log.start 0 ≡ 0
  pub clean : (b : ℕ) → IsHome log b → Names log b ⊎ (s.disk b ≡ s.view b)

-- A disk with a clear header says what it holds.
cleared :
    (log : Log) (want : ℕ → Block) (s : Store)
    → s.disk log.start 0 ≡ 0
    → ((b : ℕ) → IsHome log b → s.disk b ≡ want b)
    → Committed (emptied log) want s
cleared log want s clear same = record {
  heads = record { count = clear; blocks = λ j lt. absurd (omega arith) };
  holds = λ j lt. absurd (omega arith);
  rest = λ b hb. inr (same b hb);
}

-- After the log's blocks and its header have been written.
commit-logged :
    (log : Log) (s : Store)
    → IsReady log s
    → let s2 = write_head log (write_log log s) in
      let s' = write_head (emptied log) (install_trans false log s2) in
      ((s.power ≤ log.lh.n) × Committed (emptied log) s.disk s')
      ⊎ ((s.power ≤ log.lh.n + log.lh.n + 1) × Committed log s.view s')
      ⊎ Committed (emptied log) s.view s'
unfolding write_log
commit-logged log s r =
    let n = log.lh.n in
    let fits = r.fit.fits in
    let count : int_count n ≡ n = ground (arith, fits) in
    let s1 = write_log log s in
    let w =
      write_log_loop-Logged log (int_count n) 0 s (omega (arith, count, fits))
        λ j lo hi. r.fit.home j (omega (arith, count)) in
    let s2 = write_head log s1 in
    let (p, others, h, written, still) = write_head-Heads log s1 fits in
    let home_kept : (b : ℕ) → IsHome log b → s1.disk b ≡ s.disk b =
      λ b hb. w.disk_out b (omega (arith, count, fits)) in
    elim (Bool-cases (s1.power == 0)) [
      | inl e ↦
          let off : s1.power ≡ 0 = (==_iff s1.power 0).0 e in
          let s' = write_head (emptied log) (install_trans false log s2) in
          let same : (c : ℕ) → s'.disk c ≡ s1.disk c =
            λ c. install-dark false log s2 (omega (arith, off, p)) c ∙ still off c in
          inl (
            omega (arith, off, w.power, count),
            cleared log s.disk s'
                (ap (λ v. v 0) (same log.start ∙ w.disk_out log.start (omega arith)) ∙ r.clear)
                (λ b hb. same b ∙ home_kept b hb),
          )
      | inr e ↦
          let on : 0 < s1.power = ground arith in
          let apart : (j : ℕ) → log.start + j + 1 ≢ log.start = λ j e. omega arith in
          let c : Committed log s.view s2 = record {
            heads = subst (Heads log) (sym (written on)) h;
            holds = λ j lt.
                (others (log.start + j + 1) (apart j)).1
                ∙ w.disk_in on j (omega arith) (omega (arith, count));
            rest = λ b hb. elim (r.clean b hb) [
              | inl named ↦ inl named
              | inr same ↦ inr ((others b (λ e. omega arith)).1 ∙ home_kept b hb ∙ same)
            ];
          } in
          let seen : (j : ℕ) → j < n → s2.view (log.start + j + 1) ≡ s.view (log.lh.block j) =
            λ j lt.
              (others (log.start + j + 1) (apart j)).0
              ∙ w.view_in j (omega arith) (omega (arith, count)) in
          elim (install-Committed false log s.view s2 r.fit c seen) [
            | inl (short, c') ↦ inr (inl (omega (arith, short, p, w.power, count), c'))
            | inr c' ↦ inr (inr c')
          ]
    ]

-- What a commit leaves: the old state, the new one in the log, or the new one in place.
pub commit-Committed :
    (log : Log) (s : Store)
    → IsReady log s
    → let s' = (commit log s).1 in
      ((s.power ≤ log.lh.n) × Committed (emptied log) s.disk s')
      ⊎ ((s.power ≤ log.lh.n + log.lh.n + 1) × Committed log s.view s')
      ⊎ Committed (emptied log) s.view s'
unfolding commit
commit-Committed log s r = elim (Bool-cases (int_lt 0 log.lh.n)) [
  | inl e ↦ rw e (commit-logged log s r)
  | inr e ↦ rw e (
      inr (
        inr (
          cleared log s.view s r.clear λ b hb. elim (r.clean b hb) [
            | inl (j, lt, _) ↦ absurd (ground (arith, r.fit.fits))
            | inr same ↦ same
          ])))
]

-- Restarts one after the other, each with the power for some writes.
abbrev pub restarts : Log → Log → List ℕ → Store → Store
restarts log boot [] s = s
restarts log boot (power ∷ powers) s =
    restarts log boot powers (initlog log.start log.size boot (restart power s)).1

cleared-IsFit : (log : Log) → IsFit (emptied log)
cleared-IsFit log = record { fits = omega arith; home = λ j lt. absurd (omega arith) }

restarts-cleared :
    (log boot : Log) (want : ℕ → Block) (powers : List ℕ) (s : Store)
    → Committed (emptied log) want s
    → Committed (emptied log) want (restarts log boot powers s)
restarts-cleared log boot want [] s c = c
restarts-cleared log boot want (power ∷ powers) s c =
    elim (initlog-Committed (emptied log) boot want power s (cleared-IsFit log) c) [
      | inl (_, c') ↦ restarts-cleared log boot want powers _ c'
      | inr c' ↦ restarts-cleared log boot want powers _ c'
    ]

restarts-Committed :
    (log boot : Log) (want : ℕ → Block) (powers : List ℕ) (s : Store)
    → IsFit log
    → Committed log want s
    → let s' = restarts log boot powers s in Committed log want s' ⊎ Committed (emptied log) want s'
restarts-Committed log boot want [] s fit c = inl c
restarts-Committed log boot want (power ∷ powers) s fit c =
    elim (initlog-Committed log boot want power s fit c) [
      | inl (_, c') ↦ restarts-Committed log boot want powers _ fit c'
      | inr c' ↦ inr (restarts-cleared log boot want powers _ c')
    ]

-- A disk with a clear header has what it says in place.
in_place :
    (log : Log) (want : ℕ → Block) (s : Store)
    → Committed (emptied log) want s
    → (b : ℕ) → IsHome log b
    → s.disk b ≡ want b
in_place log want s c b hb = elim (c.rest b hb) [
  | inl (j, lt, _) ↦ absurd (omega arith)
  | inr same ↦ same
]

recovered :
    (log boot : Log) (want : ℕ → Block) (power : ℕ) (s : Store)
    → IsFit log
    → log.lh.n < power
    → Committed log want s ⊎ Committed (emptied log) want s
    → let s' = (initlog log.start log.size boot (restart power s)).1 in
      (s'.disk log.start 0 ≡ 0) × ((b : ℕ) → IsHome log b → s'.disk b ≡ want b)
recovered log boot want power s fit enough (inl c) =
    elim (initlog-Committed log boot want power s fit c) [
      | inl (short, _) ↦ absurd (omega (arith, short))
      | inr c' ↦ (c'.heads.count, in_place log want _ c')
    ]
recovered log boot want power s fit enough (inr c) =
    elim (initlog-Committed (emptied log) boot want power s (cleared-IsFit log) c) [
      | inl (_, c') ↦ (c'.heads.count, in_place log want _ c')
      | inr c' ↦ (c'.heads.count, in_place log want _ c')
    ]

-- A commit whose power may fail at any of its writes, then restarts whose power may fail at any of
-- theirs, then one whose power lasts: each block outside of the log is as it was on the disk
-- before the commit, or each is as the cache had it, and the log's header is clear. This is for
-- a log that is ready for a commit.
pub commit-atomic :
    (log boot : Log) (s : Store) (powers : List ℕ) (power : ℕ)
    → IsReady log s
    → log.lh.n < power
    → let crashed = restarts log boot powers (commit log s).1 in
      let s' = (initlog log.start log.size boot (restart power crashed)).1 in
      (s'.disk log.start 0 ≡ 0)
      × (((b : ℕ) → IsHome log b → s'.disk b ≡ s.disk b)
          ⊎ ((b : ℕ) → IsHome log b → s'.disk b ≡ s.view b))
commit-atomic log boot s powers power r enough = elim (commit-Committed log s r) [
  | inl (_, old) ↦
      let (clear, same) =
        recovered log boot s.disk power _ r.fit enough
          (inr (restarts-cleared log boot s.disk powers _ old)) in
      (clear, inl same)
  | inr (inl (_, new)) ↦
      let (clear, same) =
        recovered log boot s.view power _ r.fit enough
          (restarts-Committed log boot s.view powers _ r.fit new) in
      (clear, inr same)
  | inr (inr new) ↦
      let (clear, same) =
        recovered log boot s.view power _ r.fit enough
          (inr (restarts-cleared log boot s.view powers _ new)) in
      (clear, inr same)
]

-- A commit of `n` blocks, by a log that is ready for it, whose power lasts for 2 n + 2 writes leaves each block outside of
-- the log on the disk as the cache has it, and a clear header.
pub commit-durable :
    (log : Log) (s : Store)
    → IsReady log s
    → log.lh.n + log.lh.n + 1 < s.power
    → let s' = (commit log s).1 in
      (s'.disk log.start 0 ≡ 0) × ((b : ℕ) → IsHome log b → s'.disk b ≡ s.view b)
commit-durable log s r enough = elim (commit-Committed log s r) [
  | inl (short, _) ↦ absurd (omega (arith, short))
  | inr (inl (short, _)) ↦ absurd (omega (arith, short))
  | inr (inr new) ↦ (new.heads.count, in_place log s.view _ new)
]
