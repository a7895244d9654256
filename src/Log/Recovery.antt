-- ===== src/Log/Recovery.antt =====
-- Crash recovery of kernel/log.c: a commit is all or nothing.
use os_lab.Base.{
  ℕ, ◌+◌, ◌-◌, ◌<◌, ◌≤◌, ◌≡◌, ◌≢◌, ◌⊎◌, inl, inr, refl, sym, ap, subst, ◌∙◌, arith, Bool, true,
  int_count, ◌==◌, update_self, update-ne, Bool-cases, ==_iff,
}
use os_lab.Log.{
  Block, Store, Log, logsize, install_loop, install_trans, write_head, read_head, recover_from_log,
  initlog, restart, emptied,
}
use os_lab.Log.Loops.{
  IsHome, install_loop-Installed, install_loop-dark, write_blocks_at, read_blocks_at,
}

-- What the log's header block says: how many blocks, and which.
pub record Heads (log : Log) (words : Block) : Type 0 where
  pub count : words 0 ≡ log.lh.n
  pub blocks : (j : ℕ) → j < log.lh.n → words (j + 1) ≡ log.lh.block j

-- The loop of `install_trans` takes in the blocks that the log names and keeps the others.
abbrev pub Names : Log → ℕ → Type 0
Names log b = (j : ℕ) × (j < log.lh.n) × (log.lh.block j ≡ b)

pub write_head-Heads :
    (log : Log) (s : Store)
    → log.lh.n ≤ logsize
    → let s' = write_head log s in
      (s'.power ≡ s.power - 1)
      × ((c : ℕ) → c ≢ log.start → (s'.view c ≡ s.view c) × (s'.disk c ≡ s.disk c))
      × Heads log (s'.view log.start)
      × ((0 < s.power) → s'.disk log.start ≡ s'.view log.start)
      × ((s.power ≡ 0) → (c : ℕ) → s'.disk c ≡ s.disk c)
unfolding write_head
write_head-Heads log s fits = (
  refl,
  λ c ne. (update-ne s.view log.start c _ ne, ground arith),
  record {
    count =
        rw (update_self s.view log.start _)
          (write_blocks_at log.lh.block (int_count log.lh.n) 0 _ 0 ∙ ground arith);
    blocks = λ j lt.
        rw (update_self s.view log.start _)
          (write_blocks_at log.lh.block (int_count log.lh.n) 0 _ (j + 1) ∙ ground arith);
  },
  λ on. ground (arith, update_self s.disk log.start _),
  λ dark c. rw dark,
)

-- What a restart reads back.
read_head-Heads :
    (log boot : Log) (s : Store)
    → log.lh.n ≤ logsize
    → Heads log (s.view boot.start)
    → let log1 = read_head boot s in
      (log1.start ≡ boot.start)
      × (log1.lh.n ≡ log.lh.n)
      × ((j : ℕ) → j < log.lh.n → log1.lh.block j ≡ log.lh.block j)
unfolding read_head
read_head-Heads log boot s fits h = (
  refl,
  h.count,
  λ j lt.
      read_blocks_at (s.view boot.start) (int_count (s.view boot.start 0)) 0 boot.lh.block j
      ∙ ground (arith, h.count, h.blocks j),
)

-- What the disk says for good: `want b` of each block `b`, in the log for those that its header
-- names, in place for the others.
pub record Committed (log : Log) (want : ℕ → Block) (s : Store) : Type 0 where
  pub heads : Heads log (s.disk log.start)
  pub holds : (j : ℕ) → j < log.lh.n → s.disk (log.start + j + 1) ≡ want (log.lh.block j)
  pub rest : (b : ℕ) → IsHome log b → Names log b ⊎ (s.disk b ≡ want b)

-- The header of a log with blocks for the file system alone.
pub record IsFit (log : Log) : Type 0 where
  pub fits : log.lh.n ≤ logsize
  pub home : (j : ℕ) → j < log.lh.n → IsHome log (log.lh.block j)

-- An installation and the clearing of the header keep what the disk says, whenever the power
-- fails, and bring it into place if it lasts.
pub install-Committed :
    (recovering : Bool) (log : Log) (want : ℕ → Block) (s : Store)
    → IsFit log
    → Committed log want s
    → ((j : ℕ) → j < log.lh.n → s.view (log.start + j + 1) ≡ want (log.lh.block j))
    → let s' = write_head (emptied log) (install_trans recovering log s) in
      ((s.power ≤ log.lh.n) × Committed log want s') ⊎ Committed (emptied log) want s'
unfolding install_trans
install-Committed recovering log want s fit c holds =
    let count : int_count log.lh.n ≡ log.lh.n = ground (arith, fit.fits) in
    let s1 = install_loop recovering log (int_count log.lh.n) 0 s in
    let i =
      install_loop-Installed recovering log want (int_count log.lh.n) 0 s
        (omega (arith, count, fit.fits)) (λ j lo hi. fit.home j (omega (arith, count)))
        (λ j lo hi. holds j (omega (arith, count))) in
    let (p, others, h, written, dark) = write_head-Heads (emptied log) s1 (omega arith) in
    elim (Bool-cases (s1.power == 0)) [
      | inl e ↦
          let off : s1.power ≡ 0 = (==_iff s1.power 0).0 e in
          inl (
            omega (arith, off, i.power, count),
            record {
              heads =
                  subst (Heads log)
                    (sym (dark off log.start ∙ i.disk_out log.start (λ hb. omega arith))) c.heads;
              holds = λ j lt.
                  dark off (log.start + j + 1)
                  ∙ i.disk_out (log.start + j + 1) (λ hb. omega (arith, fit.fits))
                  ∙ c.holds j lt;
              rest = λ b hb. elim (c.rest b hb) [
                | inl named ↦ inl named
                | inr same ↦ inr (dark off b ∙ i.kept b same)
              ];
            },
          )
      | inr e ↦
          let on : 0 < s1.power = ground arith in
          let not_start : (b : ℕ) → IsHome log b → b ≢ log.start = λ b hb e. omega arith in
          inr (record {
            heads = subst (Heads (emptied log)) (sym (written on)) h;
            holds = λ j lt. absurd (omega arith);
            rest = λ b hb. elim (c.rest b hb) [
              | inl (j, lt, named) ↦ inr (
                  (others b (not_start b hb)).1
                  ∙ subst (λ x. s1.disk x ≡ want x) named
                      (i.done on j (omega arith) (omega (arith, count))))
              | inr same ↦ inr ((others b (not_start b hb)).1 ∙ i.kept b same)
            ];
          })
    ]

pub install-dark :
    (recovering : Bool) (log : Log) (s : Store)
    → s.power ≡ 0
    → let s' = write_head (emptied log) (install_trans recovering log s) in
      (c : ℕ) → s'.disk c ≡ s.disk c
unfolding install_trans
install-dark recovering log s dark c =
    let s1 = install_loop recovering log (int_count log.lh.n) 0 s in
    let (off, same) = install_loop-dark recovering log (int_count log.lh.n) 0 s dark in
    let (_, _, _, _, still) = write_head-Heads (emptied log) s1 (omega arith) in
    still off c ∙ same c

-- The same header in another log at the same place.
Committed-same :
    (log log1 : Log) (want : ℕ → Block) (s : Store)
    → log.start ≡ log1.start
    → log.lh.n ≡ log1.lh.n
    → ((j : ℕ) → j < log.lh.n → log.lh.block j ≡ log1.lh.block j)
    → Committed log want s
    → Committed log1 want s
Committed-same log log1 want s start-eq n-eq block-eq c = record {
  heads = record {
    count = rw (sym start-eq) (c.heads.count ∙ n-eq);
    blocks = λ j lt.
        rw (sym start-eq)
          (c.heads.blocks j (omega (arith, n-eq)) ∙ block-eq j (omega (arith, n-eq)));
  };
  holds = λ j lt.
      rw (sym start-eq)
        (c.holds j (omega (arith, n-eq)) ∙ ap want (block-eq j (omega (arith, n-eq))));
  rest = λ b hb. elim (c.rest b (omega (arith, start-eq))) [
    | inl (j, lt, e) ↦ inl (j, omega (arith, n-eq), sym (block-eq j lt) ∙ e)
    | inr same ↦ inr same
  ];
}

-- A recovery keeps what the disk says whenever the power fails, and clears the log if it lasts.
pub initlog-Committed :
    (log boot : Log) (want : ℕ → Block) (power : ℕ) (s : Store)
    → IsFit log
    → Committed log want s
    → let s' = (initlog log.start log.size boot (restart power s)).1 in
      ((power ≤ log.lh.n) × Committed log want s') ⊎ Committed (emptied log) want s'
unfolding initlog recover_from_log read_head
initlog-Committed log boot want power s fit c =
    let boot1 = record boot { start = log.start; size = log.size } in
    let log1 = read_head boot1 (restart power s) in
    let (_, n-eq, blocks) = read_head-Heads log boot1 (restart power s) fit.fits c.heads in
    let fit1 : IsFit log1 = record {
      fits = omega (arith, n-eq, fit.fits);
      home = λ j lt.
          subst (IsHome log) (sym (blocks j (omega (arith, n-eq))))
            (fit.home j (omega (arith, n-eq)));
    } in
    let c0 : Committed log want (restart power s) = record {
      heads = c.heads;
      holds = c.holds;
      rest = c.rest;
    } in
    let c1 =
      Committed-same log log1 want (restart power s) refl (sym n-eq)
        (λ j lt. sym (blocks j (omega arith))) c0 in
    elim (install-Committed true log1 want (restart power s) fit1 c1 c1.holds) [
      | inl (short, c') ↦ inl (
        omega (arith, n-eq, short),
        Committed-same log1 log want _ refl n-eq (λ j lt. blocks j (omega (arith, n-eq))) c',
      )
      | inr c' ↦ inr (
          Committed-same (emptied log1) (emptied log) want _ refl refl
            (λ j lt. absurd (omega arith)) c')
    ]
