-- ===== src/Log/Writes.antt =====
-- `log_write` of kernel/log.c: what it records, and what it leaves for the commit.
use os_lab.Base.{
  ℕ, ◌+◌, ◌-◌, ◌%◌, ◌^◌, ◌<◌, ◌≤◌, ◌≡◌, ◌≢◌, ◌⊎◌, inl, inr, refl, sym, ap, ◌∙◌, arith, true, false,
  int_lt, int_count, ◌==◌, Bool-cases, Option-cases, scan, scan-First, scan-none, ==_iff, update,
  update_self, ok,
}
use os_lab.Log.{Block, Store, Log, logsize, modify, log_write, bpin}
use os_lab.Log.Loops.{IsHome}
use os_lab.Log.Recovery.{Names}
use os_lab.Log.Atomic.{IsReady}

-- The log has room for one more block, and an operation is outstanding.
pub record HasRoom (log : Log) : Type 0 where
  pub room : log.lh.n < logsize
  pub region : log.lh.n + 1 < log.size
  pub region_int : log.size < 2 ^ 31
  pub outstanding : 0 < log.outstanding
  pub outstanding_int : log.outstanding < 2 ^ 31

-- Each block has one place in the log.
abbrev pub IsOnce : Log → Type 0
IsOnce log = (i j : ℕ) → i < log.lh.n → j < log.lh.n → log.lh.block i ≡ log.lh.block j → i ≡ j

-- The log of `n` blocks with `b` at place `k`.
abbrev pub placed : (k n : ℕ) → ℕ → Log → Log
placed k n b log = record log { lh = record { n = n; block = update log.lh.block k b } }

-- What `log_write` comes to: the block is named already, or is added at the end and pinned.
pub log_write-cases :
    (b : ℕ) (log : Log) (s : Store)
    → HasRoom log
    → ((k : ℕ) × (k < log.lh.n)
        × (log.lh.block k ≡ b)
        × (log_write b log s ≡ ok (placed k log.lh.n b log, s)))
      ⊎ (((j : ℕ) → j < log.lh.n → log.lh.block j ≢ b)
          × (log_write b log s ≡ ok (placed log.lh.n (log.lh.n + 1) b log, bpin b s)))
unfolding log_write
log_write-cases b log s h =
    let small : int_lt log.lh.n logsize ≡ true = ground (arith, h.room) in
    let in_region : int_lt log.lh.n ((log.size + 2 ^ 32 - 1) % 2 ^ 32) ≡ true =
      ground (arith, h.room, h.region, h.region_int) in
    let inside : int_lt log.outstanding 1 ≡ false =
      ground (arith, h.outstanding, h.outstanding_int) in
    let count : int_count log.lh.n ≡ log.lh.n = ground (arith, h.room) in
    let test = λ (i : ℕ). log.lh.block i == b in
    elim (Option-cases (scan test (int_count log.lh.n) 0)) [
      | inl e ↦ inr (
        λ j lt same. ground (arith, scan-none test (int_count log.lh.n) 0 e j, count),
        rw (small, in_region, inside, e) refl,
      )
      | inr (i, e) ↦
          let f = scan-First test (int_count log.lh.n) 0 i e in
          inl (
            i,
            omega (arith, f.to, count),
            (==_iff (log.lh.block i) b).0 f.passes,
            rw (small, in_region, inside, e) refl,
          )
    ]

-- The place of `b` among `n` blocks is one of the log's or the next one.
record IsPlace (b k n : ℕ) (log : Log) : Type 0 where
  lt : k < n
  fits : n ≤ logsize
  grows : log.lh.n ≤ n
  others : (j : ℕ) → j < n → j ≢ k → (j < log.lh.n) × (log.lh.block j ≢ b)
  keeps : k < log.lh.n → log.lh.block k ≡ b

placed-Names :
    (b k n : ℕ) (log : Log)
    → IsPlace b k n log
    → (c : ℕ) → (c ≡ b) ⊎ Names log c
    → Names (placed k n b log) c
placed-Names b k n log p c (inl e) = (k, p.lt, update_self log.lh.block k b ∙ sym e)
placed-Names b k n log p c (inr (j, ltj, e)) = elim (Bool-cases (j == k)) [
  | inl same ↦
      let e' : j ≡ k = (==_iff j k).0 same in
      (
        k,
        p.lt,
        update_self log.lh.block k b
            ∙ sym (p.keeps (omega (arith, e')))
            ∙ ap log.lh.block (sym e')
            ∙ e,
      )
  | inr ne ↦ (j, omega (arith, p.grows), rw ne e)
]

placed-IsOnce : (b k n : ℕ) (log : Log) → IsPlace b k n log → IsOnce log → IsOnce (placed k n b log)
placed-IsOnce b k n log p once i j lti ltj e = elim (Bool-cases (i == k)) [
  | inl same ↦ elim (Bool-cases (j == k)) [
    | inl same' ↦ ground arith
    | inr ne' ↦ absurd ((p.others j ltj (ground arith)).1 (sym (rw (same, ne') at e)))
  ]
  | inr ne ↦ elim (Bool-cases (j == k)) [
    | inl same' ↦ absurd ((p.others i lti (ground arith)).1 (rw (ne, same') at e))
    | inr ne' ↦
        once i j (p.others i lti (ground arith)).0 (p.others j ltj (ground arith)).0
          (rw (ne, ne') at e)
  ]
]

placed-IsReady :
    (b k n : ℕ) (w : Block) (log : Log) (s : Store) (pins : ℕ → ℕ)
    → IsPlace b k n log
    → IsReady log s
    → IsHome log b
    → IsReady (placed k n b log) (record (modify b w s) { pins = pins })
placed-IsReady b k n w log s pins p r hb = record {
  fit = record {
    fits = p.fits;
    home = λ j lt. elim (Bool-cases (j == k)) [
      | inl same ↦ rw same hb
      | inr ne ↦ rw ne (r.fit.home j (p.others j lt (ground arith)).0)
    ];
  };
  clear = r.clear;
  clean = λ c hc. elim (Bool-cases (c == b)) [
    | inl same ↦ inl (placed-Names b k n log p c (inl ((==_iff c b).0 same)))
    | inr ne ↦ elim (r.clean c hc) [
      | inl named ↦ inl (placed-Names b k n log p c (inr named))
      | inr same ↦ inr (rw ne same)
    ]
  ];
}

-- A `log_write` by a process that has changed block `b`, which is outside of the log, to `w`: the log
-- is ready for a commit if it was before the change, names `b` and what it named, each in one
-- place as before, and pins `b` once for its place. The log has room, and an operation is outstanding.
pub log_write-IsReady :
    (b : ℕ) (w : Block) (log : Log) (s : Store)
    → IsReady log s
    → IsOnce log
    → IsHome log b
    → HasRoom log
    → (log' : Log) × (s' : Store) × (log_write b log (modify b w s) ≡ ok (log', s'))
      × IsReady log' s'
      × IsOnce log'
      × ((c : ℕ) → (c ≡ b) ⊎ Names log c → Names log' c)
      × (s'.view b ≡ w)
      × ((Names log b × (log'.lh.n ≡ log.lh.n) × (s'.pins b ≡ s.pins b))
          ⊎ (¬ Names log b × (log'.lh.n ≡ log.lh.n + 1) × (s'.pins b ≡ s.pins b + 1)))
log_write-IsReady b w log s r once hb h = elim (log_write-cases b log (modify b w s) h) [
  | inl (k, lt, named, e) ↦
      let p : IsPlace b k log.lh.n log = record {
        lt = lt;
        fits = r.fit.fits;
        grows = omega arith;
        others = λ j ltj ne. (ltj, λ same. ne (once j k ltj lt (same ∙ sym named)));
        keeps = λ _. named;
      } in
      (
        placed k log.lh.n b log,
        modify b w s,
        e,
        placed-IsReady b k log.lh.n w log s s.pins p r hb,
        placed-IsOnce b k log.lh.n log p once,
        placed-Names b k log.lh.n log p,
        update_self s.view b w,
        inl ((k, lt, named), refl, refl),
      )
  | inr (fresh, e) ↦
      let n = log.lh.n in
      let p : IsPlace b n (n + 1) log = record {
        lt = omega arith;
        fits = omega (arith, h.room);
        grows = omega arith;
        others = λ j ltj ne. let lt : j < n = omega arith in (lt, fresh j lt);
        keeps = λ lt. absurd (omega arith);
      } in
      (
        placed n (n + 1) b log,
        bpin b (modify b w s),
        e,
        placed-IsReady b n (n + 1) w log s (bpin b (modify b w s)).pins p r hb,
        placed-IsOnce b n (n + 1) log p once,
        placed-Names b n (n + 1) log p,
        update_self s.view b w,
        inr (λ (j, lt, same). fresh j lt same, refl, update_self s.pins b (s.pins b + 1)),
      )
]
