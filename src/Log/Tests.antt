-- ===== src/Log/Tests.antt =====
-- kernel/log.c on a transaction of two blocks.
use os_lab.Base.{
  ℕ, ◌≡◌, ◌⊎◌, inl, inr, refl, fun_ext, arith, false, ◌==◌, if◌then◌else◌, Bool-cases, List, [],
  ◌∷◌, length, some, ok,
}
use os_lab.Log.{
  Block, Store, Log, modify, maxopblocks, begin_op, end_op, log_write, commit, initlog, restart,
  recover_from_log, read_head, write_head, write_log, install_trans, install_loop, write_log_loop,
  read_blocks, write_blocks,
}
use os_lab.Log.Loops.{IsHome}
use os_lab.Log.Recovery.{Names, IsFit}
use os_lab.Log.Atomic.{IsReady, restarts, commit-atomic, commit-durable}
use os_lab.Log.Writes.{HasRoom, IsOnce, log_write-IsReady}
use os_lab.Log.Space.{Reserved, removed, begin_op-Reserved, end_op-Reserved}

-- Blocks 50 and 60 are to become 5s and 6s.
abbrev transaction : Log
transaction = record {
  start = 10;
  size = 32;
  outstanding = 1;
  committing = false;
  lh = record { n = 2; block = λ j. if j == 0 then 50 else 60 };
}

-- The disk of zeros fails after the third write, which is of the header.
abbrev store : Store
store = record {
  disk = λ b w. 0;
  view = λ b w. if b == 50 then 5 else (if b == 60 then 6 else 0);
  pins = λ b. 0;
  power = 3;
}

abbrev lasting : Store
lasting = record store { power = 6 }

transaction-IsFit : IsFit transaction
transaction-IsFit = record { fits = omega arith; home = λ j lt. inr (ground arith) }

transaction-IsReady : (power : ℕ) → IsReady transaction (record store { power = power })
transaction-IsReady power = record {
  fit = transaction-IsFit;
  clear = refl;
  clean = λ b hb. elim (Bool-cases (b == 50)) [
    | inl e ↦ inl (0, omega arith, ground arith)
    | inr ne ↦ elim (Bool-cases (b == 60)) [
      | inl e ↦ inl (1, omega arith, ground arith)
      | inr ne' ↦ inr (fun_ext λ w. ground arith)
    ]
  ];
}

transaction-IsOnce : IsOnce transaction
transaction-IsOnce i j lti ltj e = ground arith

commit-atomic_example :
    let crashed = restarts transaction transaction (1 ∷ 0 ∷ []) (commit transaction store).1 in
    let s' = (initlog 10 32 transaction (restart 3 crashed)).1 in
    (s'.disk 10 0 ≡ 0)
    × (((b : ℕ) → IsHome transaction b → s'.disk b ≡ store.disk b)
        ⊎ ((b : ℕ) → IsHome transaction b → s'.disk b ≡ store.view b))
commit-atomic_example =
    commit-atomic transaction transaction store (1 ∷ 0 ∷ []) 3 (transaction-IsReady 3) (omega arith)

commit-durable_example :
    let s' = (commit transaction lasting).1 in
    (s'.disk 10 0 ≡ 0) × ((b : ℕ) → IsHome transaction b → s'.disk b ≡ lasting.view b)
commit-durable_example = commit-durable transaction lasting (transaction-IsReady 6) (omega arith)

-- The third write is the point of no return: after it a recovery installs the blocks.
recovered_words :
    let crashed = (commit transaction store).1 in
    let s' = (initlog 10 32 transaction (restart 9 crashed)).1 in
    (crashed.disk 60 0 ≡ 0) × (s'.disk 60 0 ≡ 6) × (s'.disk 10 0 ≡ 0)
unfolding commit initlog recover_from_log read_head write_head write_log install_trans install_loop
    write_log_loop read_blocks write_blocks
recovered_words = (refl, refl, refl)

abbrev running : Log
running = transaction

abbrev quotas : List ℕ
quotas = 7 ∷ []

running-Reserved : Reserved quotas running
running-Reserved = record {
  running = refl;
  reserved = omega arith;
  few = omega arith;
  bounded = (omega arith, tt);
  quiet = refl;
  region = omega arith;
  region_int = omega arith;
}

running-HasRoom : HasRoom running
running-HasRoom = record {
  room = omega arith;
  region = omega arith;
  region_int = omega arith;
  outstanding = omega arith;
  outstanding_int = omega arith;
}

abbrev seven : Block
seven = λ w. 7

log_write-IsReady_example :
    (log' : Log) × (s' : Store) × (log_write 70 transaction (modify 70 seven store) ≡ ok (log', s'))
    × IsReady log' s'
    × IsOnce log'
    × ((c : ℕ) → (c ≡ 70) ⊎ Names transaction c → Names log' c)
    × (s'.view 70 ≡ seven)
    × ((Names transaction 70 × (log'.lh.n ≡ 2) × (s'.pins 70 ≡ 0))
        ⊎ (¬ Names transaction 70 × (log'.lh.n ≡ 3) × (s'.pins 70 ≡ 1)))
log_write-IsReady_example =
    log_write-IsReady 70 seven transaction store (transaction-IsReady 3) transaction-IsOnce
      (inr (omega arith)) running-HasRoom

running-admitted : begin_op running ≡ some (record running { outstanding = 2 })
unfolding begin_op
running-admitted = refl

begin_op-Reserved_example : Reserved (maxopblocks ∷ quotas) (record running { outstanding = 2 })
begin_op-Reserved_example =
    begin_op-Reserved quotas running (record running { outstanding = 2 }) running-Reserved
      running-admitted

end_op-Reserved_example :
    (log' : Log) × (s' : Store) × (end_op running store ≡ ok (log', s'))
    × Reserved (removed quotas 0) log'
    × ((length quotas ≡ 1) → log'.lh.n ≡ 0)
end_op-Reserved_example = end_op-Reserved quotas 0 running store running-Reserved (omega arith)
