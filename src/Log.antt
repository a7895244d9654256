-- ===== src/Log.antt =====
-- kernel/log.c: the write-ahead log. The buffer cache is seen through what `bread` gives: `view` is
-- the content of each block, cached or not, and `bwrite` puts it on the disk. The disk takes
-- `power` more writes; when power has failed, nothing that runs on reaches the disk.
mod Loops
mod Recovery
mod Atomic
mod Writes
mod Space
mod Tests
use os_lab.Base.{
  ℕ, zero, suc, ◌+◌, ◌-◌, ◌*◌, ◌%◌, ◌^◌, ◌<◌, ◌≡◌, int_lt, int_count, not, Bool, true, false, ◌&&◌,
  ◌||◌, ltb, leb, ◌==◌, if◌then◌else◌, update, Option, none, some, scan, Outcome, ok, panic,
}

abbrev pub logsize : ℕ
logsize = 30

abbrev pub maxopblocks : ℕ
maxopblocks = 10

-- A block as words of 32 bits.
abbrev pub Block : Type 0
Block = ℕ → ℕ

pub record Store : Type 0 where
  pub disk : ℕ → Block
  pub view : ℕ → Block
  pub pins : ℕ → ℕ
  pub power : ℕ

abbrev pub bread : ℕ → Store → Block
bread b s = s.view b

-- The caller of `bread` changes its words
abbrev pub modify : ℕ → Block → Store → Store
modify b words s = record s { view = update s.view b words }

abbrev pub bwrite : ℕ → Store → Store
bwrite b s = record s {
  disk = if s.power == 0 then s.disk else update s.disk b (s.view b);
  power = s.power - 1;
}

abbrev pub bpin : ℕ → Store → Store
bpin b s = record s { pins = update s.pins b (s.pins b + 1) }

abbrev pub bunpin_if : Bool → ℕ → Store → Store
bunpin_if pinned b s = record s { pins = if pinned then update s.pins b (s.pins b - 1) else s.pins }

-- `struct logheader`, its `int`s by their bits
pub record Header : Type 0 where
  pub n : ℕ
  pub block : ℕ → ℕ

-- `struct log`, without its lock.
pub record Log : Type 0 where
  pub start : ℕ
  pub size : ℕ
  pub outstanding : ℕ
  pub committing : Bool
  pub lh : Header

-- The loop of `install_trans`, with `m` blocks left from `tail` on.
unfoldable pub install_loop : (recovering : Bool) → Log → (m tail : ℕ) → Store → Store
install_loop recovering log zero tail s = s
install_loop recovering log (suc m) tail s =
    let to = log.lh.block tail in
    let s1 = bwrite to (modify to (bread (log.start + tail + 1) s) s) in
    install_loop recovering log m (tail + 1) (bunpin_if (not recovering) to s1)

unfoldable pub install_trans : (recovering : Bool) → Log → Store → Store
install_trans recovering log s = install_loop recovering log (int_count log.lh.n) 0 s

-- The loop of `read_head`: the words 1 to `m` of a block as the header's block numbers.
unfoldable pub read_blocks : Block → (m i : ℕ) → (ℕ → ℕ) → ℕ → ℕ
read_blocks words zero i block = block
read_blocks words (suc m) i block = read_blocks words m (i + 1) (update block i (words (i + 1)))

unfoldable pub read_head : Log → Store → Log
read_head log s =
    let words = bread log.start s in
    record log {
      lh = record { n = words 0; block = read_blocks words (int_count (words 0)) 0 log.lh.block };
    }

-- The loop of `write_head`: the header's block numbers as the words from 1 on.
unfoldable pub write_blocks : (ℕ → ℕ) → (m i : ℕ) → Block → Block
write_blocks block zero i words = words
write_blocks block (suc m) i words = write_blocks block m (i + 1) (update words (i + 1) (block i))

unfoldable pub write_head : Log → Store → Store
write_head log s =
    let words = update (bread log.start s) 0 log.lh.n in
    bwrite log.start (modify log.start (write_blocks log.lh.block (int_count log.lh.n) 0 words) s)

-- The loop of `write_log`.
unfoldable pub write_log_loop : Log → (m tail : ℕ) → Store → Store
write_log_loop log zero tail s = s
write_log_loop log (suc m) tail s =
    let to = log.start + tail + 1 in
    write_log_loop log m (tail + 1) (bwrite to (modify to (bread (log.lh.block tail) s) s))

unfoldable pub write_log : Log → Store → Store
write_log log s = write_log_loop log (int_count log.lh.n) 0 s

abbrev pub emptied : Log → Log
emptied log = record log { lh = record log.lh { n = 0 } }

unfoldable pub commit : Log → Store → Log × Store
commit log s =
    if int_lt 0 log.lh.n
    then (let s1 = install_trans false log (write_head log (write_log log s)) in
        (emptied log, write_head (emptied log) s1))
    else (log, s)

unfoldable pub recover_from_log : Log → Store → Log × Store
recover_from_log log s =
    let log1 = read_head log s in
    let s1 = install_trans true log1 s in (emptied log1, write_head (emptied log1) s1)

-- `initlog`, with what the superblock says; a header has 124 bytes and a block 1024, so the test
-- for a header that is too big does not panic.
unfoldable pub initlog : (logstart nlog : ℕ) → Log → Store → Log × Store
initlog logstart nlog log s = recover_from_log (record log { start = logstart; size = nlog }) s

-- What a restart finds: the disk as it is, nothing cached, and the power of `power` more writes.
abbrev pub restart : (power : ℕ) → Store → Store
restart power s = record { disk = s.disk; view = s.disk; pins = λ _. 0; power = power }

-- One round of the loop of `begin_op`: the operation is admitted, or sleeps.
unfoldable pub begin_op : Log → Option Log
begin_op log =
    if log.committing
    then none
    else if int_lt logsize ((log.lh.n + (log.outstanding + 1) * maxopblocks) % 2 ^ 32)
    then none
    else some (record log { outstanding = (log.outstanding + 1) % 2 ^ 32 })

-- `end_op`, which commits when no operation is left outstanding.
unfoldable pub end_op : Log → Store → Outcome (Log × Store)
end_op log s =
    let left = (log.outstanding + 2 ^ 32 - 1) % 2 ^ 32 in
    if log.committing
    then panic
    else if left == 0
    then (let (log1, s1) = commit (record log { outstanding = left; committing = true }) s in
        ok (record log1 { committing = false }, s1))
    else ok (record log { outstanding = left }, s)

-- `log_write` of the buffer of block `b`.
unfoldable pub log_write : ℕ → Log → Store → Outcome (Log × Store)
log_write b log s =
    if not (int_lt log.lh.n logsize) || not (int_lt log.lh.n ((log.size + 2 ^ 32 - 1) % 2 ^ 32))
    then panic
    else if int_lt log.outstanding 1
    then panic
    else elim (scan (λ i. log.lh.block i == b) (int_count log.lh.n) 0) [
      | some i ↦ ok (record log { lh = record log.lh { block = update log.lh.block i b } }, s)
      | none ↦
          let lh : Header = record { n = log.lh.n + 1; block = update log.lh.block log.lh.n b } in
          ok (record log { lh = lh }, bpin b s)
    ]
