-- ===== src/Bio.antt =====
-- kernel/bio.c: the buffer cache, buffers in a ring by how lately they were used. The buffers of
-- `bcache.buf` are 1 to NBUF here and `bcache.head` is 0; what a buffer holds is left to Log.
mod Ring
mod Find
mod Middle
mod Ids
mod Order
mod Tests
use os_lab.Base.{
  ℕ, zero, suc, ◌+◌, ◌-◌, ◌%◌, ◌^◌, ◌<◌, ◌≡◌, Bool, true, false, not, ◌&&◌, ◌==◌, if◌then◌else◌,
  update, Option, none, some, Outcome, ok, panic,
}

abbrev pub nbuf : ℕ
nbuf = 30

-- `bcache`: the fields of each `struct buf`, with the sleep lock that each has.
pub record Bcache : Type 0 where
  pub next : ℕ → ℕ
  pub prev : ℕ → ℕ
  pub dev : ℕ → ℕ
  pub blockno : ℕ → ℕ
  pub valid : ℕ → Bool
  pub refcnt : ℕ → ℕ
  pub locked : ℕ → Bool
  pub pid : ℕ → ℕ

-- Insert buffer `b` at the most recently used end.
abbrev pub insert_first : ℕ → Bcache → Bcache
insert_first b c =
    let c1 = record c { next = update c.next b (c.next 0); prev = update c.prev b 0 } in
    let c2 = record c1 { prev = update c1.prev (c1.next 0) b } in
    record c2 { next = update c2.next 0 b }

-- Take buffer `b` out of the ring.
abbrev pub unlink : ℕ → Bcache → Bcache
unlink b c =
    let c1 = record c { prev = update c.prev (c.next b) (c.prev b) } in
    record c1 { next = update c1.next (c1.prev b) (c1.next b) }

-- The loop of `binit`, with `m` buffers left from `b` on.
unfoldable pub binit_loop : (m b : ℕ) → Bcache → Bcache
binit_loop zero b c = c
binit_loop (suc m) b c =
    let c1 = insert_first b c in
    binit_loop m (b + 1) (record c1 { locked = update c1.locked b false; pid = update c1.pid b 0 })

unfoldable pub binit : Bcache → Bcache
binit c = binit_loop nbuf 1 (record c { next = update c.next 0 0; prev = update c.prev 0 0 })

-- `for (b = from; b != &bcache.head; b = link(b))`, on fuel
unfoldable pub find : (ℕ → ℕ) → (ℕ → Bool) → (fuel from : ℕ) → Outcome (Option ℕ)
find link test zero b = Outcome.out_of_fuel
find link test (suc fuel) b =
    let rest = find link test fuel (link b) in
    if b == 0 then ok none else if test b then ok (some b) else rest

abbrev pub is_block : Bcache → (dev blockno b : ℕ) → Bool
is_block c dev blockno b = (c.dev b == dev) && (c.blockno b == blockno)

-- `bget` up to its `acquiresleep`, which is after the cache's lock has been released: the buffer
-- and the cache.
unfoldable pub bget : (dev blockno : ℕ) → Bcache → Outcome (ℕ × Bcache)
bget dev blockno c = elim (find c.next (is_block c dev blockno) (nbuf + 1) (c.next 0)) [
  | ok (some b) ↦ ok (b, record c { refcnt = update c.refcnt b ((c.refcnt b + 1) % 2 ^ 32) })
  | ok none ↦ elim (find c.prev (λ b. c.refcnt b == 0) (nbuf + 1) (c.prev 0)) [
    | ok (some b) ↦ ok (
      b,
      record c {
        dev = update c.dev b dev;
        blockno = update c.blockno b blockno;
        valid = update c.valid b false;
        refcnt = update c.refcnt b 1;
      },
    )
    | ok none ↦ panic
    | panic ↦ panic
    | Outcome.blocked ↦ Outcome.blocked
    | Outcome.out_of_fuel ↦ Outcome.out_of_fuel
  ]
  | panic ↦ panic
  | Outcome.blocked ↦ Outcome.blocked
  | Outcome.out_of_fuel ↦ Outcome.out_of_fuel
]

-- `brelse` by process `me`
unfoldable pub brelse : (me b : ℕ) → Bcache → Outcome Bcache
brelse me b c =
    if not (c.locked b && (c.pid b == me))
    then panic
    else (let count = (c.refcnt b + 2 ^ 32 - 1) % 2 ^ 32 in
        let c1 = record c {
          locked = update c.locked b false;
          pid = update c.pid b 0;
          refcnt = update c.refcnt b count;
        } in
        ok (if count == 0 then insert_first b (unlink b c1) else c1))

unfoldable pub bpin : ℕ → Bcache → Bcache
bpin b c = record c { refcnt = update c.refcnt b ((c.refcnt b + 1) % 2 ^ 32) }

unfoldable pub bunpin : ℕ → Bcache → Bcache
bunpin b c = record c { refcnt = update c.refcnt b ((c.refcnt b + 2 ^ 32 - 1) % 2 ^ 32) }
