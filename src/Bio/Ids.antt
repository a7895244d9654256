-- ===== src/Bio/Ids.antt =====
-- `bget` of kernel/bio.c: no block has two buffers, and the buffer that is given up is the least
-- recently used one without references.
use os_lab.Base.{
  ℕ, ◌+◌, ◌%◌, ◌^◌, ◌<◌, ◌≤◌, ◌≡◌, ◌≢◌, ◌⊎◌, inl, inr, refl, sym, ◌∙◌, arith, Bool, true, false,
  ◌==◌, Bool-cases, Option-cases, update, update_self, some, List, has, length, ok, panic,
}
use os_lab.Bio.{Bcache, nbuf, find, is_block, bget}
use os_lab.Bio.Ring.{Links, Links-backwards, Apart, Separate, backwards}
use os_lab.Bio.Find.{
  first_of, find-Links, first_of-some, first_of-none, has-backwards, length-backwards,
  backwards-Apart,
}

-- The ring goes through the buffers of `order`, and no two of them hold one block. Device 0, which
-- the buffers name before they are first used, is no device.
pub record IsCache (order : List ℕ) (c : Bcache) : Type 0 where
  pub links : Links c.next c.prev 0 order 0
  pub buffers : Apart 0 order
  pub once : Separate order
  pub size : length order ≤ nbuf
  pub one_buffer :
      (a b : ℕ)
      → has a order ≡ true
      → has b order ≡ true
      → c.dev a ≢ 0
      → c.dev a ≡ c.dev b
      → c.blockno a ≡ c.blockno b
      → a ≡ b

-- The two searches of `bget`.
found :
    (order : List ℕ) (c : Bcache) (test : ℕ → Bool)
    → IsCache order c
    → find c.next test (nbuf + 1) (c.next 0) ≡ ok (first_of test order)
found order c test v =
    find-Links c.next c.prev test 0 order (nbuf + 1) v.links v.buffers (omega (arith, v.size))

found_back :
    (order : List ℕ) (c : Bcache) (test : ℕ → Bool)
    → IsCache order c
    → find c.prev test (nbuf + 1) (c.prev 0) ≡ ok (first_of test (backwards order))
found_back order c test v =
    find-Links c.prev c.next test 0 (backwards order) (nbuf + 1)
      (Links-backwards c.next c.prev 0 order 0 v.links) (backwards-Apart 0 order v.buffers)
      (omega (arith, v.size, length-backwards order))

-- The cache after `bget` has given buffer `b` to another block
abbrev recycled : (b dev blockno : ℕ) → Bcache → Bcache
recycled b dev blockno c = record c {
  dev = update c.dev b dev;
  blockno = update c.blockno b blockno;
  valid = update c.valid b false;
  refcnt = update c.refcnt b 1;
}

recycled-IsCache :
    (order : List ℕ) (b dev blockno : ℕ) (c : Bcache)
    → IsCache order c
    → ((x : ℕ) → has x order ≡ true → is_block c dev blockno x ≡ false)
    → IsCache order (recycled b dev blockno c)
recycled-IsCache order b dev blockno c v absent = record {
  links = v.links;
  buffers = v.buffers;
  once = v.once;
  size = v.size;
  one_buffer = λ x y hx hy dx de be. elim (Bool-cases (x == b)) [
    | inl ex ↦ elim (Bool-cases (y == b)) [
      | inl ey ↦ ground arith
      | inr ny ↦ ground (arith, absent y hy)
    ]
    | inr nx ↦ elim (Bool-cases (y == b)) [
      | inl ey ↦ ground (arith, absent x hx)
      | inr ny ↦ v.one_buffer x y hx hy (ground arith) (ground arith) (ground arith)
    ]
  ];
}

abbrev recounted : (b n : ℕ) → Bcache → Bcache
recounted b n c = record c { refcnt = update c.refcnt b n }

recounted-IsCache :
    (order : List ℕ) (b n : ℕ) (c : Bcache) → IsCache order c → IsCache order (recounted b n c)
recounted-IsCache order b n c v = record {
  links = v.links;
  buffers = v.buffers;
  once = v.once;
  size = v.size;
  one_buffer = v.one_buffer;
}

-- In a cache whose ring is in order and where no block has two buffers, `bget` of a block of a
-- device gives the buffer that has the block, or else the least recently used one without
-- references, which is then marked as not yet read, and panics only if every buffer has a
-- reference. The cache stays so, and the buffer has the block and a reference. No count of
-- references is near 2 ^ 32, and device 0 is none.
pub bget_lem :
    (order : List ℕ) (dev blockno : ℕ) (c : Bcache)
    → IsCache order c
    → dev ≢ 0
    → ((b : ℕ) → c.refcnt b < 2 ^ 31)
    → ((b : ℕ) × (c' : Bcache) × (bget dev blockno c ≡ ok (b, c'))
        × IsCache order c'
        × (has b order ≡ true)
        × (is_block c' dev blockno b ≡ true)
        × (0 < c'.refcnt b)
        × (((is_block c dev blockno b ≡ true) × (c'.valid b ≡ c.valid b))
            ⊎ ((first_of (λ x. c.refcnt x == 0) (backwards order) ≡ some b)
                × (c'.valid b ≡ false))))
      ⊎ ((bget dev blockno c ≡ panic) × ((b : ℕ) → has b order ≡ true → c.refcnt b ≢ 0))
unfolding bget
bget_lem order dev blockno c v real counts =
    let hits = is_block c dev blockno in
    let unused = λ (x : ℕ). c.refcnt x == 0 in
    elim (Option-cases (first_of hits order)) [
      | inr (b, e) ↦
          let (hit, member) = first_of-some hits order b e in
          inl (
            b,
            recounted b ((c.refcnt b + 1) % 2 ^ 32) c,
            rw (bget, found order c hits v, e) refl,
            recounted-IsCache order b ((c.refcnt b + 1) % 2 ^ 32) c v,
            member,
            hit,
            ground (arith, counts b),
            inl (hit, refl),
          )
      | inl e ↦
          let absent = first_of-none hits order e in
          elim (Option-cases (first_of unused (backwards order))) [
            | inr (b, e') ↦
                let (free, member) = first_of-some unused (backwards order) b e' in
                inl (
                  b,
                  recycled b dev blockno c,
                  rw (bget, found order c hits v, e, found_back order c unused v, e') refl,
                  recycled-IsCache order b dev blockno c v absent,
                  sym (has-backwards b order) ∙ member,
                  ground arith,
                  ground arith,
                  inr (e', update_self c.valid b false),
                )
            | inl e' ↦ inr (
              rw (bget, found order c hits v, e, found_back order c unused v, e') refl,
              λ b member.
                  ground
                    (arith, first_of-none unused (backwards order) e' b, has-backwards b order),
            )
          ]
    ]
