-- ===== src/Bio/Order.antt =====
-- The order of the ring of kernel/bio.c: `binit` and `brelse`.
use os_lab.Base.{
  ℕ, zero, suc, ◌+◌, ◌<◌, ◌≤◌, ◌≡◌, ◌≢◌, refl, sym, subst, ◌∙◌, arith, true, false, ==-self, update,
  update_self, update-ne, List, [], ◌∷◌, ◌++◌, All, All-imp, false≢true, length, ok,
}
use os_lab.Bio.{Bcache, nbuf, brelse, binit, binit_loop, insert_first, unlink}
use os_lab.Bio.Ring.{
  Links, Links-split, Links-unlink, Links-insert, Links-first, Apart, Separate, All-append,
}
use os_lab.Bio.Middle.{All-middle, Separate-middle, length-middle, has-middle}
use os_lab.Bio.Ids.{IsCache}

insert_first-Links :
    (b : ℕ) (order : List ℕ) (c : Bcache)
    → Links c.next c.prev 0 order 0
    → Separate order
    → Apart 0 (b ∷ order)
    → Apart b order
    → let c' = insert_first b c in Links c'.next c'.prev 0 (b ∷ order) 0
insert_first-Links b order c l sep (b0, n0) nb =
    let next1 = update c.next b (c.next 0) in
    subst (λ q. Links (update next1 0 b) (update (update c.prev b 0) q b) 0 (b ∷ order) 0)
      (sym (update-ne c.next b 0 (c.next 0) (λ e. b0 (sym e))))
      (Links-insert c.next c.prev b order l sep (b0, n0) nb)

-- Taking a buffer out of the ring and putting it in first.
moved-Links :
    (xs : List ℕ) (b : ℕ) (ys : List ℕ) (c : Bcache)
    → IsCache (xs ++ b ∷ ys) c
    → let c' = insert_first b (unlink b c) in Links c'.next c'.prev 0 (b ∷ xs ++ ys) 0
moved-Links xs b ys c v =
    let (to_b, from_b) = Links-split c.next c.prev 0 xs b ys 0 v.links in
    let (nb, sep) = Separate-middle xs b ys v.once in
    let (b0, n0) = All-middle (λ x. x ≢ 0) xs b ys v.buffers in
    let after : c.next b ≢ b =
      Links-first (λ x. x ≢ b) c.next c.prev b ys 0 from_b (All-append (λ x. x ≢ b) xs ys nb).1
        (λ e. b0 (sym e)) in
    let prev1 = update c.prev (c.next b) (c.prev b) in
    let out =
      subst (λ p. Links (update c.next p (c.next b)) prev1 0 (xs ++ ys) 0)
        (sym (update-ne c.prev (c.next b) b (c.prev b) (λ e. after (sym e))))
        (Links-unlink c.next c.prev 0 xs b ys 0 to_b from_b sep n0 n0) in
    insert_first-Links b (xs ++ ys) (unlink b c) out sep (b0, n0) nb

-- A cache that `binit` has part of, with the buffers before `b` in the ring.
binit_loop-IsCache :
    (m b : ℕ) (order : List ℕ) (c : Bcache)
    → IsCache order c
    → All (λ x. x < b) order
    → 0 < b
    → b + m ≡ nbuf + 1
    → length order + m ≤ nbuf
    → ((x : ℕ) → c.dev x ≡ 0)
    → (order' : List ℕ) × IsCache order' (binit_loop m b c)
      × (length order' ≡ length order + m)
      × All (λ x. x < nbuf + 1) order'
unfolding binit_loop
binit_loop-IsCache zero b order c v below start to_end fits unnamed = (
  order,
  v,
  omega arith,
  All-imp (λ x. x < b) (λ x. x < nbuf + 1) order (λ x lt. omega arith) below,
)
binit_loop-IsCache (suc m) b order c v below start to_end fits unnamed =
    let b0 : b ≢ 0 = omega arith in
    let nb : Apart b order = All-imp (λ x. x < b) (λ x. x ≢ b) order (λ x lt. omega arith) below in
    let c1 = insert_first b c in
    let c2 = record c1 { locked = update c1.locked b false; pid = update c1.pid b 0 } in
    let v2 : IsCache (b ∷ order) c2 = record {
      links = insert_first-Links b order c v.links v.once (b0, v.buffers) nb;
      buffers = (b0, v.buffers);
      once = (nb, v.once);
      size = omega arith;
      one_buffer = λ x y hx hy real. absurd (real (unnamed x));
    } in
    let (order', v', count, all) =
      binit_loop-IsCache m (b + 1) (b ∷ order) c2 v2
        (omega arith, All-imp (λ x. x < b) (λ x. x < b + 1) order (λ x lt. omega arith) below)
        (omega arith) (omega arith) (omega arith) unnamed in
    (order', v', omega (arith, count), all)

-- `binit` on the cleared memory of a start, where the buffers name device 0, makes a cache whose ring
-- goes through all of the NBUF buffers.
pub binit_lem :
    (c : Bcache)
    → ((b : ℕ) → c.dev b ≡ 0)
    → (order : List ℕ) × IsCache order (binit c) × (length order ≡ nbuf) × All (λ b. b ≤ nbuf) order
unfolding binit
binit_lem c unnamed =
    let c0 : Bcache = record c { next = update c.next 0 0; prev = update c.prev 0 0 } in
    let v : IsCache [] c0 = record {
      links = (update_self c.next 0 0, update_self c.prev 0 0);
      buffers = tt;
      once = tt;
      size = omega arith;
      one_buffer = λ x y hx. absurd (false≢true hx);
    } in
    let (order, v', count, all) =
      binit_loop-IsCache nbuf 1 [] c0 v tt (omega arith) refl (omega arith) unnamed in
    (
      order,
      v',
      omega (arith, count),
      All-imp (λ x. x < nbuf + 1) (λ x. x ≤ nbuf) order (λ x lt. omega arith) all,
    )

-- In a cache whose ring is in order and where no block has two buffers, `brelse` of the last reference to a buffer, by the process that has it locked,
-- unlocks it and makes it the most recently used: the ring then goes through it and the others in
-- their order, and no block has two buffers.
pub brelse-last :
    (xs : List ℕ) (b : ℕ) (ys : List ℕ) (me : ℕ) (c : Bcache)
    → IsCache (xs ++ b ∷ ys) c
    → c.locked b ≡ true
    → c.pid b ≡ me
    → c.refcnt b ≡ 1
    → (c' : Bcache) × (brelse me b c ≡ ok c')
      × IsCache (b ∷ xs ++ ys) c'
      × (c'.refcnt b ≡ 0)
      × (c'.locked b ≡ false)
unfolding brelse
brelse-last xs b ys me c v locked mine last =
    let (nb, sep) = Separate-middle xs b ys v.once in
    let (b0, n0) = All-middle (λ x. x ≢ 0) xs b ys v.buffers in
    let c1 = record c {
      locked = update c.locked b false;
      pid = update c.pid b 0;
      refcnt = update c.refcnt b 0;
    } in
    let v1 : IsCache (xs ++ b ∷ ys) c1 = record {
      links = v.links;
      buffers = v.buffers;
      once = v.once;
      size = v.size;
      one_buffer = v.one_buffer;
    } in
    (
      insert_first b (unlink b c1),
      rw (locked, mine, ==-self me, last) refl,
      record {
        links = moved-Links xs b ys c1 v1;
        buffers = (b0, n0);
        once = (nb, sep);
        size = omega (arith, v.size, length-middle xs b ys);
        one_buffer =
            λ x y hx hy. v.one_buffer x y (has-middle x xs b ys ∙ hx) (has-middle y xs b ys ∙ hy);
      },
      update_self c.refcnt b 0,
      update_self c.locked b false,
    )
