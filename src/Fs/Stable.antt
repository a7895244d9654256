-- ===== src/Fs/Stable.antt =====
-- `bmap` of kernel/fs.c gives the same block for a place in a file each time.
use os_lab.Base.{
  ℕ, ◌+◌, ◌-◌, ◌^◌, ◌<◌, ◌≤◌, ◌≡◌, ◌≢◌, inl, inr, refl, sym, ap, ◌∙◌, arith, Bool, true, false,
  false≢true, ltb, ◌==◌, Bool-cases, if◌then◌else◌, Outcome, ok, panic,
}
use os_lab.Fs.{ndirect, nindirect, Superblock, Fs}
use os_lab.Fs.Content.{addr_or_new, indirect_or_new, bmap}
use os_lab.Fs.Marks.{IsMap}
use os_lab.Fs.Slots.{
  addr_or_new-here, addr_or_new-slot, addr_or_new-IsMap, indirect_or_new-here,
  indirect_or_new-entry,
}

bmap-direct :
    (ip bn : ℕ) (sb : Superblock) (fs : Fs)
    → bn < ndirect
    → bmap ip bn sb fs ≡ ok (addr_or_new ip bn sb fs)
unfolding bmap
bmap-direct ip bn sb fs lt = let low : ltb bn ndirect ≡ true = ground arith in rw low refl

bmap-indirect :
    (ip bn : ℕ) (sb : Superblock) (fs : Fs)
    → ndirect ≤ bn
    → bn < ndirect + nindirect
    → let r = addr_or_new ip ndirect sb fs in
      bmap ip bn sb fs
      ≡ (if r.0 == 0 then ok (0, r.1) else ok (indirect_or_new r.0 (bn - ndirect) sb r.1))
unfolding bmap
bmap-indirect ip bn sb fs le lt =
    let high : ltb bn ndirect ≡ false = ground arith in
    let inside : ltb (bn - ndirect) nindirect ≡ true = ground arith in rw (high, inside) refl

ok-inj : (a b : ℕ × Fs) → ok a ≡ ok b → a ≡ b
ok-inj a b e = ap (result a) e
  where
    result : ℕ × Fs → Outcome (ℕ × Fs) → ℕ × Fs
    result d (ok r) = r
    result d _ = d

indirect-again :
    (ip bn a : ℕ) (sb : Superblock) (fs fs' : Fs)
    → IsMap sb fs
    → sb.size < 2 ^ 32
    → ndirect ≤ bn
    → bn < ndirect + nindirect
    → bmap ip bn sb fs ≡ ok (a, fs')
    → a ≢ 0
    → bmap ip bn sb fs' ≡ ok (a, fs')
indirect-again ip bn a sb fs fs' v small le lt e ne =
    let first = addr_or_new ip ndirect sb fs in
    let ind = first.0 in
    let fs1 = first.1 in
    let run = sym (bmap-indirect ip bn sb fs le lt) ∙ e in
    elim (Bool-cases (ind == 0)) [
      | inl missing ↦
          let r1 : ℕ × Fs = (0, fs1) in
          let r2 : ℕ × Fs = (a, fs') in
          absurd (ne (sym (ap (λ r. r.0) (ok-inj r1 r2 (rw missing at run)))))
      | inr found ↦
          let r1 : ℕ × Fs = indirect_or_new ind (bn - ndirect) sb fs1 in
          let r2 : ℕ × Fs = (a, fs') in
          let second : r1 ≡ r2 = ok-inj r1 r2 (rw found at run) in
          let ind_ne : ind ≢ 0 = ground arith in
          let (held, same) =
            indirect_or_new-entry ind (bn - ndirect) a sb fs1 fs'
              (addr_or_new-IsMap ip ndirect sb fs v) small second ne in
          let slot : (fs'.inode ip).addrs ndirect ≡ ind =
            ap (λ f. (f ip).addrs ndirect) same
            ∙ addr_or_new-slot ip ndirect ind sb fs fs1 refl ind_ne in
          let again : addr_or_new ip ndirect sb fs' ≡ (ind, fs') =
            addr_or_new-here ip ndirect sb fs' (λ z. ind_ne (sym slot ∙ z))
            ∙ ap (λ x. (x, fs')) slot in
          let entry_again : indirect_or_new ind (bn - ndirect) sb fs' ≡ (a, fs') =
            indirect_or_new-here ind (bn - ndirect) sb fs' (λ z. ne (sym held ∙ z))
            ∙ ap (λ x. (x, fs')) held in
          bmap-indirect ip bn sb fs' le lt
          ∙ ap (λ r. after_indirect bn sb r) again
          ∙ rw found (ap ok entry_again)
    ]
  where
    after_indirect : ℕ → Superblock → ℕ × Fs → Outcome (ℕ × Fs)
    after_indirect bn sb r =
        if r.0 == 0 then ok (0, r.1) else ok (indirect_or_new r.0 (bn - ndirect) sb r.1)

bmap-beyond :
    (ip bn : ℕ) (sb : Superblock) (fs : Fs) → ndirect + nindirect ≤ bn → bmap ip bn sb fs ≡ panic
unfolding bmap
bmap-beyond ip bn sb fs le =
    let high : ltb bn ndirect ≡ false = ground arith in
    let outside : ltb (bn - ndirect) nindirect ≡ false = ground arith in rw (high, outside) refl

panic-≢-ok : (r : ℕ × Fs) → panic ≢ ok r
panic-≢-ok r e = false≢true (ap returned e)
  where
    returned : Outcome (ℕ × Fs) → Bool
    returned (ok r) = true
    returned _ = false

-- Once `bmap` has given a block for a place in a file, be it direct or behind the indirect block, and just
-- allocated or not, a second `bmap` for the same place in the state that the first has left gives the same
-- block, and changes nothing.
pub bmap-again :
    (ip bn a : ℕ) (sb : Superblock) (fs fs' : Fs)
    → IsMap sb fs
    → sb.size < 2 ^ 32
    → bmap ip bn sb fs ≡ ok (a, fs')
    → a ≢ 0
    → bmap ip bn sb fs' ≡ ok (a, fs')
bmap-again ip bn a sb fs fs' v small e ne = elim (Bool-cases (ltb bn ndirect)) [
  | inl direct ↦
      let lt : bn < ndirect = ground arith in
      let r2 : ℕ × Fs = (a, fs') in
      let first : addr_or_new ip bn sb fs ≡ r2 =
        ok-inj (addr_or_new ip bn sb fs) r2 (sym (bmap-direct ip bn sb fs lt) ∙ e) in
      let slot = addr_or_new-slot ip bn a sb fs fs' first ne in
      bmap-direct ip bn sb fs' lt
      ∙ ap ok (addr_or_new-here ip bn sb fs' (λ z. ne (sym slot ∙ z)) ∙ ap (λ x. (x, fs')) slot)
  | inr behind ↦ elim (Bool-cases (ltb bn (ndirect + nindirect))) [
    | inl inside ↦ indirect-again ip bn a sb fs fs' v small (ground arith) (ground arith) e ne
    | inr outside ↦ absurd (panic-≢-ok (a, fs') (sym (bmap-beyond ip bn sb fs (ground arith)) ∙ e))
  ]
]
