-- ===== src/Fs/Slots.antt =====
-- The address lists of inodes and the indirect blocks of kernel/fs.c hold what has been allocated.
use os_lab.Base.{
  ℕ, ◌*◌, ◌^◌, ◌<◌, ◌≤◌, ◌≡◌, ◌≢◌, inl, inr, refl, sym, ap, subst, ◌∙◌, arith, true, false, ◌==◌,
  Bool-cases, ==_iff, ==-ne, if◌then◌else◌, update, update_self,
}
use os_lab.Fs.{Superblock, Fs, uint_at, put_uint, log_write}
use os_lab.Fs.Blocks.{balloc}
use os_lab.Fs.Content.{set_addr, addr_or_new, indirect_or_new}
use os_lab.Fs.Marks.{IsMap}
use os_lab.Fs.Bitmap.{balloc-Taken}

uint_at-put_uint : (block : ℕ → ℕ) (o w : ℕ) → w < 2 ^ 32 → uint_at (put_uint block o w) o ≡ w
uint_at-put_uint block o w small = ground arith

-- `balloc` leaves the inodes, and gives 0 or a block of the disk.
balloc_lem :
    (sb : Superblock) (fs : Fs)
    → IsMap sb fs
    → ((balloc sb fs).1.inode ≡ fs.inode) × ((balloc sb fs).0 ≤ sb.size) × IsMap sb (balloc sb fs).1
balloc_lem sb fs v = elim (balloc-Taken sb fs v) [
  | inl (b, fs', e, t) ↦ (
    ap (λ r. r.1.inode) e ∙ t.inodes,
    subst (λ r. r.0 ≤ sb.size) (sym e) (omega (arith, t.inside)),
    subst (λ r. IsMap sb r.1) (sym e) t.valid,
  )
  | inr (e, _) ↦ (
    ap (λ r. r.1.inode) e,
    subst (λ r. r.0 ≤ sb.size) (sym e) (omega arith),
    subst (λ r. IsMap sb r.1) (sym e) v,
  )
]

pub addr_or_new-here :
    (ip slot : ℕ) (sb : Superblock) (fs : Fs)
    → (fs.inode ip).addrs slot ≢ 0
    → addr_or_new ip slot sb fs ≡ ((fs.inode ip).addrs slot, fs)
unfolding addr_or_new
addr_or_new-here ip slot sb fs ne = rw (==-ne ((fs.inode ip).addrs slot) 0 ne) refl

-- With a block allocated for a slot that had none
abbrev with_new : (ip slot : ℕ) → ℕ × Fs → ℕ × Fs
with_new ip slot r = if r.0 == 0 then (0, r.1) else (r.0, set_addr ip slot r.0 r.1)

addr_or_new-new :
    (ip slot : ℕ) (sb : Superblock) (fs : Fs)
    → (fs.inode ip).addrs slot ≡ 0
    → addr_or_new ip slot sb fs ≡ with_new ip slot (balloc sb fs)
unfolding addr_or_new
addr_or_new-new ip slot sb fs e =
    let missing : (fs.inode ip).addrs slot == 0 ≡ true = ground arith in rw missing refl

with_new-slot :
    (ip slot : ℕ) (r : ℕ × Fs)
    → r.0 ≢ 0
    → (((with_new ip slot r).1.inode ip).addrs slot ≡ r.0) × ((with_new ip slot r).0 ≡ r.0)
with_new-slot ip slot r ne =
    let found = ==-ne r.0 0 ne in
    let put =
      update_self r.1.inode ip
        (record (r.1.inode ip) { addrs = update (r.1.inode ip).addrs slot r.0 }) in
    rw found (ap (λ i. i.addrs slot) put ∙ update_self (r.1.inode ip).addrs slot r.0, refl)

with_new-zero : (ip slot : ℕ) (r : ℕ × Fs) → (with_new ip slot r).0 ≢ 0 → r.0 ≢ 0
with_new-zero ip slot r ne z = let missing : r.0 == 0 ≡ true = ground arith in ne (rw missing refl)

-- A slot that has given a block holds it.
pub addr_or_new-slot :
    (ip slot a : ℕ) (sb : Superblock) (fs fs1 : Fs)
    → addr_or_new ip slot sb fs ≡ (a, fs1)
    → a ≢ 0
    → (fs1.inode ip).addrs slot ≡ a
addr_or_new-slot ip slot a sb fs fs1 e ne = elim (Bool-cases ((fs.inode ip).addrs slot == 0)) [
  | inr there ↦
      let here = sym (addr_or_new-here ip slot sb fs (ground arith)) ∙ e in
      ap (λ r. (r.1.inode ip).addrs slot) (sym here) ∙ ap (λ r. r.0) here
  | inl missing ↦
      let r = balloc sb fs in
      let new =
        sym (addr_or_new-new ip slot sb fs ((==_iff ((fs.inode ip).addrs slot) 0).0 missing)) ∙ e in
      let some_block = with_new-zero ip slot r (λ z. ne (sym (ap (λ r. r.0) new) ∙ z)) in
      let (held, given) = with_new-slot ip slot r some_block in
      ap (λ r. (r.1.inode ip).addrs slot) (sym new) ∙ held ∙ sym given ∙ ap (λ r. r.0) new
]

pub addr_or_new-IsMap :
    (ip slot : ℕ) (sb : Superblock) (fs : Fs) → IsMap sb fs → IsMap sb (addr_or_new ip slot sb fs).1
addr_or_new-IsMap ip slot sb fs v = elim (Bool-cases ((fs.inode ip).addrs slot == 0)) [
  | inr there ↦ subst (λ r. IsMap sb r.1) (sym (addr_or_new-here ip slot sb fs (ground arith))) v
  | inl missing ↦
      let (_, _, v1) = balloc_lem sb fs v in
      subst (λ r. IsMap sb r.1)
        (sym (addr_or_new-new ip slot sb fs ((==_iff ((fs.inode ip).addrs slot) 0).0 missing)))
        (elim (Bool-cases ((balloc sb fs).0 == 0)) [
          | inl none_left ↦ rw none_left v1
          | inr found ↦ rw found (record { boot = v1.boot; within = v1.within; own = v1.own })
        ])
]

pub indirect_or_new-here :
    (ind bn : ℕ) (sb : Superblock) (fs : Fs)
    → uint_at (fs.block ind) (4 * bn) ≢ 0
    → indirect_or_new ind bn sb fs ≡ (uint_at (fs.block ind) (4 * bn), fs)
unfolding indirect_or_new
indirect_or_new-here ind bn sb fs ne =
    let there : (uint_at (fs.block ind) (4 * bn) == 0) ≡ false =
      ==-ne (uint_at (fs.block ind) (4 * bn)) 0 ne in
    rw there refl

abbrev with_entry : (ind bn : ℕ) → ℕ × Fs → ℕ × Fs
with_entry ind bn r =
    if r.0 == 0 then (0, r.1) else (r.0, log_write ind (put_uint (r.1.block ind) (4 * bn) r.0) r.1)

indirect_or_new-new :
    (ind bn : ℕ) (sb : Superblock) (fs : Fs)
    → uint_at (fs.block ind) (4 * bn) ≡ 0
    → indirect_or_new ind bn sb fs ≡ with_entry ind bn (balloc sb fs)
unfolding indirect_or_new
indirect_or_new-new ind bn sb fs e =
    let missing : (uint_at (fs.block ind) (4 * bn) == 0) ≡ true =
      subst (λ x. (x == 0) ≡ true) (sym e) refl in
    rw missing refl

with_entry-held :
    (ind bn : ℕ) (r : ℕ × Fs)
    → r.0 < 2 ^ 32
    → (with_entry ind bn r).0 ≢ 0
    → (uint_at ((with_entry ind bn r).1.block ind) (4 * bn) ≡ (with_entry ind bn r).0)
      × ((with_entry ind bn r).1.inode ≡ r.1.inode)
with_entry-held ind bn r small ne = elim (Bool-cases (r.0 == 0)) [
  | inl missing ↦ absurd (ne (rw missing refl))
  | inr found ↦
      let b = put_uint (r.1.block ind) (4 * bn) r.0 in
      rw found (
        ap (λ x. uint_at x (4 * bn)) (update_self r.1.block ind b)
            ∙ uint_at-put_uint (r.1.block ind) (4 * bn) r.0 small,
        refl,
      )
]

-- An entry that has given a block holds it, and no inode has changed.
pub indirect_or_new-entry :
    (ind bn a : ℕ) (sb : Superblock) (fs fs1 : Fs)
    → IsMap sb fs
    → sb.size < 2 ^ 32
    → indirect_or_new ind bn sb fs ≡ (a, fs1)
    → a ≢ 0
    → (uint_at (fs1.block ind) (4 * bn) ≡ a) × (fs1.inode ≡ fs.inode)
indirect_or_new-entry ind bn a sb fs fs1 v small e ne =
    elim (Bool-cases (uint_at (fs.block ind) (4 * bn) == 0)) [
      | inr there ↦
          let here = sym (indirect_or_new-here ind bn sb fs (ground arith)) ∙ e in
          (
            ap (λ r. uint_at (r.1.block ind) (4 * bn)) (sym here) ∙ ap (λ r. r.0) here,
            ap (λ r. r.1.inode) (sym here),
          )
      | inl missing ↦
          let r = balloc sb fs in
          let (inodes, fits, _) = balloc_lem sb fs v in
          let new =
            sym (
              indirect_or_new-new ind bn sb fs
                ((==_iff (uint_at (fs.block ind) (4 * bn)) 0).0 missing))
            ∙ e in
          let (held, same) =
            with_entry-held ind bn r (omega (arith, fits))
              (λ z. ne (sym (ap (λ r. r.0) new) ∙ z)) in
          (
            ap (λ r. uint_at (r.1.block ind) (4 * bn)) (sym new) ∙ held ∙ ap (λ r. r.0) new,
            ap (λ r. r.1.inode) (sym new) ∙ same ∙ inodes,
          )
    ]
