-- ===== src/Fs/Ends.antt =====
-- Runs that come to an end, and `readi` and `dirlookup` of kernel/fs.c among them.
use os_lab.Base.{
  ℕ, zero, suc, ◌+◌, ◌-◌, ◌/◌, ◌%◌, ◌^◌, ◌≤◌, ◌≡◌, inl, inr, refl, arith, Bool, true, false, not,
  ltb, ◌==◌, Option-cases, if◌then◌else◌, List, scan, Outcome, ok, panic, ◌>>=◌,
}
use os_lab.Strings.{Mem}
use os_lab.Fs.{bsize, ndirect, nindirect, ninode, Superblock, Fs}
use os_lab.Fs.Table.{iget, is_inode}
use os_lab.Fs.Content.{bmap, addr_or_new, piece, readi_loop, readi}
use os_lab.Fs.Names.{kernel_copyout, read_dirent, namecmp, is_zero, dirlookup_loop, dirlookup}

-- A run that comes to an end
abbrev pub Ends {ℓ} : {A : Type ℓ} → Outcome A → Type 0
Ends (ok a) = Unit
Ends panic = Unit
Ends Outcome.blocked = Unit
Ends Outcome.out_of_fuel = ⊥

pub bind-Ends {ℓ κ} :
    {A : Type ℓ} {B : Type κ} (o : Outcome A) (f : A → Outcome B)
    → Ends o
    → ((a : A) → Ends (f a))
    → Ends (o >>= f)
bind-Ends (ok a) f h g = g a
bind-Ends panic f h g = tt
bind-Ends Outcome.blocked f h g = tt
bind-Ends Outcome.out_of_fuel f h g = elim h [ ]

pub if-Ends {ℓ} :
    {A : Type ℓ} (b : Bool) (x y : Outcome A)
    → (b ≡ true → Ends x)
    → (b ≡ false → Ends y)
    → Ends (if b then x else y)
if-Ends true x y hx hy = hx refl
if-Ends false x y hx hy = hy refl

bmap-Ends : (ip bn : ℕ) (sb : Superblock) (fs : Fs) → Ends (bmap ip bn sb fs)
unfolding bmap
bmap-Ends ip bn sb fs =
    let r = addr_or_new ip ndirect sb fs in
    if-Ends (ltb bn ndirect) _ _ (λ _. tt)
      λ _.
        if-Ends (ltb (bn - ndirect) nindirect) _ _ (λ _. if-Ends (r.0 == 0) _ _ (λ _. tt) (λ _. tt))
          (λ _. tt)

readi_loop-Ends :
    (copyout : (dst : ℕ) → (src : ℕ → ℕ) → (n : ℕ) → Mem → Bool × Mem) (fuel ip dst off tot n : ℕ)
    (sb : Superblock) (mem : Mem) (fs : Fs)
    → n ≤ tot + fuel
    → Ends (readi_loop copyout fuel ip dst off tot n sb mem fs)
unfolding readi_loop
readi_loop-Ends copyout zero ip dst off tot n sb mem fs enough =
    if-Ends (ltb tot n) _ _ (λ more. absurd (ground arith)) (λ _. tt)
readi_loop-Ends copyout (suc fuel) ip dst off tot n sb mem fs enough =
    if-Ends (ltb tot n) _ _
      (λ more. bind-Ends (bmap ip (off / bsize) sb fs) _ (bmap-Ends ip (off / bsize) sb fs) λ r.
        let m = piece (n - tot) off in
        let copied = copyout dst (λ i. r.1.block r.0 (off % bsize + i)) m mem in
        if-Ends (r.0 == 0) _ _ (λ _. tt)
          λ _.
            if-Ends copied.0 _ _
              (λ _.
                readi_loop-Ends copyout fuel ip (dst + m) (off + m) (tot + m) n sb copied.1 r.1
                  (ground arith))
              (λ _. tt))
      (λ _. tt)

readi-Ends :
    (copyout : (dst : ℕ) → (src : ℕ → ℕ) → (n : ℕ) → Mem → Bool × Mem) (ip dst off n : ℕ)
    (sb : Superblock) (mem : Mem) (fs : Fs)
    → Ends (readi copyout ip dst off n sb mem fs)
unfolding readi
readi-Ends copyout ip dst off n sb mem fs =
    let size = (fs.inode ip).size in
    let n' = if ltb size (off + n) then size - off else n in
    if-Ends (ltb size off) _ _ (λ _. tt)
      λ _.
        if-Ends (ltb ((off + n) % 2 ^ 32) off) _ _ (λ _. tt)
          λ _. readi_loop-Ends copyout n' ip dst off 0 n' sb mem fs (omega arith)

read_dirent-Ends : (dp off : ℕ) (sb : Superblock) (fs : Fs) → Ends (read_dirent dp off sb fs)
unfolding read_dirent
read_dirent-Ends dp off sb fs =
    bind-Ends (readi kernel_copyout dp 0 off 16 sb (λ a. 0) fs) _
      (readi-Ends kernel_copyout dp 0 off 16 sb (λ a. 0) fs)
      λ r. if-Ends (not (r.0 == 16)) _ _ (λ _. tt) (λ _. tt)

pub iget-Ends : (dev inum : ℕ) (fs : Fs) → Ends (iget dev inum fs)
unfolding iget
iget-Ends dev inum fs =
    elim (Option-cases (scan (λ ip. is_inode dev inum (fs.inode ip)) ninode 0)) [
      | inr (ip, e) ↦ rw (iget, e) tt
      | inl e ↦ elim (Option-cases (scan (λ ip. (fs.inode ip).ref == 0) ninode 0)) [
        | inr (ip, e') ↦ rw (iget, e, e') tt
        | inl e' ↦ rw (iget, e, e') tt
      ]
    ]

dirlookup_loop-Ends :
    (n off dp : ℕ) (name : List ℕ) (sb : Superblock) (fs : Fs)
    → Ends (dirlookup_loop n off dp name sb fs)
unfolding dirlookup_loop
dirlookup_loop-Ends zero off dp name sb fs = tt
dirlookup_loop-Ends (suc n) off dp name sb fs =
    bind-Ends (read_dirent dp off sb fs) _ (read_dirent-Ends dp off sb fs) λ r.
      let rest = dirlookup_loop-Ends n (off + 16) dp name sb r.1 in
      if-Ends (r.0.inum == 0) _ _ (λ _. rest)
        λ _.
          if-Ends (is_zero (namecmp name r.0.name)) _ _
            (λ _.
              bind-Ends (iget (fs.inode dp).dev r.0.inum r.1) _
                (iget-Ends (fs.inode dp).dev r.0.inum r.1) (λ g. tt))
            (λ _. rest)

pub dirlookup-Ends :
    (dp : ℕ) (name : List ℕ) (sb : Superblock) (fs : Fs) → Ends (dirlookup dp name sb fs)
unfolding dirlookup
dirlookup-Ends dp name sb fs =
    if-Ends (not ((fs.inode dp).type == 1)) _ _ (λ _. tt)
      λ _. dirlookup_loop-Ends (((fs.inode dp).size + 15) / 16) 0 dp name sb fs
