-- ===== src/Fs/References.antt =====
-- `iget`, `idup` and `iput` of kernel/fs.c on the table of inodes.
use os_lab.Base.{
  ℕ, ◌+◌, ◌-◌, ◌<◌, ◌≡◌, ◌≢◌, ◌⊎◌, inl, inr, refl, sym, ap, subst, fun_ext, ◌∙◌, arith, true, false,
  false≢true, ◌==◌, Bool-cases, Option-cases, ==_iff, update_self, update-ne, none, some, scan,
  scan-First, scan-none, ok, panic,
}
use os_lab.Fs.{ninode, Superblock, Inode, Fs}
use os_lab.Fs.Table.{put_inode, is_inode, recycled, iget, idup}
use os_lab.Fs.Content.{iput}

-- No two inodes of the table are in use for the same one on the disk.
abbrev pub IsTable : Fs → Type 0
IsTable fs =
    (i j : ℕ)
    → i < ninode
    → j < ninode
    → 0 < (fs.inode i).ref
    → 0 < (fs.inode j).ref
    → (fs.inode i).dev ≡ (fs.inode j).dev
    → (fs.inode i).inum ≡ (fs.inode j).inum
    → i ≡ j

-- An `iget` that has returned inode `ip`
pub record Got (dev inum ip : ℕ) (fs fs' : Fs) : Type 0 where
  pub inside : ip < ninode
  pub is_it : is_inode dev inum (fs'.inode ip) ≡ true
  pub others : (j : ℕ) → j ≢ ip → fs'.inode j ≡ fs.inode j
  pub blocks : fs'.block ≡ fs.block
  pub how :
      ((is_inode dev inum (fs.inode ip) ≡ true)
        × (fs'.inode ip ≡ record (fs.inode ip) { ref = (fs.inode ip).ref + 1 }))
      ⊎ (((fs.inode ip).ref ≡ 0)
          × ((fs'.inode ip).ref ≡ 1)
          × ((fs'.inode ip).valid ≡ false)
          × ((j : ℕ) → j < ninode → is_inode dev inum (fs.inode j) ≡ false))
  pub valid : IsTable fs'

is_inode_iff :
    (dev inum : ℕ) (i : Inode)
    → is_inode dev inum i ≡ true
    → (0 < i.ref) × (i.dev ≡ dev) × (i.inum ≡ inum)
is_inode_iff dev inum i h = (ground arith, ground arith, ground arith)

is_inode-intro :
    (dev inum : ℕ) (i : Inode)
    → 0 < i.ref
    → i.dev ≡ dev
    → i.inum ≡ inum
    → is_inode dev inum i ≡ true
is_inode-intro dev inum i used d n = ground arith

iget-some :
    (dev inum ip : ℕ) (fs : Fs)
    → scan (λ ip. is_inode dev inum (fs.inode ip)) ninode 0 ≡ some ip
    → iget dev inum fs
      ≡ ok (ip, put_inode ip (record (fs.inode ip) { ref = (fs.inode ip).ref + 1 }) fs)
unfolding iget
iget-some dev inum ip fs e = rw (iget, e) refl

iget-none :
    (dev inum : ℕ) (fs : Fs)
    → scan (λ ip. is_inode dev inum (fs.inode ip)) ninode 0 ≡ none
    → iget dev inum fs ≡ elim (scan (λ ip. (fs.inode ip).ref == 0) ninode 0) [
      | none ↦ panic
      | some ip ↦ ok (ip, put_inode ip (recycled dev inum (fs.inode ip)) fs)
    ]
unfolding iget
iget-none dev inum fs e = rw (iget, e) refl

-- A table with one inode replaced
put_inode-IsTable :
    (ip : ℕ) (i : Inode) (fs : Fs)
    → IsTable fs
    → ((j : ℕ)
        → j < ninode
        → j ≢ ip
        → 0 < (fs.inode j).ref
        → (fs.inode j).dev ≡ i.dev
        → (fs.inode j).inum ≢ i.inum)
    → IsTable (put_inode ip i fs)
put_inode-IsTable ip i fs v alone j k hj hk used_j used_k dev-eq inum-eq =
    elim (Bool-cases (j == ip)) [
      | inl at_j ↦ elim (Bool-cases (k == ip)) [
        | inl at_k ↦ (==_iff j ip).0 at_j ∙ sym ((==_iff k ip).0 at_k)
        | inr ne_k ↦ absurd (
            alone k hk (ground arith) (rw ne_k at used_k) (sym (rw (at_j, ne_k) at dev-eq))
              (sym (rw (at_j, ne_k) at inum-eq)))
      ]
      | inr ne_j ↦ elim (Bool-cases (k == ip)) [
        | inl at_k ↦ absurd (
            alone j hj (ground arith) (rw ne_j at used_j) (rw (ne_j, at_k) at dev-eq)
              (rw (ne_j, at_k) at inum-eq))
        | inr ne_k ↦
            v j k hj hk (rw ne_j at used_j) (rw ne_k at used_k) (rw (ne_j, ne_k) at dev-eq)
              (rw (ne_j, ne_k) at inum-eq)
      ]
    ]

-- Where no two inodes of the table are for the same one on the disk, `iget` returns an inode of the table
-- that is in use for the one asked for, or it panics, and then all the inodes of the table are in use for
-- others. One that was there before has a reference more; otherwise one without references has been taken,
-- with one reference and not valid. The others and the blocks are as before, and still no two are for the
-- same one.
pub iget-Got :
    (dev inum : ℕ) (fs : Fs)
    → IsTable fs
    → ((ip : ℕ) × (fs' : Fs) × (iget dev inum fs ≡ ok (ip, fs')) × Got dev inum ip fs fs')
      ⊎ ((iget dev inum fs ≡ panic)
          × ((j : ℕ)
              → j < ninode
              → (0 < (fs.inode j).ref) × (is_inode dev inum (fs.inode j) ≡ false)))
iget-Got dev inum fs v =
    elim (Option-cases (scan (λ ip. is_inode dev inum (fs.inode ip)) ninode 0)) [
      | inr (ip, e) ↦
          let r = scan-First (λ ip. is_inode dev inum (fs.inode ip)) ninode 0 ip e in
          let i = record (fs.inode ip) { ref = (fs.inode ip).ref + 1 } in
          let (used, dev-eq, inum-eq) = is_inode_iff dev inum (fs.inode ip) r.passes in
          let here : (put_inode ip i fs).inode ip ≡ i = update_self fs.inode ip i in
          inl (
            ip,
            put_inode ip i fs,
            iget-some dev inum ip fs e,
            record {
              inside = r.to;
              is_it =
                  ap (is_inode dev inum) here
                  ∙ is_inode-intro dev inum i (omega arith) dev-eq inum-eq;
              others = λ j ne. update-ne fs.inode ip j i ne;
              blocks = refl;
              how = inl (r.passes, here);
              valid =
                  put_inode-IsTable ip i fs v
                    λ j hj ne used_j d n. ne (v j ip hj r.to used_j used d n);
            },
          )
      | inl e ↦
          let absent : (j : ℕ) → j < ninode → is_inode dev inum (fs.inode j) ≡ false = λ j hj.
            scan-none (λ ip. is_inode dev inum (fs.inode ip)) ninode 0 e j (omega arith)
              (omega arith) in
          elim (Option-cases (scan (λ ip. (fs.inode ip).ref == 0) ninode 0)) [
            | inl full ↦ inr (
              iget-none dev inum fs e ∙ rw full refl,
              λ j hj.
                  let in_use =
                    scan-none (λ ip. (fs.inode ip).ref == 0) ninode 0 full j (omega arith)
                      (omega arith) in
                  (ground (arith, in_use), absent j hj),
            )
            | inr (ip, e') ↦
                let r = scan-First (λ ip. (fs.inode ip).ref == 0) ninode 0 ip e' in
                let i = recycled dev inum (fs.inode ip) in
                let here : (put_inode ip i fs).inode ip ≡ i = update_self fs.inode ip i in
                inl (
                  ip,
                  put_inode ip i fs,
                  iget-none dev inum fs e ∙ rw e' refl,
                  record {
                    inside = r.to;
                    is_it =
                        ap (is_inode dev inum) here
                        ∙ is_inode-intro dev inum i (omega arith) refl refl;
                    others = λ j ne. update-ne fs.inode ip j i ne;
                    blocks = refl;
                    how = inr (
                      (==_iff (fs.inode ip).ref 0).0 r.passes,
                      ap (λ i. i.ref) here,
                      ap (λ i. i.valid) here,
                      absent,
                    );
                    valid = put_inode-IsTable ip i fs v λ j hj ne used_j d n.
                        false≢true
                          (sym (absent j hj) ∙ is_inode-intro dev inum (fs.inode j) used_j d n);
                  },
                )
          ]
    ]

iput-shared :
    (ip : ℕ) (sb : Superblock) (fs : Fs)
    → 1 < (fs.inode ip).ref
    → iput ip sb fs ≡ ok (put_inode ip (record (fs.inode ip) { ref = (fs.inode ip).ref - 1 }) fs)
unfolding iput
iput-shared ip sb fs shared =
    let more : (fs.inode ip).ref == 1 ≡ false = ground arith in rw more refl

put-put :
    (ip : ℕ) (i i' : Inode) (fs : Fs) → i' ≡ fs.inode ip → put_inode ip i' (put_inode ip i fs) ≡ fs
put-put ip i i' fs same =
    ap (λ f. record fs { inode = f })
      (fun_ext λ j. elim (Bool-cases (j == ip)) [
        | inl here ↦ rw here (same ∙ ap fs.inode (sym ((==_iff j ip).0 here)))
        | inr ne ↦ rw ne refl
      ])

abbrev less_one : Inode → Inode
less_one i = record i { ref = i.ref - 1 }

-- An `idup` of an inode in use and then an `iput` leave the file system as it was.
pub iput-idup :
    (ip : ℕ) (sb : Superblock) (fs : Fs) → 0 < (fs.inode ip).ref → iput ip sb (idup ip fs).1 ≡ ok fs
unfolding idup
iput-idup ip sb fs used =
    let i = record (fs.inode ip) { ref = (fs.inode ip).ref + 1 } in
    let fs1 = put_inode ip i fs in
    let here : fs1.inode ip ≡ i = update_self fs.inode ip i in
    let shared : 1 < (fs1.inode ip).ref = subst (λ x. 1 < x.ref) (sym here) (omega arith) in
    let back : record (fs1.inode ip) { ref = (fs1.inode ip).ref - 1 } ≡ fs.inode ip =
      ap less_one here ∙ ap (λ n. record (fs.inode ip) { ref = n }) (omega arith) in
    iput-shared ip sb fs1 shared
    ∙ ap ok (put-put ip i (record (fs1.inode ip) { ref = (fs1.inode ip).ref - 1 }) fs back)
