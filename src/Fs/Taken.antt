-- ===== src/Fs/Taken.antt =====
-- What it means that `balloc` of kernel/fs.c has found a block.
use os_lab.Base.{
  ℕ, suc, ◌+◌, ◌-◌, ◌%◌, ◌<◌, ◌≡◌, ◌≢◌, inl, inr, refl, sym, ap, ◌∙◌, arith, true, false,
  false≢true, not, ◌==◌, Bool-cases, ==_iff, min, update, update_self, update-ne, none, some, scan,
}
use os_lab.Fs.{bpb, Superblock, Fs, log_write, bblock}
use os_lab.Fs.Blocks.{bzero, is_free, mark, balloc_loop}
use os_lab.Fs.Marks.{is_used, IsMap, mark_self, mark-other}

-- A `balloc` that has found block `b`
pub record Taken (sb : Superblock) (b : ℕ) (fs fs' : Fs) : Type 0 where
  pub positive : 0 < b
  pub inside : b < sb.size
  pub was_free : is_used b sb fs ≡ false
  pub now_used : is_used b sb fs' ≡ true
  pub others : (c : ℕ) → c < sb.size → c ≢ b → is_used c sb fs' ≡ is_used c sb fs
  pub zeroed : (i : ℕ) → fs'.block b i ≡ 0
  pub kept : (c : ℕ) → c ≢ b → c ≢ bblock b sb → fs'.block c ≡ fs.block c
  pub inodes : fs'.inode ≡ fs.inode
  pub valid : IsMap sb fs'

abbrev pub after_mark : (b bi : ℕ) → Superblock → Fs → Fs
after_mark b bi sb fs =
    bzero (b + bi) (log_write (bblock b sb) (mark (fs.block (bblock b sb)) bi) fs)

pub balloc_loop-some :
    (n b bi : ℕ) (sb : Superblock) (fs : Fs)
    → scan (is_free (fs.block (bblock b sb))) (min bpb (sb.size - b)) 0 ≡ some bi
    → balloc_loop (suc n) b sb fs ≡ (b + bi, after_mark b bi sb fs)
unfolding balloc_loop
balloc_loop-some n b bi sb fs e = rw (balloc_loop, e) refl

pub balloc_loop-none :
    (n b : ℕ) (sb : Superblock) (fs : Fs)
    → scan (is_free (fs.block (bblock b sb))) (min bpb (sb.size - b)) 0 ≡ none
    → balloc_loop (suc n) b sb fs ≡ balloc_loop n (b + bpb) sb fs
unfolding balloc_loop
balloc_loop-none n b sb fs e = rw (balloc_loop, e) refl

-- The block that a free bit stands for
module _ (sb : Superblock) (fs : Fs) (v : IsMap sb fs) (b : ℕ) (inside : b < sb.size)
    (free : is_used b sb fs ≡ false) where
  abbrev map_block : ℕ
  map_block = bblock b sb

  abbrev pub new_map : ℕ → ℕ
  new_map = mark (fs.block map_block) (b % bpb)

  abbrev done : Fs
  done = bzero b (log_write map_block new_map fs)

  not_map : (c : ℕ) → c < sb.size → bblock c sb ≢ b
  not_map c hc e = false≢true (sym free ∙ ap (λ x. is_used x sb fs) (sym e) ∙ v.own c hc)

  not_boot : b ≢ 0
  not_boot e = false≢true (sym free ∙ ap (λ x. is_used x sb fs) e ∙ v.boot)

  done-map :
      (c : ℕ)
      → c < sb.size
      → done.block (bblock c sb) ≡ update fs.block map_block new_map (bblock c sb)
  unfolding bzero
  done-map c hc =
      update-ne (update fs.block map_block new_map) b (bblock c sb) (λ i. 0) (not_map c hc)

  done-others : (c : ℕ) → c < sb.size → c ≢ b → is_used c sb done ≡ is_used c sb fs
  done-others c hc ne =
      ap (λ m. not (is_free m (c % bpb))) (done-map c hc)
      ∙ elim (Bool-cases (bblock c sb == map_block)) [
        | inr away ↦ rw away refl
        | inl near ↦
            let e : bblock c sb ≡ map_block = (==_iff (bblock c sb) map_block).0 near in
            rw near (
              ap not (mark-other (fs.block map_block) (b % bpb) (c % bpb) (omega (arith, e, ne)))
              ∙ ap (λ x. not (is_free (fs.block x) (c % bpb))) (sym e))
      ]

  done-used : is_used b sb done ≡ true
  done-used =
      ap (λ m. not (is_free m (b % bpb)))
        (done-map b inside ∙ update_self fs.block map_block new_map)
      ∙ ap not (mark_self (fs.block map_block) (b % bpb))

  done-any : (c : ℕ) → c < sb.size → is_used c sb fs ≡ true → is_used c sb done ≡ true
  done-any c hc used =
      done-others c hc (λ e. false≢true (sym free ∙ ap (λ x. is_used x sb fs) (sym e) ∙ used))
      ∙ used

  pub done-Taken : Taken sb b fs done
  unfolding bzero
  done-Taken = record {
    positive = let ne = not_boot in omega (arith, ne);
    inside = inside;
    was_free = free;
    now_used = done-used;
    others = done-others;
    zeroed = λ i. ap (λ f. f i) (update_self (update fs.block map_block new_map) b (λ i. 0));
    kept = λ c ne ne'.
        update-ne (update fs.block map_block new_map) b c (λ i. 0) ne
        ∙ update-ne fs.block map_block c new_map ne';
    inodes = refl;
    valid = record {
      boot = done-any 0 (omega arith) v.boot;
      within = v.within;
      own = λ c hc. done-any (bblock c sb) (v.within c hc) (v.own c hc);
    };
  }
