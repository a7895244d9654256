-- ===== src/Fs/Marks.antt =====
-- The marks in the map of free blocks of kernel/fs.c, and what one change does to the others.
use os_lab.Base.{
  ℕ, ◌/◌, ◌%◌, ◌<◌, ◌≡◌, ◌≢◌, inl, inr, sym, ap, ◌∙◌, arith, Bool, true, false, not, ◌==◌,
  Bool-cases, ==_iff, update, update_self, update-ne,
}
use os_lab.Fs.{bpb, Superblock, Fs, test_bit, set_bit, clear_bit, bblock}
use os_lab.Fs.Bits.{
  test_bit-set_bit, test_bit-set_bit_ne, test_bit-clear_bit, test_bit-clear_bit_ne,
}
use os_lab.Fs.Blocks.{is_free, mark, unmark}

-- The map says that block `b` is in use.
abbrev pub is_used : (b : ℕ) → Superblock → Fs → Bool
is_used b sb fs = not (is_free (fs.block (bblock b sb)) (b % bpb))

-- The boot block and the blocks of the map itself are in use.
pub record IsMap (sb : Superblock) (fs : Fs) : Type 0 where
  pub boot : is_used 0 sb fs ≡ true
  pub within : (c : ℕ) → c < sb.size → bblock c sb < sb.size
  pub own : (c : ℕ) → c < sb.size → is_used (bblock c sb) sb fs ≡ true

pub mark_self : (map : ℕ → ℕ) (bi : ℕ) → is_free (mark map bi) bi ≡ false
mark_self map bi =
    let set = test_bit-set_bit (bi % 8) (map (bi / 8)) in
    let here = update_self map (bi / 8) (set_bit (bi % 8) (map (bi / 8))) in
    ap (λ x. not (test_bit (bi % 8) x)) here ∙ ap not set

pub unmark_self : (map : ℕ → ℕ) (bi : ℕ) → is_free (unmark map bi) bi ≡ true
unmark_self map bi =
    let clear = test_bit-clear_bit (bi % 8) (map (bi / 8)) in
    let here = update_self map (bi / 8) (clear_bit (bi % 8) (map (bi / 8))) in
    ap (λ x. not (test_bit (bi % 8) x)) here ∙ ap not clear

-- A change of one bit of a byte leaves the other bits of the map.
other_bit :
    (change : ℕ → ℕ → ℕ) (map : ℕ → ℕ) (bi j : ℕ)
    → ((k m x : ℕ) → k ≢ m → test_bit k (change m x) ≡ test_bit k x)
    → j ≢ bi
    → is_free (update map (bi / 8) (change (bi % 8) (map (bi / 8)))) j ≡ is_free map j
other_bit change map bi j keeps ne = elim (Bool-cases (j / 8 == bi / 8)) [
  | inr away ↦
      ap (λ x. not (test_bit (j % 8) x))
        (update-ne map (bi / 8) (j / 8) (change (bi % 8) (map (bi / 8))) (ground arith))
  | inl near ↦
      let e : j / 8 ≡ bi / 8 = (==_iff (j / 8) (bi / 8)).0 near in
      let here : update map (bi / 8) (change (bi % 8) (map (bi / 8))) (j / 8)
          ≡ change (bi % 8) (map (j / 8)) =
        rw near (ap (λ x. change (bi % 8) (map x)) (sym e)) in
      ap (λ x. not (test_bit (j % 8) x)) here
      ∙ ap not (keeps (j % 8) (bi % 8) (map (j / 8)) (omega (arith, e, ne)))
]

pub mark-other : (map : ℕ → ℕ) (bi j : ℕ) → j ≢ bi → is_free (mark map bi) j ≡ is_free map j
mark-other map bi j ne = other_bit set_bit map bi j test_bit-set_bit_ne ne

pub unmark-other : (map : ℕ → ℕ) (bi j : ℕ) → j ≢ bi → is_free (unmark map bi) j ≡ is_free map j
unmark-other map bi j ne = other_bit clear_bit map bi j test_bit-clear_bit_ne ne
