-- ===== src/Log/Loops.antt =====
-- The loops of kernel/log.c: what they leave in the cache's view and on the disk.
use os_lab.Base.{
  ℕ, zero, suc, ◌+◌, ◌-◌, ◌<◌, ◌≤◌, ◌≡◌, ◌≢◌, ◌⊎◌, inl, inr, refl, sym, ap, ◌∙◌, arith, Bool, leb,
  ltb, ◌==◌, ◌&&◌, if◌then◌else◌, not, update, update_self, update-ne, Bool-cases, ==_iff,
}
use os_lab.Log.{
  Block, Store, Log, bwrite, modify, bunpin_if, install_loop, write_log_loop, read_blocks,
  write_blocks,
}

-- One `bwrite` of block `b` with the words `w`.
abbrev pub put : ℕ → Block → Store → Store
put b w s = bwrite b (modify b w s)

-- A `write_log` of `m` blocks from `tail` on, of a log that its own region does not log.
pub record Logged (log : Log) (m tail : ℕ) (s s' : Store) : Type 0 where
  pub power : s'.power ≡ s.power - m
  pub view_out :
      (c : ℕ) → (c < log.start + tail + 1) ⊎ (log.start + tail + m < c) → s'.view c ≡ s.view c
  pub disk_out :
      (c : ℕ) → (c < log.start + tail + 1) ⊎ (log.start + tail + m < c) → s'.disk c ≡ s.disk c
  pub view_in :
      (j : ℕ) → tail ≤ j → j < tail + m → s'.view (log.start + j + 1) ≡ s.view (log.lh.block j)
  pub disk_in :
      0 < s'.power
      → (j : ℕ) → tail ≤ j
      → j < tail + m
      → s'.disk (log.start + j + 1) ≡ s.view (log.lh.block j)

-- The block is outside of the log.
abbrev pub IsHome : Log → ℕ → Type 0
IsHome log b = (b < log.start) ⊎ (log.start + 30 < b)

pub write_log_loop-Logged :
    (log : Log) (m tail : ℕ) (s : Store)
    → tail + m ≤ 30
    → ((j : ℕ) → tail ≤ j → j < tail + m → IsHome log (log.lh.block j))
    → Logged log m tail s (write_log_loop log m tail s)
unfolding write_log_loop
write_log_loop-Logged log zero tail s fits home = record {
  power = omega arith;
  view_out = λ c out. refl;
  disk_out = λ c out. refl;
  view_in = λ j lo hi. absurd (omega arith);
  disk_in = λ on j lo hi. absurd (omega arith);
}
write_log_loop-Logged log (suc m) tail s fits home =
    let to = log.start + tail + 1 in
    let w = s.view (log.lh.block tail) in
    let s1 = put to w s in
    let r =
      write_log_loop-Logged log m (tail + 1) s1 (omega arith)
        (λ j lo hi. home j (omega arith) (omega arith)) in
    let apart : (j : ℕ)
        → tail ≤ j
        → j < tail + suc m
        → s1.view (log.lh.block j) ≡ s.view (log.lh.block j) =
      λ j lo hi. update-ne s.view to (log.lh.block j) w (λ e. ground (arith, home j)) in
    let here : s1.view to ≡ w = update_self s.view to w in
    record {
      power = omega (arith, r.power);
      view_out = λ c out. r.view_out c (omega arith) ∙ update-ne s.view to c w (omega arith);
      disk_out = λ c out. r.disk_out c (omega arith) ∙ ground arith;
      view_in = λ j lo hi. elim (Bool-cases (j == tail)) [
        | inl e ↦ rw ((==_iff j tail).0 e) (r.view_out to (omega arith) ∙ here)
        | inr ne ↦ r.view_in j (ground arith) (omega arith) ∙ apart j lo hi
      ];
      disk_in = λ on j lo hi. elim (Bool-cases (j == tail)) [
        | inl e ↦
            let kept = r.disk_out to (omega arith) in
            let written : s1.disk to ≡ w =
              ground (arith, r.power, here, update_self s.disk to (s1.view to)) in
            rw ((==_iff j tail).0 e) (kept ∙ written)
        | inr ne ↦ r.disk_in on j (ground arith) (omega arith) ∙ apart j lo hi
      ];
    }

-- An `install_trans` of `m` blocks from `tail` on, where the log holds what block `b` is to have,
-- `want b`, for the blocks that it names.
pub record Installed (log : Log) (want : ℕ → Block) (m tail : ℕ) (s s' : Store) : Type 0 where
  pub power : s'.power ≡ s.power - m
  pub view_out : (c : ℕ) → ¬ IsHome log c → s'.view c ≡ s.view c
  pub disk_out : (c : ℕ) → ¬ IsHome log c → s'.disk c ≡ s.disk c
  pub kept : (c : ℕ) → s.disk c ≡ want c → s'.disk c ≡ want c
  pub done :
      0 < s'.power
      → (j : ℕ) → tail ≤ j
      → j < tail + m
      → s'.disk (log.lh.block j) ≡ want (log.lh.block j)

pub install_loop-Installed :
    (recovering : Bool) (log : Log) (want : ℕ → Block) (m tail : ℕ) (s : Store)
    → tail + m ≤ 30
    → ((j : ℕ) → tail ≤ j → j < tail + m → IsHome log (log.lh.block j))
    → ((j : ℕ) → tail ≤ j → j < tail + m → s.view (log.start + j + 1) ≡ want (log.lh.block j))
    → Installed log want m tail s (install_loop recovering log m tail s)
unfolding install_loop
install_loop-Installed recovering log want zero tail s fits home holds = record {
  power = omega arith;
  view_out = λ c out. refl;
  disk_out = λ c out. refl;
  kept = λ c e. e;
  done = λ on j lo hi. absurd (omega arith);
}
install_loop-Installed recovering log want (suc m) tail s fits home holds =
    let to = log.lh.block tail in
    let w = s.view (log.start + tail + 1) in
    let s1 = bunpin_if (not recovering) to (put to w s) in
    let to_home = home tail (omega arith) (omega arith) in
    let w-eq : w ≡ want to = holds tail (omega arith) (omega arith) in
    let apart : (j : ℕ) → tail + 1 ≤ j → j < tail + suc m → log.start + j + 1 ≢ to =
      λ j lo hi e. omega (arith, to_home) in
    let r =
      install_loop-Installed recovering log want m (tail + 1) s1 (omega arith)
        (λ j lo hi. home j (omega arith) (omega arith))
        λ j lo hi.
          update-ne s.view to (log.start + j + 1) w (apart j lo (omega arith))
          ∙ holds j (omega arith) (omega arith) in
    let out : (c : ℕ) → ¬ IsHome log c → c ≢ to = λ c not_home e. not_home (rw e to_home) in
    let own : want to ≡ update s.view to w to = sym (update_self s.view to w ∙ w-eq) in
    let kept_one : (c : ℕ) → s.disk c ≡ want c → s1.disk c ≡ want c = λ c e.
      elim (Bool-cases (c == to)) [
        | inl same ↦
            let same' : c ≡ to = (==_iff c to).0 same in ground (arith, e, own, ap want same')
        | inr ne ↦ ground (arith, e)
      ] in
    record {
      power = omega (arith, r.power);
      view_out = λ c not_home. r.view_out c not_home ∙ update-ne s.view to c w (out c not_home);
      disk_out = λ c not_home. r.disk_out c not_home ∙ ground (arith, out c not_home);
      kept = λ c e. r.kept c (kept_one c e);
      done = λ on j lo hi. elim (Bool-cases (j == tail)) [
        | inl e ↦
            let written : s1.disk to ≡ want to =
              ground
                (arith, r.power, update_self s.view to w, update_self s.disk to (s1.view to)) in
            rw ((==_iff j tail).0 e) (r.kept to written)
        | inr ne ↦ r.done on j (ground arith) (omega arith)
      ];
    }

-- Without power an installation leaves the disk.
pub install_loop-dark :
    (recovering : Bool) (log : Log) (m tail : ℕ) (s : Store)
    → s.power ≡ 0
    → let s' = install_loop recovering log m tail s in
      (s'.power ≡ 0) × ((c : ℕ) → s'.disk c ≡ s.disk c)
unfolding install_loop
install_loop-dark recovering log zero tail s dark = (dark, λ c. refl)
install_loop-dark recovering log (suc m) tail s dark =
    let to = log.lh.block tail in
    let s1 = bunpin_if (not recovering) to (put to (s.view (log.start + tail + 1)) s) in
    let (off, same) = install_loop-dark recovering log m (tail + 1) s1 (omega arith) in
    (off, λ c. same c ∙ rw dark)

-- The header's loops copy the first `m` block numbers from place `i` on.
pub write_blocks_at :
    (block : ℕ → ℕ) (m i : ℕ) (words : Block) (k : ℕ)
    → write_blocks block m i words k ≡ (if ltb i k && leb k (i + m) then block (k - 1) else words k)
unfolding write_blocks
write_blocks_at block zero i words k = ground arith
write_blocks_at block (suc m) i words k =
    write_blocks_at block m (i + 1) (update words (i + 1) (block i)) k ∙ ground arith

pub read_blocks_at :
    (words : Block) (m i : ℕ) (block : ℕ → ℕ) (k : ℕ)
    → read_blocks words m i block k ≡ (if leb i k && ltb k (i + m) then words (k + 1) else block k)
unfolding read_blocks
read_blocks_at words zero i block k = ground arith
read_blocks_at words (suc m) i block k =
    read_blocks_at words m (i + 1) (update block i (words (i + 1))) k ∙ ground arith
