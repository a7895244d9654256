-- ===== src/Vm/Grown.antt =====
-- The rounds of `uvmalloc` of kernel/vm.c, and what it comes to.
use os_lab.Base.{
  ℕ, suc, ◌+◌, ◌-◌, ◌/◌, ◌<◌, ◌≤◌, ◌≡◌, ◌≢◌, ◌⊎◌, inl, inr, refl, sym, ap, ◌∙◌, arith, true, ◌==◌,
  Bool-cases, ==_iff, ==-ne, if◌then◌else◌, List, [], ◌∷◌, Outcome, ok, panic, length, ◌*◌, ◌>>=◌,
}
use os_lab.Vm.{pgsize}
use os_lab.Vm.Walk.{Space, maxva, pte_v, pte_u, pte_flags, kfree, mappages}
use os_lab.Vm.Tree.{IsTree}
use os_lab.Vm.Lookup.{leaf}
use os_lab.Vm.Mapped.{Mapped}
use os_lab.Vm.Sizes.{user_perm, uvmdealloc, uvmalloc_loop}
use os_lab.Vm.Alloc.{with_page, user_perm_lem, Grew}

-- What `uvmalloc` comes to: the `n` pages from number `first` on are new since `s0`, three pages of the free
-- list at most for each that was left at `s`, or fewer than that were free and `kalloc` has panicked.
abbrev pub Enlarged : (root first n left newsz : ℕ) → (s0 s : Space) → Outcome (ℕ × Space) → Type 0
Enlarged root first n left newsz s0 s o =
    ((s' : Space) × (place' : ℕ → ℕ) × (o ≡ ok (newsz, s'))
      × IsTree root place' s'
      × Grew root first n s0 s'
      × (length s.free ≤ length s'.free + 3 * left))
    ⊎ ((o ≡ panic) × (length s.free < 3 * left))

pub uvmalloc_loop-dry :
    (n root a oldsz newsz xperm : ℕ) (s : Space)
    → s.free ≡ []
    → uvmalloc_loop (suc n) root a oldsz newsz xperm s ≡ panic
unfolding uvmalloc_loop
uvmalloc_loop-dry n root a oldsz newsz xperm s dry = rw dry refl

pub uvmalloc_loop-page :
    (n root a oldsz newsz xperm mem : ℕ) (ps : List ℕ) (s : Space)
    → s.free ≡ mem ∷ ps
    → mem ≢ 0
    → uvmalloc_loop (suc n) root a oldsz newsz xperm s ≡ (
        mappages root a pgsize mem (user_perm xperm) (with_page mem ps s) >>= λ r.
        if r.0
        then uvmalloc_loop n root (a + pgsize) oldsz newsz xperm r.1
        else (uvmdealloc root a oldsz (kfree mem r.1) >>= λ r. ok (0, r.1)))
unfolding uvmalloc_loop
uvmalloc_loop-page n root a oldsz newsz xperm mem ps s free-eq ne =
    rw (free-eq, ==-ne mem 0 ne) refl

pub uvmalloc_loop-next :
    (n root a oldsz newsz xperm mem : ℕ) (ps : List ℕ) (s s2 : Space)
    → s.free ≡ mem ∷ ps
    → mem ≢ 0
    → mappages root a pgsize mem (user_perm xperm) (with_page mem ps s) ≡ ok (true, s2)
    → uvmalloc_loop (suc n) root a oldsz newsz xperm s
      ≡ uvmalloc_loop n root (a + pgsize) oldsz newsz xperm s2
uvmalloc_loop-next n root a oldsz newsz xperm mem ps s s2 free-eq ne e =
    uvmalloc_loop-page n root a oldsz newsz xperm mem ps s free-eq ne ∙ rw e refl

pub uvmalloc_loop-panic :
    (n root a oldsz newsz xperm mem : ℕ) (ps : List ℕ) (s : Space)
    → s.free ≡ mem ∷ ps
    → mem ≢ 0
    → mappages root a pgsize mem (user_perm xperm) (with_page mem ps s) ≡ panic
    → uvmalloc_loop (suc n) root a oldsz newsz xperm s ≡ panic
uvmalloc_loop-panic n root a oldsz newsz xperm mem ps s free-eq ne e =
    uvmalloc_loop-page n root a oldsz newsz xperm mem ps s free-eq ne ∙ rw e refl

-- A page more
pub Grew-suc :
    (root first k mem xperm : ℕ) (s0 s1 s2 : Space)
    → (first + k + 1) * 4096 ≤ maxva
    → xperm < 1024
    → Grew root first k s0 s1
    → Mapped root (first + k) 1 mem (user_perm xperm) s1 s2
    → Grew root first (k + 1) s0 s2
Grew-suc root first k mem xperm s0 s1 s2 fits small g m = record {
  outside = λ vb hb out. m.outside vb hb (omega arith) ∙ g.outside vb hb (omega arith);
  inside = λ vb hb lo hi. elim (Bool-cases (vb / 4096 == first + k)) [
    | inl here ↦
        let e : vb / 4096 ≡ first + k = (==_iff (vb / 4096) (first + k)).0 here in
        let w = m.inside vb hb (omega (arith, e)) (omega (arith, e)) in
        let (valid, leaf_flags, user) =
          user_perm_lem (mem + (vb / 4096 - (first + k)) * 4096) xperm small in
        ((ap pte_v w ∙ valid, λ e1. leaf_flags (ap pte_flags (sym w) ∙ e1)), ap pte_u w ∙ user)
    | inr ne ↦
        let w : leaf root vb s2 ≡ leaf root vb s1 = m.outside vb hb (ground arith) in
        let ((valid, leaf_flags), user) = g.inside vb hb lo (ground arith) in
        ((ap pte_v w ∙ valid, λ e1. leaf_flags (ap pte_flags (sym w) ∙ e1)), ap pte_u w ∙ user)
  ];
}

pub Grew-same :
    (root first k : ℕ) (s0 s1 s2 : Space)
    → ((vb : ℕ) → vb < maxva → leaf root vb s2 ≡ leaf root vb s1)
    → Grew root first k s0 s1
    → Grew root first k s0 s2
Grew-same root first k s0 s1 s2 same g = record {
  outside = λ vb hb out. same vb hb ∙ g.outside vb hb out;
  inside = λ vb hb lo hi.
      let w = same vb hb in
      let ((valid, leaf_flags), user) = g.inside vb hb lo hi in
      ((ap pte_v w ∙ valid, λ e1. leaf_flags (ap pte_flags (sym w) ∙ e1)), ap pte_u w ∙ user);
}
