-- ===== src/Vm/Frames.antt =====
-- What a run of `uvmunmap` of kernel/vm.c comes to, and its single rounds.
use os_lab.Base.{
  append-cons, append-nil, ℕ, zero, suc, ◌+◌, ◌*◌, ◌/◌, ◌<◌, ◌≤◌, ◌≡◌, ◌≢◌, ◌⊎◌, refl, sym, ap, ◌∙◌,
  arith, Bool, true, false, leb, ◌==◌, ==-ne, if◌then◌else◌, some, ok, List, [], ◌∷◌, ◌++◌,
}
use os_lab.Vm.{pgsize}
use os_lab.Vm.Walk.{
  Space, maxva, pte_v, pte2pa, pte_flags, write, kfree, walk_loop, walk, uvmunmap_loop,
}
use os_lab.Vm.Tree.{IsTree, leaf_at}
use os_lab.Vm.Lookup.{leaf, Found}

-- The frames that `n` pages from number `first` on are mapped to, in order.
abbrev pub frames : (root first n : ℕ) → Space → List ℕ
frames root first zero s = []
frames root first (suc n) s = pte2pa (leaf root (first * 4096) s) ∷ frames root (first + 1) n s

abbrev pub IsMappedPage : (root va : ℕ) → Space → Type 0
IsMappedPage root va s = (pte_v (leaf root va s) ≡ true) × (pte_flags (leaf root va s) ≢ 1)

-- What is left of the `n` pages from number `first` on.
pub record Unmapped (root first n : ℕ) (do_free : Bool) (s s' : Space) : Type 0 where
  pub outside :
      (vb : ℕ)
      → vb < maxva
      → (vb / 4096 < first) ⊎ (first + n ≤ vb / 4096)
      → leaf root vb s' ≡ leaf root vb s
  pub inside :
      (vb : ℕ) → vb < maxva → first ≤ vb / 4096 → vb / 4096 < first + n → leaf root vb s' ≡ 0
  pub same_free : s'.free ≡ s.free
  pub given_back : s'.freed ≡ (if do_free then s.freed ++ frames root first n s else s.freed)

pub frames-same :
    (root first n : ℕ) (s s' : Space)
    → ((i : ℕ) → i < n → leaf root ((first + i) * 4096) s' ≡ leaf root ((first + i) * 4096) s)
    → frames root first n s' ≡ frames root first n s
frames-same root first zero s s' same = refl
frames-same root first (suc n) s s' same =
    let here : leaf root (first * 4096) s' ≡ leaf root (first * 4096) s =
      ap (λ x. leaf root (x * 4096) s') (omega arith)
      ∙ same 0 (omega arith)
      ∙ ap (λ x. leaf root (x * 4096) s) (omega arith) in
    let there = frames-same root (first + 1) n s s' λ i lt.
      ap (λ x. leaf root (x * 4096) s') (omega arith)
      ∙ same (i + 1) (omega arith)
      ∙ ap (λ x. leaf root (x * 4096) s) (omega arith) in
    ap (λ w. pte2pa w ∷ frames root (first + 1) n s') here
    ∙ ap (λ ps. pte2pa (leaf root (first * 4096) s) ∷ ps) there

-- After the entry at `a` has been taken care of
abbrev pub dropped : (a : ℕ) → (do_free : Bool) → Space → Space
dropped a do_free s = write a 0 (if do_free then kfree (pte2pa (s.word a)) s else s)

abbrev pub given_now : (do_free : Bool) → List ℕ → ℕ → List ℕ
given_now do_free ps p = if do_free then ps ++ p ∷ [] else ps

pub given-eq :
    (do_free : Bool) (p : ℕ) (s : Space)
    → (if do_free then kfree p s else s) ≡ record s { freed = given_now do_free s.freed p }
given-eq true p s = refl
given-eq false p s = refl

pub given_now-cons :
    (do_free : Bool) (ps : List ℕ) (p : ℕ) (qs : List ℕ)
    → (if do_free then given_now do_free ps p ++ qs else given_now do_free ps p)
      ≡ (if do_free then ps ++ p ∷ qs else ps)
given_now-cons true ps p qs = append-cons ps p qs
given_now-cons false ps p qs = refl

pub nothing : (do_free : Bool) (ps : List ℕ) → ps ≡ (if do_free then ps ++ [] else ps)
nothing true ps = sym (append-nil ps)
nothing false ps = refl

pub given-IsTree :
    (root : ℕ) (place : ℕ → ℕ) (ps : List ℕ) (s : Space)
    → IsTree root place s
    → IsTree root place (record s { freed = ps })
given-IsTree root place ps s v = record {
  pages = v.pages;
  top = v.top;
  mid = v.mid;
  low = v.low;
  fresh = v.fresh;
  once = v.once;
}

pub given-Found :
    (root va a : ℕ) (ps : List ℕ) (s : Space)
    → Found root va s a
    → Found root va (record s { freed = ps }) a
given-Found root va a ps s f = record { there = f.there; there' = f.there'; is_at = f.is_at }

pub given-leaf :
    (root va : ℕ) (ps : List ℕ) (s : Space)
    → leaf root va (record s { freed = ps }) ≡ leaf root va s
unfolding leaf_at
given-leaf root va ps s = refl

pub uvmunmap_loop-step :
    (n root va a : ℕ) (do_free : Bool) (s : Space)
    → va < maxva
    → walk_loop false va 2 root s ≡ ok (some a, s)
    → pte_v (s.word a) ≡ true
    → pte_flags (s.word a) ≢ 1
    → uvmunmap_loop (suc n) root va do_free s
      ≡ uvmunmap_loop n root (va + pgsize) do_free (dropped a do_free s)
unfolding uvmunmap_loop walk
uvmunmap_loop-step n root va a do_free s low e valid leaf_flags =
    let below : leb maxva va ≡ false = ground arith in
    let is_leaf : pte_flags (s.word a) == 1 ≡ false = ==-ne (pte_flags (s.word a)) 1 leaf_flags in
    rw (below, e, valid, is_leaf) refl

pub Unmapped-zero :
    (root first : ℕ) (do_free : Bool) (s : Space) → Unmapped root first 0 do_free s s
Unmapped-zero root first do_free s = record {
  outside = λ vb hb out. refl;
  inside = λ vb hb lo hi. absurd (omega arith);
  same_free = refl;
  given_back = nothing do_free s.freed;
}
