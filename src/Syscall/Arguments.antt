-- ===== src/Syscall/Arguments.antt =====
-- Words of a process's memory as arguments, kernel/syscall.c.
use os_lab.Base.{
  ℕ, ◌+◌, ◌%◌, ◌^◌, ◌<◌, ◌≤◌, ◌≡◌, ◌≢◌, ◌⊎◌, inl, inr, refl, arith, true, false, ◌||◌, ltb, leb,
  Bool-cases, ok,
}
use os_lab.Strings.{Mem}
use os_lab.Vm.{physical, IsMapped}
use os_lab.Vm.Copies.{copyin_lem}
use os_lab.Syscall.{fetchaddr}

-- `fetchaddr` in a process whose bytes are all mapped: it fetches the 8 bytes at an address from which 8
-- bytes are the process's, and answers -1 at every other address, those included from which
-- 8 bytes go past the end of the 64-bit addresses. A process has at most 2 ^ 38 bytes, and
-- its pages do not have the place that the word is fetched to.
pub fetchaddr_lem :
    (walkaddr : ℕ → ℕ) (sz addr ip : ℕ) (m : Mem)
    → sz ≤ 2 ^ 38
    → addr < 2 ^ 64
    → ((va : ℕ) → va < sz → IsMapped walkaddr va)
    → ((va j : ℕ) → va < sz → j < 8 → physical walkaddr va ≢ ip + j)
    → ((m' : Mem) × (fetchaddr walkaddr sz addr ip m ≡ ok (true, m'))
        × (addr + 8 ≤ sz)
        × ((i : ℕ) → i < 8 → m' (ip + i) ≡ m (physical walkaddr (addr + i))))
      ⊎ ((fetchaddr walkaddr sz addr ip m ≡ ok (false, m)) × (sz < addr + 8))
unfolding fetchaddr
fetchaddr_lem walkaddr sz addr ip m small word mapped apart =
    elim (Bool-cases (leb sz addr || ltb sz ((addr + 8) % 2 ^ 64))) [
      | inl beyond ↦ inr (rw beyond refl, ground arith)
      | inr inside ↦
          let whole : addr + 8 ≤ sz = ground arith in
          let (m', e, copied, _) =
            copyin_lem walkaddr ip addr 8 m (omega (arith, whole))
              (λ i lt. mapped (addr + i) (omega (arith, whole)))
              λ i j lti ltj. apart (addr + i) j (omega (arith, whole)) ltj in
          inl (m', rw inside e, whole, copied)
    ]
