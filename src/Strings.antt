-- ===== src/Strings.antt =====
-- kernel/string.c. The routines on blocks of memory run over a map from addresses to bytes; those
-- on strings run over the buffers that their pointers are into, as lists of bytes.
pub mod Blocks
mod Copies
mod Compare
mod Tests
use mathlib.Core.Option
use os_lab.Base.{
  ℕ, zero, suc, ◌+◌, ◌-◌, ◌%◌, ◌<◌, ◌≡◌, Bool, true, false, not, ltb, ◌==◌, if◌then◌else◌, update,
  Option, none, some, List, [], ◌∷◌, ◌&&◌, ℤ, pos, sub_ℕ,
}

-- Memory: a byte at each address
abbrev pub Mem : Type 0
Mem = ℕ → ℕ

-- `for (i = 0; i < n; i++) cdst[i] = c`, with `n - i` rounds left
memset_loop : ℕ → ℕ → ℕ → Mem → Mem
memset_loop zero d c m = m
memset_loop (suc n) d c m = memset_loop n (d + 1) c (update m d c)

-- The byte is `c` as a `char`.
unfoldable pub memset : ℕ → ℕ → ℕ → Mem → Mem
unfolding memset_loop
memset dst c n m = memset_loop n dst (c % 256) m

-- `while (n-- > 0) *d++ = *s++`
copy_up : ℕ → ℕ → ℕ → Mem → Mem
copy_up zero d s m = m
copy_up (suc n) d s m = copy_up n (d + 1) (s + 1) (update m d (m s))

-- `while (n-- > 0) *--d = *--s`, where `d` and `s` are past the blocks
copy_down : ℕ → ℕ → ℕ → Mem → Mem
copy_down zero d s m = m
copy_down (suc n) d s m = copy_down n (d - 1) (s - 1) (update m (d - 1) (m (s - 1)))

unfoldable pub memmove : ℕ → ℕ → ℕ → Mem → Mem
unfolding copy_up copy_down
memmove dst src n m =
    if n == 0
    then m
    else if ltb src dst && ltb dst (src + n)
    then copy_down n (dst + n) (src + n) m
    else copy_up n dst src m

unfoldable pub memcpy : ℕ → ℕ → ℕ → Mem → Mem
unfolding memmove
memcpy dst src n m = memmove dst src n m

-- The difference of the first bytes that differ, as an `int`.
unfoldable pub memcmp : ℕ → ℕ → ℕ → Mem → ℤ
memcmp s1 s2 zero m = pos 0
memcmp s1 s2 (suc n) m =
    let rest = memcmp (s1 + 1) (s2 + 1) n m in
    if not (m s1 == m s2) then sub_ℕ (m s1) (m s2) else rest

-- A string function reads its buffers up to the terminator. `none`: it ran off a buffer's end.
unfoldable pub strlen : List ℕ → Option ℕ
strlen [] = none
strlen (c ∷ s) = if c == 0 then some 0 else Option.map suc (strlen s)

unfoldable pub strncmp : List ℕ → List ℕ → ℕ → Option ℤ
strncmp p q zero = some (pos 0)
strncmp (c ∷ p) (d ∷ q) (suc n) =
    let rest = strncmp p q n in if not (c == 0) && c == d then rest else some (sub_ℕ c d)
strncmp p q (suc n) = none

-- What is left of the buffer after `*s = 0`.
abbrev pub put_nul : List ℕ → List ℕ
put_nul [] = []
put_nul (d ∷ ds) = 0 ∷ ds

-- `while (--n > 0 && (*s++ = *t++) != 0)` and `*s = 0`, with `n - 1` rounds: after a terminator
-- has been copied the next byte is cleared as well.
unfoldable pub safestrcpy_loop : ℕ → List ℕ → List ℕ → List ℕ
safestrcpy_loop zero s t = put_nul s
safestrcpy_loop (suc n) [] t = []
safestrcpy_loop (suc n) (d ∷ s) [] = put_nul (d ∷ s)
safestrcpy_loop (suc n) (d ∷ s) (c ∷ t) =
    let rest = safestrcpy_loop n s t in if c == 0 then 0 ∷ put_nul s else c ∷ rest

unfoldable pub safestrcpy : List ℕ → List ℕ → ℕ → List ℕ
unfolding safestrcpy_loop
safestrcpy s t zero = s
safestrcpy s t (suc n) = safestrcpy_loop n s t

-- `while (n-- > 0) *s++ = 0`
unfoldable pub pad : ℕ → List ℕ → List ℕ
pad zero s = s
pad (suc n) [] = []
pad (suc n) (d ∷ s) = 0 ∷ pad n s

unfoldable pub strncpy : ℕ → List ℕ → List ℕ → List ℕ
unfolding pad
strncpy zero s t = s
strncpy (suc n) [] t = []
strncpy (suc n) (d ∷ s) [] = d ∷ s
strncpy (suc n) (d ∷ s) (c ∷ t) =
    let rest = strncpy n s t in if c == 0 then 0 ∷ pad n s else c ∷ rest
