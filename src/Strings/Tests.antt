-- ===== src/Strings/Tests.antt =====
-- kernel/string.c on concrete buffers.
use os_lab.Base.{ℕ, ◌≡◌, refl, some, List, [], ◌∷◌, pos}
use os_lab.Strings.{Mem, memset, memmove, strlen, strncmp, safestrcpy}
use os_lab.Strings.Copies.{text}
use os_lab.Strings.Blocks.{memset-at}

abbrev ramp : Mem
ramp a = a

-- Blocks that overlap, upwards and downwards.
memmove_overlap : (memmove 12 10 4 ramp 15 ≡ 13) × (memmove 10 12 4 ramp 10 ≡ 12)
unfolding memmove
memmove_overlap = (refl, refl)

memset-at_example : memset 8 0x141 4 ramp 9 ≡ 0x41
memset-at_example = memset-at 8 0x141 4 ramp 9

-- "init", in a buffer
abbrev init : List ℕ
init = b'i' ∷ b'n' ∷ b'i' ∷ b't' ∷ 0 ∷ 7 ∷ []

abbrev junk : List ℕ
junk = 9 ∷ 9 ∷ 9 ∷ 9 ∷ 9 ∷ []

init-text : text init ≡ b'i' ∷ b'n' ∷ b'i' ∷ b't' ∷ []
unfolding text
init-text = refl

strlen-init : strlen init ≡ some 4
unfolding strlen
strlen-init = refl

safestrcpy_cuts : safestrcpy junk init 3 ≡ b'i' ∷ b'n' ∷ 0 ∷ 9 ∷ 9 ∷ []
unfolding safestrcpy
safestrcpy_cuts = refl

strncmp_order : strncmp init junk 3 ≡ some (pos 96)
unfolding strncmp
strncmp_order = refl
