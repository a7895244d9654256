-- ===== src/Fs/Names.antt =====
-- kernel/fs.c: directories and path names. A path is the bytes before its terminator, a name the
-- DIRSIZ = 14 bytes of its buffer.
use os_lab.Base.{
  ℕ, zero, suc, ◌+◌, ◌-◌, ◌/◌, ◌%◌, Bool, true, false, not, ◌&&◌, leb, ltb, ◌==◌, if◌then◌else◌,
  Option, none, some, List, [], ◌∷◌, ◌++◌, length, get_or, take, drop, Outcome, ok, panic, ◌>>=◌, ℤ,
  pos, negsuc,
}
use os_lab.Strings.{Mem, strncmp, strncpy}
use os_lab.Fs.{Superblock, Fs, short_at}
use os_lab.Fs.Table.{iget, idup, ilock, iunlock}
use os_lab.Fs.Content.{readi, writei, iput, iunlockput}

abbrev pub dirsiz : ℕ
dirsiz = 14

-- `either_copyout` and `either_copyin` for a kernel address
abbrev pub kernel_copyout : (dst : ℕ) → (src : ℕ → ℕ) → (n : ℕ) → Mem → Bool × Mem
kernel_copyout dst src n mem =
    (true, λ a. if leb dst a && ltb a (dst + n) then src (a - dst) else mem a)

abbrev pub kernel_copyin : Mem → (block : ℕ → ℕ) → (o src n : ℕ) → Bool × (ℕ → ℕ)
kernel_copyin mem block o src n =
    (true, λ i. if leb o i && ltb i (o + n) then mem (src + (i - o)) else block i)

-- `struct dirent`
pub record Dirent : Type 0 where
  pub inum : ℕ
  pub name : List ℕ

-- `n` bytes from address `a` on
abbrev pub bytes : (n a : ℕ) → Mem → List ℕ
bytes zero a mem = []
bytes (suc n) a mem = mem a ∷ bytes n (a + 1) mem

abbrev pub dirent_of : Mem → Dirent
dirent_of mem = record { inum = short_at mem 0; name = bytes dirsiz 2 mem }

-- The entry at byte `off` of directory `dp`
unfoldable pub read_dirent : (dp off : ℕ) → Superblock → Fs → Outcome (Dirent × Fs)
read_dirent dp off sb fs = readi kernel_copyout dp 0 off 16 sb (λ a. 0) fs >>= λ r.
    if not (r.0 == 16) then panic else ok (dirent_of r.1, r.2)

-- Of two names with a byte for each that is compared
unfoldable pub namecmp : (s t : List ℕ) → Option ℤ
namecmp s t = strncmp s t dirsiz

abbrev pub is_zero : Option ℤ → Bool
is_zero none = false
is_zero (some (pos n)) = n == 0
is_zero (some (negsuc n)) = false

-- The loop of `dirlookup`, with `n` entries left: the inode and the offset of its entry, or null
unfoldable pub dirlookup_loop :
    (n off dp : ℕ) → (name : List ℕ) → Superblock → Fs → Outcome (Option (ℕ × ℕ) × Fs)
dirlookup_loop zero off dp name sb fs = ok (none, fs)
dirlookup_loop (suc n) off dp name sb fs = read_dirent dp off sb fs >>= λ r.
    let rest = dirlookup_loop n (off + 16) dp name sb r.1 in
    let found = iget (fs.inode dp).dev r.0.inum r.1 >>= λ g. ok (some (g.0, off), g.1) in
    if r.0.inum == 0 then rest else if is_zero (namecmp name r.0.name) then found else rest

-- `T_DIR` is 1.
unfoldable pub dirlookup :
    (dp : ℕ) → (name : List ℕ) → Superblock → Fs → Outcome (Option (ℕ × ℕ) × Fs)
dirlookup dp name sb fs =
    if not ((fs.inode dp).type == 1)
    then panic
    else dirlookup_loop (((fs.inode dp).size + 15) / 16) 0 dp name sb fs

-- The second loop of `dirlink`: where it stops
unfoldable pub empty_dirent : (n off dp : ℕ) → Superblock → Fs → Outcome (ℕ × Fs)
empty_dirent zero off dp sb fs = ok (off, fs)
empty_dirent (suc n) off dp sb fs = read_dirent dp off sb fs >>= λ r.
    let rest = empty_dirent n (off + 16) dp sb r.1 in if r.0.inum == 0 then ok (off, r.1) else rest

-- The sixteen bytes of an entry
abbrev pub dirent_bytes : Dirent → Mem
dirent_bytes de a =
    if a == 0
    then de.inum % 256
    else if a == 1
    then de.inum / 256 % 256
    else get_or de.name (a - 2) 0

-- Whether it has succeeded: true for 0
unfoldable pub dirlink :
    (dp : ℕ) → (name : List ℕ) → (inum : ℕ) → Superblock → Fs → Outcome (Bool × Fs)
dirlink dp name inum sb fs = dirlookup dp name sb fs >>= λ r. elim r.0 [
  | some found ↦ iput found.0 sb r.1 >>= λ fs1. ok (false, fs1)
  | none ↦ empty_dirent (((r.1.inode dp).size + 15) / 16) 0 dp sb r.1 >>= λ e.
      let de : Dirent = record {
        inum = inum % 65536;
        name = strncpy dirsiz (bytes dirsiz 0 (λ a. 0)) name;
      } in
      writei (kernel_copyin (dirent_bytes de)) dp 0 e.0 16 sb e.1 >>= λ w. ok (is_sixteen w.0, w.1)
]
  where
    is_sixteen : Option ℕ → Bool
    is_sixteen none = false
    is_sixteen (some n) = n == 16

abbrev pub slash : ℕ
slash = 47

-- `while (*path == '/') path++;`
unfoldable pub skip_slashes : List ℕ → List ℕ
skip_slashes [] = []
skip_slashes (c ∷ path) = let rest = skip_slashes path in if c == slash then rest else c ∷ path

-- `while (*path != '/' && *path != 0) path++;`: the bytes passed and the rest
unfoldable pub split_elem : List ℕ → List ℕ × List ℕ
split_elem [] = ([], [])
split_elem (c ∷ path) =
    let (passed, rest) = split_elem path in
    if c == slash then ([], c ∷ path) else (c ∷ passed, rest)

-- What is put into the name's buffer
abbrev pub put_name : (elem_bytes name : List ℕ) → List ℕ
put_name e name =
    if leb dirsiz (length e)
    then take dirsiz e ++ drop dirsiz name
    else e ++ 0 ∷ drop (length e + 1) name

-- `skipelem` behind its first loop
abbrev pub first_elem : (path name : List ℕ) → Option (List ℕ × List ℕ)
first_elem [] name = none
first_elem (c ∷ path) name =
    let (e, rest) = split_elem (c ∷ path) in some (skip_slashes rest, put_name e name)

unfoldable pub skipelem : (path name : List ℕ) → Option (List ℕ × List ℕ)
skipelem path name = first_elem (skip_slashes path) name

-- What `namex` gives: an inode or null, and the name's buffer
abbrev pub Named : Type 0
Named = Option ℕ × List ℕ × Fs

-- `iunlockput(ip); return 0;`
abbrev pub give_up : (ip : ℕ) → (name : List ℕ) → Superblock → Fs → Outcome Named
give_up ip name sb fs = iunlockput ip sb fs >>= λ fs1. ok (none, name, fs1)

-- The end of a round, with what `dirlookup` found
abbrev pub go_down :
    (continue : ℕ → Fs → Outcome Named)
    → (ip : ℕ) → (name : List ℕ) → Superblock
    → Option (ℕ × ℕ)
    → Fs
    → Outcome Named
go_down continue ip name sb none fs = give_up ip name sb fs
go_down continue ip name sb (some (next, off)) fs = iunlockput ip sb fs >>= λ fs1. continue next fs1

-- A round from the locked inode on; `stop` is whether it is the parent that is wanted.
unfoldable pub namex_round :
    (continue : ℕ → Fs → Outcome Named)
    → (stop : Bool) → (ip : ℕ) → (name : List ℕ) → Superblock
    → Fs
    → Outcome Named
namex_round continue stop ip name sb fs =
    if not ((fs.inode ip).type == 1)
    then give_up ip name sb fs
    else if stop
    then (iunlock ip fs >>= λ fs1. ok (some ip, name, fs1))
    else (dirlookup ip name sb fs >>= λ r. go_down continue ip name sb r.0 r.1)

-- The loop of `namex`, on fuel
unfoldable pub namex_loop :
    (fuel ip : ℕ)
    → (path : List ℕ) → (to_parent : Bool) → (name : List ℕ) → Superblock
    → Fs
    → Outcome Named
namex_loop zero ip path to_parent name sb fs = Outcome.out_of_fuel
namex_loop (suc fuel) ip path to_parent name sb fs = elim (skipelem path name) [
  | none ↦
      if to_parent then (iput ip sb fs >>= λ fs1. ok (none, name, fs1)) else ok (some ip, name, fs)
  | some (rest, name1) ↦ ilock ip sb fs >>= λ fs1.
      namex_round (λ next fs2. namex_loop fuel next rest to_parent name1 sb fs2)
        (to_parent && length rest == 0) ip name1 sb fs1
]

abbrev pub is_absolute : List ℕ → Bool
is_absolute [] = false
is_absolute (c ∷ path) = c == slash

-- ROOTDEV and ROOTINO are 1; `cwd` is the inode of the process's directory.
unfoldable pub namex :
    (cwd : ℕ)
    → (path : List ℕ) → (to_parent : Bool) → (name : List ℕ) → Superblock
    → Fs
    → Outcome Named
namex cwd path to_parent name sb fs =
    let from : ℕ → Fs → Outcome Named =
      λ ip fs1. namex_loop (length path + 1) ip path to_parent name sb fs1 in
    if is_absolute path
    then (iget 1 1 fs >>= λ r. from r.0 r.1)
    else from (idup cwd fs).0 (idup cwd fs).1

unfoldable pub namei : (cwd : ℕ) → (path : List ℕ) → Superblock → Fs → Outcome (Option ℕ × Fs)
namei cwd path sb fs = namex cwd path false (bytes dirsiz 0 (λ a. 0)) sb fs >>= λ r. ok (r.0, r.2)

unfoldable pub nameiparent : (cwd : ℕ) → (path name : List ℕ) → Superblock → Fs → Outcome Named
nameiparent cwd path name sb fs = namex cwd path true name sb fs
