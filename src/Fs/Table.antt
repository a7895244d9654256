-- ===== src/Fs/Table.antt =====
-- kernel/fs.c: the inodes on the disk and the table of those in use.
use os_lab.Base.{
  ℕ, zero, suc, ◌+◌, ◌-◌, ◌*◌, ◌%◌, Bool, true, false, not, ◌&&◌, leb, ltb, ◌==◌, if◌then◌else◌,
  update, Option, none, some, scan, each, Outcome, ok, panic, ◌>>=◌,
}
use os_lab.Fs.{
  ndirect, ninode, Superblock, Inode, Fs, uint_at, put_uint, short_at, put_short, log_write, iblock,
}

abbrev pub put_inode : (ip : ℕ) → Inode → Fs → Fs
put_inode ip i fs = record fs { inode = update fs.inode ip i }

-- Where `struct dinode` number `inum` starts in its block, 64 bytes each
abbrev pub dinode : (inum : ℕ) → ℕ
dinode inum = 64 * (inum % 16)

-- The table as it is loaded, with no inode in use, has its locks initialised.
unfoldable pub iinit : Fs → Fs
iinit fs = record fs { inode = each (λ i ip. record ip { locked = false }) ninode 0 fs.inode }

-- An inode of the table that is in use for the given one on the disk
abbrev pub is_inode : (dev inum : ℕ) → Inode → Bool
is_inode dev inum ip = ltb 0 ip.ref && (ip.dev == dev && ip.inum == inum)

abbrev pub recycled : (dev inum : ℕ) → Inode → Inode
recycled dev inum ip = record ip { dev = dev; inum = inum; ref = 1; valid = false }

-- The loop of `iget` returns the inode if it is there; `empty` is the first that is not in use.
unfoldable pub iget : (dev inum : ℕ) → Fs → Outcome (ℕ × Fs)
iget dev inum fs = elim (scan (λ ip. is_inode dev inum (fs.inode ip)) ninode 0) [
  | some ip ↦ ok (ip, put_inode ip (record (fs.inode ip) { ref = (fs.inode ip).ref + 1 }) fs)
  | none ↦ elim (scan (λ ip. (fs.inode ip).ref == 0) ninode 0) [
    | none ↦ panic
    | some ip ↦ ok (ip, put_inode ip (recycled dev inum (fs.inode ip)) fs)
  ]
]

unfoldable pub idup : (ip : ℕ) → Fs → ℕ × Fs
idup ip fs = (ip, put_inode ip (record (fs.inode ip) { ref = (fs.inode ip).ref + 1 }) fs)

-- The `uint`s of an address list from byte `o` of a block on
abbrev pub addrs_at : (block : ℕ → ℕ) → (o : ℕ) → ℕ → ℕ
addrs_at block o i = uint_at block (o + 4 * i)

-- `n` of them, from the `i`th on, written there
abbrev pub put_addrs : (n i o : ℕ) → (addrs : ℕ → ℕ) → (block : ℕ → ℕ) → ℕ → ℕ
put_addrs zero i o addrs block = block
put_addrs (suc n) i o addrs block =
    put_addrs n (i + 1) o addrs (put_uint block (o + 4 * i) (addrs i))

unfoldable pub iupdate : (ip : ℕ) → Superblock → Fs → Fs
iupdate ip sb fs =
    let i = fs.inode ip in
    let o = dinode i.inum in
    let b0 = fs.block (iblock i.inum sb) in
    let b1 =
      put_short (put_short (put_short (put_short b0 o i.type) (o + 2) i.major) (o + 4) i.minor)
        (o + 6) i.nlink in
    let b2 = put_addrs (ndirect + 1) 0 (o + 12) i.addrs (put_uint b1 (o + 8) i.size) in
    log_write (iblock i.inum sb) b2 fs

-- The fields that `ilock` reads from the disk
abbrev pub loaded : (block : ℕ → ℕ) → (o : ℕ) → Inode → Inode
loaded block o ip = record ip {
  type = short_at block o;
  major = short_at block (o + 2);
  minor = short_at block (o + 4);
  nlink = short_at block (o + 6);
  size = uint_at block (o + 8);
  addrs = λ i. if ltb i (ndirect + 1) then addrs_at block (o + 12) i else ip.addrs i;
  valid = true;
}

unfoldable pub ilock : (ip : ℕ) → Superblock → Fs → Outcome Fs
ilock ip sb fs =
    let i = fs.inode ip in
    let held = record i { locked = true } in
    let read = loaded (fs.block (iblock i.inum sb)) (dinode i.inum) held in
    if ltb i.ref 1
    then panic
    else if i.locked
    then Outcome.blocked
    else if i.valid
    then ok (put_inode ip held fs)
    else if read.type == 0
    then panic
    else ok (put_inode ip read fs)

unfoldable pub iunlock : (ip : ℕ) → Fs → Outcome Fs
iunlock ip fs =
    let i = fs.inode ip in
    if not i.locked
    then panic
    else if ltb i.ref 1
    then panic
    else ok (put_inode ip (record i { locked = false }) fs)

-- `n` bytes of a block from byte `o` on set to 0
abbrev pub clear_bytes : (o n : ℕ) → (block : ℕ → ℕ) → ℕ → ℕ
clear_bytes o n block i = if leb o i && ltb i (o + n) then 0 else block i

-- The loop of `ialloc` goes over the inodes on the disk. `none` is the null pointer.
unfoldable pub ialloc : (dev type : ℕ) → Superblock → Fs → Outcome (Option ℕ × Fs)
ialloc dev type sb fs =
    elim (scan (λ inum. short_at (fs.block (iblock inum sb)) (dinode inum) == 0) (sb.ninodes - 1)
      1) [
        | none ↦ ok (none, fs)
        | some inum ↦
            let o = dinode inum in
            let b = put_short (clear_bytes o 64 (fs.block (iblock inum sb))) o type in
            iget dev inum (log_write (iblock inum sb) b fs) >>= λ r. ok (some r.0, r.1)
      ]
