-- ===== src/Fs/Content.antt =====
-- kernel/fs.c: the content of inodes. `either_copyout` and `either_copyin` of kernel/proc.c, which copy
-- to and from the kernel or a process, are arguments: they give whether the copy was done, and the
-- memory or the block that is left.
use os_lab.Base.{
  ℕ, zero, suc, ◌+◌, ◌-◌, ◌*◌, ◌/◌, ◌%◌, ◌^◌, Bool, true, false, ◌&&◌, ltb, ◌==◌, if◌then◌else◌,
  min, update, Option, none, some, Outcome, ok, panic, ◌>>=◌,
}
use os_lab.Strings.{Mem}
use os_lab.Fs.{bsize, ndirect, nindirect, Superblock, Inode, Fs, uint_at, put_uint, log_write}
use os_lab.Fs.Blocks.{balloc, bfree}
use os_lab.Fs.Table.{put_inode, iupdate, iunlock}

abbrev pub set_addr : (ip slot addr : ℕ) → Fs → Fs
set_addr ip slot addr fs =
    put_inode ip (record (fs.inode ip) { addrs = update (fs.inode ip).addrs slot addr }) fs

-- `ip->addrs[slot]`, allocated if it is 0
unfoldable pub addr_or_new : (ip slot : ℕ) → Superblock → Fs → ℕ × Fs
addr_or_new ip slot sb fs =
    let addr = (fs.inode ip).addrs slot in
    let (new, fs1) = balloc sb fs in
    if addr == 0
    then (if new == 0 then (0, fs1) else (new, set_addr ip slot new fs1))
    else (addr, fs)

-- Entry `bn` of the indirect block `ind`, allocated if it is 0
unfoldable pub indirect_or_new : (ind bn : ℕ) → Superblock → Fs → ℕ × Fs
indirect_or_new ind bn sb fs =
    let addr = uint_at (fs.block ind) (4 * bn) in
    let (new, fs1) = balloc sb fs in
    if addr == 0
    then (if new == 0
        then (0, fs1)
        else (new, log_write ind (put_uint (fs1.block ind) (4 * bn) new) fs1))
    else (addr, fs)

unfoldable pub bmap : (ip bn : ℕ) → Superblock → Fs → Outcome (ℕ × Fs)
bmap ip bn sb fs =
    let (ind, fs1) = addr_or_new ip ndirect sb fs in
    if ltb bn ndirect
    then ok (addr_or_new ip bn sb fs)
    else if ltb (bn - ndirect) nindirect
    then (if ind == 0 then ok (0, fs1) else ok (indirect_or_new ind (bn - ndirect) sb fs1))
    else panic

-- The first loop of `itrunc`, with `n` addresses left
unfoldable pub itrunc_direct : (n i ip : ℕ) → Superblock → Fs → Outcome Fs
itrunc_direct zero i ip sb fs = ok fs
itrunc_direct (suc n) i ip sb fs =
    let addr = (fs.inode ip).addrs i in
    let freed = bfree addr sb fs >>= λ fs1. itrunc_direct n (i + 1) ip sb (set_addr ip i 0 fs1) in
    let rest = itrunc_direct n (i + 1) ip sb fs in if addr == 0 then rest else freed

-- Its second, over the entries of the indirect block `ind`
unfoldable pub itrunc_indirect : (n j ind : ℕ) → Superblock → Fs → Outcome Fs
itrunc_indirect zero j ind sb fs = ok fs
itrunc_indirect (suc n) j ind sb fs =
    let addr = uint_at (fs.block ind) (4 * j) in
    let freed = bfree addr sb fs >>= λ fs1. itrunc_indirect n (j + 1) ind sb fs1 in
    let rest = itrunc_indirect n (j + 1) ind sb fs in if addr == 0 then rest else freed

abbrev pub set_size : (ip size : ℕ) → Fs → Fs
set_size ip size fs = put_inode ip (record (fs.inode ip) { size = size }) fs

unfoldable pub itrunc : (ip : ℕ) → Superblock → Fs → Outcome Fs
itrunc ip sb fs = itrunc_direct ndirect 0 ip sb fs >>= λ fs1.
    let ind = (fs1.inode ip).addrs ndirect in
    (if ind == 0
      then ok fs1
      else (itrunc_indirect nindirect 0 ind sb fs1 >>= λ fs2.
          bfree ind sb fs2 >>= λ fs3. ok (set_addr ip ndirect 0 fs3)))
    >>= λ fs4. ok (iupdate ip sb (set_size ip 0 fs4))

-- `iput`; the lock of an inode without other references is free.
unfoldable pub iput : (ip : ℕ) → Superblock → Fs → Outcome Fs
iput ip sb fs =
    let drop : Fs → Fs =
      λ fs1. put_inode ip (record (fs1.inode ip) { ref = (fs1.inode ip).ref - 1 }) fs1 in
    let i = fs.inode ip in
    let last = itrunc ip sb (put_inode ip (record i { locked = true }) fs) >>= λ fs1.
    let fs2 = iupdate ip sb (put_inode ip (record (fs1.inode ip) { type = 0 }) fs1) in
    ok (drop (put_inode ip (record (fs2.inode ip) { valid = false; locked = false }) fs2)) in
    if i.ref == 1 && (i.valid && i.nlink == 0)
    then (if i.locked then Outcome.blocked else last)
    else ok (drop fs)

unfoldable pub iunlockput : (ip : ℕ) → Superblock → Fs → Outcome Fs
iunlockput ip sb fs = iunlock ip fs >>= λ fs1. iput ip sb fs1

-- `struct stat`
pub record Stat : Type 0 where
  pub dev : ℕ
  pub ino : ℕ
  pub type : ℕ
  pub nlink : ℕ
  pub size : ℕ

unfoldable pub stati : Inode → Stat
stati ip = record { dev = ip.dev; ino = ip.inum; type = ip.type; nlink = ip.nlink; size = ip.size }

-- The bytes of a block from `off` on that a transfer with `left` bytes to go can take
abbrev pub piece : (left off : ℕ) → ℕ
piece left off = min left (bsize - off % bsize)

module _ (either_copyout : (dst : ℕ) → (src : ℕ → ℕ) → (n : ℕ) → Mem → Bool × Mem) where
  -- The loop of `readi`, on fuel: what it returns, the memory and the file system
  unfoldable pub readi_loop :
      (fuel ip dst off tot n : ℕ) → Superblock → Mem → Fs → Outcome (ℕ × Mem × Fs)
  readi_loop zero ip dst off tot n sb mem fs =
      if ltb tot n then Outcome.out_of_fuel else ok (tot, mem, fs)
  readi_loop (suc fuel) ip dst off tot n sb mem fs =
      let go = bmap ip (off / bsize) sb fs >>= λ r.
      let m = piece (n - tot) off in
      let (done, mem1) = either_copyout dst (λ i. r.1.block r.0 (off % bsize + i)) m mem in
      let rest = readi_loop fuel ip (dst + m) (off + m) (tot + m) n sb mem1 r.1 in
      if r.0 == 0 then ok (tot, mem, r.1) else if done then rest else ok (2 ^ 32 - 1, mem1, r.1) in
      if ltb tot n then go else ok (tot, mem, fs)

  -- Each round reads a byte at least.
  unfoldable pub readi : (ip dst off n : ℕ) → Superblock → Mem → Fs → Outcome (ℕ × Mem × Fs)
  readi ip dst off n sb mem fs =
      let size = (fs.inode ip).size in
      let n' = if ltb size (off + n) then size - off else n in
      if ltb size off
      then ok (0, mem, fs)
      else if ltb ((off + n) % 2 ^ 32) off
      then ok (0, mem, fs)
      else readi_loop n' ip dst off 0 n' sb mem fs

module _ (either_copyin : (block : ℕ → ℕ) → (o src n : ℕ) → Bool × (ℕ → ℕ)) where
  -- The loop of `writei`, on fuel: the bytes written, and where it got to. A copy that has failed leaves
  -- its block in the cache without a `log_write`.
  unfoldable pub writei_loop : (fuel ip src off tot n : ℕ) → Superblock → Fs → Outcome (ℕ × ℕ × Fs)
  writei_loop zero ip src off tot n sb fs =
      if ltb tot n then Outcome.out_of_fuel else ok (tot, off, fs)
  writei_loop (suc fuel) ip src off tot n sb fs =
      let go = bmap ip (off / bsize) sb fs >>= λ r.
      let m = piece (n - tot) off in
      let (done, b) = either_copyin (r.1.block r.0) (off % bsize) src m in
      let rest = writei_loop fuel ip (src + m) (off + m) (tot + m) n sb (log_write r.0 b r.1) in
      if r.0 == 0
      then ok (tot, off, r.1)
      else if done
      then rest
      else ok (tot, off, record r.1 { block = update r.1.block r.0 b }) in
      if ltb tot n then go else ok (tot, off, fs)

  -- `none` for -1
  unfoldable pub writei : (ip src off n : ℕ) → Superblock → Fs → Outcome (Option ℕ × Fs)
  writei ip src off n sb fs =
      let written = writei_loop n ip src off 0 n sb fs >>= λ r.
      let fs1 = r.2 in
      let grown = if ltb (fs1.inode ip).size r.1 then set_size ip r.1 fs1 else fs1 in
      ok (some r.0, iupdate ip sb grown) in
      if ltb (fs.inode ip).size off
      then ok (none, fs)
      else if ltb ((off + n) % 2 ^ 32) off
      then ok (none, fs)
      else if ltb (268 * bsize) (off + n)
      then ok (none, fs)
      else written
