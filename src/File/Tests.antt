-- ===== src/File/Tests.antt =====
-- kernel/file.c on a concrete table.
use os_lab.Base.{true, false, update}
use os_lab.File.{File, Ftable, fd_none, fd_pipe, fd_inode}

abbrev unused : File
unused = record {
  type = fd_none;
  ref = 0;
  readable = false;
  writable = false;
  pipe = 0;
  ip = 0;
  off = 0;
  major = 0;
}

-- The read end of a pipe at slot 0, and a file with two references at slot 1.
abbrev table : Ftable
table =
    update
      (update (λ _. unused) 0
        (record unused { type = fd_pipe; ref = 1; readable = true; pipe = 9 }))
      1 (record unused { type = fd_inode; ref = 2; ip = 5 })
