-- ===== src/Pipe.antt =====
-- kernel/pipe.c: a ring of 512 bytes between a writer and a reader. A call runs until it returns
-- or goes to sleep; one that is woken runs its loop again from where it slept.
mod Bytes
mod Transfers
mod Ends
mod Tests
use os_lab.Base.{
  ℕ, zero, suc, ◌+◌, ◌-◌, ◌%◌, ◌^◌, ◌<◌, ◌≡◌, Bool, true, false, not, ◌&&◌, ◌||◌, ltb, ◌==◌,
  if◌then◌else◌, update, Option, none, some, List, [], ◌∷◌, ◌++◌, ℤ, pos, minus_one, Outcome, ok,
  panic, ◌>>=◌,
}
use os_lab.File.{File, Ftable, filealloc, fileclose, Closing, fd_pipe}

abbrev pub pipesize : ℕ
pipesize = 512

-- `struct pipe`; the counters are `uint`.
pub record Pipe : Type 0 where
  pub bytes : ℕ → ℕ
  pub nread : ℕ
  pub nwrite : ℕ
  pub readopen : Bool
  pub writeopen : Bool

-- A new pipe in a page of junk
unfoldable pub fresh : (ℕ → ℕ) → Pipe
fresh junk = record { bytes = junk; nread = 0; nwrite = 0; readopen = true; writeopen = true }

-- The file of one end of the pipe at address `pi`.
abbrev pub pipe_end : (pi : ℕ) → (readable writable : Bool) → File → File
pipe_end pi readable writable f = record f {
  type = fd_pipe;
  readable = readable;
  writable = writable;
  pipe = pi;
}

-- `pipealloc` with the page that `kalloc` answers, 0 for none: the two files, or -1 after what
-- was allocated has been given back, with what the closings go on to do.
unfoldable pub pipealloc : (pi : ℕ) → Ftable → Outcome (Option (ℕ × ℕ) × List Closing × Ftable)
pipealloc pi t =
    let (f0, t1) = filealloc t in
    elim f0 [
      | none ↦ ok (none, [], t1)
      | some r ↦
          let (f1, t2) = filealloc t1 in
          elim f1 [
            | none ↦ fileclose r t2 >>= λ c. ok (none, c.0 ∷ [], c.1)
            | some w ↦
                if pi == 0
                then (fileclose r t2 >>= λ c.
                    fileclose w c.1 >>= λ d. ok (none, c.0 ∷ d.0 ∷ [], d.1))
                else let t3 = update t2 r (pipe_end pi true false (t2 r)) in
                  ok (some (r, w), [], update t3 w (pipe_end pi false true (t3 w)))
          ]
    ]

-- `pipeclose`: the pipe, whether its page is freed, and which channel is woken: the readers'
-- when the writer goes, the writers' when the reader goes.
pub data Side : Type 0 where
  readers writers : Side

unfoldable pub pipeclose : Pipe → (writable : Bool) → Pipe × Bool × Side
pipeclose p writable =
    let p' = if writable then record p { writeopen = false } else record p { readopen = false } in
    (p', not p'.readopen && not p'.writeopen, if writable then readers else writers)

abbrev pub full : Pipe → Bool
full p = p.nwrite == (p.nread + pipesize) % 2 ^ 32

-- `pi->data[pi->nwrite++ % PIPESIZE] = ch`
unfoldable pub put_byte : ℕ → Pipe → Pipe
put_byte ch p = record p {
  bytes = update p.bytes (p.nwrite % pipesize) ch;
  nwrite = (p.nwrite + 1) % 2 ^ 32;
}

-- `ch = pi->data[pi->nread++ % PIPESIZE]`
unfoldable pub get_byte : Pipe → ℕ × Pipe
get_byte p = (p.bytes (p.nread % pipesize), record p { nread = (p.nread + 1) % 2 ^ 32 })

-- How a run of a transfer ends: with its result, or asleep with `i` bytes done.
pub data Run (A : Type 0) : Type 0 where
  returned : A → Run A
  asleep : (i : ℕ) → Run A

-- The loop of `pipewrite` with `m` bytes left of which the first is byte `i`. `copyin` is what is
-- read from the caller's memory, `none` for a bad address.
unfoldable pub pipewrite : (killed : Bool) → (ℕ → Option ℕ) → (m i : ℕ) → Pipe → Run ℤ × Pipe
pipewrite killed copyin zero i p = (returned (pos i), p)
pipewrite killed copyin (suc m) i p =
    let rest = λ (ch : ℕ). pipewrite killed copyin m (i + 1) (put_byte ch p) in
    if not p.readopen || killed
    then (returned minus_one, p)
    else if full p
    then (asleep i, p)
    else elim (copyin i) [ none ↦ (returned (pos i), p) | some ch ↦ rest ch ]

-- The copying loop of `piperead`, with `m` bytes left to read and `got` those read. `copyout` says
-- which bytes of the caller's buffer can be written.
unfoldable pub piperead_loop : (ℕ → Bool) → (m i : ℕ) → List ℕ → Pipe → ℕ × List ℕ × Pipe
piperead_loop copyout zero i got p = (i, got, p)
piperead_loop copyout (suc m) i got p =
    let (ch, p') = get_byte p in
    let rest = piperead_loop copyout m (i + 1) (got ++ ch ∷ []) p' in
    if p.nread == p.nwrite then (i, got, p) else if copyout i then rest else (i, got, p')

-- `piperead`, with the bytes that it copies out
unfoldable pub piperead : (killed : Bool) → (ℕ → Bool) → (n : ℕ) → Pipe → Run ℤ × List ℕ × Pipe
piperead killed copyout n p =
    if p.nread == p.nwrite && p.writeopen
    then (if killed then (returned minus_one, [], p) else (asleep 0, [], p))
    else let (i, got, p') = piperead_loop copyout n 0 [] p in (returned (pos i), got, p')
