-- ===== src/Pipe/Tests.antt =====
-- kernel/pipe.c on a pipe whose counters are about to wrap.
use os_lab.Base.{
  ℕ, ◌+◌, ◌-◌, ◌<◌, ◌≡◌, inl, refl, true, false, arith, leb, if◌then◌else◌, some, [], ◌∷◌, ◌++◌,
  length, take, drop, min, pos, minus_one,
}
use os_lab.File.{File, Ftable, fd_none}
use os_lab.Pipe.{Pipe, pipesize, returned, asleep, pipewrite, piperead}
use os_lab.Pipe.Bytes.{used, contents, IsValid}
use os_lab.Pipe.Transfers.{slice, pipewrite-appends, piperead_lem, piperead-empty, piperead-loses}

-- Three bytes at the end of the counters' range and at its start
abbrev wrapping : Pipe
wrapping = record {
  bytes = λ i. i;
  nread = 4294967294;
  nwrite = 1;
  readopen = true;
  writeopen = true;
}

wrapping-IsValid : IsValid wrapping
wrapping-IsValid = record { read_in = omega arith; write_in = omega arith; fits = omega arith }

wrapping-contents : contents wrapping ≡ 510 ∷ 511 ∷ 0 ∷ []
wrapping-contents = refl

abbrev empty : Pipe
empty = record wrapping { nread = 1 }

empty-IsValid : IsValid empty
empty-IsValid = record { read_in = omega arith; write_in = omega arith; fits = omega arith }

pipewrite-appends_example :
    let (result, p') = pipewrite false (λ k. some (k + 65)) 2 0 wrapping in
    let k = min 2 (pipesize - used wrapping) in
    IsValid p'
    × (contents p' ≡ contents wrapping ++ slice (λ k. k + 65) 0 k)
    × (result ≡ (if leb 2 (pipesize - used wrapping) then returned (pos k) else asleep k))
pipewrite-appends_example = pipewrite-appends (λ k. k + 65) 2 wrapping wrapping-IsValid refl

piperead_lem_example :
    let (result, bytes, p') = piperead false (λ _. true) 2 wrapping in
    IsValid p'
    × (result ≡ returned (pos (min 2 (used wrapping))))
    × (bytes ≡ take 2 (contents wrapping))
    × (contents p' ≡ drop 2 (contents wrapping))
piperead_lem_example = piperead_lem false 2 wrapping wrapping-IsValid (inl (omega arith))

piperead-empty_example :
    piperead true (λ _. true) 4 empty ≡ ((if true then returned minus_one else asleep 0), [], empty)
piperead-empty_example = piperead-empty true (λ _. true) 4 empty empty-IsValid refl refl

piperead-loses_example :
    let (result, bytes, p') = piperead false (λ _. false) 3 wrapping in
    (result ≡ returned (pos 0)) × (bytes ≡ []) × (length (contents p') < length (contents wrapping))
piperead-loses_example = piperead-loses false 2 wrapping wrapping-IsValid (omega arith)

abbrev unused : File
unused = record {
  type = fd_none;
  ref = 0;
  readable = false;
  writable = false;
  pipe = 0;
  ip = 0;
  off = 0;
  major = 0;
}

abbrev page : ℕ
page = 4096

abbrev table : Ftable
table = λ _. unused
