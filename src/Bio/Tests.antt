-- ===== src/Bio/Tests.antt =====
-- kernel/bio.c on a cache of three buffers.
use os_lab.Base.{
  ℕ, ◌<◌, ◌≡◌, ◌≢◌, ◌⊎◌, refl, arith, true, false, ◌==◌, if◌then◌else◌, some, List, [], ◌∷◌, ◌++◌,
  has, ok, panic,
}
use os_lab.Bio.{Bcache, is_block, bget, brelse}
use os_lab.Bio.Ring.{backwards}
use os_lab.Bio.Find.{first_of}
use os_lab.Bio.Ids.{IsCache, bget_lem}
use os_lab.Bio.Order.{brelse-last}

-- Buffers 3, 1, 2: buffer 3 has block 7 of device 1 and a reference, 1 has block 8 and none.
abbrev cache : Bcache
cache = record {
  next = λ b. if b == 0 then 3 else (if b == 3 then 1 else (if b == 1 then 2 else 0));
  prev = λ b. if b == 0 then 2 else (if b == 2 then 1 else (if b == 1 then 3 else 0));
  dev = λ b. if b == 2 then 0 else 1;
  blockno = λ b. if b == 3 then 7 else (if b == 1 then 8 else 0);
  valid = λ b. true;
  refcnt = λ b. if b == 3 then 1 else 0;
  locked = λ b. b == 3;
  pid = λ b. if b == 3 then 5 else 0;
}

abbrev order : List ℕ
order = 3 ∷ 1 ∷ 2 ∷ []

cache-IsCache : IsCache order cache
cache-IsCache = record {
  links = (refl, refl, (refl, refl, (refl, refl, (refl, refl))));
  buffers = (omega arith, (omega arith, (omega arith, tt)));
  once = ((omega arith, (omega arith, tt)), ((omega arith, tt), (tt, tt)));
  size = omega arith;
  one_buffer = λ a b ha hb real dev-eq block-eq. ground arith;
}

abbrev unused : Bcache
unused = record cache { dev = λ b. 0 }

bget_lem_example :
    ((b : ℕ) × (c' : Bcache) × (bget 1 9 cache ≡ ok (b, c'))
      × IsCache order c'
      × (has b order ≡ true)
      × (is_block c' 1 9 b ≡ true)
      × (0 < c'.refcnt b)
      × (((is_block cache 1 9 b ≡ true) × (c'.valid b ≡ cache.valid b))
          ⊎ ((first_of (λ x. cache.refcnt x == 0) (backwards order) ≡ some b)
              × (c'.valid b ≡ false))))
    ⊎ ((bget 1 9 cache ≡ panic) × ((b : ℕ) → has b order ≡ true → cache.refcnt b ≢ 0))
bget_lem_example = bget_lem order 1 9 cache cache-IsCache (omega arith) λ b. ground arith

abbrev before : List ℕ
before = []

abbrev behind : List ℕ
behind = 1 ∷ 2 ∷ []

brelse-last_example :
    (c' : Bcache) × (brelse 5 3 cache ≡ ok c')
    × IsCache (3 ∷ before ++ behind) c'
    × (c'.refcnt 3 ≡ 0)
    × (c'.locked 3 ≡ false)
brelse-last_example = brelse-last before 3 behind 5 cache cache-IsCache refl refl refl
