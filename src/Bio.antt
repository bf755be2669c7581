-- ===== src/Bio.antt =====
-- kernel/bio.c: the cache of disk blocks. The list of buffers is the numbers of the buffers, from
-- `bcache.head.next`, the one used last, to `bcache.head.prev`. Each function is one critical section of
-- bcache.lock; `held` says whether the process that calls holds the buffer's sleep lock, which it has when
-- bget returns. The disk is the bytes of each block.
pub mod Order
pub mod Unique
mod Tests
use oslab.Prelude.{
  ℕ, zero, suc, ◌+◌, ◌%◌, Bool, true, false, not, ◌&&◌, ◌||◌, List, [], ◌∷◌, Option, none, some,
  ◌==◌, if◌then◌else◌, put,
}
use oslab.Prelude.Run.{Run, done, panic, ◌>>=◌}

abbrev pub nbuf : ℕ
nbuf = 30

abbrev pub uint_mod : ℕ
uint_mod = 0x100000000

pub record Buf : Type 0 where
  pub valid : Bool
  pub dev : ℕ
  pub blockno : ℕ
  pub held : Bool
  pub refcnt : ℕ
  pub data_of : ℕ → ℕ

pub record Bcache : Type 0 where
  pub order : List ℕ
  pub buf : ℕ → Buf

abbrev pub set_buf : ℕ → Buf → Bcache → Bcache
set_buf i b c = record c { buf = put c.buf i b }

-- each buffer goes to the front
pub binit_loop : ℕ → ℕ → List ℕ → List ℕ
binit_loop zero i order = order
binit_loop (suc rounds) i order = binit_loop rounds (i + 1) (i ∷ order)

-- The buffers are zero before.
unfoldable pub binit : Bcache
unfolding binit_loop
binit = record {
  order = binit_loop nbuf 0 [];
  buf = λ i. record {
    valid = false;
    dev = 0;
    blockno = 0;
    held = false;
    refcnt = 0;
    data_of = λ a. 0;
  };
}

-- the first loop of bget
pub find_block : ℕ → ℕ → (ℕ → Buf) → List ℕ → Option ℕ
find_block dev blockno buf [] = none
find_block dev blockno buf (i ∷ is) =
    let rest = find_block dev blockno buf is in
    if (buf i).dev == dev && (buf i).blockno == blockno then some i else rest

-- the second loop, which goes through the list from its end
pub find_unused : (ℕ → Buf) → List ℕ → Option ℕ
find_unused buf [] = none
find_unused buf (i ∷ is) = elim (find_unused buf is) [
  | some j ↦ some j
  | none ↦ if (buf i).refcnt == 0 then some i else none
]

abbrev pub hit : ℕ → Bcache → Bcache
hit i c =
    let b = c.buf i in set_buf i (record b { refcnt = (b.refcnt + 1) % uint_mod; held = true }) c

abbrev pub recycle : ℕ → ℕ → ℕ → Bcache → Bcache
recycle dev blockno i c =
    let b = c.buf i in
    set_buf i (record b { dev = dev; blockno = blockno; valid = false; refcnt = 1; held = true }) c

unfoldable pub bget : ℕ → ℕ → Bcache → Run (ℕ × Bcache)
bget dev blockno c = elim (find_block dev blockno c.buf c.order) [
  | some i ↦ done (i, hit i c)
  | none ↦ elim (find_unused c.buf c.order) [
    | some i ↦ done (i, recycle dev blockno i c)
    | none ↦ panic "bget: no buffers"
  ]
]

-- virtio_disk_rw(b, 0)
abbrev pub fill : (ℕ → ℕ → ℕ) → ℕ → Bcache → Bcache
fill disk i c = let b = c.buf i in set_buf i (record b { data_of = disk b.blockno; valid = true }) c

unfoldable pub bread : (ℕ → ℕ → ℕ) → ℕ → ℕ → Bcache → Run (ℕ × Bcache)
bread disk dev blockno c =
    bget dev blockno c >>= λ (i, c'). done (i, if (c'.buf i).valid then c' else fill disk i c')

unfoldable pub bwrite : ℕ → Bcache → (ℕ → ℕ → ℕ) → Run (ℕ → ℕ → ℕ)
bwrite i c disk =
    if not (c.buf i).held
    then panic "bwrite"
    else done (put disk (c.buf i).blockno (c.buf i).data_of)

pub unlink : ℕ → List ℕ → List ℕ
unlink i [] = []
unlink i (j ∷ js) = let rest = unlink i js in if j == i then js else j ∷ rest

-- refcnt--
abbrev pub dec_ref : ℕ → ℕ
dec_ref n = (n + 0xFFFFFFFF) % uint_mod

unfoldable pub brelse : ℕ → Bcache → Run Bcache
unfolding unlink
brelse i c =
    let b = c.buf i in
    let c' = set_buf i (record b { refcnt = dec_ref b.refcnt; held = false }) c in
    if not b.held
    then panic "brelse"
    else done (if dec_ref b.refcnt == 0 then record c' { order = i ∷ unlink i c.order } else c')

unfoldable pub bpin : ℕ → Bcache → Bcache
bpin i c = let b = c.buf i in set_buf i (record b { refcnt = (b.refcnt + 1) % uint_mod }) c

unfoldable pub bunpin : ℕ → Bcache → Bcache
bunpin i c = let b = c.buf i in set_buf i (record b { refcnt = dec_ref b.refcnt }) c
