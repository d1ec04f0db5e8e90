-- ===== src/Bio.antt =====
-- The buffer cache: bio.c. A `struct buf *` is a number: 0 is `&bcache.head`, buffer i of
-- `bcache.buf` is i + 1. What stands between an acquire and the release or the sleep is one step.
pub mod Ring
pub mod Order
pub mod Get
pub mod Release
pub mod Write
pub mod Flush
use tron_boss_os.Base.{
  ℕ, zero, suc, ◌+◌, ◌-◌, Bool, true, false, ◌&&◌, ◌||◌, not, Option, none, some, ◌==◌,
  if◌then◌else◌, update,
}
use tron_boss_os.Links.{Ptr}
use tron_boss_os.Kernel.{uint_mod}
use tron_boss_os.Ide.{Buf, Memdisk, iderw}

-- NBUF of param.h
abbrev pub nbuf : ℕ
nbuf = 30

abbrev pub head : Ptr
head = 0

pub record Bcache : Type 0 where
  pub next : Ptr → Ptr
  pub prev : Ptr → Ptr
  pub buf : Ptr → Buf

-- The four assignments that put `b` behind the head, in binit and in brelse
abbrev pub insert_first : Ptr → Bcache → Bcache
insert_first b c =
    let next1 = update c.next b (c.next head) in
    let prev1 = update c.prev b head in
    let prev2 = update prev1 (next1 head) b in record c { next = update next1 head b; prev = prev2 }

-- The loop of binit with `n` buffers to go. `-1` is stored in a uint.
unfoldable pub binit_loop : ℕ → Bcache → Bcache
binit_loop zero c = c
binit_loop (suc n) c =
    let b = suc (nbuf - suc n) in
    let c1 = insert_first b c in
    binit_loop n (record c1 { buf = update c1.buf b (record (c1.buf b) { dev = uint_mod - 1 }) })

unfoldable pub binit : Bcache → Bcache
unfolding binit_loop
binit c =
    binit_loop nbuf (record c { next = update c.next head head; prev = update c.prev head head })

-- A loop of bget along `next` or `prev` from `b` to the head, up to a buffer that passes the test:
-- the head if there is none, `none` if `fuel` rounds are not enough.
unfoldable pub find : (fuel : ℕ) (next : Ptr → Ptr) (test : Ptr → Bool) → Ptr → Option Ptr
find zero next test b = none
find (suc fuel) next test b =
    let rest = find fuel next test (next b) in
    if b == head then some head else if test b then some b else rest

abbrev pub find_fuel : ℕ
find_fuel = nbuf + 1

abbrev pub holds : (dev blockno : ℕ) → Buf → Bool
holds dev blockno b = (b.dev == dev) && (b.blockno == blockno)

abbrev pub is_free : Buf → Bool
is_free b = not b.busy && not b.dirty

-- What a round of bget comes to. After a sleep, bget begins again.
pub data Got : Type 0 where
  got : Ptr → Bcache → Got
  sleeping : Ptr → Got
  no_buffers out_of_fuel : Got

-- `b->flags = B_BUSY` with the new block
abbrev pub renew : (dev blockno : ℕ) → Buf → Buf
renew dev blockno b = record b {
  busy = true;
  valid = false;
  dirty = false;
  dev = dev;
  blockno = blockno;
}

abbrev pub recycle : (dev blockno : ℕ) → Option Ptr → Bcache → Got
recycle dev blockno none c = out_of_fuel
recycle dev blockno (some b) c =
    if b == head
    then no_buffers
    else got b (record c { buf = update c.buf b (renew dev blockno (c.buf b)) })

abbrev pub found : (dev blockno : ℕ) → Option Ptr → Bcache → Got
found dev blockno none c = out_of_fuel
found dev blockno (some b) c =
    if b == head
    then recycle dev blockno (find find_fuel c.prev (λ b. is_free (c.buf b)) (c.prev head)) c
    else if (c.buf b).busy
    then sleeping b
    else got b (record c { buf = update c.buf b (record (c.buf b) { busy = true }) })

unfoldable pub bget : (dev blockno : ℕ) → Bcache → Got
unfolding find
bget dev blockno c =
    found dev blockno (find find_fuel c.next (λ b. holds dev blockno (c.buf b)) (c.next head)) c

-- `iderw(b)` for a buffer of the cache
abbrev pub iderw_at : Ptr → Bcache → Memdisk → Option (Bcache × Memdisk)
iderw_at b c d = elim (iderw (c.buf b) d) [
  | none ↦ none
  | some (x, d') ↦ some (record c { buf = update c.buf b x }, d')
]

-- bread behind bget
unfoldable pub bread_got : Ptr → Bcache → Memdisk → Option (Bcache × Memdisk)
unfolding iderw
bread_got b c d = if (c.buf b).valid then some (c, d) else iderw_at b c d

-- What bread comes to
pub data Read : Type 0 where
  read : Ptr → Bcache → Memdisk → Read
  waiting : Ptr → Read
  panics : Read

-- bread behind a round of bget
unfoldable pub bread_after : Got → Memdisk → Read
unfolding bread_got
bread_after (got b c) d = elim (bread_got b c d) [ some (c', d') ↦ read b c' d' | none ↦ panics ]
bread_after (sleeping b) d = waiting b
bread_after no_buffers d = panics
bread_after out_of_fuel d = panics

unfoldable pub bread : (dev blockno : ℕ) → Bcache → Memdisk → Read
unfolding bget bread_after
bread dev blockno c d = bread_after (bget dev blockno c) d

unfoldable pub bwrite : Ptr → Bcache → Memdisk → Option (Bcache × Memdisk)
unfolding iderw
bwrite b c d =
    if (c.buf b).busy
    then iderw_at b (record c { buf = update c.buf b (record (c.buf b) { dirty = true }) }) d
    else none

-- `none` is the panic. The wakeup of those who sleep on `b` is theirs to use: bget begins again.
unfoldable pub brelse : Ptr → Bcache → Option Bcache
brelse b c =
    if (c.buf b).busy
    then (let prev1 = update c.prev (c.next b) (c.prev b) in
        let next1 = update c.next (prev1 b) (c.next b) in
        let c1 = insert_first b (record c { next = next1; prev = prev1 }) in
        some (record c1 { buf = update c1.buf b (record (c1.buf b) { busy = false }) }))
    else none
