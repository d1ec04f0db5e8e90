-- ===== src/Examples/Buffers.antt =====
-- The buffer cache: buffer 30, in front, is busy with block 7 of disk 1, the others are unused.
use tron_boss_os.Base.{
  ℕ, zero, suc, ◌+◌, ◌-◌, ◌≡◌, ◌<◌, ◌≢◌, refl, sym, ap, ◌∙◌, inl, inr, true, false, ◌&&◌, List, [],
  ◌∷◌, ◌++◌, arith, some, update, has, Distinct, ◌==◌, leb, if◌then◌else◌, eq-cases, ==→eq,
}
use tron_boss_os.Links.{Ptr}
use tron_boss_os.Ide.{Buf, Memdisk}
use tron_boss_os.Bio.{head, Bcache, holds, bget, bread, bwrite, brelse}
use tron_boss_os.Bio.Ring.{Linked}
use tron_boss_os.Bio.Order.{no_dev, IsCache}
use tron_boss_os.Bio.Get.{Round, bget-Round}
use tron_boss_os.Bio.Release.{brelse-IsCache}
use tron_boss_os.Bio.Write.{IsSynced, Fresh, bread-Fresh}
use tron_boss_os.Bio.Flush.{IsWritable, written, disk_with, bwrite-IsSynced}

abbrev unused : Buf
unused = record {
  busy = false;
  valid = false;
  dirty = false;
  dev = no_dev;
  blockno = 0;
  bytes = λ i. 0;
}

abbrev used : Buf
used = record unused { busy = true; dev = 1; blockno = 7; bytes = λ i. 255 }

abbrev cache : Bcache
cache = record {
  next = λ b. if b == 0 then 30 else b - 1;
  prev = λ b. if b == 30 then 0 else b + 1;
  buf = λ b. if b == 30 then used else unused;
}

abbrev down : ℕ → List Ptr
down zero = []
down (suc n) = suc n ∷ down n

has-down : (a n : ℕ) → has a (down n) ≡ (leb 1 a && leb a n)
has-down a zero = ground arith
has-down a (suc n) = ground (arith, has-down a n)

down-Distinct : (n : ℕ) → Distinct (down n)
down-Distinct zero = tt
down-Distinct (suc n) = (ground (arith, has-down (suc n) n), down-Distinct n)

down-Linked : (n : ℕ) → n < 30 → Linked cache.next cache.prev (suc n) (down n) head
down-Linked zero lt = (refl, refl)
down-Linked (suc n) lt = (ground arith, ground arith, down-Linked n (omega arith))

only_used : (d n : ℕ) (a : Ptr) → d ≢ no_dev → holds d n (cache.buf a) ≡ true → a ≡ 30
only_used d n a real h = elim (eq-cases a 30) [
  | inl (e, _) ↦ e
  | inr (_, b) ↦
      let idle : cache.buf a ≡ unused = rw b refl in
      let same : holds d n unused ≡ true = sym (ap (holds d n) idle) ∙ h in
      absurd (real (sym (==→eq no_dev d (ground arith))))
]

cache-IsCache : IsCache cache (down 30)
cache-IsCache = record {
  ring = (
    (refl, refl, down-Linked 29 (omega arith)),
    (ground (arith, has-down 0 30), down-Distinct 30),
  );
  members = λ b. has-down b 30;
  once = λ d n a b real ma mb ha hb. only_used d n a real ha ∙ sym (only_used d n b real hb);
}

abbrev disk : Memdisk
disk = record { disksize = 1000; blocks = λ b i. b }

cache-IsSynced : IsSynced cache (down 30) disk
cache-IsSynced = record {
  clean = λ b m idle v di one. absurd (ground arith);
  backed = λ b m idle di. absurd (ground arith);
}

used-IsWritable : IsWritable used disk
used-IsWritable = record { busy = refl; disk1 = refl; in_range = omega arith }

bget-Round_example : Round cache (down 30) 1 8 (bget 1 8 cache)
bget-Round_example = bget-Round cache (down 30) cache-IsCache 1 8

brelse-IsCache_example :
    (c' : Bcache) × (brelse 30 cache ≡ some c')
    × IsCache c' (30 ∷ [] ++ down 29)
    × (c'.buf ≡ update cache.buf 30 (record used { busy = false }))
brelse-IsCache_example = brelse-IsCache cache [] 30 (down 29) cache-IsCache refl

bread-Fresh_example : Fresh cache (down 30) disk 8 (bread 1 8 cache disk)
bread-Fresh_example = bread-Fresh cache (down 30) disk 8 cache-IsCache cache-IsSynced (omega arith)

bwrite-IsSynced_example :
    (c' : Bcache) × (d' : Memdisk) × (bwrite 30 cache disk ≡ some (c', d'))
    × (c'.buf ≡ update cache.buf 30 (written used))
    × (d' ≡ disk_with used disk)
    × IsCache c' (down 30)
    × IsSynced
        (record c' { buf = update c'.buf 30 (record (c'.buf 30) { busy = false }) })
        (down 30)
        d'
bwrite-IsSynced_example =
    bwrite-IsSynced cache (down 30) disk 30 cache-IsCache cache-IsSynced refl used-IsWritable
