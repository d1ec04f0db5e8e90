-- ===== src/Bio/Flush.antt =====
-- bwrite puts a buffer's bytes on the disk, and once it is released the cache is in step with it.
use tron_boss_os.Base.{
  ◌≡◌, ◌≢◌, ◌<◌, refl, sym, ap, ◌∙◌, true, false, some, none, List, arith, update, update_self,
  update_other, update-update, has, inl, inr, Bool, eq-cases, Option, subst, if◌then◌else◌,
}
use tron_boss_os.Links.{Ptr}
use tron_boss_os.Ide.{Buf, Memdisk, is_served, iderw}
use tron_boss_os.Bio.{Bcache, bwrite}
use tron_boss_os.Bio.Order.{IsCache, IsCache-same_block}
use tron_boss_os.Bio.Write.{IsSynced}

-- The guards of bwrite and iderw hold.
pub record IsWritable (b : Buf) (d : Memdisk) : Type 0 where
  pub busy : b.busy ≡ true
  pub disk1 : b.dev ≡ 1
  pub in_range : b.blockno < d.disksize

-- A buffer once it is written, and the disk then
abbrev pub written : Buf → Buf
written b = record b { dirty = false; valid = true }

abbrev pub disk_with : Buf → Memdisk → Memdisk
disk_with b d = record d { blocks = update d.blocks b.blockno b.bytes }

iderw-written :
    (x : Buf) (d : Memdisk)
    → IsWritable x d
    → iderw (record x { dirty = true }) d ≡ some (written x, disk_with x d)
unfolding iderw
iderw-written x d w =
    let served : is_served (record x { dirty = true }) d ≡ true =
      ground (arith, w.busy, w.disk1, w.in_range) in
    rw served refl

bwrite_lem :
    (b : Ptr) (c : Bcache) (d : Memdisk)
    → IsWritable (c.buf b) d
    → bwrite b c d
      ≡ some (record c { buf = update c.buf b (written (c.buf b)) }, disk_with (c.buf b) d)
unfolding bwrite iderw
bwrite_lem b c d w =
    let x = record (c.buf b) { dirty = true } in
    let c1 = record c { buf = update c.buf b x } in
    let out = λ (o : Option (Buf × Memdisk)). elim o as (λ _. Option (Bcache × Memdisk)) [
      | none ↦ none
      | some (u, d') ↦ some (record c { buf = update c1.buf b u }, d')
    ] in
    ap (λ (q : Bool). if q then out (iderw (c1.buf b) d) else none) w.busy
    ∙ ap (λ (u : Buf). out (iderw u d)) (update_self c.buf b x)
    ∙ ap out (iderw-written (c.buf b) d w)
    ∙ ap (λ (f : Ptr → Buf). some (record c { buf = f }, disk_with (c.buf b) d))
        (update-update c.buf b x (written (c.buf b)))

-- The buffer `z` has the block and the bytes that are written.
IsSynced-disk_with :
    (c : Bcache) (bufs : List Ptr) (d : Memdisk) (b : Ptr) (z : Buf)
    → IsCache c bufs
    → IsSynced c bufs d
    → has b bufs ≡ true
    → (c.buf b).dev ≡ 1
    → z.blockno ≡ (c.buf b).blockno
    → z.bytes ≡ (c.buf b).bytes
    → z.valid ≡ true
    → IsSynced (record c { buf = update c.buf b z }) bufs (disk_with (c.buf b) d)
IsSynced-disk_with c bufs d b z w s m one ek eb v =
    let k = (c.buf b).blockno in
    let blocks = update d.blocks k (c.buf b).bytes in
    let self : z.bytes ≡ blocks z.blockno =
      eb ∙ sym (update_self d.blocks k (c.buf b).bytes) ∙ ap blocks (sym ek) in
    record {
      clean = λ a ma n va di da. elim (eq-cases a b) [
        | inl (e, _) ↦
            subst (λ (u : Buf). u.bytes ≡ blocks u.blockno)
              (sym (ap (update c.buf b z) e ∙ update_self c.buf b z)) self
        | inr (ne, _) ↦
            let same : c.buf a ≡ update c.buf b z a = sym (update_other c.buf b z a ne) in
            let other : (c.buf a).blockno ≢ k = λ e. ne (
              w.once 1 k a b (omega arith) ma m (ground (arith, ap Buf.dev same ∙ da, e))
                (ground (arith, one))) in
            subst (λ (u : Buf). u.bytes ≡ blocks u.blockno) same
              (s.clean a ma (ap Buf.busy same ∙ n) (ap Buf.valid same ∙ va) (ap Buf.dirty same ∙ di)
                  (ap Buf.dev same ∙ da)
                ∙ sym (update_other d.blocks k (c.buf b).bytes (c.buf a).blockno other))
      ];
      backed = λ a ma n di. elim (eq-cases a b) [
        | inl (e, _) ↦ ap Buf.valid (ap (update c.buf b z) e ∙ update_self c.buf b z) ∙ v
        | inr (ne, _) ↦
            let same : c.buf a ≡ update c.buf b z a = sym (update_other c.buf b z a ne) in
            sym (ap Buf.valid same) ∙ s.backed a ma (ap Buf.busy same ∙ n) (ap Buf.dirty same ∙ di)
      ];
    }

-- `bwrite` of a busy buffer of disk 1 does not panic. It puts the buffer's bytes into its block of
-- the disk and into no other, the buffer is then valid and clean, the cache stays well-formed, and
-- if it was in step with the disk, it is in step with the new disk once the buffer is released.
pub bwrite-IsSynced :
    (c : Bcache) (bufs : List Ptr) (d : Memdisk) (b : Ptr)
    → IsCache c bufs
    → IsSynced c bufs d
    → has b bufs ≡ true
    → IsWritable (c.buf b) d
    → (c' : Bcache) × (d' : Memdisk) × (bwrite b c d ≡ some (c', d'))
      × (c'.buf ≡ update c.buf b (written (c.buf b)))
      × (d' ≡ disk_with (c.buf b) d)
      × IsCache c' bufs
      × IsSynced (record c' { buf = update c'.buf b (record (c'.buf b) { busy = false }) }) bufs d'
bwrite-IsSynced c bufs d b w s m ok =
    let x = written (c.buf b) in
    let z = record x { busy = false } in
    let c1 = record c { buf = update c.buf b x } in
    (
      c1,
      disk_with (c.buf b) d,
      bwrite_lem b c d ok,
      refl,
      refl,
      IsCache-same_block c bufs w b x m refl refl,
      subst (λ (f : Ptr → Buf). IsSynced (record c { buf = f }) bufs (disk_with (c.buf b) d))
          (sym (
            ap (λ (u : Buf). update c1.buf b (record u { busy = false })) (update_self c.buf b x)
            ∙ update-update c.buf b x z))
          (IsSynced-disk_with c bufs d b z w s m ok.disk1 refl refl refl),
    )
