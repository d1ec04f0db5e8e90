-- ===== src/Bio/Write.antt =====
-- bread gives the bytes that are on the disk, and bwrite keeps cache and disk in step.
use tron_boss_os.Base.{
  ℕ, ◌≡◌, ◌≢◌, ◌<◌, refl, sym, ap, ◌∙◌, true, false, some, List, arith, update, update_self,
  update_other, has, if◌then◌else◌, none, update-update, inl, inr, ◌⊎◌, Bool, Bool-cases, Option,
  subst,
}
use tron_boss_os.Links.{Ptr}
use tron_boss_os.Ide.{Buf, Memdisk, is_served, iderw}
use tron_boss_os.Bio.{
  Bcache, Got, got, bget, bread_got, bread_after, Read, read, waiting, panics, bread, holds,
  is_free, renew,
}
use tron_boss_os.Bio.Order.{IsCache, IsCache-same_block}
use tron_boss_os.Bio.Get.{Round, hit, busy, miss, full, bget-Round}

-- A valid buffer that nobody holds has the bytes on the disk, unless it is dirty.
pub record IsSynced (c : Bcache) (bufs : List Ptr) (d : Memdisk) : Type 0 where
  pub clean :
      (b : Ptr)
      → has b bufs ≡ true
      → (c.buf b).busy ≡ false
      → (c.buf b).valid ≡ true
      → (c.buf b).dirty ≡ false
      → (c.buf b).dev ≡ 1
      → (c.buf b).bytes ≡ d.blocks (c.buf b).blockno
  pub backed :
      (b : Ptr)
      → has b bufs ≡ true
      → (c.buf b).busy ≡ false
      → (c.buf b).dirty ≡ true
      → (c.buf b).valid ≡ true

-- What bread of block `n` of disk 1 comes to
pub data Fresh (c : Bcache) (bufs : List Ptr) (d : Memdisk) (n : ℕ) : Read → Type 0 where
  fresh :
      (b : Ptr) (c' : Bcache)
      → IsCache c' bufs
      → IsSynced c' bufs d
      → (c'.buf b).busy ≡ true
      → (c'.buf b).valid ≡ true
      → holds 1 n (c'.buf b) ≡ true
      → ((c'.buf b).bytes ≡ d.blocks n)
        ⊎ (((c.buf b).dirty ≡ true)
            × (holds 1 n (c.buf b) ≡ true)
            × ((c'.buf b).bytes ≡ (c.buf b).bytes))
      → Fresh c bufs d n (read b c' d)
  wait :
      (b : Ptr) → holds 1 n (c.buf b) ≡ true → (c.buf b).busy ≡ true → Fresh c bufs d n (waiting b)
  exhausted : ((a : Ptr) → has a bufs ≡ true → is_free (c.buf a) ≡ false) → Fresh c bufs d n panics

-- A buffer that is read into
abbrev pub filled : Buf → Memdisk → Buf
filled x d = record x { bytes = d.blocks x.blockno; valid = true }

iderw-filled :
    (d : Memdisk) (x : Buf)
    → x.busy ≡ true
    → x.valid ≡ false
    → x.dirty ≡ false
    → x.dev ≡ 1
    → x.blockno < d.disksize
    → iderw x d ≡ some (filled x d, d)
unfolding iderw
iderw-filled d x y v di one lt =
    let served : is_served x d ≡ true = ground arith in
    rw served (
      ap
        (λ (dirty : Bool). some (
          if dirty
          then (
            record x { dirty = false; valid = true },
            record d { blocks = update d.blocks x.blockno x.bytes },
          )
          else (filled x d, d)))
        di)

bread_got-read :
    (b : Ptr) (c : Bcache) (d : Memdisk) (x : Buf)
    → x.valid ≡ false
    → iderw x d ≡ some (filled x d, d)
    → bread_got b (record c { buf = update c.buf b x }) d
      ≡ some (record c { buf = update c.buf b (filled x d) }, d)
unfolding bread_got
bread_got-read b c d x v e =
    let c' = record c { buf = update c.buf b x } in
    let out = λ (o : Option (Buf × Memdisk)). elim o as (λ _. Option (Bcache × Memdisk)) [
      | none ↦ none
      | some (u, d') ↦ some (record c { buf = update c'.buf b u }, d')
    ] in
    ap (λ (u : Buf). if u.valid then some (c', d) else out (iderw u d)) (update_self c.buf b x)
    ∙ ap (λ (q : Bool). if q then some (c', d) else out (iderw x d)) v
    ∙ ap out e
    ∙ ap (λ (f : Ptr → Buf). some (record c { buf = f }, d)) (update-update c.buf b x (filled x d))

bread_got-valid :
    (b : Ptr) (c : Bcache) (d : Memdisk) (x : Buf)
    → x.valid ≡ true
    → bread_got b (record c { buf = update c.buf b x }) d
      ≡ some (record c { buf = update c.buf b x }, d)
unfolding bread_got
bread_got-valid b c d x v =
    let e : (update c.buf b x b).valid ≡ true = ap Buf.valid (update_self c.buf b x) ∙ v in
    rw e refl

IsSynced-busy :
    (c : Bcache) (bufs : List Ptr) (d : Memdisk) (b : Ptr) (x : Buf)
    → IsSynced c bufs d
    → x.busy ≡ true
    → IsSynced (record c { buf = update c.buf b x }) bufs d
IsSynced-busy c bufs d b x s y =
    let idle : (a : Ptr) → (update c.buf b x a).busy ≡ false → a ≢ b = λ a n e. absurd (
      ground (
        arith,
        sym n
            ∙ ap (λ (u : Ptr). (update c.buf b x u).busy) e
            ∙ ap Buf.busy (update_self c.buf b x)
            ∙ y,
      )) in
    record {
      clean = λ a m n v di one.
          let same : c.buf a ≡ update c.buf b x a = sym (update_other c.buf b x a (idle a n)) in
          subst (λ (u : Buf). u.bytes ≡ d.blocks u.blockno) same
            (s.clean a m (ap Buf.busy same ∙ n) (ap Buf.valid same ∙ v) (ap Buf.dirty same ∙ di)
              (ap Buf.dev same ∙ one));
      backed = λ a m n di.
          let same : c.buf a ≡ update c.buf b x a = sym (update_other c.buf b x a (idle a n)) in
          subst (λ (u : Buf). u.valid ≡ true) same
            (s.backed a m (ap Buf.busy same ∙ n) (ap Buf.dirty same ∙ di));
    }

bread_after-read :
    (b : Ptr) (c c' : Bcache) (d d' : Memdisk)
    → bread_got b c d ≡ some (c', d')
    → bread_after (got b c) d ≡ read b c' d'
unfolding bread_after
bread_after-read b c c' d d' e =
    ap
      (λ (o : Option (Bcache × Memdisk)). elim o as (λ _. Read) [
        | some (c', d') ↦ read b c' d'
        | none ↦ panics
      ])
      e

module _ (c : Bcache) (bufs : List Ptr) (d : Memdisk) (n : ℕ) (s : IsSynced c bufs d)
    (lt : n < d.disksize) where
  -- bread behind a bget that has set `x` for a buffer which is not valid
  after_read :
      (b : Ptr) (x : Buf)
      → has b bufs ≡ true
      → IsCache (record c { buf = update c.buf b x }) bufs
      → x.busy ≡ true
      → x.valid ≡ false
      → x.dirty ≡ false
      → holds 1 n x ≡ true
      → Fresh c bufs d n (bread_after (got b (record c { buf = update c.buf b x })) d)
  after_read b x m w y v di h =
      let c1 = record c { buf = update c.buf b x } in
      let c2 = record c { buf = update c.buf b (filled x d) } in
      let e : bread_got b c1 d ≡ some (c2, d) =
        bread_got-read b c d x v (iderw-filled d x y v di (ground arith) (ground arith)) in
      let at : c2.buf b ≡ filled x d = update_self c.buf b (filled x d) in
      let w2 : IsCache c2 bufs =
        subst (λ (f : Ptr → Buf). IsCache (record c { buf = f }) bufs)
          (update-update c.buf b x (filled x d))
          (IsCache-same_block c1 bufs w b (filled x d) m (sym (ap Buf.dev (update_self c.buf b x)))
            (sym (ap Buf.blockno (update_self c.buf b x)))) in
      subst (Fresh c bufs d n) (sym (bread_after-read b c1 c2 d d e)) (
        fresh b c2 w2 (IsSynced-busy c bufs d b (filled x d) s y) (ap Buf.busy at ∙ y)
          (ap Buf.valid at) (ap (holds 1 n) at ∙ h)
          (inl (ap Buf.bytes at ∙ ap d.blocks (ground arith))))

  -- bread behind a bget that has found the block's buffer
  after_hit :
      (b : Ptr)
      → has b bufs ≡ true
      → holds 1 n (c.buf b) ≡ true
      → (c.buf b).busy ≡ false
      → IsCache (record c { buf = update c.buf b (record (c.buf b) { busy = true }) }) bufs
      → Fresh c bufs d n (
          bread_after
            (got b (record c { buf = update c.buf b (record (c.buf b) { busy = true }) }))
            d)
  after_hit b m h idle w =
      let x = record (c.buf b) { busy = true } in
      let c1 = record c { buf = update c.buf b x } in
      let at : c1.buf b ≡ x = update_self c.buf b x in
      elim (Bool-cases (c.buf b).valid) [
        | inl v ↦
            let bytes : ((c1.buf b).bytes ≡ d.blocks n)
                ⊎ (((c.buf b).dirty ≡ true)
                    × (holds 1 n (c.buf b) ≡ true)
                    × ((c1.buf b).bytes ≡ (c.buf b).bytes)) =
              elim (Bool-cases (c.buf b).dirty) [
                | inl di ↦ inr (di, h, ap Buf.bytes at)
                | inr di ↦ inl (
                    ap Buf.bytes at
                    ∙ s.clean b m idle v di (ground arith)
                    ∙ ap d.blocks (ground arith))
              ] in
            subst (Fresh c bufs d n)
              (sym (bread_after-read b c1 c1 d d (bread_got-valid b c d x v)))
              (fresh b c1 w (IsSynced-busy c bufs d b x s refl) (ap Buf.busy at)
                (ap Buf.valid at ∙ v) (ap (holds 1 n) at ∙ h) bytes)
        | inr v ↦
            let di : (c.buf b).dirty ≡ false = ground (arith, s.backed b m idle, v) in
            after_read b x m w refl v di h
      ]

  bread_after-Fresh : (g : Got) → Round c bufs 1 n g → Fresh c bufs d n (bread_after g d)
  unfolding bread_after
  bread_after-Fresh g (hit b c' m h idle e w) =
      subst (λ (k : Bcache). Fresh c bufs d n (bread_after (got b k) d)) (sym e)
        (after_hit b m h idle (subst (λ (k : Bcache). IsCache k bufs) e w))
  bread_after-Fresh g (busy b m h y) = wait b h y
  bread_after-Fresh g (miss b c' missing _ m free e w) =
      subst (λ (k : Bcache). Fresh c bufs d n (bread_after (got b k) d)) (sym e)
        (after_read b (renew 1 n (c.buf b)) m (subst (λ (k : Bcache). IsCache k bufs) e w) refl refl
          refl (ground arith))
  bread_after-Fresh g (full missing held) = exhausted held

-- `bread` of a block that the disk has, in a well-formed cache in step with the disk: it returns the
-- block's buffer, busy and valid, with the bytes of the disk or, if the buffer was dirty, with its
-- own, the cache stays well-formed and in step and the disk as it was; or it sleeps because the
-- block's buffer is busy; and it panics only if every buffer is busy or dirty.
pub bread-Fresh :
    (c : Bcache) (bufs : List Ptr) (d : Memdisk) (n : ℕ)
    → IsCache c bufs
    → IsSynced c bufs d
    → n < d.disksize
    → Fresh c bufs d n (bread 1 n c d)
unfolding bread
bread-Fresh c bufs d n w s lt =
    bread_after-Fresh c bufs d n s lt (bget 1 n c) (bget-Round c bufs w 1 n)
