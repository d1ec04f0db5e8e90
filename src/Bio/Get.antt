-- ===== src/Bio/Get.antt =====
-- bget: at most one buffer for each block, and the buffer released longest ago for a new one.
use tron_boss_os.Base.{
  ℕ, ◌≡◌, refl, sym, ap, ◌∙◌, inl, inr, true, false, Option, some, List, arith, ◌==◌, update, has,
  Bool-cases, subst,
}
use tron_boss_os.Links.{Ptr}
use tron_boss_os.Bio.{
  head, Bcache, holds, is_free, Got, got, sleeping, no_buffers, renew, found, recycle, bget,
}
use tron_boss_os.Bio.Ring.{reverse}
use tron_boss_os.Bio.Order.{
  IsCache, first, first-cases, has-reverse, no_head, find-next, find-prev, IsCache-update,
  IsCache-same_block,
}

-- What bget does when nobody else is at work on the cache, by what the buffers hold
pub data Round (c : Bcache) (bufs : List Ptr) (dev blockno : ℕ) : Got → Type 0 where
  hit :
      (b : Ptr) (c' : Bcache)
      → has b bufs ≡ true
      → holds dev blockno (c.buf b) ≡ true
      → (c.buf b).busy ≡ false
      → c' ≡ record c { buf = update c.buf b (record (c.buf b) { busy = true }) }
      → IsCache c' bufs
      → Round c bufs dev blockno (got b c')
  busy :
      (b : Ptr)
      → has b bufs ≡ true
      → holds dev blockno (c.buf b) ≡ true
      → (c.buf b).busy ≡ true
      → Round c bufs dev blockno (sleeping b)
  miss :
      (b : Ptr) (c' : Bcache)
      → ((a : Ptr) → has a bufs ≡ true → holds dev blockno (c.buf a) ≡ false)
      → b ≡ first (λ a. is_free (c.buf a)) (reverse bufs)
      → has b bufs ≡ true
      → is_free (c.buf b) ≡ true
      → c' ≡ record c { buf = update c.buf b (renew dev blockno (c.buf b)) }
      → IsCache c' bufs
      → Round c bufs dev blockno (got b c')
  full :
      ((a : Ptr) → has a bufs ≡ true → holds dev blockno (c.buf a) ≡ false)
      → ((a : Ptr) → has a bufs ≡ true → is_free (c.buf a) ≡ false)
      → Round c bufs dev blockno no_buffers

module _ (c : Bcache) (bufs : List Ptr) (w : IsCache c bufs) (dev blockno : ℕ) where
  not_head : (b : Ptr) → has b bufs ≡ true → (b == head) ≡ false
  not_head b m = ground (arith, w.members b)

  recycle-Round :
      ((a : Ptr) → has a bufs ≡ true → holds dev blockno (c.buf a) ≡ false)
      → Round c bufs dev blockno
          (recycle dev blockno (some (first (λ a. is_free (c.buf a)) (reverse bufs))) c)
  recycle-Round missing =
      let f = λ (b : Ptr). is_free (c.buf b) in
      elim (first-cases f (reverse bufs) (has-reverse head bufs ∙ no_head c bufs w)) [
        | inl (e, all) ↦
            subst (λ (b : Ptr). Round c bufs dev blockno (recycle dev blockno (some b) c)) (sym e)
              (full missing (λ a m. all a (has-reverse a bufs ∙ m)))
        | inr (m, free) ↦
            let b = first f (reverse bufs) in
            let mem : has b bufs ≡ true = sym (has-reverse b bufs) ∙ m in
            let c' = record c { buf = update c.buf b (renew dev blockno (c.buf b)) } in
            rw (not_head b mem) (
              miss b c' missing refl mem free refl (
                IsCache-update c bufs w b (renew dev blockno (c.buf b))
                  (λ a d n real ma ne h. ground (arith, missing a ma))))
      ]

  hit-Round :
      (b : Ptr)
      → has b bufs ≡ true
      → holds dev blockno (c.buf b) ≡ true
      → Round c bufs dev blockno (found dev blockno (some b) c)
  hit-Round b m h = elim (Bool-cases (c.buf b).busy) [
    | inl y ↦ rw (not_head b m, y) (busy b m h y)
    | inr n ↦
        let x = record (c.buf b) { busy = true } in
        rw (not_head b m, n)
          (hit b (record c { buf = update c.buf b x }) m h n refl
            (IsCache-same_block c bufs w b x m refl refl))
  ]

-- `bget` of a block in a well-formed cache: it takes the block's buffer if that is not busy, and sleeps on
-- it if it is; otherwise it takes the buffer that has been released longest ago of those that are
-- neither busy nor dirty, and it panics only if every buffer is busy or dirty. The cache stays
-- well-formed, so that no block ever has two buffers.
pub bget-Round :
    (c : Bcache) (bufs : List Ptr) (w : IsCache c bufs) (dev blockno : ℕ)
    → Round c bufs dev blockno (bget dev blockno c)
unfolding bget
bget-Round c bufs w dev blockno =
    let t = λ (b : Ptr). holds dev blockno (c.buf b) in
    let f = λ (b : Ptr). is_free (c.buf b) in
    subst (Round c bufs dev blockno)
      (sym (ap (λ (o : Option Ptr). found dev blockno o c) (find-next c bufs w t)))
      (elim (first-cases t bufs (no_head c bufs w)) [
        | inl (e, missing) ↦
            subst (λ (b : Ptr). Round c bufs dev blockno (found dev blockno (some b) c)) (sym e)
              (subst (λ (o : Option Ptr). Round c bufs dev blockno (recycle dev blockno o c))
                (sym (find-prev c bufs w f)) (recycle-Round c bufs w dev blockno missing))
        | inr (m, h) ↦ hit-Round c bufs w dev blockno (first t bufs) m h
      ])
