-- ===== src/Bio/Release.antt =====
-- binit and brelse: the ring is made, and the buffer that is released comes first.
use tron_boss_os.Base.{
  ℕ, zero, suc, ◌-◌, ◌≤◌, ◌≡◌, refl, sym, ap, ◌∙◌, inl, inr, true, false, ◌&&◌, some, List, [], ◌∷◌,
  ◌++◌, arith, leb, eq-cases, update, update_self, update_other, has, has-append, Distinct, subst,
}
use tron_boss_os.Links.{Ptr}
use tron_boss_os.Kernel.{uint_mod}
use tron_boss_os.Ide.{Buf}
use tron_boss_os.Bio.{nbuf, head, Bcache, insert_first, binit_loop, binit, brelse}
use tron_boss_os.Bio.Ring.{Ring, Linked-remove, Ring-insert}
use tron_boss_os.Bio.Order.{no_dev, IsCache, IsCache-same_block}

-- insert_first puts a buffer that is not in the ring into the first place.
insert_first-Ring :
    (b : Ptr) (c : Bcache) (bufs : List Ptr)
    → Ring c.next c.prev head bufs
    → has b (head ∷ bufs) ≡ false
    → Ring (insert_first b c).next (insert_first b c).prev head (b ∷ bufs)
insert_first-Ring b c bufs r out =
    let same : update c.next b (c.next head) head ≡ c.next head =
      update_other c.next b (c.next head) head (λ e. ground arith) in
    subst
      (λ (k : Ptr).
        Ring (update (update c.next b (c.next head)) head b) (update (update c.prev b head) k b)
          head (b ∷ bufs))
      (sym same) (Ring-insert c.next c.prev head b bufs r out)

Distinct-without :
    (xs : List Ptr) (b : Ptr) (ys : List Ptr)
    → Distinct (xs ++ b ∷ ys)
    → Distinct (xs ++ ys) × (has b (xs ++ ys) ≡ false)
Distinct-without [] b ys d = (d.1, d.0)
Distinct-without (x ∷ xs) b ys d =
    let rest = Distinct-without xs b ys d.1 in
    (
      (ground (arith, has-append x xs (b ∷ ys), has-append x xs ys), rest.0),
      ground (arith, has-append x xs (b ∷ ys), rest.1),
    )

has-moved : (a b : Ptr) (xs ys : List Ptr) → has a (b ∷ xs ++ ys) ≡ has a (xs ++ b ∷ ys)
has-moved a b xs ys = ground (arith, has-append a xs ys, has-append a xs (b ∷ ys))

-- The ring of `c` with the buffer `b` taken out and put first
abbrev moved_first : Ptr → Bcache → Bcache
moved_first b c =
    let prev1 = update c.prev (c.next b) (c.prev b) in
    insert_first b (record c { next = update c.next (prev1 b) (c.next b); prev = prev1 })

moved_first-Ring :
    (c : Bcache) (xs : List Ptr) (b : Ptr) (ys : List Ptr)
    → Ring c.next c.prev head (xs ++ b ∷ ys)
    → Ring (moved_first b c).next (moved_first b c).prev head (b ∷ xs ++ ys)
moved_first-Ring c xs b ys r =
    let prev1 = update c.prev (c.next b) (c.prev b) in
    let same : prev1 b ≡ c.prev b = elim (eq-cases b (c.next b)) [
      | inl (e, _) ↦ ap prev1 e ∙ update_self c.prev (c.next b) (c.prev b)
      | inr (ne, _) ↦ update_other c.prev (c.next b) (c.prev b) b ne
    ] in
    let d = Distinct-without (head ∷ xs) b ys r.1 in
    let l = Linked-remove c.next c.prev head xs b ys head r.0 r.1 r.1.0 in
    insert_first-Ring b (record c { next = update c.next (prev1 b) (c.next b); prev = prev1 })
      (xs ++ ys)
      (subst (λ (k : Ptr). Ring (update c.next k (c.next b)) prev1 head (xs ++ ys)) (sym same)
        (l, d.0))
      d.1

-- `brelse` of a busy buffer of a well-formed cache does not panic. It moves the buffer to the front
-- of the ring and takes its B_BUSY off, the cache stays well-formed, and no other buffer changes.
pub brelse-IsCache :
    (c : Bcache) (xs : List Ptr) (b : Ptr) (ys : List Ptr)
    → IsCache c (xs ++ b ∷ ys)
    → (c.buf b).busy ≡ true
    → (c' : Bcache) × (brelse b c ≡ some c')
      × IsCache c' (b ∷ xs ++ ys)
      × (c'.buf ≡ update c.buf b (record (c.buf b) { busy = false }))
unfolding brelse
brelse-IsCache c xs b ys w y =
    let x = record (c.buf b) { busy = false } in
    let at : (a : Ptr) → has a (b ∷ xs ++ ys) ≡ has a (xs ++ b ∷ ys) = λ a. has-moved a b xs ys in
    let w1 : IsCache (moved_first b c) (b ∷ xs ++ ys) = record {
      ring = moved_first-Ring c xs b ys w.ring;
      members = λ a. at a ∙ w.members a;
      once =
          λ d k a a' real m m' h h'. w.once d k a a' real (sym (at a) ∙ m) (sym (at a') ∙ m') h h';
    } in
    (
      record (moved_first b c) { buf = update c.buf b x },
      rw y refl,
      IsCache-same_block (moved_first b c) (b ∷ xs ++ ys) w1 b x (ground arith) refl refl,
      refl,
    )

-- `n` rounds of binit, when the buffers before them stand in the ring
binit_loop-IsCache :
    (n : ℕ) (c : Bcache) (bufs : List Ptr)
    → n ≤ nbuf
    → Ring c.next c.prev head bufs
    → ((b : Ptr) → has b bufs ≡ (leb 1 b && leb b (nbuf - n)))
    → ((b : Ptr) → has b bufs ≡ true → (c.buf b).dev ≡ no_dev)
    → (bufs' : List Ptr) × IsCache (binit_loop n c) bufs'
unfolding binit_loop
binit_loop-IsCache zero c bufs le r members devs = (
  bufs,
  record {
    ring = r;
    members = members;
    once = λ d k a a' real m m' h h'. absurd (real (ground (arith, devs a m, h)));
  },
)
binit_loop-IsCache (suc n) c bufs le r members devs =
    let b = suc (nbuf - suc n) in
    let c1 = insert_first b c in
    let x = record (c1.buf b) { dev = uint_mod - 1 } in
    binit_loop-IsCache n (record c1 { buf = update c1.buf b x }) (b ∷ bufs) (omega arith)
      (insert_first-Ring b c bufs r (ground (arith, members b))) (λ a. ground (arith, members a))
      (λ a m. elim (eq-cases a b) [
        | inl (e, _) ↦
            ap (λ (u : Ptr). (update c.buf b x u).dev) e ∙ ap Buf.dev (update_self c.buf b x)
        | inr (ne, _) ↦ ap Buf.dev (update_other c.buf b x a ne) ∙ devs a (ground arith)
      ])

-- `binit` makes a well-formed cache, whatever stood in memory.
pub binit-IsCache : (c : Bcache) → (bufs : List Ptr) × IsCache (binit c) bufs
unfolding binit
binit-IsCache c =
    binit_loop-IsCache nbuf
      (record c { next = update c.next head head; prev = update c.prev head head }) [] (omega arith)
      ((update_self c.next head head, update_self c.prev head head), (refl, tt)) (λ b. ground arith)
      (λ b m. absurd (ground arith))
