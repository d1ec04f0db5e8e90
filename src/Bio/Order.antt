-- ===== src/Bio/Order.antt =====
-- The well-formed cache: the ring has every buffer once, and no block has two buffers.
use tron_boss_os.Base.{
  ℕ, zero, suc, ◌-◌, ◌≤◌, ◌<◌, ◌≡◌, ◌≢◌, refl, sym, ap, ◌∙◌, inl, inr, ◌⊎◌, Bool, true, false, ◌&&◌,
  some, List, [], ◌∷◌, arith, leb, if◌then◌else◌, eq-cases, update, update_self, update_other, has,
  has-append, Bool-cases, length, length-append, length-Distinct-le,
}
use tron_boss_os.Links.{Ptr}
use tron_boss_os.Kernel.{uint_mod}
use tron_boss_os.Ide.{Buf}
use tron_boss_os.Bio.{nbuf, head, Bcache, find, find_fuel, holds}
use tron_boss_os.Bio.Ring.{Linked, Ring, reverse, Linked-reverse}

-- The device `-1` of a buffer that binit has made and bget has not given out
abbrev pub no_dev : ℕ
no_dev = uint_mod - 1

-- The buffers in the order of the ring, the most recently released one first
pub record IsCache (c : Bcache) (bufs : List Ptr) : Type 0 where
  pub ring : Ring c.next c.prev head bufs
  pub members : (b : Ptr) → has b bufs ≡ (leb 1 b && leb b nbuf)
  pub once :
      (dev blockno : ℕ) (a b : Ptr)
      → dev ≢ no_dev
      → has a bufs ≡ true
      → has b bufs ≡ true
      → holds dev blockno (c.buf a) ≡ true
      → holds dev blockno (c.buf b) ≡ true
      → a ≡ b

-- The first buffer of a list that passes the test, or the head
abbrev pub first : (test : Ptr → Bool) → List Ptr → Ptr
first test [] = head
first test (x ∷ xs) = let rest = first test xs in if test x then x else rest

find-first :
    (fuel : ℕ) (n p : Ptr → Ptr) (test : Ptr → Bool) (a : Ptr) (xs : List Ptr)
    → Linked n p a xs head
    → has head xs ≡ false
    → length xs < fuel
    → find fuel n test (n a) ≡ some (first test xs)
unfolding find
find-first zero n p test a xs l out lt = absurd (omega arith)
find-first (suc fuel) n p test a [] l out lt = ground (arith, l.0)
find-first (suc fuel) n p test a (x ∷ xs) l out lt =
    let rest = find-first fuel n p test x xs l.2 (ground arith) (omega arith) in
    rw (l.0) (ground (arith, rest))

-- Either none passes the test, or the first one that does is in the list.
pub first-cases :
    (test : Ptr → Bool) (xs : List Ptr)
    → has head xs ≡ false
    → ((first test xs ≡ head) × ((b : Ptr) → has b xs ≡ true → test b ≡ false))
      ⊎ ((has (first test xs) xs ≡ true) × (test (first test xs) ≡ true))
first-cases test [] out = inl (refl, λ b m. ground arith)
first-cases test (x ∷ xs) out = elim (Bool-cases (test x)) [
  | inl t ↦ rw t (inr (ground arith, t))
  | inr f ↦
      let later : first test (x ∷ xs) ≡ first test xs = rw f refl in
      elim (first-cases test xs (ground arith)) [
        | inl (e, all) ↦ inl (
          later ∙ e,
          λ b m. elim (eq-cases b x) [
            | inl (e, _) ↦ ap test e ∙ f
            | inr (ne, _) ↦ all b (ground arith)
          ],
        )
        | inr (m, t) ↦
            inr (ap (λ (u : Ptr). has u (x ∷ xs)) later ∙ ground arith, ap test later ∙ t)
      ]
]

pub has-reverse : (a : Ptr) (xs : List Ptr) → has a (reverse xs) ≡ has a xs
has-reverse a [] = refl
has-reverse a (x ∷ xs) = has-append a (reverse xs) (x ∷ []) ∙ ground (arith, has-reverse a xs)

length-reverse : (xs : List Ptr) → length (reverse xs) ≡ length xs
length-reverse [] = refl
length-reverse (x ∷ xs) = length-append (reverse xs) (x ∷ []) ∙ omega (arith, length-reverse xs)

module _ (c : Bcache) (bufs : List Ptr) (w : IsCache c bufs) where
  pub no_head : has head bufs ≡ false
  no_head = ground (arith, w.members head)

  pub fits : length bufs ≤ nbuf
  fits = length-Distinct-le nbuf bufs w.ring.1.1 (λ a m. ground (arith, w.members a))

  -- The loops of bget, one along `next` and one along `prev`
  pub find-next :
      (test : Ptr → Bool) → find find_fuel c.next test (c.next head) ≡ some (first test bufs)
  find-next test =
      find-first find_fuel c.next c.prev test head bufs w.ring.0 no_head (omega (arith, fits))

  pub find-prev :
      (test : Ptr → Bool)
      → find find_fuel c.prev test (c.prev head) ≡ some (first test (reverse bufs))
  find-prev test =
      find-first find_fuel c.prev c.next test head (reverse bufs)
        (Linked-reverse c.next c.prev head bufs head w.ring.0) (has-reverse head bufs ∙ no_head)
        (omega (arith, fits, length-reverse bufs))

  -- A buffer changes: the ring stays, and no block gets a second buffer if what the buffer holds was
  -- its own before or was no buffer's.
  pub IsCache-update :
      (b : Ptr) (x : Buf)
      → ((a : Ptr) (dev blockno : ℕ)
          → dev ≢ no_dev
          → has a bufs ≡ true
          → a ≢ b
          → holds dev blockno x ≡ true
          → holds dev blockno (c.buf a) ≡ false)
      → IsCache (record c { buf = update c.buf b x }) bufs
  IsCache-update b x new =
      let kept : (dev blockno : ℕ) (a : Ptr)
          → a ≢ b
          → holds dev blockno (update c.buf b x a) ≡ true
          → holds dev blockno (c.buf a) ≡ true =
        λ dev blockno a ne h. sym (ap (holds dev blockno) (update_other c.buf b x a ne)) ∙ h in
      let clash : (dev blockno : ℕ) (a a' : Ptr)
          → dev ≢ no_dev
          → has a' bufs ≡ true
          → a ≡ b
          → a' ≢ b
          → holds dev blockno (update c.buf b x a) ≡ true
          → holds dev blockno (update c.buf b x a') ≡ true
          → true ≡ false =
        λ dev blockno a a' known m' e ne' h h'.
          let hx : holds dev blockno x ≡ true =
            sym (ap (holds dev blockno) (ap (update c.buf b x) e ∙ update_self c.buf b x)) ∙ h in
          sym (kept dev blockno a' ne' h') ∙ new a' dev blockno known m' ne' hx in
      record {
        ring = w.ring;
        members = w.members;
        once = λ dev blockno a a' known m m' h h'. elim (eq-cases a b) [
          | inl (e, _) ↦ elim (eq-cases a' b) [
            | inl (e', _) ↦ e ∙ sym e'
            | inr (ne', _) ↦ absurd (ground (arith, clash dev blockno a a' known m' e ne' h h'))
          ]
          | inr (ne, _) ↦ elim (eq-cases a' b) [
            | inl (e', _) ↦ absurd (ground (arith, clash dev blockno a' a known m e' ne h' h))
            | inr (ne', _) ↦
                w.once dev blockno a a' known m m' (kept dev blockno a ne h)
                  (kept dev blockno a' ne' h')
          ]
        ];
      }

  -- A buffer changes that keeps its block.
  pub IsCache-same_block :
      (b : Ptr) (x : Buf)
      → has b bufs ≡ true
      → x.dev ≡ (c.buf b).dev
      → x.blockno ≡ (c.buf b).blockno
      → IsCache (record c { buf = update c.buf b x }) bufs
  IsCache-same_block b x m ed en = IsCache-update b x (λ a d k real ma ne hx.
      elim (Bool-cases (holds d k (c.buf a))) [
        | inl t ↦ absurd (ne (w.once d k a b real ma m t (ground (arith, ed, en, hx))))
        | inr out ↦ out
      ])
