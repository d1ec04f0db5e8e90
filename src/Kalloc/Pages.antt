-- ===== src/Kalloc/Pages.antt =====
-- The free list of pages as a list of addresses.
use tron_boss_os.Base.{
  ℕ, zero, suc, ◌+◌, ◌*◌, ◌%◌, ◌≤◌, ◌<◌, ◌≡◌, refl, ◌∙◌, sym, ◌≢◌, inl, inr, true, false, List, [],
  ◌∷◌, arith, some, Bool-cases, Bool-false, leb, update_self, has, Distinct, head_or_zero,
}
use tron_boss_os.Links.{Ptr, null}
use tron_boss_os.Links.Chain.{Chain, Chain-update}
use tron_boss_os.Kernel.{add_uint}
use tron_boss_os.Kalloc.{
  Kmem, kinit1, freerange, page_round_up, ◌>>=◌, pgsize, phystop, kernbase, is_page, kfree, kalloc,
  freerange_loop, page_fuel, push_page,
}

-- The pages `xs` are free, each once, and the lock is not held.
pub record IsFree (m : Kmem) (xs : List Ptr) : Type 0 where
  pub chain : Chain m.next m.freelist xs
  pub distinct : Distinct xs
  pub idle : m.locked ≡ false

push_page-IsFree :
    (v : Ptr) (m : Kmem) {xs : List Ptr}
    → v ≢ null
    → has v xs ≡ false
    → IsFree m xs
    → IsFree (push_page v m) (v ∷ xs)
push_page-IsFree v m {xs} ne out f = record {
  chain = (
    refl,
    ne,
    rw (update_self m.next v m.freelist)
        (Chain-update m.next m.freelist v m.freelist xs out f.chain),
  );
  distinct = (out, f.distinct);
  idle = f.idle;
}

-- `kfree` of a page that is not free puts it in front of the free pages; it does not panic.
pub kfree-IsFree :
    (end_of_kernel v : Ptr) (m : Kmem) {xs : List Ptr}
    → is_page end_of_kernel v ≡ true
    → v ≢ null
    → has v xs ≡ false
    → IsFree m xs
    → (m' : Kmem) × (kfree end_of_kernel v m ≡ some m')
      × IsFree m' (v ∷ xs)
      × (m'.use_lock ≡ m.use_lock)
unfolding kfree
kfree-IsFree end_of_kernel v m page ne out f =
    let i = push_page-IsFree v m ne out f in
    let m' : Kmem = record (push_page v m) { locked = false } in
    (
      m',
      elim (Bool-cases m.use_lock) [
        | inl on ↦ rw (page, on, f.idle) refl
        | inr off ↦ rw (page, off, f.idle) refl
      ],
      record { chain = i.chain; distinct = i.distinct; idle = refl },
      refl,
    )

abbrev pub all_but_first : List Ptr → List Ptr
all_but_first [] = []
all_but_first (x ∷ xs) = xs

-- `kalloc` returns the first free page and takes it off the free list, or 0 if no page is free.
pub kalloc-IsFree :
    (m : Kmem) {xs : List Ptr}
    → IsFree m xs
    → (m' : Kmem) × (kalloc m ≡ some (head_or_zero xs, m'))
      × IsFree m' (all_but_first xs)
      × (m'.use_lock ≡ m.use_lock)
unfolding kalloc
kalloc-IsFree m {xs = []} f = (
  m,
  elim (Bool-cases m.use_lock) [
    | inl on ↦ ground (arith, on, f.idle, f.chain)
    | inr off ↦ ground (arith, off, f.idle, f.chain)
  ],
  f,
  refl,
)
kalloc-IsFree m {xs = x ∷ xs} f =
    let ne : m.freelist ≢ null = λ e. f.chain.1 (sym f.chain.0 ∙ e) in
    (
      record m { freelist = m.next m.freelist },
      elim (Bool-cases m.use_lock) [
        | inl on ↦ ground (arith, on, f.idle, ne, f.chain.0)
        | inr off ↦ ground (arith, off, f.idle, ne, f.chain.0)
      ],
      record { chain = rw f.chain.0 f.chain.2; distinct = f.distinct.1; idle = f.idle },
      refl,
    )

-- A page that is freed is the next to be allocated, and the free pages are then as before.
pub kalloc-kfree :
    (end_of_kernel v : Ptr) (m : Kmem) {xs : List Ptr}
    → is_page end_of_kernel v ≡ true
    → v ≢ null
    → has v xs ≡ false
    → IsFree m xs
    → (m' : Kmem) × ((kfree end_of_kernel v m >>= kalloc) ≡ some (v, m')) × IsFree m' xs
kalloc-kfree end_of_kernel v m page ne out f =
    let (m1, e1, f1, _) = kfree-IsFree end_of_kernel v m page ne out f in
    let (m2, e2, f2, _) = kalloc-IsFree m1 f1 in (m2, rw e1 e2, f2)

-- The pages of `n` rounds of freerange from `p` on, the last first, before `xs`.
abbrev pub pages : ℕ → Ptr → List Ptr → List Ptr
pages zero p xs = xs
pages (suc n) p xs = pages n (p + pgsize) (p ∷ xs)

is_page_lem :
    (end_of_kernel p vend : Ptr)
    → p % pgsize ≡ 0
    → end_of_kernel ≤ p
    → kernbase ≤ p
    → p + pgsize ≤ vend
    → vend ≤ kernbase + phystop
    → is_page end_of_kernel p ≡ true
is_page_lem end_of_kernel p vend aligned above high fits low = ground arith

-- One round of freerange.
freerange_loop_step :
    (fuel : ℕ) (end_of_kernel p q vend : Ptr) (m m1 : Kmem)
    → leb (add_uint p pgsize) vend ≡ true
    → kfree end_of_kernel p m ≡ some m1
    → add_uint p pgsize ≡ q
    → freerange_loop (suc fuel) end_of_kernel p vend m ≡ freerange_loop fuel end_of_kernel q vend m1
unfolding freerange_loop
freerange_loop_step fuel end_of_kernel p q vend m m1 go e next =
    rw (freerange_loop, go, e, next) refl

-- `freerange` frees each whole page between `p` and `vend` once, with enough fuel, if these lie in
-- the kernel's part of memory, behind the kernel and below PHYSTOP, and all pages that are free
-- already lie below `p`.
pub freerange_loop-IsFree :
    (n fuel : ℕ) (end_of_kernel p vend : Ptr) (m : Kmem) {xs : List Ptr}
    → n < fuel
    → p % pgsize ≡ 0
    → end_of_kernel ≤ p
    → kernbase ≤ p
    → vend ≤ kernbase + phystop
    → p + pgsize * n ≤ vend
    → vend < p + pgsize * n + pgsize
    → ((a : Ptr) → has a xs ≡ true → a < p)
    → IsFree m xs
    → (m' : Kmem) × (freerange_loop fuel end_of_kernel p vend m ≡ some m')
      × IsFree m' (pages n p xs)
      × (m'.use_lock ≡ m.use_lock)
unfolding freerange_loop
freerange_loop-IsFree n zero end_of_kernel p vend m lt aligned above high low from to below f =
    absurd (omega arith)
freerange_loop-IsFree zero (suc fuel) end_of_kernel p vend m lt aligned above high low from to below
      f =
    let stop : leb (add_uint p pgsize) vend ≡ false = ground arith in
    (m, rw (freerange_loop, stop) refl, f, refl)
freerange_loop-IsFree (suc n) (suc fuel) end_of_kernel p vend m {xs} lt aligned above high low from
      to below f =
    let go : leb (add_uint p pgsize) vend ≡ true = ground arith in
    let next : add_uint p pgsize ≡ p + pgsize = omega arith in
    let page = is_page_lem end_of_kernel p vend aligned above high (omega arith) low in
    let out : has p xs ≡ false = Bool-false (λ b. absurd (omega (arith, below p b))) in
    let (m1, e1, f1, u1) = kfree-IsFree end_of_kernel p m page (omega arith) out f in
    let (m2, e2, f2, u2) =
      freerange_loop-IsFree n fuel end_of_kernel (p + pgsize) vend m1 (omega arith) (omega arith)
        (omega arith) (omega arith) low (omega arith) (omega arith) (λ a h. ground (arith, below a))
        f1 in
    (
      m2,
      freerange_loop_step fuel end_of_kernel p (p + pgsize) vend m m1 go e1 next ∙ e2,
      f2,
      u2 ∙ u1,
    )

-- `kinit1` with an empty free list frees each whole page between its arguments once, if these lie
-- in the kernel's part of memory, behind the kernel and below PHYSTOP. It does not panic, its loop
-- ends, and the lock is not used yet.
pub kinit1-IsFree :
    (n : ℕ) (end_of_kernel vstart vend : Ptr) (m : Kmem)
    → m.freelist ≡ null
    → end_of_kernel ≤ vstart
    → kernbase ≤ vstart
    → vstart ≤ vend
    → vend ≤ kernbase + phystop
    → page_round_up vstart + pgsize * n ≤ vend
    → vend < page_round_up vstart + pgsize * n + pgsize
    → (m' : Kmem) × (kinit1 end_of_kernel vstart vend m ≡ some m')
      × IsFree m' (pages n (page_round_up vstart) [])
      × (m'.use_lock ≡ false)
unfolding kinit1 freerange
kinit1-IsFree n end_of_kernel vstart vend m none_free above high le low from to =
    freerange_loop-IsFree n page_fuel end_of_kernel (page_round_up vstart) vend
      (record m { locked = false; use_lock = false }) (omega arith) (omega arith) (omega arith)
      (omega arith) low from to (λ a h. ground arith)
      (record { chain = none_free; distinct = tt; idle = refl })
