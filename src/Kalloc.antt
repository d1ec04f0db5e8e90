-- ===== src/Kalloc.antt =====
-- The page allocator: kalloc.c. An address is a number; `next` is the first word of a page that is
-- on the free list, and the rest of a page is not looked at. `none` is a panic. `locked` says that
-- this CPU holds `kmem.lock`; an acquire that has to wait goes on from the state in which the lock
-- is free. `end_of_kernel` is the linker's symbol `end`.
pub mod Pages
use tron_boss_os.Base.{
  ℕ, zero, suc, ◌+◌, ◌-◌, ◌*◌, ◌/◌, ◌%◌, ◌^◌, Bool, true, false, ◌&&◌, not, Option, none, some,
  ◌==◌, ltb, leb, if◌then◌else◌, update,
}
use tron_boss_os.Links.{Ptr, null}
use tron_boss_os.Kernel.{add_uint, sub_uint}

abbrev pub pgsize : ℕ
pgsize = 4096

abbrev pub phystop : ℕ
phystop = 0xE000000

abbrev pub kernbase : ℕ
kernbase = 0x80000000

pub record Kmem : Type 0 where
  pub next : Ptr → Ptr
  pub freelist : Ptr
  pub use_lock : Bool
  pub locked : Bool

infixl 5 ◌>>=◌
abbrev pub ◌>>=◌ {ℓ} : {A B : Type ℓ} → Option A → (A → Option B) → Option B
none >>= f = none
some a >>= f = f a

-- `if(kmem.use_lock) acquire(&kmem.lock);`
abbrev pub enter : Kmem → Option Kmem
enter m =
    if m.use_lock then (if m.locked then none else some (record m { locked = true })) else some m

-- `if(kmem.use_lock) release(&kmem.lock);`
abbrev pub leave : Kmem → Option Kmem
leave m =
    if m.use_lock then (if m.locked then some (record m { locked = false }) else none) else some m

-- The address of a page that may be freed: `v2p(v)` is `v - KERNBASE`.
abbrev pub is_page : (end_of_kernel v : Ptr) → Bool
is_page end_of_kernel v =
    (v % pgsize == 0) && (leb end_of_kernel v && ltb (sub_uint v kernbase) phystop)

abbrev pub push_page : Ptr → Kmem → Kmem
push_page v m = record m { next = update m.next v m.freelist; freelist = v }

unfoldable pub kfree : (end_of_kernel v : Ptr) → Kmem → Option Kmem
kfree end_of_kernel v m =
    if is_page end_of_kernel v then (do m ← enter m; leave (push_page v m)) else none

-- `if(r) kmem.freelist = r->next;`
abbrev pub pop_page : Kmem → Kmem
pop_page m = if m.freelist == null then m else record m { freelist = m.next m.freelist }

unfoldable pub kalloc : Kmem → Option (Ptr × Kmem)
kalloc m = do m ← enter m; n ← leave (pop_page m); some (m.freelist, n)

-- The loop of freerange from `p` on, with `n` rounds at most: it goes on while `p + PGSIZE <= vend`.
unfoldable pub freerange_loop : ℕ → (end_of_kernel p vend : Ptr) → Kmem → Option Kmem
freerange_loop zero end_of_kernel p vend m = none
freerange_loop (suc n) end_of_kernel p vend m = elim (leb (add_uint p pgsize) vend) [
  | true ↦ kfree end_of_kernel p m >>= freerange_loop n end_of_kernel (add_uint p pgsize) vend
  | false ↦ some m
]

-- PGROUNDUP of mmu.h
abbrev pub page_round_up : ℕ → ℕ
page_round_up n = add_uint n (pgsize - 1) / pgsize * pgsize

-- One more round than there are pages in 32 bits.
abbrev pub page_fuel : ℕ
page_fuel = 2 ^ 20 + 1

unfoldable pub freerange : (end_of_kernel vstart vend : Ptr) → Kmem → Option Kmem
freerange end_of_kernel vstart vend m =
    freerange_loop page_fuel end_of_kernel (page_round_up vstart) vend m

unfoldable pub kinit1 : (end_of_kernel vstart vend : Ptr) → Kmem → Option Kmem
kinit1 end_of_kernel vstart vend m =
    freerange end_of_kernel vstart vend (record m { locked = false; use_lock = false })

unfoldable pub kinit2 : (end_of_kernel vstart vend : Ptr) → Kmem → Option Kmem
kinit2 end_of_kernel vstart vend m =
    freerange end_of_kernel vstart vend m >>= λ m'. some (record m' { use_lock = true })
