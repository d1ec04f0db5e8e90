-- ===== src/Proc/Promote.antt =====
-- The periodic promotion of proc.c: promotiononotherlists, promotiononreadylists, and the test at
-- the head of the scheduler's loop.
pub mod Lists
pub mod Keeps
pub mod Once
use tron_boss_os.Base.{ℕ, zero, suc, ◌+◌, ◌-◌, none, some, ◌==◌, if◌then◌else◌, update}
use tron_boss_os.Links
use tron_boss_os.Links.{Ptr, null, max_priority, loop_fuel, ListId, Links, last_loop}
use tron_boss_os.Kernel.{Proc, M, ok, out_of_fuel, ◌>>=◌, ◌>>◌, pure, link, add_uint}
use tron_boss_os.Proc.Walk.{for_each}
use tron_boss_os.Proc.{default_priority, ticks_to_promote, head_of}

abbrev pub promoted : Proc → Proc
promoted r = if r.priority == default_priority then r else record r { priority = r.priority - 1 }

unfoldable pub promotion_on_other_lists : ListId → M (Unit {0})
promotion_on_other_lists l = do p ← head_of l; for_each loop_fuel promoted p

abbrev pub relabelled : ℕ → Proc → Proc
relabelled i r = record r { priority = i }

-- The last process of list `i`, from `p1` on, gets the list `i + 1` behind it.
abbrev hang : ℕ → Ptr → M (Unit {0})
hang i p1 k = elim (last_loop loop_fuel p1 k.links) [
  | none ↦ out_of_fuel
  | some last ↦ ok tt (record k {
    links = record (k.links) {
      next = update k.links.next last (k.links.heads (Links.ready (i + 1)));
    };
  })
]

abbrev pub set_head : ListId → Ptr → Links → Links
set_head l p h = record h { heads = update h.heads l p }

-- The two branches on `!ptable.pLists.ready[priority_list]`
unfoldable pub join : ℕ → (p1 p2 : Ptr) → M (Unit {0})
join i p1 p2 = if p1 == null then link (set_head (Links.ready i) p2) else hang i p1

unfoldable pub promotion_on_ready_lists : ℕ → M (Unit {0})
unfolding join
promotion_on_ready_lists i = do
  p2 ← head_of (Links.ready (i + 1))
  p1 ← head_of (Links.ready i)
  join i p1 p2
  for_each loop_fuel (relabelled i) p2
  link (set_head (Links.ready (i + 1)) null)

-- `for(int j = 0; j < MAX; ++j)` with `n` lists to go
unfoldable pub promote_ready : ℕ → M (Unit {0})
unfolding promotion_on_ready_lists
promote_ready zero = pure tt
promote_ready (suc n) = do promotion_on_ready_lists (max_priority - suc n); promote_ready n

unfoldable pub promote : M (Unit {0})
unfolding promotion_on_other_lists promote_ready
promote = do
  promotion_on_other_lists Links.sleep
  promotion_on_other_lists Links.running
  promote_ready max_priority
  λ k. ok tt (record k { promote_at_time = add_uint k.ticks ticks_to_promote })

unfoldable pub promote_if_due : M (Unit {0})
promote_if_due k = if k.promote_at_time == k.ticks then promote k else ok tt k
