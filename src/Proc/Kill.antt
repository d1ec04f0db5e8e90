-- ===== src/Proc/Kill.antt =====
-- kill of proc.c.
pub mod Keeps
use tron_boss_os.Base.{ℕ, zero, suc, ◌-◌, Bool, true, ◌==◌, if◌then◌else◌, ℤ, pos, negsuc, to_uint}
use tron_boss_os.Links
use tron_boss_os.Links.{
  Ptr, null, max_priority, loop_fuel, ListId, remove_from_list, add_to_ready_priority_list,
}
use tron_boss_os.Kernel.{
  Proc, sleeping, runnable, ptable_lock, M, ◌>>=◌, ◌>>◌, pure, check, on_links, modify, fetch,
}
use tron_boss_os.Kernel.Spinlock.{acquire, release}
use tron_boss_os.Proc.Walk.{find_first}
use tron_boss_os.Proc.{head_of, assert_state}

abbrev pub has_pid : ℕ → Proc → Bool
has_pid pid r = r.pid == pid

-- `while(p)` over a list: the first process with this pid, or NULL
unfoldable pub find_on : ListId → ℕ → M Ptr
find_on l pid = do p ← head_of l; find_first loop_fuel (has_pid pid) p

-- A sleeping process is killed and made runnable.
unfoldable pub kill_sleeping : Ptr → M (Unit {0})
kill_sleeping p = do
  rc ← on_links (remove_from_list Links.sleep p)
  check rc "failure to remove from sleep list in kill. "
  assert_state p sleeping
  modify p (λ r. record r { state = runnable; killed = true })
  r ← fetch p
  rc ← on_links (add_to_ready_priority_list (Links.ready r.priority) p)
  check rc "Failure to add to ready list in yield"

-- The lists that are searched behind the sleep list, in the order of the code: embryo, the ready
-- lists (`n` of them to go), running. A process that is found is marked.
unfoldable pub mark : Ptr → M ℤ
mark p = do modify p (λ r. record r { killed = true }); release ptable_lock; pure (pos 0)

unfoldable pub kill_running : ℕ → M ℤ
unfolding mark find_on
kill_running pid = do
  p ← find_on Links.running pid
  if p == null then (do release ptable_lock; pure (negsuc 0)) else mark p

unfoldable pub kill_ready : ℕ → ℕ → M ℤ
unfolding mark find_on kill_running
kill_ready zero pid = kill_running pid
kill_ready (suc n) pid = do
  p ← find_on (Links.ready (suc max_priority - suc n)) pid
  if p == null then kill_ready n pid else mark p

unfoldable pub kill_embryo : ℕ → M ℤ
unfolding mark find_on kill_ready
kill_embryo pid = do
  p ← find_on Links.embryo pid
  if p == null then kill_ready (suc max_priority) pid else mark p

-- `p->pid == pid` compares a `uint` with an `int`, which is converted.
unfoldable pub kill : ℤ → M ℤ
unfolding kill_sleeping find_on kill_embryo
kill pid = do
  acquire ptable_lock
  p ← find_on Links.sleep (to_uint pid)
  if p == null
      then kill_embryo (to_uint pid)
      else (do kill_sleeping p; release ptable_lock; pure (pos 0))
