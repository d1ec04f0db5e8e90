-- ===== src/Proc/Priority.antt =====
-- setpriority of proc.c, with setprocpriority and setreadyprocpriority.
pub mod Keeps
pub mod Refused
use tron_boss_os.Base.{
  ℕ, zero, suc, ◌-◌, Bool, true, false, ◌==◌, ltb, if◌then◌else◌, ℤ, pos, negsuc,
}
use tron_boss_os.Links
use tron_boss_os.Links.{
  Ptr, null, max_priority, loop_fuel, ListId, remove_from_list, add_to_ready_priority_list,
}
use tron_boss_os.Kernel.{Proc, ptable_lock, M, ◌>>=◌, ◌>>◌, pure, check, on_links, modify, fetch}
use tron_boss_os.Kernel.Spinlock.{acquire, release, holding}
use tron_boss_os.Proc.{default_budget}
use tron_boss_os.Proc.Kill.{find_on}

-- The two writes at a process whose priority changes.
abbrev pub reprioritised : ℕ → Proc → Proc
reprioritised n r = record r { priority = n; budget = default_budget }

-- The process that is found, NULL for none. -1: it has this priority already, 1: its priority was
-- changed, 0: there is none.
unfoldable pub set_found : ℕ → Ptr → M ℤ
set_found n p = do
  r ← fetch p
  if p == null
      then pure (pos 0)
      else if r.priority == n
      then pure (negsuc 0)
      else (do modify p (reprioritised n); pure (pos 1))

unfoldable pub set_proc_priority : ListId → (pid priority : ℕ) → M ℤ
unfolding set_found
set_proc_priority l pid n = do p ← find_on l pid; set_found n p

-- `for(i = 0; i < MAX + 1; ++i)` of setreadyprocpriority with `n` lists to go
unfoldable pub set_ready_at : ListId → Ptr → ℕ → M ℤ
set_ready_at l p priority = do
  r ← fetch p
  if r.priority == priority then pure (negsuc 0) else (do
    modify p (reprioritised priority)
    rc ← on_links (remove_from_list l p)
    check rc "Error: Removing from ready list in setreadyprocpriority routine."
    rc ← on_links (add_to_ready_priority_list (Links.ready priority) p)
    check rc "Error: Adding to ready list in setreadyprocpriority routine."
    pure (pos 1))

unfoldable pub set_ready_proc_priority : ℕ → (pid priority : ℕ) → M ℤ
unfolding set_ready_at
set_ready_proc_priority zero pid priority = pure (pos 0)
set_ready_proc_priority (suc n) pid priority = do
  p ← find_on (Links.ready (suc max_priority - suc n)) pid
  if p == null
      then set_ready_proc_priority n pid priority
      else set_ready_at (Links.ready (suc max_priority - suc n)) p priority

abbrev pub finish : Bool → ℤ → M ℤ
finish true result = pure result
finish false result = do release ptable_lock; pure result

-- What a search has returned: -1 ends setpriority with -5, 1 with 0; else the next list is searched.
abbrev pub settled : Bool → ℤ → M ℤ → M ℤ
settled isholding (negsuc n) next = if n == 0 then finish isholding (negsuc 4) else next
settled isholding (pos n) next = if n == 1 then finish isholding (pos 0) else next

unfoldable pub set_priority_locked : Bool → (pid priority : ℕ) → M ℤ
unfolding set_proc_priority set_ready_proc_priority
set_priority_locked isholding pid n = do
  rc ← set_proc_priority Links.running pid n
  settled isholding rc (do
    rc ← set_proc_priority Links.sleep pid n
    settled isholding rc (do
      rc ← set_ready_proc_priority (suc max_priority) pid n
      settled isholding rc (finish isholding (negsuc 3))))

-- The two tests on the arguments.
unfoldable pub set_priority_checked : Bool → ℤ → ℤ → M ℤ
unfolding set_priority_locked
set_priority_checked isholding (negsuc n) priority = finish isholding (negsuc 1)
set_priority_checked isholding (pos pid) (negsuc n) =
    if ltb 32767 pid then finish isholding (negsuc 1) else finish isholding (negsuc 2)
set_priority_checked isholding (pos pid) (pos n) =
    if ltb 32767 pid
    then finish isholding (negsuc 1)
    else if ltb max_priority n
    then finish isholding (negsuc 2)
    else set_priority_locked isholding pid n

unfoldable pub setpriority : ℤ → ℤ → M ℤ
unfolding set_priority_checked
setpriority pid priority = do
  isholding ← holding ptable_lock
  if isholding then pure tt else acquire ptable_lock
  set_priority_checked isholding pid priority
