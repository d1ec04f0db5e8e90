-- ===== src/Proc/Sched.antt =====
-- Giving up the CPU and getting it: yield, sleep, wakeup and the scheduler of proc.c.
pub mod Yield
pub mod Dispatch
pub mod Scan
pub mod Wakeup
pub mod Sleep
use tron_boss_os.Base.{
  ℕ, zero, suc, ◌-◌, Bool, true, Option, none, some, ◌==◌, if◌then◌else◌, ℤ, pos, negsuc,
}
use tron_boss_os.Links
use tron_boss_os.Links.{
  Ptr, null, max_priority, loop_fuel, remove_from_list, remove_from_front, add_to_front_of_list,
  add_to_ready_priority_list,
}
use tron_boss_os.Kernel.{
  LockId, sleeping, runnable, running, switchuvm, switchkvm, ptable_lock, M, ok, out_of_fuel, ◌>>=◌,
  ◌>>◌, pure, panic, check, on_links, link, modify, fetch, current, call,
}
use tron_boss_os.Kernel.Spinlock.{acquire, release}
use tron_boss_os.Proc.{head_of, assert_state, charge_budget, sched, sched_return}
use tron_boss_os.Proc.Promote.{promote_if_due}

-- `yield` up to the context switch. The code does not look at what removefromlist returns.
unfoldable pub yield : M Bool
yield = do
  acquire ptable_lock
  p ← current
  on_links (remove_from_list Links.running p) >>= λ _. assert_state p running
  modify p (λ r. record r { state = runnable })
  λ k. modify p (charge_budget k.ticks) k
  r ← fetch p
  rc ← on_links (add_to_ready_priority_list (Links.ready r.priority) p)
  check rc "Failure to add to ready list in yield"
  sched

unfoldable pub yield_return : Bool → M (Unit {0})
yield_return intena = do sched_return intena; release ptable_lock

-- Releasing and taking the lock that sleep is given, `none` for NULL, `ptable.lock` aside.
unfoldable pub swap_in : Option LockId → M (Unit {0})
swap_in none = acquire ptable_lock
swap_in (some l) = if l == ptable_lock then pure tt else (do acquire ptable_lock; release l)

unfoldable pub swap_out : Option LockId → M (Unit {0})
swap_out none = release ptable_lock
swap_out (some l) = if l == ptable_lock then pure tt else (do release ptable_lock; acquire l)

-- The body of `sleep` between the lock changes, up to the context switch.
unfoldable pub go_to_sleep : ℕ → Ptr → M Bool
go_to_sleep chan p = do
  modify p (λ r. record r { chan = chan })
  rc ← on_links (remove_from_list Links.running p)
  check rc "Failed to remove from running list in sleep "
  assert_state p running
  λ k. modify p (charge_budget k.ticks) k
  modify p (λ r. record r { state = sleeping })
  link (add_to_front_of_list Links.sleep p)
  sched

unfoldable pub sleep : ℕ → Option LockId → M Bool
sleep chan lk = do
  p ← current
  if p == null then panic "sleep" else (do swap_in lk; go_to_sleep chan p)

unfoldable pub sleep_return : Option LockId → Bool → M (Unit {0})
sleep_return lk intena = do
  sched_return intena
  p ← current
  modify p (λ r. record r { chan = 0 })
  swap_out lk

-- A process that removefromlist has found on the sleep list becomes runnable.
unfoldable pub made_runnable : Ptr → ℤ → M (Unit {0})
made_runnable p (pos zero) = do
  assert_state p sleeping
  modify p (λ r. record r { state = runnable })
  r ← fetch p
  rc ← on_links (add_to_ready_priority_list (Links.ready r.priority) p)
  check rc "Failed to add to ready list in wakeup1."
made_runnable p (pos (suc n)) = pure tt
made_runnable p (negsuc n) = pure tt

-- One process of the sleep list, in `wakeup1`.
unfoldable pub wake_one : (chan p : ℕ) → M (Unit {0})
unfolding made_runnable
wake_one chan p = do
  r ← fetch p
  if r.chan == chan then on_links (remove_from_list Links.sleep p) >>= made_runnable p else pure tt

-- `while(p)` of `wakeup1`: the next process is read before this one is moved.
unfoldable pub wakeup_loop : ℕ → (chan p : ℕ) → M (Unit {0})
unfolding wake_one
wakeup_loop zero chan p = λ _. out_of_fuel
wakeup_loop (suc fuel) chan p =
    if p == null
    then pure tt
    else (λ k. let temp = k.links.next p in (wake_one chan p >> wakeup_loop fuel chan temp) k)

unfoldable pub wakeup1 : ℕ → M (Unit {0})
unfolding wakeup_loop
wakeup1 chan = do p ← head_of Links.sleep; wakeup_loop loop_fuel chan p

unfoldable pub wakeup : ℕ → M (Unit {0})
wakeup chan = do acquire ptable_lock; wakeup1 chan; release ptable_lock

-- The scheduler takes the process at the head of ready list `i`, up to `swtch`. It returns the
-- index with which the loop goes on when the process gives the CPU back.
unfoldable pub dispatch : ℕ → Ptr → M ℕ
dispatch i p = do
  λ k. ok tt (record k { proc = p })
  call (switchuvm p)
  r ← fetch p
  rc ← on_links (λ h. some (remove_from_front (Links.ready r.priority) p h))
  check rc "Failed to remove from ready list in scheduler."
  assert_state p runnable
  modify p (λ r. record r { state = running })
  link (add_to_front_of_list Links.running p)
  λ k. modify p (λ r. record r { cpu_ticks_in = k.ticks }) k
  pure (if i == max_priority then suc max_priority else 0)

-- `for(i = 0; i < MAX+1; ++i)` with `n` lists to go: `none` at the end of the loop.
unfoldable pub scan : ℕ → M (Option ℕ)
scan zero = pure none
scan (suc n) = do
  promote_if_due
  p ← head_of (Links.ready (max_priority - n))
  if p == null then scan n else (do i ← dispatch (max_priority - n) p; pure (some i))

unfoldable pub scheduler : M (Option ℕ)
scheduler = do
  λ k. ok tt (record k { cpu = record (k.cpu) { interrupts = true } })
  acquire ptable_lock
  scan (suc max_priority)

-- Behind `swtch`: the loop goes on with index `i`.
unfoldable pub scheduler_return : ℕ → M (Option ℕ)
scheduler_return i = do
  call switchkvm
  λ k. ok tt (record k { proc = null })
  scan (suc max_priority - i)
