-- ===== src/Proc/Exit.antt =====
-- The end of a process: exit and wait of proc.c, with adoptzombiechildren and checkforchildren.
pub mod Adopt
pub mod Zombies
pub mod Keeps
pub mod Wait
use tron_boss_os.Base.{
  ℕ, zero, suc, ◌-◌, Bool, true, false, ◌||◌, not, some, [], ◌==◌, if◌then◌else◌, ℤ, pos, negsuc,
  update,
}
use tron_boss_os.Links
use tron_boss_os.Links.{
  Ptr, null, max_priority, loop_fuel, ListId, remove_from_list, add_to_front_of_list,
}
use tron_boss_os.Kernel.{
  Proc, unused, running, zombie, kfree, freevm, fileclose, iput, begin_op, end_op, ptable_lock, M,
  out_of_fuel, ◌>>=◌, ◌>>◌, pure, panic, check, on_links, link, modify, fetch, current, call,
}
use tron_boss_os.Kernel.Spinlock.{acquire, release}
use tron_boss_os.Proc.Walk.{for_each, find_first}
use tron_boss_os.Proc.{nofile, head_of, assert_state, sched}
use tron_boss_os.Proc.Sched.{wakeup1, sleep}

-- `for(fd = 0; fd < NOFILE; fd++)` of exit with `n` files to go
unfoldable pub close_files : ℕ → Ptr → M (Unit {0})
close_files zero p = pure tt
close_files (suc n) p = do
  r ← fetch p
  if r.ofile (nofile - suc n) == null then pure tt else (do
    call (fileclose (r.ofile (nofile - suc n)))
    modify p (λ c. record c { ofile = update c.ofile (nofile - suc n) null }))
  close_files n p

abbrev pub adopted : (parent init : Ptr) → Proc → Proc
adopted parent init r = if r.parent == parent then record r { parent = init } else r

unfoldable pub adopt_zombie_children : ListId → Ptr → M (Unit {0})
adopt_zombie_children l parent = do
  p ← head_of l
  λ k. for_each loop_fuel (adopted parent k.initproc) p k

-- `for(int i = 0; i < MAX + 1; ++i)` of exit with `n` ready lists to go
unfoldable pub adopt_ready : ℕ → Ptr → M (Unit {0})
unfolding adopt_zombie_children
adopt_ready zero parent = pure tt
adopt_ready (suc n) parent = do
  adopt_zombie_children (Links.ready (suc max_priority - suc n)) parent
  adopt_ready n parent

-- `while(p)` of exit over the zombie list: a zombie child is handed to init, which is woken.
unfoldable pub zombie_loop : ℕ → (parent p : Ptr) → M (Unit {0})
zombie_loop zero parent p = λ _. out_of_fuel
zombie_loop (suc fuel) parent p = if p == null then pure tt else (do
  r ← fetch p
  if r.parent == parent
      then (λ k. (do modify p (λ c. record c { parent = k.initproc }); wakeup1 k.initproc) k)
      else pure tt
  λ k. zombie_loop fuel parent (k.links.next p) k)

-- From `acquire(&ptable.lock)` of exit on: the parent is woken, the children go to init.
unfoldable pub exit_hand_over : Ptr → M (Unit {0})
unfolding zombie_loop adopt_ready
exit_hand_over p = do
  r ← fetch p
  wakeup1 r.parent
  adopt_zombie_children Links.embryo p
  adopt_ready (suc max_priority) p
  adopt_zombie_children Links.sleep p
  adopt_zombie_children Links.running p
  z ← head_of Links.zombie
  zombie_loop loop_fuel p z

-- The rest of exit, up to the switch that never returns.
unfoldable pub exit_leave : Ptr → M Bool
exit_leave p = do
  rc ← on_links (remove_from_list Links.running p)
  check rc "Failure to remove from running list in exit"
  assert_state p running
  modify p (λ c. record c { state = zombie })
  link (add_to_front_of_list Links.zombie p)
  sched

unfoldable pub exit_locked : Ptr → M Bool
exit_locked p = exit_hand_over p >> exit_leave p

unfoldable pub exit : M Bool
unfolding close_files
exit = do
  p ← current
  λ k.
      (if p == k.initproc then panic "init exiting" else (do
        close_files nofile p
        call begin_op
        r ← fetch p
        call (iput r.cwd)
        call end_op
        modify p (λ c. record c { cwd = null })
        acquire ptable_lock
        exit_locked p))
        k

abbrev pub is_child : Ptr → Proc → Bool
is_child parent r = r.parent == parent

unfoldable pub check_for_children : ListId → Ptr → M ℤ
check_for_children l parent = do
  h ← head_of l
  p ← find_first loop_fuel (is_child parent) h
  pure (if p == null then negsuc 0 else pos 0)

abbrev pub is_zero : ℤ → Bool
is_zero (pos n) = n == 0
is_zero (negsuc n) = false

-- `checkforchildren(...) == 0` for the embryo, running and sleep lists
unfoldable pub have_kids : Ptr → M Bool
unfolding check_for_children
have_kids p = do
  e ← check_for_children Links.embryo p
  if is_zero e then pure true else (do
    r ← check_for_children Links.running p
    if is_zero r then pure true else (do s ← check_for_children Links.sleep p; pure (is_zero s)))

-- `for(int i = 0; i < MAX + 1; ++i)` of wait with `n` ready lists to go
unfoldable pub have_ready_kids : ℕ → Ptr → Bool → M Bool
unfolding check_for_children
have_ready_kids zero p found = pure found
have_ready_kids (suc n) p found = do
  rc ← check_for_children (Links.ready (suc max_priority - suc n)) p
  have_ready_kids n p (found || is_zero rc)

-- A zombie child is cleared away: its pid is returned.
unfoldable pub reap : Ptr → M ℤ
reap p = do
  rc ← on_links (remove_from_list Links.zombie p)
  check rc "Failure to remove from zombie list in wait"
  assert_state p zombie
  r ← fetch p
  call (kfree r.kstack)
  modify p (λ c. record c { kstack = null })
  call (freevm r.pgdir)
  modify p (λ c. record c { state = unused; pid = 0; parent = null; name = []; killed = false })
  link (add_to_front_of_list Links.free p)
  release ptable_lock
  pure (pos r.pid)

-- How a round of wait's loop ends: wait returns, or it sleeps, and `intena` is saved for then.
pub data WaitStep : Type 0 where
  returns : ℤ → WaitStep
  sleeps : Bool → WaitStep

-- The end of a round, for the first zombie child `c`, NULL for none.
unfoldable pub wait_decide : (p c : Ptr) → (kids : Bool) → M WaitStep
unfolding reap
wait_decide p c kids = do
  r ← fetch p
  if not (c == null)
      then (do pid ← reap c; pure (returns pid))
      else if not kids || r.killed
      then (do release ptable_lock; pure (returns (negsuc 0)))
      else (do b ← sleep p (some ptable_lock); pure (sleeps b))

-- One round of `for(;;)`, with `ptable.lock` held.
unfoldable pub wait_round : M WaitStep
unfolding have_kids have_ready_kids wait_decide
wait_round = do
  p ← current
  some_kids ← have_kids p
  kids ← have_ready_kids (suc max_priority) p some_kids
  z ← head_of Links.zombie
  c ← find_first loop_fuel (is_child p) z
  wait_decide p c kids

unfoldable pub wait : M WaitStep
wait = do acquire ptable_lock; wait_round
