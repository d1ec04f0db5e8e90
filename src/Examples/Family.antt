-- ===== src/Examples/Family.antt =====
-- The operations on processes, each on the family.
use tron_boss_os.Base.{
  ℕ, suc, ◌<◌, ◌≡◌, refl, ◌≢◌, Bool, [], ◌∷◌, ◌++◌, Option, none, some, pos, negsuc, false, arith,
  update, inl,
}
use tron_boss_os.Links
use tron_boss_os.Links.{Ptr, null, Links, ListId, max_priority}
use tron_boss_os.Links.Chain.{IsSlot}
use tron_boss_os.Kernel.{
  Kernel, Proc, unused, running, runnable, sleeping, zombie, ptable_lock, ok, add_uint,
}
use tron_boss_os.Kernel.Spinlock.{Holds, Free, acquired}
use tron_boss_os.Table.{Table, View}
use tron_boss_os.Proc.{ticks_to_promote, nofile, charge_budget}
use tron_boss_os.Proc.Switch.{billed}
use tron_boss_os.Proc.Array
use tron_boss_os.Proc.Array.{wakeup1-array}
use tron_boss_os.Proc.Sched
use tron_boss_os.Proc.Sched.{yield, scan, wakeup1}
use tron_boss_os.Proc.Sched.Yield.{yielded, to_back, yield-Table}
use tron_boss_os.Proc.Sched.Sleep.{to_front, put_to_sleep, sleep-Table}
use tron_boss_os.Proc.Sched.Wakeup.{wakeup1-Table, woken}
use tron_boss_os.Proc.Sched.Dispatch.{dispatched}
use tron_boss_os.Proc.Sched.Scan.{scan_picks, scan-Table}
use tron_boss_os.Proc.Walk.{on_members}
use tron_boss_os.Proc.Exit.{exit_locked, wait_round}
use tron_boss_os.Proc.Exit.Keeps.{Bereft, exit_locked-Table}
use tron_boss_os.Proc.Exit.Wait.{Ended, wait_round-Ended}
use tron_boss_os.Proc.Kill.{kill}
use tron_boss_os.Proc.Kill.Keeps as Kill
use tron_boss_os.Proc.Kill.Keeps.{kill-Settled}
use tron_boss_os.Proc.Priority.{setpriority}
use tron_boss_os.Proc.Priority.Keeps as Priority
use tron_boss_os.Proc.Priority.Keeps.{setpriority-Settled}
use tron_boss_os.Proc.Priority.Refused.{setpriority_refuses}
use tron_boss_os.Proc.Promote.{promote}
use tron_boss_os.Proc.Promote.Once.{raised_once, promote-Table}
use tron_boss_os.Proc.Create.{fork, user_frame}
use tron_boss_os.Proc.Create.Alloc.{newborn}
use tron_boss_os.Proc.Create.Fork.{is_child_of, fork-runnable, fork-no_memory}
use tron_boss_os.Proc.Create.Init.{slots_down}
use tron_boss_os.Examples.{
  process, no_processes, no_links, family, family_locked, family_view, family_procs, family_links,
  family-Table, family-Free, family-Holds, child_slot, parent_slot,
}

abbrev ready_child : Proc
ready_child = process runnable 2 64 0

abbrev sleeping_child : Proc
sleeping_child = process sleeping 2 64 7

abbrev zombie_child : Proc
zombie_child = process zombie 2 64 0

abbrev k : Kernel
k = family ready_child

abbrev v : View
v = family_view ready_child

t : Table null k.procs k.links v
t = family-Table ready_child (omega arith)

asleep-Table :
    Table null
      (family_procs sleeping_child)
      (family_links sleeping_child)
      (family_view sleeping_child)
asleep-Table = family-Table sleeping_child (omega arith)

zombie-Table :
    Table null (family_procs zombie_child) (family_links zombie_child) (family_view zombie_child)
zombie-Table = family-Table zombie_child (omega arith)

parent_runs : (c : Proc) → ((family c).procs parent_slot).state ≡ running
unfolding update
parent_runs c = refl

parent_runs_locked : (c : Proc) → ((family_locked c).procs parent_slot).state ≡ running
unfolding update acquired
parent_runs_locked c = refl

is_slot : IsSlot parent_slot
is_slot = (omega arith, omega arith)

free-62 : v Links.free ≡ 62 ∷ slots_down 61
unfolding family_view update slots_down
free-62 = refl

ready_0 : v (Links.ready 0) ≡ child_slot ∷ []
unfolding family_view update slots_down
ready_0 = refl

yield-Table_example :
    let v' = to_back v Links.running parent_slot (Links.ready 0) in
    (k' : Kernel) × (yield k ≡ ok (acquired ptable_lock k).cpu.intena k')
    × (k'.procs ≡ update k.procs parent_slot (billed 10 (yielded 10 (k.procs parent_slot))))
    × Table null k'.procs k'.links v'
    × Holds ptable_lock 0 k'
unfolding update charge_budget
yield-Table_example = yield-Table k t is_slot refl (family-Free ready_child)

sleep-Table_example :
    let r = put_to_sleep 10 9 (k.procs parent_slot) in
    (b : Bool) × (k' : Kernel) × (Sched.sleep 9 none k ≡ ok b k')
    × (k'.procs ≡ update k.procs parent_slot (billed 10 r))
    × Table null k'.procs k'.links (to_front v Links.running parent_slot Links.sleep)
    × Holds ptable_lock 0 k'
sleep-Table_example =
    sleep-Table k 9 none t is_slot (parent_runs ready_child) (family-Free ready_child)

wakeup1-Table_example :
    let w = family_view sleeping_child in
    let ps = family_procs sleeping_child in
    (g : Links) × (v' : View) × (wakeup1 7 (family sleeping_child)
      ≡ ok tt (record (family sleeping_child) {
        procs = on_members (woken 7) (w Links.sleep) ps;
        links = g;
      }))
    × Table null (on_members (woken 7) (w Links.sleep) ps) g v'
    × ((m : ListId) → Links.sleep < m → v' m ≡ w m)
wakeup1-Table_example = wakeup1-Table (family sleeping_child) 7 asleep-Table

wakeup1-array_example :
    let ps = Array.wakeup1 7 (family_procs sleeping_child) in
    (g : Links) × (v' : View) × (wakeup1 7 (family sleeping_child)
      ≡ ok tt (record (family sleeping_child) { procs = ps; links = g }))
    × Table null ps g v'
wakeup1-array_example = wakeup1-array (family sleeping_child) 7 asleep-Table

scan_picks_example :
    (k' : Kernel) × (scan (suc max_priority) k ≡ ok (some 0) k')
    × (k'.proc ≡ child_slot)
    × (k'.procs ≡ update k.procs child_slot (dispatched 10 (k.procs child_slot)))
scan_picks_example =
    scan_picks k 0 child_slot [] t (omega arith) (omega arith) (λ j lt. absurd (omega arith))
      ready_0

scan-Table_example :
    (r : Option ℕ) × (k' : Kernel) × (v' : View) × (scan (suc max_priority) k ≡ ok r k')
    × Table null k'.procs k'.links v'
    × (k'.cpu ≡ k.cpu)
    × (k'.locks ≡ k.locks)
scan-Table_example = scan-Table k t

exit_locked-Table_example :
    let z = family_locked zombie_child in
    let w = family_view zombie_child in
    (k' : Kernel) × (v' : View) × (exit_locked parent_slot z ≡ ok z.cpu.intena k')
    × Table null k'.procs k'.links v'
    × Holds ptable_lock 0 k'
    × (v' Links.zombie ≡ parent_slot ∷ w Links.zombie)
    × ((k'.procs parent_slot).state ≡ zombie)
    × ((q : Ptr)
        → IsSlot q
        → q ≢ parent_slot
        → Bereft parent_slot parent_slot (z.procs q) (k'.procs q))
unfolding acquired
exit_locked-Table_example =
    exit_locked-Table (family_locked zombie_child) zombie-Table (family-Holds zombie_child) is_slot
      (parent_runs_locked zombie_child)

wait_round-Ended_example :
    Ended (family_locked zombie_child) (wait_round (family_locked zombie_child))
unfolding acquired
wait_round-Ended_example =
    wait_round-Ended (family_locked zombie_child) zombie-Table (family-Holds zombie_child) is_slot
      (parent_runs_locked zombie_child)

kill-Settled_example : Kill.Settled (family sleeping_child) 2 (kill (pos 2) (family sleeping_child))
kill-Settled_example =
    kill-Settled (family sleeping_child) (pos 2) asleep-Table (family-Free sleeping_child)

setpriority-Settled_example :
    Priority.Settled k (k.locks ptable_lock) 2 3 (setpriority (pos 2) (pos 3) k)
setpriority-Settled_example =
    setpriority-Settled k 2 3 t (omega arith) (omega arith) (inl (family-Free ready_child))

promote-Table_example :
    (g : Links) × (ps : Ptr → Proc) × (v' : View) × (promote k
      ≡ ok tt (record k { procs = ps; links = g; promote_at_time = add_uint 10 ticks_to_promote }))
    × Table null ps g v'
    × ((q : Ptr) → IsSlot q → ps q ≡ raised_once (k.procs q))
promote-Table_example = promote-Table k t

fork-runnable_example :
    (k' : Kernel) × (v' : View) × (o : ℕ → Ptr) × (fork 0 1 user_frame 2 k ≡ ok (pos 3) k')
    × (k'.procs
        ≡ update k.procs 62
            (record (is_child_of
              (k.procs parent_slot)
              parent_slot
              2
              (newborn 0 1 user_frame 10 3 (k.procs 62))) { ofile = o }))
    × ((fd : ℕ)
        → fd < nofile
        → (k.procs parent_slot).ofile fd ≢ null
        → o fd ≡ (k.procs parent_slot).ofile fd)
    × Table null k'.procs k'.links v'
    × (v' (Links.ready 0) ≡ v (Links.ready 0) ++ 62 ∷ [])
    × Free ptable_lock 0 k'
fork-runnable_example =
    fork-runnable 0 user_frame k 62 (slots_down 61) t (family-Free ready_child) free-62 1 2
      (omega arith) (omega arith) (parent_runs ready_child)

fork-no_memory_example :
    (k' : Kernel) × (v' : View) × (fork 0 1 user_frame null k ≡ ok (negsuc 0) k')
    × Table null k'.procs k'.links v'
    × Free ptable_lock 0 k'
    × ((k'.procs 62).state ≡ unused)
    × ((q : Ptr) → q ≢ 62 → k'.procs q ≡ k.procs q)
fork-no_memory_example =
    fork-no_memory 0 user_frame k 62 (slots_down 61) t (family-Free ready_child) free-62 1
      (omega arith)

abbrev at_boot : Kernel
at_boot = record k { procs = no_processes; links = no_links; ticks = 0; nextpid = 1; proc = null }

setpriority_refuses_example :
    (k' : Kernel) × (setpriority (pos 2) (pos 6) k ≡ ok (negsuc 2) k')
    × (k'.procs ≡ k.procs)
    × (k'.links ≡ k.links)
    × (k'.locks ptable_lock ≡ false)
setpriority_refuses_example =
    setpriority_refuses k (pos 2) (pos 6) refl (inl (family-Free ready_child))
