-- ===== src/Proc/Switch.antt =====
-- How the checks of `assertstate` and `sched` come out, and what `sched` writes.
use tron_boss_os.Base.{◌≡◌, refl, ℕ, ◌≤◌, true, false, arith, update, update_self}
use tron_boss_os.Links.{Ptr, max_priority}
use tron_boss_os.Kernel.{Proc, ProcState, running, same_state, Kernel, ptable_lock, ok, add_uint}
use tron_boss_os.Kernel.Spinlock.{Holds}
use tron_boss_os.Proc.{assert_state, charge_budget, sched, ticks_in_cpu}

pub same_state_self : (s : ProcState) → same_state s s ≡ true
same_state_self s = ground arith

pub assert_state-passes :
    (p : Ptr) (s : ProcState) (k : Kernel) → (k.procs p).state ≡ s → assert_state p s k ≡ ok tt k
unfolding assert_state
assert_state-passes p s k e = rw (e, same_state_self s) refl

-- The ticks since the process was dispatched are added to its total.
abbrev pub billed : ℕ → Proc → Proc
billed ticks r = record r { cpu_ticks_total = add_uint r.cpu_ticks_total (ticks_in_cpu ticks r) }

-- With `ptable.lock` the only lock held, and for a process that is no longer running, `sched`
-- reaches the switch.
pub sched-switches :
    (k : Kernel)
    → Holds ptable_lock 0 k
    → same_state (k.procs k.proc).state running ≡ false
    → sched k
      ≡ ok k.cpu.intena
          (record k { procs = update k.procs k.proc (billed k.ticks (k.procs k.proc)) })
unfolding sched
sched-switches k h stopped =
    rw
      (
        h.locked,
        h.depth,
        h.quiet,
        update_self k.procs k.proc (billed k.ticks (k.procs k.proc)),
        stopped,
      )
      refl

pub charge_budget-capped :
    (ticks : ℕ) (r : Proc)
    → r.priority ≤ max_priority
    → (charge_budget ticks r).priority ≤ max_priority
unfolding charge_budget
charge_budget-capped ticks r h = ground arith

pub charge_budget-state : (ticks : ℕ) (r : Proc) → (charge_budget ticks r).state ≡ r.state
unfolding charge_budget
charge_budget-state ticks r = ground arith
