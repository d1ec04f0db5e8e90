-- ===== src/Proc.antt =====
-- What the operations of proc.c share: constants, the assertion on states, the time budget, and
-- the part of `sched` before the context switch. `swtch` hands the CPU over, so an operation that
-- calls `sched` is two functions: one up to the switch, one behind it.
pub mod Walk
pub mod Create
pub mod Switch
pub mod Budget
pub mod Sched
pub mod Array
pub mod Exit
pub mod Kill
pub mod Priority
pub mod Promote
use tron_boss_os.Base.{
  ℕ, suc, ◌+◌, ◌-◌, ◌%◌, Bool, true, false, Option, none, some, ◌==◌, if◌then◌else◌, not,
}
use tron_boss_os.Links.{Ptr, null, max_priority, ListId}
use tron_boss_os.Kernel.{
  ProcState, running, same_state, Proc, Kernel, ptable_lock, M, Run, ok, panicked, ◌>>=◌, ◌>>◌,
  and_then, pure, panic, modify, fetch, current, add_uint, sub_uint,
}
use tron_boss_os.Kernel.Spinlock.{holding}

abbrev pub default_priority : ℕ
default_priority = 0

abbrev pub default_budget : ℕ
default_budget = 300

abbrev pub ticks_to_promote : ℕ
ticks_to_promote = 1100

-- NOFILE of param.h
abbrev pub nofile : ℕ
nofile = 16

abbrev pub head_of : ListId → M Ptr
head_of l k = ok (k.links.heads l) k

unfoldable pub assert_state : Ptr → ProcState → M (Unit {0})
assert_state p s k =
    if same_state (k.procs p).state s then ok tt k else panicked "ERROR: unexpected process state. "

-- `ticks - p->cpu_ticks_in`
abbrev pub ticks_in_cpu : ℕ → Proc → ℕ
ticks_in_cpu ticks r = sub_uint ticks r.cpu_ticks_in

-- `proc->budget -= ticks - proc->cpu_ticks_in`, and the demotion where the budget is used up. The
-- budget is a `uint`, so `proc->budget <= 0` holds at 0 alone.
unfoldable pub charge_budget : ℕ → Proc → Proc
charge_budget ticks r =
    let left = sub_uint r.budget (ticks_in_cpu ticks r) in
    if left == 0
    then (if r.priority == max_priority
        then record r { budget = default_budget }
        else record r { priority = r.priority + 1; budget = default_budget })
    else record r { budget = left }

-- `sched` up to `swtch`: it returns `intena`, which is written back behind the switch.
unfoldable pub sched : M Bool
unfolding holding
sched = do
  p ← current
  k ← λ k. ok k k
  modify p (λ r. record r { cpu_ticks_total = add_uint r.cpu_ticks_total (ticks_in_cpu k.ticks r) })
  held ← holding ptable_lock
  r ← fetch p
  if not held
      then panic "sched ptable.lock"
      else if not (k.cpu.ncli == 1)
      then panic "sched locks"
      else if same_state r.state running
      then panic "sched running"
      else if k.cpu.interrupts
      then panic "sched interruptible"
      else pure k.cpu.intena

unfoldable pub sched_return : Bool → M (Unit {0})
sched_return intena k = ok tt (record k { cpu = record (k.cpu) { intena = intena } })
