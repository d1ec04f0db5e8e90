-- ===== src/Proc/Sched/Yield.antt =====
-- What yield leaves behind when it reaches the context switch.
use tron_boss_os.Base.{
  ℕ, ◌≤◌, ◌≡◌, refl, ap, subst, [], ◌∷◌, ◌++◌, arith, update, update_self, update-update, erase,
}
use tron_boss_os.Links
use tron_boss_os.Links.{Ptr, null, max_priority, ListId, Links}
use tron_boss_os.Links.Chain.{IsSlot}
use tron_boss_os.Kernel.{Proc, Kernel, runnable, running, ptable_lock, ok}
use tron_boss_os.Kernel.Spinlock.{Holds, Free, acquire-free, acquired, acquired-Holds}
use tron_boss_os.Table.{
  Table, View, list_of, take_off, on_list, put_back, Table-update_out, Table-update,
}
use tron_boss_os.Proc.{charge_budget}
use tron_boss_os.Proc.Switch.{
  assert_state-passes, sched-switches, billed, charge_budget-capped, charge_budget-state,
}
use tron_boss_os.Proc.Sched.{yield}

-- The process as it goes back to a ready list.
abbrev pub yielded : ℕ → Proc → Proc
yielded ticks r = charge_budget ticks (record r { state = runnable })

-- The lists with `p` moved from the list `l` to the end of the list `m`.
abbrev pub to_back : View → ListId → Ptr → ListId → View
to_back v l p m = let w = update v l (erase p (v l)) in update w m (w m ++ p ∷ [])

-- The running process that yields goes to the end of the ready list of its priority, which falls
-- by one if its budget is used up; all other processes and lists are left alone. Nothing panics,
-- every walk along a list ends, and the switch is made with `ptable.lock` held.
pub yield-Table :
    (k : Kernel) {v : View}
    → Table null k.procs k.links v
    → IsSlot k.proc
    → (k.procs k.proc).state ≡ running
    → Free ptable_lock 0 k
    → let r = yielded k.ticks (k.procs k.proc) in
      let v' = to_back v Links.running k.proc (Links.ready r.priority) in
      (k' : Kernel) × (yield k ≡ ok (acquired ptable_lock k).cpu.intena k')
      × (k'.procs ≡ update k.procs k.proc (billed k.ticks r))
      × Table null k'.procs k'.links v'
      × Holds ptable_lock 0 k'
unfolding yield acquired
yield-Table k {v} t s run f =
    let p = k.proc in
    let (g, e, t1) = take_off t Links.running p (on_list t p s run) in
    let r = yielded k.ticks (k.procs p) in
    let cap : r.priority ≤ max_priority =
      charge_budget-capped k.ticks (record (k.procs p) { state = runnable }) (t.capped p s) in
    let st : r.state ≡ runnable =
      charge_budget-state k.ticks (record (k.procs p) { state = runnable }) in
    let t2 = Table-update_out t1 r cap in
    let (g2, e2, t3) =
      put_back t2 (Links.ready r.priority) s
        (rw (update_self k.procs p r) (ap (λ s. list_of s r.priority) st)) in
    let k1 : Kernel = record (acquired ptable_lock k) { links = g } in
    let k3 : Kernel = record (acquired ptable_lock k) { procs = update k.procs p r; links = g2 } in
    let h3 : Holds ptable_lock 0 k3 =
      let h = acquired-Holds ptable_lock 0 k f in
      record { locked = h.locked; depth = h.depth; quiet = h.quiet } in
    (
      record k3 { procs = update k.procs p (billed k.ticks r) },
      ground (
        arith,
        acquire-free ptable_lock k f.unlocked,
        e,
        assert_state-passes p running k1 run,
        update_self k.procs p (record (k.procs p) { state = runnable }),
        update-update k.procs p (record (k.procs p) { state = runnable }) r,
        update_self k.procs p r,
        update-update k.procs p r (billed k.ticks r),
        e2,
        sched-switches k3 h3 (rw (update_self k.procs p r, st) refl),
      ),
      refl,
      subst (λ ps. Table null ps g2 (to_back v Links.running p (Links.ready r.priority)))
          (update-update k.procs p r (billed k.ticks r))
          (Table-update t3 p (billed k.ticks r) (rw (update_self k.procs p r)) cap),
      record { locked = h3.locked; depth = h3.depth; quiet = h3.quiet },
    )
