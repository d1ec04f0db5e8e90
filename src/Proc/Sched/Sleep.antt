-- ===== src/Proc/Sched/Sleep.antt =====
-- What sleep leaves behind when it reaches the context switch.
use tron_boss_os.Base.{
  ℕ, zero, suc, ◌≤◌, ◌≡◌, refl, ap, ◌∙◌, subst, Bool, true, false, ◌∷◌, Option, none, some, arith,
  update, update_self, update_other, update-update, erase,
}
use tron_boss_os.Links
use tron_boss_os.Links.{Ptr, null, max_priority, ListId, Links}
use tron_boss_os.Links.Chain.{IsSlot}
use tron_boss_os.Kernel.{Proc, Kernel, LockId, sleeping, running, ptable_lock, ok}
use tron_boss_os.Kernel.Spinlock.{
  Holds, Free, acquire-free, acquired, acquired-Holds, released, release-held,
}
use tron_boss_os.Table.{Table, View, take_off, on_list, put_front, Table-update_out, Table-update}
use tron_boss_os.Proc.{charge_budget}
use tron_boss_os.Proc.Switch.{assert_state-passes, sched-switches, billed, charge_budget-capped}
use tron_boss_os.Proc.Sched.{go_to_sleep, sleep, swap_in}

-- The process as it goes to the sleep list.
abbrev pub put_to_sleep : (ticks chan : ℕ) → Proc → Proc
put_to_sleep ticks chan r = record (charge_budget ticks (record r { chan = chan })) {
  state = sleeping;
}

-- The lists with `p` moved from the list `l` to the front of the list `m`.
abbrev pub to_front : View → ListId → Ptr → ListId → View
to_front v l p m = let w = update v l (erase p (v l)) in update w m (p ∷ w m)

-- With `ptable.lock` held, the process goes to the front of the sleep list.
pub go_to_sleep-Table :
    (k : Kernel) {v : View} (chan : ℕ)
    → Table null k.procs k.links v
    → IsSlot k.proc
    → (k.procs k.proc).state ≡ running
    → Holds ptable_lock 0 k
    → let r = put_to_sleep k.ticks chan (k.procs k.proc) in
      (k' : Kernel) × (go_to_sleep chan k.proc k ≡ ok k.cpu.intena k')
      × (k'.procs ≡ update k.procs k.proc (billed k.ticks r))
      × Table null k'.procs k'.links (to_front v Links.running k.proc Links.sleep)
      × Holds ptable_lock 0 k'
unfolding go_to_sleep
go_to_sleep-Table k {v} chan t s run h =
    let p = k.proc in
    let (g, e, t1) = take_off t Links.running p (on_list t p s run) in
    let r0 : Proc = record (k.procs p) { chan = chan } in
    let r1 = charge_budget k.ticks r0 in
    let r = put_to_sleep k.ticks chan (k.procs p) in
    let cap : r.priority ≤ max_priority = charge_budget-capped k.ticks r0 (t.capped p s) in
    let t2 =
      put_front (Table-update_out t1 r cap) Links.sleep s (rw (update_self k.procs p r) refl) in
    let k1 : Kernel = record k { procs = update k.procs p r0; links = g } in
    let k3 : Kernel = record k {
      procs = update k.procs p r;
      links = Links.add_to_front_of_list Links.sleep p g;
    } in
    let h3 : Holds ptable_lock 0 k3 = record {
      locked = h.locked;
      depth = h.depth;
      quiet = h.quiet;
    } in
    (
      record k3 { procs = update k.procs p (billed k.ticks r) },
      ground (
        arith,
        e,
        assert_state-passes p running k1 (rw (update_self k.procs p r0) run),
        update_self k.procs p r0,
        update-update k.procs p r0 r1,
        update_self k.procs p r1,
        update-update k.procs p r1 r,
        update_self k.procs p r,
        update-update k.procs p r (billed k.ticks r),
        sched-switches k3 h3 (rw (update_self k.procs p r) refl),
      ),
      refl,
      subst (λ ps. Table null ps k3.links (to_front v Links.running p Links.sleep))
          (update-update k.procs p r (billed k.ticks r))
          (Table-update t2 p (billed k.ticks r) (rw (update_self k.procs p r) refl) cap),
      record { locked = h.locked; depth = h.depth; quiet = h.quiet },
    )

-- What sleep is called with: no lock, `ptable.lock`, or another lock alone.
abbrev pub Given : Option LockId → Kernel → Type 0
Given none k = Free ptable_lock 0 k
Given (some zero) k = Holds ptable_lock 0 k
Given (some (suc l)) k = Holds (suc l) 0 k × (k.locks ptable_lock ≡ false)

swap_in-Holds :
    (lk : Option LockId) (k : Kernel)
    → Given lk k
    → (k' : Kernel) × (swap_in lk k ≡ ok tt k')
      × Holds ptable_lock 0 k'
      × (k'.procs ≡ k.procs)
      × (k'.links ≡ k.links)
      × (k'.proc ≡ k.proc)
      × (k'.ticks ≡ k.ticks)
unfolding swap_in acquired released
swap_in-Holds none k f = (
  acquired ptable_lock k,
  acquire-free ptable_lock k f.unlocked,
  acquired-Holds ptable_lock 0 k f,
  refl,
  refl,
  refl,
  refl,
)
swap_in-Holds (some zero) k h = (k, refl, h, refl, refl, refl, refl)
swap_in-Holds (some (suc l)) k (h, f) =
    let k1 = acquired ptable_lock k in
    let h1 : Holds (suc l) 1 k1 = record {
      locked = update_other k.locks 0 true (suc l) (omega arith) ∙ h.locked;
      depth = ap suc h.depth;
      quiet = refl;
    } in
    (
      released (suc l) 1 k1,
      ground (arith, acquire-free ptable_lock k f, release-held (suc l) 1 k1 h1),
      record {
        locked = update_other k1.locks (suc l) false 0 (omega arith) ∙ update_self k.locks 0 true;
        depth = refl;
        quiet = refl;
      },
      refl,
      refl,
      refl,
      refl,
    )

-- `sleep` on any lock that it may be given (none, `ptable.lock`, another lock alone): the running
-- process goes to the front of the sleep list with its channel set and its budget charged, the
-- other processes are left alone, and the switch is made with `ptable.lock` as the only lock, so
-- that no wakeup comes between. Nothing panics and every walk along a list ends.
pub sleep-Table :
    (k : Kernel) {v : View} (chan : ℕ) (lk : Option LockId)
    → Table null k.procs k.links v
    → IsSlot k.proc
    → (k.procs k.proc).state ≡ running
    → Given lk k
    → let r = put_to_sleep k.ticks chan (k.procs k.proc) in
      (b : Bool) × (k' : Kernel) × (sleep chan lk k ≡ ok b k')
      × (k'.procs ≡ update k.procs k.proc (billed k.ticks r))
      × Table null k'.procs k'.links (to_front v Links.running k.proc Links.sleep)
      × Holds ptable_lock 0 k'
unfolding sleep
sleep-Table k {v} chan lk t s run given =
    let (k1, e1, h1, ps, ls, pr, ti) = swap_in-Holds lk k given in
    let (k2, e2, procs2, t2, h2) =
      go_to_sleep-Table k1 chan (rw (ps, ls) t) (rw pr s) (rw (ps, pr) run) h1 in
    (
      k1.cpu.intena,
      k2,
      ground (arith, e1, e2, pr),
      ground (arith, procs2, ps, pr, ti),
      subst (λ p. Table null k2.procs k2.links (to_front v Links.running p Links.sleep)) pr t2,
      h2,
    )
