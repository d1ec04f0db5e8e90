-- ===== src/Proc/Exit/Keeps.antt =====
-- What exit leaves behind when it reaches the switch from which it does not return.
use tron_boss_os.Base.{
  ℕ, ◌≤◌, ◌≡◌, refl, sym, ap, ◌∙◌, subst, ◌≢◌, ◌⊎◌, Bool, true, false, ◌||◌, not, [], ◌∷◌, arith,
  ◌==◌, if◌then◌else◌, update, update_self, update_other, update-update, erase,
}
use tron_boss_os.Links
use tron_boss_os.Links.{Ptr, null, max_priority, loop_fuel, ListId, Links}
use tron_boss_os.Links.Chain.{IsSlot, Chain-head, IsLists-short}
use tron_boss_os.Kernel.{
  Proc, Kernel, unused, sleeping, runnable, running, zombie, same_state, ptable_lock, ok,
}
use tron_boss_os.Kernel.Spinlock.{Holds}
use tron_boss_os.Table.{
  Table, View, place, Table-update, Table-update_out, take_off, put_front, on_list, has-place,
}
use tron_boss_os.Proc.Array.{wake_if, wakeup1-slots}
use tron_boss_os.Proc.Switch.{assert_state-passes, sched-switches, billed}
use tron_boss_os.Proc.Sched.Sleep.{to_front}
use tron_boss_os.Proc.Exit.{adopted, exit_hand_over, exit_leave, exit_locked}
use tron_boss_os.Proc.Exit.Adopt.{adopted_live, adopt-Table}
use tron_boss_os.Proc.Exit.Zombies.{wake_maybe, zombie_loop-Table}

-- A process after the passes over the lists: `w` says whether init was woken.
abbrev passed : (w : Bool) (chan parent init : ℕ) → Proc → Proc
passed w chan parent init r =
    let x = adopted_live parent init (wake_if chan r) in
    wake_maybe w init (if place x == Links.zombie then adopted parent init x else x)

-- No process that is in use keeps the parent that exits; its state is as before, or it is woken.
abbrev pub Bereft : (parent init : Ptr) (r r' : Proc) → Type 0
Bereft parent init r r' =
    (r'.parent ≡ (if same_state r.state unused || not (r.parent == parent) then r.parent else init))
    × ((r'.state ≡ r.state) ⊎ ((r.state ≡ sleeping) × (r'.state ≡ runnable)))

passed_parent :
    (w : Bool) (chan parent init : ℕ) (r : Proc)
    → r.priority ≤ max_priority
    → (passed w chan parent init r).parent
      ≡ (if same_state r.state unused || not (r.parent == parent) then r.parent else init)
passed_parent true chan parent init r cap = ground arith
passed_parent false chan parent init r cap = ground arith

passed_state :
    (w : Bool) (chan parent init : ℕ) (r : Proc)
    → ((passed w chan parent init r).state ≡ r.state)
      ⊎ ((r.state ≡ sleeping) × ((passed w chan parent init r).state ≡ runnable))
passed_state true chan parent init r = ground arith
passed_state false chan parent init r = ground arith

still_running :
    (w : Bool) (chan parent init : ℕ) (r : Proc)
    → r.state ≡ running
    → (passed w chan parent init r).state ≡ running
still_running true chan parent init r e = ground arith
still_running false chan parent init r e = ground arith

hand_over-Table :
    (k : Kernel) {v : View} (p : Ptr)
    → Table null k.procs k.links v
    → (g : Links) × (ps : Ptr → Proc) × (v' : View) × (w : Bool) × (exit_hand_over p k
        ≡ ok tt (record k { procs = ps; links = g }))
      × Table null ps g v'
      × ((q : Ptr) → IsSlot q → ps q ≡ passed w (k.procs p).parent p k.initproc (k.procs q))
      × (v' Links.zombie ≡ v Links.zombie)
unfolding exit_hand_over
hand_over-Table k {v} p t =
    let i = k.initproc in
    let c = (k.procs p).parent in
    let (g1, ps1, v1, e1, t1, r1, f1) = wakeup1-slots k c t in
    let k1 : Kernel = record k { procs = ps1; links = g1 } in
    let (psa, psb, psc, ps2, a1, a2, a3, a4, t2, r2) = adopt-Table p k1 t1 in
    let k2 : Kernel = record k { procs = ps2; links = g1 } in
    let short = IsLists-short t2.lists Links.zombie in
    let at =
      Chain-head g1.next (g1.heads Links.zombie) (v1 Links.zombie) (t2.lists.chain Links.zombie) in
    let (g3, ps3, v3, w, e3, t3, r3, f3) =
      zombie_loop-Table loop_fuel k2 p [] (v1 Links.zombie) (omega arith) t2 refl in
    (
      g3,
      ps3,
      v3,
      w,
      rw (e1, a1, a2, a3, a4, at) e3,
      t3,
      (λ q s.
          r3 q s
          ∙ ap (λ b. wake_maybe w i (if b then adopted p i (ps2 q) else ps2 q))
              (has-place t2 Links.zombie q s)
          ∙ ap (λ (x : Proc). wake_maybe w i (if place x == Links.zombie then adopted p i x else x))
              (r2 q s ∙ ap (adopted_live p i) (r1 q s))),
      f3 Links.zombie (omega arith) ∙ f1 Links.zombie (omega arith),
    )

leave-Table :
    (k : Kernel) {v : View}
    → Table null k.procs k.links v
    → Holds ptable_lock 0 k
    → IsSlot k.proc
    → (k.procs k.proc).state ≡ running
    → (g : Links) × (exit_leave k.proc k
        ≡ ok k.cpu.intena (record k {
          procs =
              update k.procs k.proc (billed k.ticks (record (k.procs k.proc) { state = zombie }));
          links = g;
        }))
      × Table null
          (update k.procs k.proc (billed k.ticks (record (k.procs k.proc) { state = zombie })))
          g
          (to_front v Links.running k.proc Links.zombie)
unfolding exit_leave
leave-Table k {v} t held s run =
    let p = k.proc in
    let (g, e, t1) = take_off t Links.running p (on_list t p s run) in
    let r : Proc = record (k.procs p) { state = zombie } in
    let t2 =
      put_front (Table-update_out t1 r (t.capped p s)) Links.zombie s
        (rw (update_self k.procs p r) refl) in
    let k1 : Kernel = record k { links = g } in
    let g2 = Links.add_to_front_of_list Links.zombie p g in
    let k2 : Kernel = record k { procs = update k.procs p r; links = g2 } in
    let h2 : Holds ptable_lock 0 k2 = record {
      locked = held.locked;
      depth = held.depth;
      quiet = held.quiet;
    } in
    (
      g2,
      ground (
        arith,
        e,
        assert_state-passes p running k1 run,
        update_self k.procs p r,
        update-update k.procs p r (billed k.ticks r),
        sched-switches k2 h2 (rw (update_self k.procs p r) refl),
      ),
      subst (λ ps. Table null ps g2 (to_front v Links.running p Links.zombie))
          (update-update k.procs p r (billed k.ticks r))
          (Table-update t2 p (billed k.ticks r) (rw (update_self k.procs p r) refl) (t.capped p s)),
    )

-- `exit` behind `acquire(&ptable.lock)`: the running process becomes a zombie at the front of the
-- zombie list, every process in use that had it for a parent has init instead, zombies included,
-- and no other state changes but that sleepers are woken. Nothing panics, every walk ends, also the
-- walk along the zombie list that wakes init on the way.
pub exit_locked-Table :
    (k : Kernel) {v : View}
    → Table null k.procs k.links v
    → Holds ptable_lock 0 k
    → IsSlot k.proc
    → (k.procs k.proc).state ≡ running
    → (k' : Kernel) × (v' : View) × (exit_locked k.proc k ≡ ok k.cpu.intena k')
      × Table null k'.procs k'.links v'
      × Holds ptable_lock 0 k'
      × (v' Links.zombie ≡ k.proc ∷ v Links.zombie)
      × ((k'.procs k.proc).state ≡ zombie)
      × ((q : Ptr) → IsSlot q → q ≢ k.proc → Bereft k.proc k.initproc (k.procs q) (k'.procs q))
unfolding exit_locked
exit_locked-Table k {v} t held s run =
    let p = k.proc in
    let i = k.initproc in
    let c = (k.procs p).parent in
    let (g1, ps1, v1, w, e1, t1, all, z) = hand_over-Table k p t in
    let k1 : Kernel = record k { procs = ps1; links = g1 } in
    let h1 : Holds ptable_lock 0 k1 = record {
      locked = held.locked;
      depth = held.depth;
      quiet = held.quiet;
    } in
    let st : (ps1 p).state ≡ running =
      ap (λ (r : Proc). r.state) (all p s) ∙ still_running w c p i (k.procs p) run in
    let r : Proc = billed k.ticks (record (ps1 p) { state = zombie }) in
    let (g2, e2, t2) = leave-Table k1 t1 h1 s st in
    (
      record k1 { procs = update ps1 p r; links = g2 },
      to_front v1 Links.running p Links.zombie,
      rw e1 e2,
      t2,
      record { locked = held.locked; depth = held.depth; quiet = held.quiet },
      update_self (update v1 Links.running (erase p (v1 Links.running))) Links.zombie _
          ∙ ap (λ ys. p ∷ ys)
              (update_other v1 Links.running (erase p (v1 Links.running)) Links.zombie (omega arith)
                ∙ z),
      rw (update_self ps1 p r) refl,
      λ q sq ne.
          subst (Bereft p i (k.procs q)) (sym (update_other ps1 p r q ne ∙ all q sq))
            (passed_parent w c p i (k.procs q) (t.capped q sq), passed_state w c p i (k.procs q)),
    )
