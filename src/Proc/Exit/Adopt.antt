-- ===== src/Proc/Exit/Adopt.antt =====
-- Handing the children of a process to init, on the lists of the living.
use tron_boss_os.Base.{
  ℕ, zero, suc, ◌-◌, ◌≤◌, ◌≡◌, refl, sym, ap, ◌∙◌, Bool, ◌||◌, ◌&&◌, arith, ◌==◌, leb,
  if◌then◌else◌, has,
}
use tron_boss_os.Links
use tron_boss_os.Links.{Ptr, null, nproc, max_priority, loop_fuel, ListId, Links}
use tron_boss_os.Links.Chain.{IsSlot}
use tron_boss_os.Kernel.{Proc, Kernel, unused, zombie, same_state, ok}
use tron_boss_os.Table.{Table, View, place, Table-procs, has-place}
use tron_boss_os.Proc.Walk.{on_members, for_each-list}
use tron_boss_os.Proc.Exit.{adopted, adopt_zombie_children, adopt_ready}

module _ (parent init : Ptr) where
  abbrev pub adopt_at : ListId → Proc → Proc
  adopt_at l r = if place r == l then adopted parent init r else r

  -- The ready lists from `i` on.
  abbrev adopt_from : ℕ → Proc → Proc
  adopt_from i r =
      if leb i (place r) && leb (place r) max_priority then adopted parent init r else r

  -- All lists but the free list and the zombie list.
  abbrev pub adopted_live : Proc → Proc
  adopted_live r =
      if same_state r.state unused || same_state r.state zombie then r else adopted parent init r

  adopted-place :
      (b : Bool) (r : Proc)
      → r.priority ≤ max_priority
      → let r' = if b then adopted parent init r else r in
        (place r' ≡ place r) × (r'.priority ≤ max_priority)
  adopted-place b r h = ground arith

  adopt_none : (r : Proc) → r.priority ≤ max_priority → adopt_from (suc max_priority) r ≡ r
  adopt_none r h = ground arith

  adopt_next :
      (i : ℕ) (r : Proc) → i ≤ max_priority → adopt_from (suc i) (adopt_at i r) ≡ adopt_from i r
  adopt_next i r h = ground arith

  adopt_all :
      (r : Proc)
      → r.priority ≤ max_priority
      → adopt_at Links.running (adopt_at Links.sleep (adopt_from 0 (adopt_at Links.embryo r)))
        ≡ adopted_live r
  adopt_all r h = ground arith

module _ (parent : Ptr) where
  pub adopt_zombie_children-Table :
      (k : Kernel) {v : View} (l : ListId)
      → Table null k.procs k.links v
      → (ps : Ptr → Proc) × (adopt_zombie_children l parent k ≡ ok tt (record k { procs = ps }))
        × Table null ps k.links v
        × ((q : Ptr) → IsSlot q → ps q ≡ adopt_at parent k.initproc l (k.procs q))
  unfolding adopt_zombie_children
  adopt_zombie_children-Table k {v} l t = (
    on_members (adopted parent k.initproc) (v l) k.procs,
    for_each-list k t.lists l (adopted parent k.initproc),
    Table-procs t _
        (λ q s out. (adopted-place parent k.initproc (has q (v l)) (k.procs q) (t.capped q s)).0)
        (λ q s. (adopted-place parent k.initproc (has q (v l)) (k.procs q) (t.capped q s)).1),
    λ q s.
        ap (λ b. if b then adopted parent k.initproc (k.procs q) else k.procs q)
          (has-place t l q s),
  )

  adopt_ready-Table :
      (n : ℕ) (k : Kernel) {v : View}
      → Table null k.procs k.links v
      → n ≤ suc max_priority
      → (ps : Ptr → Proc) × (adopt_ready n parent k ≡ ok tt (record k { procs = ps }))
        × Table null ps k.links v
        × ((q : Ptr)
            → IsSlot q
            → ps q ≡ adopt_from parent k.initproc (suc max_priority - n) (k.procs q))
  unfolding adopt_ready
  adopt_ready-Table zero k t le =
      (k.procs, refl, t, λ q s. sym (adopt_none parent k.initproc (k.procs q) (t.capped q s)))
  adopt_ready-Table (suc n) k t le =
      let i = suc max_priority - suc n in
      let (ps, e, t1, r1) = adopt_zombie_children-Table k (Links.ready i) t in
      let (ps2, e2, t2, r2) = adopt_ready-Table n (record k { procs = ps }) t1 (omega arith) in
      let next : suc max_priority - n ≡ suc i = omega arith in
      (
        ps2,
        ground (arith, e, e2),
        t2,
        λ q s.
            r2 q s
            ∙ ap (λ j. adopt_from parent k.initproc j (ps q)) next
            ∙ ap (adopt_from parent k.initproc (suc i)) (r1 q s)
            ∙ adopt_next parent k.initproc i (k.procs q) (omega arith),
      )

  -- The calls of exit for the embryo list, the ready lists, the sleep list and the running list.
  pub adopt-Table :
      (k : Kernel) {v : View}
      → Table null k.procs k.links v
      → (ps1 ps2 ps3 ps : Ptr → Proc) × (adopt_zombie_children Links.embryo parent k
          ≡ ok tt (record k { procs = ps1 }))
        × (adopt_ready (suc max_priority) parent (record k { procs = ps1 })
            ≡ ok tt (record k { procs = ps2 }))
        × (adopt_zombie_children Links.sleep parent (record k { procs = ps2 })
            ≡ ok tt (record k { procs = ps3 }))
        × (adopt_zombie_children Links.running parent (record k { procs = ps3 })
            ≡ ok tt (record k { procs = ps }))
        × Table null ps k.links v
        × ((q : Ptr) → IsSlot q → ps q ≡ adopted_live parent k.initproc (k.procs q))
  adopt-Table k t =
      let i = k.initproc in
      let (ps1, e1, t1, r1) = adopt_zombie_children-Table k Links.embryo t in
      let (ps2, e2, t2, r2) =
        adopt_ready-Table (suc max_priority) (record k { procs = ps1 }) t1 (omega arith) in
      let (ps3, e3, t3, r3) =
        adopt_zombie_children-Table (record k { procs = ps2 }) Links.sleep t2 in
      let (ps4, e4, t4, r4) =
        adopt_zombie_children-Table (record k { procs = ps3 }) Links.running t3 in
      (
        ps1,
        ps2,
        ps3,
        ps4,
        e1,
        e2,
        e3,
        e4,
        t4,
        λ q s.
            r4 q s
            ∙ ap (adopt_at parent i Links.running) (
                r3 q s
                ∙ ap (adopt_at parent i Links.sleep) (r2 q s ∙ ap (adopt_from parent i 0) (r1 q s)))
            ∙ adopt_all parent i (k.procs q) (t.capped q s),
      )
