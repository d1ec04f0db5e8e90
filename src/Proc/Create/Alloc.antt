-- ===== src/Proc/Create/Alloc.antt =====
-- What allocproc returns, for each of its ends.
use tron_boss_os.Base.{
  ℕ, ◌+◌, ◌%◌, ◌≤◌, ◌≡◌, refl, ◌∙◌, subst, ◌≢◌, List, [], ◌∷◌, arith, update, update_self,
  update-update,
}
use Prim.Native.String.{String}
use tron_boss_os.Links
use tron_boss_os.Links.{Ptr, null, max_priority, ListId, Links}
use tron_boss_os.Links.Chain.{IsSlot, Chain}
use tron_boss_os.Kernel.{Proc, Kernel, unused, embryo, Trapframe, ptable_lock, ok, uint_mod}
use tron_boss_os.Kernel.Spinlock.{
  Holds, Free, acquire-free, acquired, acquired-Holds, released, release-held, released-Free,
}
use tron_boss_os.Table.{
  Table, View, place, Table-update, Table-along, Table-update_out, take_off, take_off_front,
  put_front, on_list,
}
use tron_boss_os.Proc.{default_budget, default_priority}
use tron_boss_os.Proc.Switch.{assert_state-passes}
use tron_boss_os.Proc.Create.{unalloc, fresh_context, alloc_stack, alloc_found, allocproc, next_pid}

-- A process that goes back to the free list, from the embryo list.
pub unalloc-Table :
    (k : Kernel) {v : View} (p : Ptr) (message : String)
    → Table null k.procs k.links v
    → Free ptable_lock 0 k
    → IsSlot p
    → (k.procs p).state ≡ embryo
    → (k' : Kernel) × (v' : View) × (unalloc p message k ≡ ok tt k')
      × (k'.procs ≡ update k.procs p (record (k.procs p) { state = unused }))
      × Table null k'.procs k'.links v'
      × Free ptable_lock 0 k'
      × (k'.proc ≡ k.proc)
unfolding unalloc acquired released
unalloc-Table k {v} p message t f s st =
    let (g, e, t1) = take_off t Links.embryo p (on_list t p s st) in
    let r : Proc = record (k.procs p) { state = unused } in
    let t2 =
      put_front (Table-update_out t1 r (t.capped p s)) Links.free s
        (rw (update_self k.procs p r) refl) in
    let ka = acquired ptable_lock k in
    let h = acquired-Holds ptable_lock 0 k f in
    let k1 : Kernel = record ka { links = g } in
    let k2 : Kernel = record ka {
      procs = update k.procs p r;
      links = Links.add_to_front_of_list Links.free p g;
    } in
    let h2 : Holds ptable_lock 0 k2 = record {
      locked = h.locked;
      depth = h.depth;
      quiet = h.quiet;
    } in
    (
      released ptable_lock 0 k2,
      _,
      ground (
        arith,
        acquire-free ptable_lock k f.unlocked,
        e,
        assert_state-passes p embryo k1 st,
        release-held ptable_lock 0 k2 h2,
      ),
      refl,
      t2,
      released-Free ptable_lock 0 k2,
      refl,
    )

module _ (forkret : ℕ) (stack : Ptr) (frame : Trapframe) where
  -- The process as allocproc returns it.
  abbrev pub newborn : (ticks pid : ℕ) → Proc → Proc
  newborn ticks pid r = record r {
    state = embryo;
    pid = pid;
    kstack = stack;
    tf = frame;
    context = fresh_context forkret;
    start_ticks = ticks;
    cpu_ticks_total = 0;
    cpu_ticks_in = 0;
    budget = default_budget;
    priority = default_priority;
  }

  -- No slot is free: NULL is returned, and nothing has changed.
  pub allocproc-full :
      (k : Kernel) {v : View}
      → Table null k.procs k.links v
      → Free ptable_lock 0 k
      → v Links.free ≡ []
      → (k' : Kernel) × (allocproc forkret stack frame k ≡ ok null k')
        × (k'.procs ≡ k.procs)
        × (k'.links ≡ k.links)
        × (k'.nextpid ≡ k.nextpid)
        × Free ptable_lock 0 k'
  unfolding allocproc acquired released
  allocproc-full k {v} t f e =
      let c : Chain k.links.next (k.links.heads Links.free) [] =
        subst (λ ys. Chain k.links.next (k.links.heads Links.free) ys) e
          (t.lists.chain Links.free) in
      let ka = acquired ptable_lock k in
      (
        released ptable_lock 0 ka,
        ground (
          arith,
          acquire-free ptable_lock k f.unlocked,
          c,
          release-held ptable_lock 0 ka (acquired-Holds ptable_lock 0 k f),
        ),
        refl,
        refl,
        refl,
        released-Free ptable_lock 0 ka,
      )

  -- Up to the allocation of the stack: the process is an embryo with its pid.
  alloc_found-stack :
      (k : Kernel) {v : View} (p : Ptr) (xs : List Ptr)
      → Table null k.procs k.links v
      → Free ptable_lock 0 k
      → v Links.free ≡ p ∷ xs
      → let r = record (k.procs p) { state = embryo; pid = k.nextpid } in
        let w = update v Links.free xs in
        (k' : Kernel) × (allocproc forkret stack frame k ≡ alloc_stack forkret stack frame p k')
        × (k'.procs ≡ update k.procs p r)
        × Table null k'.procs k'.links (update w Links.embryo (p ∷ w Links.embryo))
        × Free ptable_lock 0 k'
        × (k'.proc ≡ k.proc)
        × (k'.ticks ≡ k.ticks)
        × (k'.nextpid ≡ (k.nextpid + 1) % uint_mod)
  unfolding allocproc alloc_found next_pid acquired released
  alloc_found-stack k {v} p xs t f e =
      let c : Chain k.links.next (k.links.heads Links.free) (p ∷ xs) =
        subst (λ ys. Chain k.links.next (k.links.heads Links.free) ys) e
          (t.lists.chain Links.free) in
      let s = t.lists.slots Links.free p (rw e (ground arith)) in
      let at = t.home Links.free p (rw e (ground arith)) in
      let st : (k.procs p).state ≡ unused = is_free (k.procs p) (t.capped p s) at in
      let (g, e1, _, t1) = take_off_front t Links.free p p xs e in
      let r1 : Proc = record (k.procs p) { state = embryo } in
      let r : Proc = record (k.procs p) { state = embryo; pid = k.nextpid } in
      let t2 =
        put_front (Table-update_out t1 r (t.capped p s)) Links.embryo s
          (rw (update_self k.procs p r) refl) in
      let ka = acquired ptable_lock k in
      let h = acquired-Holds ptable_lock 0 k f in
      let k1 : Kernel = record ka { links = g } in
      let k2 : Kernel = record ka {
        procs = update k.procs p r;
        links = Links.add_to_front_of_list Links.embryo p g;
        nextpid = (k.nextpid + 1) % uint_mod;
      } in
      let h2 : Holds ptable_lock 0 k2 = record {
        locked = h.locked;
        depth = h.depth;
        quiet = h.quiet;
      } in
      (
        released ptable_lock 0 k2,
        ground (
          arith,
          acquire-free ptable_lock k f.unlocked,
          c.0,
          c.1,
          e1,
          assert_state-passes p unused k1 st,
          update_self k.procs p r1,
          update-update k.procs p r1 r,
          release-held ptable_lock 0 k2 h2,
        ),
        refl,
        t2,
        released-Free ptable_lock 0 k2,
        refl,
        refl,
        refl,
      )
    where
      is_free : (r : Proc) → r.priority ≤ max_priority → place r ≡ Links.free → r.state ≡ unused
      is_free r cap at = ground arith

  -- A slot is free and there is memory: the process at the head of the free list is returned, an
  -- embryo at the front of the embryo list, with the next pid and level 0. No other process changes.
  pub allocproc-embryo :
      (k : Kernel) {v : View} (p : Ptr) (xs : List Ptr)
      → Table null k.procs k.links v
      → Free ptable_lock 0 k
      → v Links.free ≡ p ∷ xs
      → stack ≢ null
      → let w = update v Links.free xs in
        (k' : Kernel) × (allocproc forkret stack frame k ≡ ok p k')
        × (k'.procs ≡ update k.procs p (newborn k.ticks k.nextpid (k.procs p)))
        × Table null k'.procs k'.links (update w Links.embryo (p ∷ w Links.embryo))
        × Free ptable_lock 0 k'
        × (k'.proc ≡ k.proc)
        × (k'.nextpid ≡ (k.nextpid + 1) % uint_mod)
  unfolding alloc_stack
  allocproc-embryo k {v} p xs t f e ne =
      let (k1, e1, ps, t1, f1, pr, ti, np) = alloc_found-stack k p xs t f e in
      let r1 : Proc = record (k.procs p) { state = embryo; pid = k.nextpid } in
      let r2 : Proc = record r1 { kstack = stack } in
      let r3 : Proc = record r2 { tf = frame; context = fresh_context forkret } in
      let r = newborn k.ticks k.nextpid (k.procs p) in
      let t2 =
        Table-update (Table-along ps t1) p r (rw (update_self k.procs p r1) refl) (omega arith) in
      (
        record k1 { procs = update k.procs p r },
        ground (
          arith,
          e1,
          ne,
          ps,
          ti,
          update_self k.procs p r1,
          update-update k.procs p r1 r2,
          update_self k.procs p r2,
          update-update k.procs p r2 r3,
          update_self k.procs p r3,
          update-update k.procs p r3 r,
        ),
        refl,
        Table-along (update-update k.procs p r1 r) t2,
        record { unlocked = f1.unlocked; depth = f1.depth },
        pr,
        np,
      )

-- `kalloc` fails: NULL is returned, the process is unused again and stands on the free list; no
-- other process changes.
pub allocproc-no_stack :
    (forkret : ℕ) (frame : Trapframe) (k : Kernel) {v : View} (p : Ptr) (xs : List Ptr)
    → Table null k.procs k.links v
    → Free ptable_lock 0 k
    → v Links.free ≡ p ∷ xs
    → (k' : Kernel) × (v' : View) × (allocproc forkret null frame k ≡ ok null k')
      × (k'.procs
          ≡ update k.procs p
              (record (k.procs p) { state = unused; pid = k.nextpid; kstack = null }))
      × Table null k'.procs k'.links v'
      × Free ptable_lock 0 k'
unfolding alloc_stack
allocproc-no_stack forkret frame k {v} p xs t f e =
    let (k1, e1, ps, t1, f1, pr, ti, np) = alloc_found-stack forkret null frame k p xs t f e in
    let s = t.lists.slots Links.free p (rw e (ground arith)) in
    let r1 : Proc = record (k.procs p) { state = embryo; pid = k.nextpid } in
    let r2 : Proc = record r1 { kstack = null } in
    let qs = update k.procs p r2 in
    let t2 =
      Table-along (update-update k.procs p r1 r2) (
        Table-update (Table-along ps t1) p r2 (rw (update_self k.procs p r1) refl)
          (t.capped p s)) in
    let k2 : Kernel = record k1 { procs = qs } in
    let (k3, v3, e3, ps3, t3, f3, _) =
      unalloc-Table k2 p "Failure removing from embryo list in allocproc." t2
        (record { unlocked = f1.unlocked; depth = f1.depth }) s
        (rw (update_self k.procs p r2) refl) in
    (
      k3,
      v3,
      ground (arith, e1, ps, update_self k.procs p r1, update-update k.procs p r1 r2, e3),
      ps3
          ∙ ground (
            arith,
            update_self k.procs p r2,
            update-update k.procs p r2 (record r2 { state = unused }),
          ),
      t3,
      f3,
    )
