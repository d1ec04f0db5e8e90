-- ===== src/Proc/Create/Fork.antt =====
-- What fork makes of the child, and how it fails.
use tron_boss_os.Base.{
  ℕ, zero, suc, ◌-◌, ◌≤◌, ◌<◌, ◌≡◌, refl, sym, ap, ◌∙◌, subst, ◌≢◌, inl, inr, ◌&&◌, not, List, [],
  ◌∷◌, ◌++◌, arith, ◌==◌, ltb, leb, eq-cases, ne→==, Bool-cases, if◌then◌else◌, pos, negsuc, update,
  update_self, update_other, update-update, update_same, erase, take,
}
use tron_boss_os.Links
use tron_boss_os.Links.{Ptr, null, max_priority, ListId, Links}
use tron_boss_os.Links.Chain.{IsSlot}
use tron_boss_os.Kernel.{
  Proc, Kernel, unused, embryo, runnable, running, Trapframe, Call, filedup, idup, kfree,
  ptable_lock, ok,
}
use tron_boss_os.Kernel.Spinlock.{
  Holds, Free, acquire-free, acquired, acquired-Holds, released, release-held, released-Free,
}
use tron_boss_os.Table.{
  Table, View, place, Table-update, Table-along, Table-update_out, take_off, put_back, on_list,
}
use tron_boss_os.Proc.{nofile}
use tron_boss_os.Proc.Switch.{assert_state-passes}
use tron_boss_os.Proc.Create.{fork, fork_files, fork_failed, fork_ready, fork_copy}
use tron_boss_os.Proc.Create.Alloc.{newborn, unalloc-Table, allocproc-embryo}

-- The files of the child once `n` descriptors are left: those that the parent has open.
abbrev copied : ℕ → (ℕ → Ptr) → (ℕ → Ptr) → ℕ → Ptr
copied n from to fd =
    if leb (nofile - n) fd && (ltb fd nofile && not (from fd == null)) then from fd else to fd

fork_files-copied :
    (n : ℕ) (parent np : Ptr) (k : Kernel)
    → n ≤ nofile
    → parent ≢ np
    → (o : ℕ → Ptr) × (cs : List Call) × (fork_files n parent np k
        ≡ ok tt (record k {
          procs = update k.procs np (record (k.procs np) { ofile = o });
          calls = cs;
        }))
      × ((fd : ℕ) → o fd ≡ copied n (k.procs parent).ofile (k.procs np).ofile fd)
unfolding fork_files
fork_files-copied zero parent np k le ne = (
  (k.procs np).ofile,
  k.calls,
  ap (λ (ps : Ptr → Proc). ok tt (record k { procs = ps })) (sym (update_same k.procs np)),
  λ fd. ground arith,
)
fork_files-copied (suc n) parent np k le ne =
    let fd0 = nofile - suc n in
    let file = (k.procs parent).ofile fd0 in
    elim (Bool-cases (file == null)) [
      | inl closed ↦
          let (o, cs, e, all) = fork_files-copied n parent np k (omega arith) ne in
          (
            o,
            cs,
            ground (arith, closed, e),
            λ fd. all fd ∙ elim (eq-cases fd fd0) [
              | inl (q, _) ↦ rw q (ground arith)
              | inr (q, _) ↦ ground arith
            ],
          )
      | inr opened ↦
          let r : Proc = record (k.procs np) { ofile = update (k.procs np).ofile fd0 file } in
          let k1 : Kernel = record k {
            procs = update k.procs np r;
            calls = filedup file ∷ k.calls;
          } in
          let (o, cs, e, all) = fork_files-copied n parent np k1 (omega arith) ne in
          let other = update_other k.procs np r parent ne in
          let self = update_self k.procs np r in
          (
            o,
            cs,
            ground (
              arith,
              opened,
              e,
              self,
              update-update k.procs np r (record (k.procs np) { ofile = o }),
            ),
            λ fd.
                all fd
                ∙ ap (λ (x : Proc). copied n x.ofile (update k.procs np r np).ofile fd) other
                ∙ ap (λ (x : Proc). copied n (k.procs parent).ofile x.ofile fd) self
                ∙ elim (eq-cases fd fd0) [
                  | inl (q, _) ↦ rw q (ground (arith, update_self (k.procs np).ofile fd0 file))
                  | inr (q, _) ↦ ground (arith, update_other (k.procs np).ofile fd0 file fd q)
                ],
          )
    ]

-- The child as fork leaves it, but for its open files.
abbrev pub is_child_of : (parent : Proc) (p : Ptr) (pgdir : Ptr) → Proc → Proc
is_child_of r p pgdir c = record c {
  pgdir = pgdir;
  sz = r.sz;
  parent = p;
  tf = record (r.tf) { eax = 0 };
  uid = r.uid;
  gid = r.gid;
  cwd = r.cwd;
  name = take 15 r.name;
  state = runnable;
}

fork_ready-Table :
    (k : Kernel) {v : View} (np : Ptr)
    → Table null k.procs k.links v
    → Free ptable_lock 0 k
    → IsSlot np
    → (k.procs np).state ≡ embryo
    → let n = (k.procs np).priority in
      let w = update v Links.embryo (erase np (v Links.embryo)) in
      (k' : Kernel) × (fork_ready np k ≡ ok tt k')
      × (k'.procs ≡ update k.procs np (record (k.procs np) { state = runnable }))
      × Table null k'.procs k'.links (update w (Links.ready n) (w (Links.ready n) ++ np ∷ []))
      × Free ptable_lock 0 k'
unfolding fork_ready acquired released
fork_ready-Table k {v} np t f s st =
    let (g, e, t1) = take_off t Links.embryo np (on_list t np s st) in
    let r : Proc = record (k.procs np) { state = runnable } in
    let (g2, e2, t2) =
      put_back (Table-update_out t1 r (t.capped np s)) (Links.ready (k.procs np).priority) s
        (rw (update_self k.procs np r) refl) in
    let ka = acquired ptable_lock k in
    let h = acquired-Holds ptable_lock 0 k f in
    let k1 : Kernel = record ka { links = g } in
    let k2 : Kernel = record ka { procs = update k.procs np r; links = g2 } in
    let h2 : Holds ptable_lock 0 k2 = record {
      locked = h.locked;
      depth = h.depth;
      quiet = h.quiet;
    } in
    (
      released ptable_lock 0 k2,
      ground (
        arith,
        acquire-free ptable_lock k f.unlocked,
        e,
        assert_state-passes np embryo k1 st,
        update_self k.procs np r,
        e2,
        release-held ptable_lock 0 k2 h2,
      ),
      refl,
      t2,
      released-Free ptable_lock 0 k2,
    )

-- From the copy of the memory on.
fork_copy-Table :
    (k : Kernel) {v : View} (np : Ptr)
    → Table null k.procs k.links v
    → Free ptable_lock 0 k
    → IsSlot np
    → (k.procs np).state ≡ embryo
    → k.proc ≢ np
    → let c = k.procs np in
      let p = k.procs k.proc in
      let w = update v Links.embryo (erase np (v Links.embryo)) in
      (k' : Kernel) × (o : ℕ → Ptr) × (fork_copy np k ≡ ok (pos c.pid) k')
      × (k'.procs ≡ update k.procs np (record (is_child_of p k.proc c.pgdir c) { ofile = o }))
      × ((fd : ℕ) → fd < nofile → p.ofile fd ≢ null → o fd ≡ p.ofile fd)
      × Table null k'.procs k'.links
          (update w (Links.ready c.priority) (w (Links.ready c.priority) ++ np ∷ []))
      × Free ptable_lock 0 k'
unfolding fork_copy
fork_copy-Table k {v} np t f s st ne =
    let c = k.procs np in
    let p = k.procs k.proc in
    let c1 : Proc = record c {
      sz = p.sz;
      parent = k.proc;
      tf = record (p.tf) { eax = 0 };
      uid = p.uid;
      gid = p.gid;
    } in
    let k1 : Kernel = record k { procs = update k.procs np c1 } in
    let (o, cs, e1, all) = fork_files-copied nofile k.proc np k1 (omega arith) ne in
    let other = update_other k.procs np c1 k.proc ne in
    let c2 : Proc = record c1 { ofile = o } in
    let c3 : Proc = record c2 { cwd = p.cwd; name = take 15 p.name } in
    let k3 : Kernel = record k { procs = update k.procs np c3; calls = idup p.cwd ∷ cs } in
    let t3 : Table null (update k.procs np c3) k.links v =
      Table-update t np c3 refl (t.capped np s) in
    let (k4, e4, ps4, t4, f4) =
      fork_ready-Table k3 np t3 (record { unlocked = f.unlocked; depth = f.depth }) s
        (rw (update_self k.procs np c3) st) in
    let self3 = update_self k.procs np c3 in
    let ks : Kernel = record k { procs = update k.procs np c2; calls = cs } in
    (
      k4,
      o,
      ground (
        arith,
        e1,
        update_self k.procs np c1,
        update-update k.procs np c1 c2,
        update_self k.procs np c2,
        update-update k.procs np c2 c3,
        self3,
        e4,
      ),
      ps4 ∙ ground (arith, self3, update-update k.procs np c3 (record c3 { state = runnable })),
      (λ fd lt opened. all fd ∙ ground (arith, other)),
      subst
          (λ n.
            let w = update v Links.embryo (erase np (v Links.embryo)) in
            Table null k4.procs k4.links (update w (Links.ready n) (w (Links.ready n) ++ np ∷ [])))
          (ap (λ (r : Proc). r.priority) self3) t4,
      f4,
    )

-- The child goes through the embryo list to the end of ready list 0.
ready_tail :
    (v : View) (np : Ptr) (xs : List Ptr) (n : ℕ)
    → n ≡ 0
    → let w0 = update v Links.free xs in
      let w1 = update w0 Links.embryo (np ∷ w0 Links.embryo) in
      let w = update w1 Links.embryo (erase np (w1 Links.embryo)) in
      update w (Links.ready n) (w (Links.ready n) ++ np ∷ []) (Links.ready 0)
      ≡ v (Links.ready 0) ++ np ∷ []
unfolding update
ready_tail v np xs n z = rw z refl

module _ (forkret : ℕ) (frame : Trapframe) (k : Kernel) {v : View} (np : Ptr) (xs : List Ptr)
    (t : Table null k.procs k.links v) (f : Free ptable_lock 0 k) (e : v Links.free ≡ np ∷ xs) where
  free-IsSlot : IsSlot np
  free-IsSlot = t.lists.slots Links.free np (rw e (ground arith))

  not_current : (k.procs k.proc).state ≡ running → k.proc ≢ np
  not_current run same =
      running_not_free (k.procs np) (ap (λ p. (k.procs p).state) (sym same) ∙ run)
        (t.home Links.free np (rw e (ground arith)))
    where
      running_not_free : (r : Proc) → r.state ≡ running → place r ≢ Links.free
      running_not_free r st = ground arith

  -- The embryo's pgdir is set, and what hangs on it is put in terms of the process before.
  forked :
      (stack : Ptr) (pgdir : Ptr)
      → stack ≢ null
      → let c = record (newborn forkret stack frame k.ticks k.nextpid (k.procs np)) {
        pgdir = pgdir;
      } in
        let w = update v Links.free xs in
        (k2 : Kernel) × (fork forkret stack frame pgdir k
          ≡ (if pgdir == null then fork_failed np else fork_copy np) k2)
        × (k2.procs ≡ update k.procs np c)
        × Table null k2.procs k2.links (update w Links.embryo (np ∷ w Links.embryo))
        × Free ptable_lock 0 k2
        × (k2.proc ≡ k.proc)
  unfolding fork
  forked stack pgdir ne =
      let (k1, e1, ps, t1, f1, pr, _) = allocproc-embryo forkret stack frame k np xs t f e ne in
      let nb = newborn forkret stack frame k.ticks k.nextpid (k.procs np) in
      let c : Proc = record nb { pgdir = pgdir } in
      let s : IsSlot np = free-IsSlot in
      (
        record k1 { procs = update k.procs np c },
        ground (arith, e1, s, ps, update_self k.procs np nb, update-update k.procs np nb c),
        refl,
        Table-along (update-update k.procs np nb c) (
            Table-update (Table-along ps t1) np c (rw (update_self k.procs np nb) refl)
              (omega arith)),
        record { unlocked = f1.unlocked; depth = f1.depth },
        pr,
      )

  -- Where a slot is free and the allocations succeed, `fork` returns the next pid, and the child is
  -- runnable at the end of ready list 0: it has the memory that was copied, the parent's size, ids,
  -- directory, name and trap frame with 0 in eax, its parent is the caller, and every file that the
  -- caller has open is open in it. No other process changes and the lock is free again.
  pub fork-runnable :
      (stack pgdir : Ptr)
      → stack ≢ null
      → pgdir ≢ null
      → (k.procs k.proc).state ≡ running
      → (k' : Kernel) × (v' : View) × (o : ℕ → Ptr) × (fork forkret stack frame pgdir k
          ≡ ok (pos k.nextpid) k')
        × (k'.procs
            ≡ update k.procs np
                (record (is_child_of
                  (k.procs k.proc)
                  k.proc
                  pgdir
                  (newborn forkret stack frame k.ticks k.nextpid (k.procs np))) { ofile = o }))
        × ((fd : ℕ)
            → fd < nofile
            → (k.procs k.proc).ofile fd ≢ null
            → o fd ≡ (k.procs k.proc).ofile fd)
        × Table null k'.procs k'.links v'
        × (v' (Links.ready 0) ≡ v (Links.ready 0) ++ np ∷ [])
        × Free ptable_lock 0 k'
  fork-runnable stack pgdir ne ne' run =
      let (k2, e2, ps, t2, f2, pr) = forked stack pgdir ne in
      let c : Proc = record (newborn forkret stack frame k.ticks k.nextpid (k.procs np)) {
        pgdir = pgdir;
      } in
      let self : k2.procs np ≡ c = ap (λ (ps : Ptr → Proc). ps np) ps ∙ update_self k.procs np c in
      let cur : k2.procs k2.proc ≡ k.procs k.proc =
        ap k2.procs pr
        ∙ ap (λ (ps : Ptr → Proc). ps k.proc) ps
        ∙ update_other k.procs np c k.proc (not_current run) in
      let (k3, o, e3, ps3, files, t3, f3) =
        fork_copy-Table k2 np t2 f2 free-IsSlot (ap (λ (r : Proc). r.state) self)
          (rw pr (not_current run)) in
      let child : Proc → Proc → Ptr → Proc =
        λ r x p. record (is_child_of r p x.pgdir x) { ofile = o } in
      (
        k3,
        _,
        o,
        e2 ∙ rw (ne→== pgdir null ne') (e3 ∙ ap (λ (x : Proc). ok (pos x.pid) k3) self),
        ps3
            ∙ ap (λ (r : Proc). update k2.procs np (child r (k2.procs np) k2.proc)) cur
            ∙ ap (λ (x : Proc). update k2.procs np (child (k.procs k.proc) x k2.proc)) self
            ∙ ap (λ p. update k2.procs np (child (k.procs k.proc) c p)) pr
            ∙ ap (λ ps. update ps np (child (k.procs k.proc) c k.proc)) ps
            ∙ update-update k.procs np c (child (k.procs k.proc) c k.proc),
        (λ fd lt opened.
            files fd lt (λ n. opened (ap (λ (r : Proc). r.ofile fd) (sym cur) ∙ n))
            ∙ ap (λ (r : Proc). r.ofile fd) cur),
        t3,
        ready_tail v np xs (k2.procs np).priority (ap (λ (r : Proc). r.priority) self),
        f3,
      )

  fork_failed-Table :
      (k2 : Kernel) {v2 : View}
      → Table null k2.procs k2.links v2
      → Free ptable_lock 0 k2
      → (k2.procs np).state ≡ embryo
      → (k' : Kernel) × (v' : View) × (fork_failed np k2 ≡ ok (negsuc 0) k')
        × (k'.procs ≡ update k2.procs np (record (k2.procs np) { kstack = null; state = unused }))
        × Table null k'.procs k'.links v'
        × Free ptable_lock 0 k'
  unfolding fork_failed
  fork_failed-Table k2 t2 f2 st =
      let c = k2.procs np in
      let c1 : Proc = record c { kstack = null } in
      let k3 : Kernel = record k2 {
        procs = update k2.procs np c1;
        calls = kfree c.kstack ∷ k2.calls;
      } in
      let t3 = Table-update t2 np c1 refl (t2.capped np free-IsSlot) in
      let (k4, v4, e4, ps4, t4, f4, _) =
        unalloc-Table k3 np "Failure to remove from embryo list in userinit" t3
          (record { unlocked = f2.unlocked; depth = f2.depth }) free-IsSlot
          (rw (update_self k2.procs np c1) st) in
      (
        k4,
        v4,
        ground (arith, e4),
        ps4
            ∙ ground (
              arith,
              update_self k2.procs np c1,
              update-update k2.procs np c1 (record c1 { state = unused }),
            ),
        t4,
        f4,
      )

  -- Where the copy of the memory fails, `fork` returns -1, the invariant holds, the slot is unused
  -- again, no other process has changed, and the lock is free.
  pub fork-no_memory :
      (stack : Ptr)
      → stack ≢ null
      → (k' : Kernel) × (v' : View) × (fork forkret stack frame null k ≡ ok (negsuc 0) k')
        × Table null k'.procs k'.links v'
        × Free ptable_lock 0 k'
        × ((k'.procs np).state ≡ unused)
        × ((q : Ptr) → q ≢ np → k'.procs q ≡ k.procs q)
  fork-no_memory stack ne =
      let (k2, e2, ps, t2, f2, pr) = forked stack null ne in
      let c : Proc = record (newborn forkret stack frame k.ticks k.nextpid (k.procs np)) {
        pgdir = null;
      } in
      let self : k2.procs np ≡ c = ap (λ (ps : Ptr → Proc). ps np) ps ∙ update_self k.procs np c in
      let (k3, v3, e3, ps3, t3, f3) =
        fork_failed-Table k2 t2 f2 (ap (λ (r : Proc). r.state) self) in
      (
        k3,
        v3,
        e2 ∙ e3,
        t3,
        f3,
        ap (λ (ps : Ptr → Proc). (ps np).state) ps3
            ∙ ap (λ (r : Proc). r.state) (update_self k2.procs np _),
        λ q other.
            ap (λ (ps : Ptr → Proc). ps q) ps3
            ∙ update_other k2.procs np _ q other
            ∙ ap (λ (ps : Ptr → Proc). ps q) ps
            ∙ update_other k.procs np c q other,
      )
