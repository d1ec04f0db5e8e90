-- ===== src/Proc/Priority/Keeps.antt =====
-- What setpriority does, on every list on which the process may stand.
use tron_boss_os.Base.{
  ℕ, zero, suc, ◌-◌, ◌≤◌, ◌<◌, ◌≡◌, refl, sym, ap, ◌∙◌, subst, ◌≢◌, inl, inr, ◌⊎◌, Bool, true,
  false, ℤ, pos, negsuc, arith, ◌==◌, eq-cases, ==→ne, ==→eq, le→ltb, if◌then◌else◌, update,
  update_self, has,
}
use tron_boss_os.Links
use tron_boss_os.Links.{Ptr, null, nproc, max_priority, loop_fuel, ListId, Links}
use tron_boss_os.Links.Chain.{IsSlot}
use tron_boss_os.Kernel.{
  Proc, Kernel, runnable, running, sleeping, ptable_lock, Run, ok, M, ◌>>=◌, and_then,
}
use tron_boss_os.Kernel.Spinlock
use tron_boss_os.Kernel.Spinlock.{
  release, Holds, Free, acquire-free, acquired, acquired-Holds, released, release-held,
  released-Free,
}
use tron_boss_os.Table.{
  Table, View, place, list_of, on_list, take_off, put_back, Table-update, Table-update_out,
}
use tron_boss_os.Proc.Walk.{first, first_found, first_missing}
use tron_boss_os.Proc.Sched.Wakeup.{asleep}
use tron_boss_os.Proc.Sched.Dispatch.{is_ready}
use tron_boss_os.Proc.Kill.{has_pid}
use tron_boss_os.Proc.Kill.Keeps.{find_on-first}
use tron_boss_os.Proc.Priority.{
  reprioritised, set_found, set_proc_priority, set_ready_at, set_ready_proc_priority, settled,
  finish, set_priority_locked, set_priority_checked, setpriority,
}

-- The process is running, asleep or ready: setpriority looks for it there.
abbrev pub IsScheduled : Proc → Type 0
IsScheduled r = (r.state ≡ running) ⊎ ((r.state ≡ sleeping) ⊎ (r.state ≡ runnable))

-- How setpriority ends for arguments in range.
pub data Outcome (before after : Ptr → Proc) (pid n : ℕ) : ℤ → Type 0 where
  changed :
      (p : Ptr)
      → IsSlot p
      → (before p).pid ≡ pid
      → IsScheduled (before p)
      → (before p).priority ≢ n
      → after ≡ update before p (reprioritised n (before p))
      → Outcome before after pid n (pos 0)
  same :
      (p : Ptr)
      → IsSlot p
      → (before p).pid ≡ pid
      → (before p).priority ≡ n
      → after ≡ before
      → Outcome before after pid n (negsuc 4)
  missing :
      ((q : Ptr) → IsSlot q → (before q).pid ≡ pid → ¬ IsScheduled (before q))
      → after ≡ before
      → Outcome before after pid n (negsuc 3)

-- The run ends with a value, the invariant holds, and this CPU holds the lock or not, as `holding`
-- says.
pub record Settled (k : Kernel) (holding : Bool) (pid n : ℕ) (run : Run ℤ) : Type 0 where
  pub result : ℤ
  pub end : Kernel
  pub view : View
  pub returns : run ≡ ok result end
  pub table : Table null end.procs end.links view
  pub locks : end.locks ptable_lock ≡ holding
  pub outcome : Outcome k.procs end.procs pid n result

is_running : (r : Proc) → r.priority ≤ max_priority → place r ≡ Links.running → r.state ≡ running
is_running r cap at = ground arith

-- Where setpriority returns: the lock is released unless the caller held it.
finish-Settled :
    (before : Kernel) (holding : Bool) (pid n : ℕ) (rc : ℤ) (k : Kernel) (v : View)
    → Holds ptable_lock 0 k
    → Table null k.procs k.links v
    → Outcome before.procs k.procs pid n rc
    → Settled before holding pid n (finish holding rc k)
unfolding released
finish-Settled before true pid n rc k v held t o = record {
  result = rc;
  end = k;
  view = v;
  returns = refl;
  table = t;
  locks = held.locked;
  outcome = o;
}
finish-Settled before false pid n rc k v held t o = record {
  result = rc;
  end = released ptable_lock 0 k;
  view = v;
  returns = ground (arith, release-held ptable_lock 0 k held);
  table = t;
  locks = (released-Free ptable_lock 0 k).unlocked;
  outcome = o;
}

module _ (k : Kernel) {v : View} (t : Table null k.procs k.links v) (held : Holds ptable_lock 0 k)
    (holding : Bool) (pid n : ℕ) (le : n ≤ max_priority) where
  abbrev Clear : ListId → Type 0
  Clear l = (q : Ptr) → has q (v l) ≡ true → has_pid pid (k.procs q) ≡ false

  abbrev found : ListId → Ptr
  found l = first (has_pid pid) k.procs (v l)

  Clear-of_null : (l : ListId) → found l ≡ null → Clear l
  Clear-of_null l e =
      first_missing (has_pid pid) k.procs (v l) (λ q m. let s = t.lists.slots l q m in omega arith)
        e

  -- setprocpriority on the running or the sleep list
  set_proc_priority-Settled :
      (l : ListId) (next : M ℤ)
      → ((q : Ptr)
          → has q (v l) ≡ true
          → IsScheduled (k.procs q) × (place (reprioritised n (k.procs q)) ≡ place (k.procs q)))
      → (Clear l → Settled k holding pid n (next k))
      → Settled k holding pid n ((do rc ← set_proc_priority l pid n; settled holding rc next) k)
  unfolding set_proc_priority
  set_proc_priority-Settled l next live rest =
      let p = found l in
      subst
        (λ (r : Run Ptr).
          Settled k holding pid n
            (and_then (and_then r (set_found n)) (λ rc. settled holding rc next)))
        (sym (find_on-first k t l pid))
        (elim (eq-cases p null) [
          | inl (e, b) ↦ rw b (rest (Clear-of_null l e))
          | inr (e, b) ↦
              let (m, c) = first_found (has_pid pid) k.procs (v l) e in
              let s = t.lists.slots l p m in
              elim (eq-cases (k.procs p).priority n) [
                | inl (f, d) ↦
                    rw (b, d)
                      (finish-Settled k holding pid n (negsuc 4) k v held t
                        (same p s (==→eq _ _ c) f refl))
                | inr (f, d) ↦
                    rw (b, d)
                      (finish-Settled k holding pid n (pos 0)
                        (record k { procs = update k.procs p (reprioritised n (k.procs p)) }) v
                        (record { locked = held.locked; depth = held.depth; quiet = held.quiet })
                        (Table-update t p (reprioritised n (k.procs p)) (live p m).1 le)
                        (changed p s (==→eq _ _ c) (live p m).0 f refl))
              ]
        ])

  -- A process that is found on ready list `i` moves to the end of ready list `n`.
  set_ready_at-Settled :
      (i : ℕ) (next : M ℤ)
      → i ≤ max_priority
      → found (Links.ready i) ≢ null
      → Settled k holding pid n (
          (do rc ← set_ready_at (Links.ready i) (found (Links.ready i)) n; settled holding rc next)
            k)
  unfolding set_ready_at
  set_ready_at-Settled i next in_range e =
      let p = found (Links.ready i) in
      let (m, c) = first_found (has_pid pid) k.procs (v (Links.ready i)) e in
      let s = t.lists.slots (Links.ready i) p m in
      let (st, pr) = is_ready (k.procs p) i in_range (t.home (Links.ready i) p m) in
      elim (eq-cases (k.procs p).priority n) [
        | inl (f, d) ↦
            rw d
              (finish-Settled k holding pid n (negsuc 4) k v held t (same p s (==→eq _ _ c) f refl))
        | inr (f, d) ↦
            let r : Proc = reprioritised n (k.procs p) in
            let (g, e1, t1) = take_off t (Links.ready i) p m in
            let (g2, e2, t2) =
              put_back (Table-update_out t1 r le) (Links.ready n) s
                (rw (update_self k.procs p r) (ap (λ st. list_of st n) st)) in
            let k2 : Kernel = record k { procs = update k.procs p r; links = g2 } in
            let done =
              finish-Settled k holding pid n (pos 0) k2 _
                (record { locked = held.locked; depth = held.depth; quiet = held.quiet }) t2
                (changed p s (==→eq _ _ c) (inr (inr st)) f refl) in
            rw d (record {
              result = done.result;
              end = done.end;
              view = done.view;
              returns = ground (arith, e1, e2, done.returns);
              table = done.table;
              locks = done.locks;
              outcome = done.outcome;
            })
      ]

  -- setreadyprocpriority with `j` ready lists to go
  set_ready_proc_priority-Settled :
      (j : ℕ) (next : M ℤ)
      → j ≤ suc max_priority
      → ((i : ℕ) → i < suc max_priority - j → Clear (Links.ready i))
      → (((i : ℕ) → i ≤ max_priority → Clear (Links.ready i)) → Settled k holding pid n (next k))
      → Settled k holding pid n
          ((do rc ← set_ready_proc_priority j pid n; settled holding rc next) k)
  unfolding set_ready_proc_priority
  set_ready_proc_priority-Settled zero next short clear rest = rest (λ i h. clear i (omega arith))
  set_ready_proc_priority-Settled (suc j) next short clear rest =
      let i = suc max_priority - suc j in
      subst
        (λ (r : Run Ptr). Settled k holding pid n (
          and_then
            (and_then r (λ p.
              if p == null
              then set_ready_proc_priority j pid n
              else set_ready_at (Links.ready i) p n))
            (λ rc. settled holding rc next)))
        (sym (find_on-first k t (Links.ready i) pid))
        (elim (eq-cases (found (Links.ready i)) null) [
          | inl (e, b) ↦ rw b (
              set_ready_proc_priority-Settled j next (omega arith)
                (λ m h. elim (eq-cases m i) [
                  | inl (f, _) ↦ rw f (Clear-of_null (Links.ready i) e)
                  | inr (f, _) ↦ clear m (omega arith)
                ])
                rest)
          | inr (e, b) ↦ rw b (set_ready_at-Settled i next (omega arith) e)
        ])

  none-IsScheduled :
      Clear Links.running
      → Clear Links.sleep
      → ((i : ℕ) → i ≤ max_priority → Clear (Links.ready i))
      → (q : Ptr) → IsSlot q
      → (k.procs q).pid ≡ pid
      → ¬ IsScheduled (k.procs q)
  none-IsScheduled cn cs cr q s e (inl st) = ==→ne (k.procs q).pid pid (cn q (on_list t q s st)) e
  none-IsScheduled cn cs cr q s e (inr (inl st)) =
      ==→ne (k.procs q).pid pid (cs q (on_list t q s st)) e
  none-IsScheduled cn cs cr q s e (inr (inr st)) =
      ==→ne (k.procs q).pid pid (cr (k.procs q).priority (t.capped q s) q (on_list t q s st)) e

  pub set_priority_locked-Settled : Settled k holding pid n (set_priority_locked holding pid n k)
  unfolding set_priority_locked
  set_priority_locked-Settled =
      set_proc_priority-Settled Links.running _
        (λ q m.
          let s = t.lists.slots Links.running q m in
          let st = is_running (k.procs q) (t.capped q s) (t.home Links.running q m) in
          (inl st, rw (ap (λ st. list_of st n) st, st) refl))
        λ cn.
          set_proc_priority-Settled Links.sleep _
            (λ q m.
              let s = t.lists.slots Links.sleep q m in
              let st = asleep (k.procs q) (t.capped q s) (t.home Links.sleep q m) in
              (inr (inl st), rw (st) refl))
            λ cs.
              set_ready_proc_priority-Settled (suc max_priority) _ (omega arith)
                (λ i h. absurd (omega arith))
                λ cr.
                  finish-Settled k holding pid n (negsuc 3) k v held t
                    (missing (none-IsScheduled cn cs cr) refl)

checked_in_range :
    (holding : Bool) (pid n : ℕ) (k : Kernel)
    → pid ≤ 32767
    → n ≤ max_priority
    → set_priority_checked holding (pos pid) (pos n) k ≡ set_priority_locked holding pid n k
unfolding set_priority_checked
checked_in_range holding pid n k p q = rw (le→ltb 32767 pid p, le→ltb max_priority n q) refl

-- `setpriority` for arguments in range, called with `ptable.lock` free or held, always returns, keeps
-- the invariant and leaves the lock as it was. It returns 0 after it has given one scheduled process
-- with the pid the new level and a full budget, on the ready list of that level if it is runnable;
-- -5 where the process has the level already, and -4 where no running, sleeping or runnable process
-- has the pid; in both cases nothing has changed.
pub setpriority-Settled :
    (k : Kernel) {v : View} (pid n : ℕ)
    → Table null k.procs k.links v
    → pid ≤ 32767
    → n ≤ max_priority
    → Free ptable_lock 0 k ⊎ Holds ptable_lock 0 k
    → Settled k (k.locks ptable_lock) pid n (setpriority (pos pid) (pos n) k)
unfolding setpriority acquired Spinlock.holding
setpriority-Settled k {v} pid n t pid_le le (inl f) =
    let k1 = acquired ptable_lock k in
    let s = set_priority_locked-Settled k1 t (acquired-Holds ptable_lock 0 k f) false pid n le in
    record {
      result = s.result;
      end = s.end;
      view = s.view;
      returns = ground (
        arith,
        f.unlocked,
        acquire-free ptable_lock k f.unlocked,
        checked_in_range false pid n k1 pid_le le,
        s.returns,
      );
      table = s.table;
      locks = s.locks ∙ sym f.unlocked;
      outcome = s.outcome;
    }
setpriority-Settled k {v} pid n t pid_le le (inr h) =
    let s = set_priority_locked-Settled k t h true pid n le in
    record {
      result = s.result;
      end = s.end;
      view = s.view;
      returns = ground (arith, h.locked, checked_in_range true pid n k pid_le le, s.returns);
      table = s.table;
      locks = s.locks ∙ sym h.locked;
      outcome = s.outcome;
    }
