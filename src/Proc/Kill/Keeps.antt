-- ===== src/Proc/Kill/Keeps.antt =====
-- What kill does, on every list on which the process may stand.
use tron_boss_os.Base.{
  ℕ, zero, suc, ◌-◌, ◌≤◌, ◌<◌, ◌≡◌, refl, sym, ap, ◌∙◌, subst, ◌≢◌, inl, inr, ◌⊎◌, true, false, ℤ,
  pos, negsuc, to_uint, arith, ◌==◌, eq-cases, ==→ne, if◌then◌else◌, update, update_self, has,
}
use tron_boss_os.Links
use tron_boss_os.Links.{Ptr, null, nproc, max_priority, loop_fuel, ListId, Links}
use tron_boss_os.Links.Chain.{IsSlot}
use tron_boss_os.Kernel.{
  Proc, Kernel, ProcState, unused, embryo, sleeping, runnable, running, zombie, same_state,
  ptable_lock, Run, ok, M, ◌>>=◌, ◌>>◌, and_then, pure,
}
use tron_boss_os.Kernel.Spinlock.{
  release, Holds, Free, acquire-free, acquired, acquired-Holds, released, release-held,
  released-Free,
}
use tron_boss_os.Table.{
  Table, View, list_of, on_list, take_off, put_back, Table-update, Table-update_out,
}
use tron_boss_os.Proc.Switch.{assert_state-passes}
use tron_boss_os.Proc.Walk.{first, first_found, first_missing, find_first-list}
use tron_boss_os.Proc.Sched.Wakeup.{asleep}
use tron_boss_os.Proc.Kill.{
  has_pid, find_on, kill_sleeping, mark, kill_running, kill_ready, kill_embryo, kill,
}

-- The process as kill leaves it: marked, and runnable if it was asleep.
abbrev pub struck : Proc → Proc
struck r =
    if same_state r.state sleeping
    then record r { state = runnable; killed = true }
    else record r { killed = true }

-- kill returns 0 and has struck one process with the pid, or it returns -1, nothing has changed,
-- and no process that is alive has the pid.
pub data Outcome (before after : Ptr → Proc) (pid : ℕ) : ℤ → Type 0 where
  hit :
      (p : Ptr)
      → IsSlot p
      → (before p).pid ≡ pid
      → after ≡ update before p (struck (before p))
      → Outcome before after pid (pos 0)
  miss :
      ((q : Ptr)
        → IsSlot q
        → (before q).pid ≡ pid
        → ((before q).state ≡ unused) ⊎ ((before q).state ≡ zombie))
      → after ≡ before
      → Outcome before after pid (negsuc 0)

-- The run ends with a value, the invariant holds, the lock is free again.
pub record Settled (k : Kernel) (pid : ℕ) (run : Run ℤ) : Type 0 where
  pub result : ℤ
  pub end : Kernel
  pub view : View
  pub returns : run ≡ ok result end
  pub table : Table null end.procs end.links view
  pub free : Free ptable_lock 0 end
  pub outcome : Outcome k.procs end.procs pid result

pub find_on-first :
    (k : Kernel) {v : View} (t : Table null k.procs k.links v) (l : ListId) (pid : ℕ)
    → find_on l pid k ≡ ok (first (has_pid pid) k.procs (v l)) k
unfolding find_on
find_on-first k t l pid = find_first-list k t.lists l (has_pid pid)

same_sleeping : (s : ProcState) → s ≢ sleeping → same_state s sleeping ≡ false
same_sleeping s ne = ground arith

module _ (k : Kernel) {v : View} (t : Table null k.procs k.links v) (held : Holds ptable_lock 0 k)
    (pid : ℕ) where
  -- No process of the list has the pid.
  abbrev Clear : ListId → Type 0
  Clear l = (q : Ptr) → has q (v l) ≡ true → has_pid pid (k.procs q) ≡ false

  abbrev found : ListId → Ptr
  found l = first (has_pid pid) k.procs (v l)

  Clear-of_null : (l : ListId) → found l ≡ null → Clear l
  Clear-of_null l e =
      first_missing (has_pid pid) k.procs (v l) (λ q m. let s = t.lists.slots l q m in omega arith)
        e

  mark-Settled :
      (l : ListId)
      → found l ≢ null
      → (k.procs (found l)).state ≢ sleeping
      → Settled k pid (mark (found l) k)
  unfolding mark released
  mark-Settled l ne awake =
      let (m, b) = first_found (has_pid pid) k.procs (v l) ne in
      let s = t.lists.slots l (found l) m in
      let r : Proc = record (k.procs (found l)) { killed = true } in
      let k1 : Kernel = record k { procs = update k.procs (found l) r } in
      let h1 : Holds ptable_lock 0 k1 = record {
        locked = held.locked;
        depth = held.depth;
        quiet = held.quiet;
      } in
      record {
        result = pos 0;
        end = released ptable_lock 0 k1;
        view = v;
        returns = ground (arith, release-held ptable_lock 0 k1 h1);
        table = Table-update t (found l) r refl (t.capped (found l) s);
        free = released-Free ptable_lock 0 k1;
        outcome = hit (found l) s (ground arith) (
            ap (update k.procs (found l))
              (rw (same_sleeping (k.procs (found l)).state awake) refl));
      }

  not_asleep :
      (l : ListId) (p : Ptr) → l ≢ Links.sleep → has p (v l) ≡ true → (k.procs p).state ≢ sleeping
  not_asleep l p ne m e = ne (sym (t.home l p m) ∙ ap (λ s. list_of s (k.procs p).priority) e)

  found_on : (l : ListId) → found l ≢ null → has (found l) (v l) ≡ true
  found_on l ne = (first_found (has_pid pid) k.procs (v l) ne).0

  -- Where every list with living processes has been searched in vain.
  all_dead :
      Clear Links.sleep
      → Clear Links.embryo
      → ((j : ℕ) → j ≤ max_priority → Clear (Links.ready j))
      → Clear Links.running
      → (q : Ptr) → IsSlot q
      → (k.procs q).pid ≡ pid
      → (s : ProcState) → (k.procs q).state ≡ s
      → ((k.procs q).state ≡ unused) ⊎ ((k.procs q).state ≡ zombie)
  all_dead cs ce cr cn q slot e unused st = inl st
  all_dead cs ce cr cn q slot e zombie st = inr st
  all_dead cs ce cr cn q slot e embryo st =
      absurd (==→ne (k.procs q).pid pid (ce q (on_list t q slot st)) e)
  all_dead cs ce cr cn q slot e sleeping st =
      absurd (==→ne (k.procs q).pid pid (cs q (on_list t q slot st)) e)
  all_dead cs ce cr cn q slot e running st =
      absurd (==→ne (k.procs q).pid pid (cn q (on_list t q slot st)) e)
  all_dead cs ce cr cn q slot e runnable st = absurd (
      ==→ne (k.procs q).pid pid (cr (k.procs q).priority (t.capped q slot) q (on_list t q slot st))
        e)

  -- A list is searched: the process that is found on it is marked, or the search goes on.
  search_list :
      (l : ListId) (next : M ℤ)
      → l ≢ Links.sleep
      → (Clear l → Settled k pid (next k))
      → Settled k pid ((do p ← find_on l pid; if p == null then next else mark p) k)
  search_list l next ne rest =
      subst (Settled k pid)
        (sym (
          ap (λ (r : Run Ptr). and_then r (λ p. if p == null then next else mark p))
            (find_on-first k t l pid)))
        (elim (eq-cases (found l) null) [
          | inl (e, b) ↦
              subst (λ c. Settled k pid ((if c then next else mark (found l)) k)) (sym b)
                (rest (Clear-of_null l e))
          | inr (e, b) ↦
              subst (λ c. Settled k pid ((if c then next else mark (found l)) k)) (sym b)
                (mark-Settled l e (not_asleep l (found l) ne (found_on l e)))
        ])

  module _ (cs : Clear Links.sleep) (ce : Clear Links.embryo) where
    kill_running-Settled :
        ((j : ℕ) → j ≤ max_priority → Clear (Links.ready j)) → Settled k pid (kill_running pid k)
    unfolding kill_running released
    kill_running-Settled cr =
        search_list Links.running (do release ptable_lock; pure (negsuc 0)) (omega arith)
          λ cn. record {
            result = negsuc 0;
            end = released ptable_lock 0 k;
            view = v;
            returns = ground (arith, release-held ptable_lock 0 k held);
            table = t;
            free = released-Free ptable_lock 0 k;
            outcome = miss (λ q s e. all_dead cs ce cr cn q s e (k.procs q).state refl) refl;
          }

    kill_ready-Settled :
        (n : ℕ)
        → n ≤ suc max_priority
        → ((j : ℕ) → j < suc max_priority - n → Clear (Links.ready j))
        → Settled k pid (kill_ready n pid k)
    unfolding kill_ready
    kill_ready-Settled zero le cr = kill_running-Settled (λ j h. cr j (omega arith))
    kill_ready-Settled (suc n) le cr =
        search_list (Links.ready (suc max_priority - suc n)) (kill_ready n pid) (omega arith) λ c.
          kill_ready-Settled n (omega arith) λ j h. elim (eq-cases j (suc max_priority - suc n)) [
            | inl (e, b) ↦ rw e c
            | inr (e, b) ↦ cr j (omega arith)
          ]

  kill_sleeping-Settled :
      found Links.sleep ≢ null
      → Settled k pid ((do kill_sleeping (found Links.sleep); release ptable_lock; pure (pos 0)) k)
  unfolding kill_sleeping released
  kill_sleeping-Settled ne =
      let p = found Links.sleep in
      let (m, b) = first_found (has_pid pid) k.procs (v Links.sleep) ne in
      let s = t.lists.slots Links.sleep p m in
      let st = asleep (k.procs p) (t.capped p s) (t.home Links.sleep p m) in
      let r : Proc = record (k.procs p) { state = runnable; killed = true } in
      let (g, e1, t1) = take_off t Links.sleep p m in
      let (g2, e2, t2) =
        put_back (Table-update_out t1 r (t.capped p s)) (Links.ready (k.procs p).priority) s
          (rw (update_self k.procs p r) refl) in
      let k1 : Kernel = record k { links = g } in
      let k2 : Kernel = record k { procs = update k.procs p r; links = g2 } in
      let h2 : Holds ptable_lock 0 k2 = record {
        locked = held.locked;
        depth = held.depth;
        quiet = held.quiet;
      } in
      record {
        result = pos 0;
        end = released ptable_lock 0 k2;
        view = _;
        returns = ground (
          arith,
          e1,
          assert_state-passes p sleeping k1 st,
          update_self k.procs p r,
          e2,
          release-held ptable_lock 0 k2 h2,
        );
        table = t2;
        free = released-Free ptable_lock 0 k2;
        outcome = hit p s (ground arith) (ap (update k.procs p) (rw st refl));
      }

  kill_locked-Settled : Settled k pid (
      (do
        p ← find_on Links.sleep pid
        if p == null
            then kill_embryo pid
            else (do kill_sleeping p; release ptable_lock; pure (pos 0)))
        k)
  unfolding kill_embryo
  kill_locked-Settled =
      let rest : Ptr → M ℤ = λ p.
        if p == null
        then kill_embryo pid
        else (do kill_sleeping p; release ptable_lock; pure (pos 0)) in
      subst (Settled k pid)
        (sym (ap (λ (r : Run Ptr). and_then r rest) (find_on-first k t Links.sleep pid)))
        (elim (eq-cases (found Links.sleep) null) [
          | inl (e, b) ↦
              subst
                (λ c. Settled k pid (
                  (if c then kill_embryo pid else (do
                    kill_sleeping (found Links.sleep)
                    release ptable_lock
                    pure (pos 0)))
                    k))
                (sym b)
                (search_list Links.embryo (kill_ready (suc max_priority) pid) (omega arith) λ ce.
                  kill_ready-Settled (Clear-of_null Links.sleep e) ce (suc max_priority)
                    (omega arith) (λ j h. absurd (omega arith)))
          | inr (e, b) ↦
              subst
                (λ c. Settled k pid (
                  (if c then kill_embryo pid else (do
                    kill_sleeping (found Links.sleep)
                    release ptable_lock
                    pure (pos 0)))
                    k))
                (sym b) (kill_sleeping-Settled e)
        ])

-- `kill` always returns, keeps the invariant and gives the lock back. It returns 0 after it has
-- struck one process with the pid (marked it killed, and made it runnable if it was asleep, on the
-- ready list of its priority), or -1 where every process with the pid is UNUSED or a ZOMBIE, and
-- then nothing has changed.
pub kill-Settled :
    (k : Kernel) {v : View} (pid : ℤ)
    → Table null k.procs k.links v
    → Free ptable_lock 0 k
    → Settled k (to_uint pid) (kill pid k)
unfolding kill acquired
kill-Settled k {v} pid t f =
    let k1 = acquired ptable_lock k in
    let s = kill_locked-Settled k1 t (acquired-Holds ptable_lock 0 k f) (to_uint pid) in
    record {
      result = s.result;
      end = s.end;
      view = s.view;
      returns = rw (acquire-free ptable_lock k f.unlocked) s.returns;
      table = s.table;
      free = s.free;
      outcome = s.outcome;
    }
