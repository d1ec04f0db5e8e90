-- ===== src/Proc/Sched/Scan.antt =====
-- The scheduler's loop over the ready lists.
use tron_boss_os.Base.{
  ℕ, zero, suc, ◌-◌, ◌≤◌, ◌<◌, ◌≡◌, refl, sym, ap, ◌∙◌, subst, ◌≢◌, inl, inr, ◌⊎◌, List, [], ◌∷◌,
  Option, none, some, arith, eq-cases, update,
}
use tron_boss_os.Links
use tron_boss_os.Links.{Ptr, null, nproc, max_priority, ListId, Links}
use tron_boss_os.Links.Chain.{Chain}
use tron_boss_os.Kernel.{Proc, Kernel, ok}
use tron_boss_os.Table.{Table, View}
use tron_boss_os.Proc.Promote.{promote_if_due}
use tron_boss_os.Proc.Promote.Once.{promote_if_due-Table}
use tron_boss_os.Proc.Sched.{scan}
use tron_boss_os.Proc.Sched.Dispatch.{dispatched, dispatch-Table, resume_at}

-- A list is empty or begins with a process, and its head says so.
list-cases :
    {procs : Ptr → Proc} {h : Links} {v : View} (t : Table null procs h v) (l : ListId)
    → ((h.heads l ≡ null) × (v l ≡ []))
      ⊎ ((xs : List Ptr) × (h.heads l ≢ null) × (v l ≡ h.heads l ∷ xs))
list-cases {h = h} {v = v} t l = go (v l) refl
  where
    go :
        (ys : List Ptr)
        → v l ≡ ys
        → ((h.heads l ≡ null) × (v l ≡ []))
          ⊎ ((xs : List Ptr) × (h.heads l ≢ null) × (v l ≡ h.heads l ∷ xs))
    go [] e = inl (subst (λ zs. Chain h.next (h.heads l) zs) e (t.lists.chain l), e)
    go (x ∷ xs) e =
        let c : Chain h.next (h.heads l) (x ∷ xs) =
          subst (λ zs. Chain h.next (h.heads l) zs) e (t.lists.chain l) in
        inr (xs, (λ n. c.1 (sym c.0 ∙ n)), e ∙ ap (λ y. y ∷ xs) (sym c.0))

-- What a pass of the loop leaves: the invariant holds, and the CPU's lock state is as it was.
record Scanned (k k' : Kernel) (v' : View) : Type 0 where
  pub table : Table null k'.procs k'.links v'
  pub cpu : k'.cpu ≡ k.cpu
  pub locks : k'.locks ≡ k.locks

scan_total :
    (n : ℕ) (k : Kernel) {v : View}
    → Table null k.procs k.links v
    → n ≤ suc max_priority
    → (r : Option ℕ) × (k' : Kernel) × (v' : View) × (scan n k ≡ ok r k') × Scanned k k' v'
unfolding scan
scan_total zero k {v} t le = (none, k, v, refl, record { table = t; cpu = refl; locks = refl })
scan_total (suc n) k {v} t le =
    let (g, ps, v1, m, e1, t1) = promote_if_due-Table k t in
    let k1 : Kernel = record k { procs = ps; links = g; promote_at_time = m } in
    let i = max_priority - n in
    elim (list-cases t1 (Links.ready i)) [
      | inl (empty, e) ↦
          let (r, k2, v2, e2, s) = scan_total n k1 t1 (omega arith) in
          (
            r,
            k2,
            v2,
            ground (arith, e1, e2),
            record { table = s.table; cpu = s.cpu; locks = s.locks },
          )
      | inr (xs, ne, e) ↦
          let (k2, e2, pr, ps2, t2, c, l) = dispatch-Table k1 i (g.heads i) xs t1 (omega arith) e in
          (
            some (resume_at i),
            k2,
            _,
            ground (arith, e1, e2),
            record { table = t2; cpu = c; locks = l },
          )
    ]

-- A pass of the scheduler over the ready lists always comes to an end, with a process dispatched or
-- with none, and keeps the invariant of the table, also when a promotion falls due in it.
pub scan-Table :
    (k : Kernel) {v : View}
    → Table null k.procs k.links v
    → (r : Option ℕ) × (k' : Kernel) × (v' : View) × (scan (suc max_priority) k ≡ ok r k')
      × Table null k'.procs k'.links v'
      × (k'.cpu ≡ k.cpu)
      × (k'.locks ≡ k.locks)
scan-Table k t =
    let (r, k', v', e, s) = scan_total (suc max_priority) k t (omega arith) in
    (r, k', v', e, s.table, s.cpu, s.locks)

scan_picks_from :
    (n : ℕ) (k : Kernel) {v : View} (i : ℕ) (p : Ptr) (xs : List Ptr)
    → Table null k.procs k.links v
    → n ≤ suc max_priority
    → suc max_priority - n ≤ i
    → i ≤ max_priority
    → k.promote_at_time ≢ k.ticks
    → ((j : ℕ) → j < i → v (Links.ready j) ≡ [])
    → v (Links.ready i) ≡ p ∷ xs
    → (k' : Kernel) × (scan n k ≡ ok (some (resume_at i)) k')
      × (k'.proc ≡ p)
      × (k'.procs ≡ update k.procs p (dispatched k.ticks (k.procs p)))
unfolding scan promote_if_due
scan_picks_from zero k i p xs t le from to wait empty e = absurd (omega arith)
scan_picks_from (suc n) k {v} i p xs t le from to wait empty e =
    elim (eq-cases (max_priority - n) i) [
      | inl (here, b) ↦
          let c : Chain k.links.next (k.links.heads i) (p ∷ xs) =
            subst (λ zs. Chain k.links.next (k.links.heads i) zs) e (t.lists.chain i) in
          let (k2, e2, pr, ps2, t2, _, _) = dispatch-Table k i p xs t to e in
          (k2, rw here (ground (arith, c.0, c.1, e2)), pr, ps2)
      | inr (other, b) ↦
          let c : Chain k.links.next (k.links.heads (max_priority - n)) [] =
            subst (λ zs. Chain k.links.next (k.links.heads (max_priority - n)) zs)
              (empty (max_priority - n) (omega arith)) (t.lists.chain (max_priority - n)) in
          let (k2, e2, pr, ps2) =
            scan_picks_from n k i p xs t (omega arith) (omega arith) to wait empty e in
          (k2, ground (arith, c, e2), pr, ps2)
    ]

-- The scheduler runs the process at the head of the first ready list that is not empty: no process
-- of a better level is runnable. It enters RUNNING with the time of its dispatch, and no other
-- process is touched. This is a pass in which no promotion falls due.
pub scan_picks :
    (k : Kernel) {v : View} (i : ℕ) (p : Ptr) (xs : List Ptr)
    → Table null k.procs k.links v
    → i ≤ max_priority
    → k.promote_at_time ≢ k.ticks
    → ((j : ℕ) → j < i → v (Links.ready j) ≡ [])
    → v (Links.ready i) ≡ p ∷ xs
    → (k' : Kernel) × (scan (suc max_priority) k ≡ ok (some (resume_at i)) k')
      × (k'.proc ≡ p)
      × (k'.procs ≡ update k.procs p (dispatched k.ticks (k.procs p)))
scan_picks k i p xs t to wait empty e =
    scan_picks_from (suc max_priority) k i p xs t (omega arith) (omega arith) to wait empty e
