-- ===== src/Proc/Sched/Wakeup.antt =====
-- What wakeup1 does to the sleep list and to the processes.
use mathlib.Core.List.{append_assoc}
use tron_boss_os.Base.{
  ℕ, zero, suc, ◌≤◌, ◌<◌, ◌≡◌, refl, sym, ap, ◌∙◌, subst, inl, inr, true, false, List, [], ◌∷◌,
  ◌++◌, arith, ◌==◌, Bool-cases, if◌then◌else◌, update, update_self, update_other, update_same, has,
  has-append, erase, erase-append, length, Distinct, head_or_zero,
}
use tron_boss_os.Links
use tron_boss_os.Links.{Ptr, null, nproc, max_priority, loop_fuel, ListId, Links}
use tron_boss_os.Links.Chain.{Chain, Chain-head, Chain-suffix, IsLists-short}
use tron_boss_os.Kernel.{Proc, Kernel, sleeping, runnable, ok}
use tron_boss_os.Table.{Table, View, place, take_off, put_back, Table-update_out}
use tron_boss_os.Proc.Switch.{assert_state-passes}
use tron_boss_os.Proc.Walk.{on_members, on_members-cons}
use tron_boss_os.Proc.Sched.{wake_one, wakeup_loop, wakeup1}

-- A process that sleeps on the channel becomes runnable.
abbrev pub woken : ℕ → Proc → Proc
woken chan r = if r.chan == chan then record r { state = runnable } else r

pub asleep : (r : Proc) → r.priority ≤ max_priority → place r ≡ Links.sleep → r.state ≡ sleeping
asleep r cap at = ground arith

-- The nodes before an element of a list without repetition do not hold it.
not_before : (p : Ptr) (xs ys : List Ptr) → Distinct (xs ++ p ∷ ys) → has p xs ≡ false
not_before p [] ys d = refl
not_before p (x ∷ xs) ys d = ground (arith, has-append x xs (p ∷ ys), not_before p xs ys d.1)

pub after : (p : Ptr) (xs ys : List Ptr) → Distinct (xs ++ p ∷ ys) → has p ys ≡ false
after p [] ys d = d.0
after p (x ∷ xs) ys d = after p xs ys d.1

-- The loop stands at `rest` of the sleep list `before ++ rest`.
wake_one-Table :
    (k : Kernel) {v : View} (chan : ℕ) (before : List Ptr) (p : Ptr) (rest : List Ptr)
    → Table null k.procs k.links v
    → v Links.sleep ≡ before ++ p ∷ rest
    → (g : Links) × (v' : View) × (before' : List Ptr) × (wake_one chan p k
        ≡ ok tt (record k { procs = update k.procs p (woken chan (k.procs p)); links = g }))
      × Table null (update k.procs p (woken chan (k.procs p))) g v'
      × (v' Links.sleep ≡ before' ++ rest)
      × ((m : ListId) → Links.sleep < m → v' m ≡ v m)
unfolding wake_one
wake_one-Table k {v} chan before p rest t e =
    let here : has p (v Links.sleep) ≡ true =
      rw e (ground (arith, has-append p before (p ∷ rest))) in
    let s = t.lists.slots Links.sleep p here in
    let st : (k.procs p).state ≡ sleeping =
      asleep (k.procs p) (t.capped p s) (t.home Links.sleep p here) in
    elim (Bool-cases ((k.procs p).chan == chan)) [
      | inl hit ↦
          let (g, e1, t1) = take_off t Links.sleep p here in
          let r : Proc = record (k.procs p) { state = runnable } in
          let n = (k.procs p).priority in
          let (g2, e2, t2) =
            put_back (Table-update_out t1 r (t.capped p s)) (Links.ready n) s
              (rw (update_self k.procs p r) refl) in
          let k1 : Kernel = record k { links = g } in
          let w = update v Links.sleep (erase p (v Links.sleep)) in
          (
            g2,
            update w (Links.ready n) (w (Links.ready n) ++ p ∷ []),
            before,
            ground
                (arith, hit, e1, assert_state-passes p sleeping k1 st, update_self k.procs p r, e2),
            ground (arith, hit, t2),
            update_other w (Links.ready n) _ Links.sleep (λ q. omega (arith, t.capped p s))
                ∙ update_self v Links.sleep _
                ∙ ap (erase p) e
                ∙ erase-append p before rest (
                    not_before p before rest
                      (subst (λ ys. Distinct ys) e (t.lists.distinct Links.sleep))),
            (λ m h.
                update_other w (Links.ready n) _ m (λ q. omega (arith, t.capped p s))
                ∙ update_other v Links.sleep _ m (omega arith)),
          )
      | inr miss ↦ (
        k.links,
        v,
        before ++ p ∷ [],
        ground (arith, miss, update_same k.procs p),
        subst (λ ps. Table null ps k.links v) (ground (arith, miss, update_same k.procs p)) t,
        e ∙ sym (append_assoc before (p ∷ []) rest),
        (λ m h. refl),
      )
    ]

wakeup_loop-Table :
    (fuel : ℕ) (k : Kernel) {v : View} (chan : ℕ) (before rest : List Ptr)
    → length rest < fuel
    → Table null k.procs k.links v
    → v Links.sleep ≡ before ++ rest
    → (g : Links) × (v' : View) × (wakeup_loop fuel chan (head_or_zero rest) k
        ≡ ok tt (record k { procs = on_members (woken chan) rest k.procs; links = g }))
      × Table null (on_members (woken chan) rest k.procs) g v'
      × ((m : ListId) → Links.sleep < m → v' m ≡ v m)
unfolding wakeup_loop
wakeup_loop-Table zero k chan before rest short t e = elim short [ ]
wakeup_loop-Table (suc fuel) k {v} chan before [] short t e = (k.links, v, refl, t, (λ m h. refl))
wakeup_loop-Table (suc fuel) k {v} chan before (p ∷ rest) short t e =
    let c : Chain k.links.next p (p ∷ rest) =
      Chain-suffix k.links.next (k.links.heads Links.sleep) before (p ∷ rest)
        (subst (Chain k.links.next (k.links.heads Links.sleep)) e (t.lists.chain Links.sleep)) in
    let d : Distinct (before ++ p ∷ rest) =
      subst (λ ys. Distinct ys) e (t.lists.distinct Links.sleep) in
    let (g, v1, before', e1, t1, s1, f1) = wake_one-Table k chan before p rest t e in
    let k1 : Kernel = record k { procs = update k.procs p (woken chan (k.procs p)); links = g } in
    let (g2, v2, e2, t2, f2) = wakeup_loop-Table fuel k1 chan before' rest (omega arith) t1 s1 in
    let same = on_members-cons (woken chan) p rest k.procs (after p before rest d) in
    (
      g2,
      v2,
      ground (arith, c.1, Chain-head k.links.next (k.links.next p) rest c.2, e1, e2, same),
      subst (λ ps. Table null ps g2 v2) same t2,
      (λ m h. f2 m h ∙ f1 m h),
    )

-- `wakeup1` makes exactly the processes of the sleep list that wait on the channel runnable, and
-- puts each on the ready list of its priority; the lists besides these keep what they hold. No other process changes, nothing panics, and the
-- loop ends although it takes processes off the list along which it walks.
pub wakeup1-Table :
    (k : Kernel) {v : View} (chan : ℕ)
    → Table null k.procs k.links v
    → (g : Links) × (v' : View) × (wakeup1 chan k
        ≡ ok tt (record k { procs = on_members (woken chan) (v Links.sleep) k.procs; links = g }))
      × Table null (on_members (woken chan) (v Links.sleep) k.procs) g v'
      × ((m : ListId) → Links.sleep < m → v' m ≡ v m)
unfolding wakeup1
wakeup1-Table k {v} chan t =
    let short = IsLists-short t.lists Links.sleep in
    let (g, v', e, t', frame) =
      wakeup_loop-Table loop_fuel k chan [] (v Links.sleep) (omega arith) t refl in
    (
      g,
      v',
      rw
          (Chain-head k.links.next (k.links.heads Links.sleep) (v Links.sleep)
            (t.lists.chain Links.sleep))
          e,
      t',
      frame,
    )
