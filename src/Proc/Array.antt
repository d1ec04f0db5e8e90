-- ===== src/Proc/Array.antt =====
-- The loops over the whole of `ptable.proc` with which proc.c does the same work where CS333_P3P4
-- is not defined: the code before the state lists, and what these have to agree with.
use tron_boss_os.Base.{
  ℕ, zero, suc, ◌-◌, ◌≤◌, ◌<◌, ◌≡◌, refl, sym, ap, ◌∙◌, subst, inl, inr, true, false, ◌&&◌, arith,
  ◌==◌, ltb, leb, Bool-cases, eq-cases, if◌then◌else◌, update, update_self, update_other, fun_ext,
  has,
}
use tron_boss_os.Links
use tron_boss_os.Links.{Ptr, null, nproc, max_priority, Links}
use tron_boss_os.Links.Chain.{IsSlot}
use tron_boss_os.Kernel.{Proc, Kernel, ok, ProcState, sleeping, runnable, same_state}
use tron_boss_os.Table.{Table, View, on_list}
use tron_boss_os.Proc.Walk.{on_members}
use tron_boss_os.Proc.Sched.Wakeup.{woken, asleep, wakeup1-Table}
use tron_boss_os.Proc.Sched

-- `for(p = ptable.proc; p < &ptable.proc[NPROC]; p++)` with `n` slots to go
unfoldable pub for_slots : ℕ → (Proc → Proc) → (Ptr → Proc) → Ptr → Proc
for_slots zero f procs = procs
for_slots (suc n) f procs = for_slots n f (update procs (nproc - n) (f (procs (nproc - n))))

-- `if(p->state == SLEEPING && p->chan == chan) p->state = RUNNABLE;`
abbrev pub wake_if : ℕ → Proc → Proc
wake_if chan r =
    if same_state r.state sleeping && (r.chan == chan) then record r { state = runnable } else r

unfoldable pub wakeup1 : ℕ → (Ptr → Proc) → Ptr → Proc
unfolding for_slots
wakeup1 chan procs = for_slots nproc (wake_if chan) procs

for_slots_lem :
    (n : ℕ) (f : Proc → Proc) (procs : Ptr → Proc) (q : Ptr)
    → n ≤ nproc
    → for_slots n f procs q ≡ (if ltb (nproc - n) q && leb q nproc then f (procs q) else procs q)
unfolding for_slots
for_slots_lem zero f procs q h = ground arith
for_slots_lem (suc n) f procs q h =
    for_slots_lem n f (update procs (nproc - n) (f (procs (nproc - n)))) q (omega arith)
    ∙ elim (eq-cases q (nproc - n)) [
      | inl (e, t) ↦ rw e (ground (arith, update_self procs (nproc - n) (f (procs (nproc - n)))))
      | inr (e, t) ↦ ground (arith, update_other procs (nproc - n) (f (procs (nproc - n))) q e)
    ]

for_slots_all :
    (f : Proc → Proc) (procs : Ptr → Proc) (q : Ptr)
    → for_slots nproc f procs q ≡ (if ltb 0 q && leb q nproc then f (procs q) else procs q)
for_slots_all f procs q = for_slots_lem nproc f procs q (omega arith)

is_sleeping : (s : ProcState) → same_state s sleeping ≡ true → s ≡ sleeping
is_sleeping s h = ground arith

is_slot : (q : Ptr) → (ltb 0 q && leb q nproc) ≡ true → IsSlot q
is_slot q h = (ground arith, ground arith)

asleep_woken : (chan : ℕ) (r : Proc) → r.state ≡ sleeping → woken chan r ≡ wake_if chan r
asleep_woken chan r e = ground arith

awake_same : (chan : ℕ) (r : Proc) → same_state r.state sleeping ≡ false → wake_if chan r ≡ r
awake_same chan r e = ground arith

-- What the state lists make of a wakeup is what the loop over the table makes of it, for every
-- process: a process stands on the sleep list exactly if its state is SLEEPING.
pub wakeup1-on_members :
    {procs : Ptr → Proc} {h : Links} {v : View} (chan : ℕ)
    → Table null procs h v
    → on_members (woken chan) (v Links.sleep) procs ≡ wakeup1 chan procs
unfolding wakeup1
wakeup1-on_members {procs} {h} {v} chan t = fun_ext λ q. elim (Bool-cases (has q (v Links.sleep))) [
  | inl m ↦
      let s = t.lists.slots Links.sleep q m in
      let st = asleep (procs q) (t.capped q s) (t.home Links.sleep q m) in
      rw m
        (asleep_woken chan (procs q) st ∙ sym (for_slots_all (wake_if chan) procs q ∙ in_range q s))
  | inr m ↦ rw m (
      sym (
        for_slots_all (wake_if chan) procs q ∙ elim (Bool-cases (ltb 0 q && leb q nproc)) [
          | inl slot ↦ rw slot (elim (Bool-cases (same_state (procs q).state sleeping)) [
            | inl st ↦ let b = on_list t q (is_slot q slot) (is_sleeping (procs q).state st) in cc
            | inr st ↦ awake_same chan (procs q) st
          ])
          | inr out ↦ rw out refl
        ]))
]
  where
    in_range :
        (q : Ptr)
        → IsSlot q
        → (if ltb 0 q && leb q nproc then wake_if chan (procs q) else procs q)
          ≡ wake_if chan (procs q)
    in_range q s = ground arith

-- `wakeup1` over the state lists leaves every process as the loop over the whole table leaves it,
-- and the lists as the new states demand. Nothing panics and the walk ends.
pub wakeup1-array :
    (k : Kernel) {v : View} (chan : ℕ)
    → Table null k.procs k.links v
    → (g : Links) × (v' : View) × (Sched.wakeup1 chan k
        ≡ ok tt (record k { procs = wakeup1 chan k.procs; links = g }))
      × Table null (wakeup1 chan k.procs) g v'
wakeup1-array k {v} chan t =
    let (g, v', e, t', _) = wakeup1-Table k chan t in
    let same = wakeup1-on_members chan t in
    (
      g,
      v',
      e ∙ ap (λ (ps : Ptr → Proc). ok tt (record k { procs = ps; links = g })) same,
      subst (λ ps. Table null ps g v') same t',
    )

-- The same, process by process, with the lists that a wakeup does not touch.
pub wakeup1-slots :
    (k : Kernel) {v : View} (chan : ℕ)
    → Table null k.procs k.links v
    → (g : Links) × (ps : Ptr → Proc) × (v' : View) × (Sched.wakeup1 chan k
        ≡ ok tt (record k { procs = ps; links = g }))
      × Table null ps g v'
      × ((q : Ptr) → IsSlot q → ps q ≡ wake_if chan (k.procs q))
      × ((m : ℕ) → Links.sleep < m → v' m ≡ v m)
unfolding wakeup1
wakeup1-slots k {v} chan t =
    let (g, v', e, t', frame) = wakeup1-Table k chan t in
    (
      g,
      on_members (woken chan) (v Links.sleep) k.procs,
      v',
      e,
      t',
      (λ q s.
          ap (λ (ps : Ptr → Proc). ps q) (wakeup1-on_members chan t)
          ∙ for_slots_all (wake_if chan) k.procs q
          ∙ in_range chan (k.procs q) q s),
      frame,
    )
  where
    in_range :
        (chan : ℕ) (r : Proc) (q : Ptr)
        → IsSlot q
        → (if ltb 0 q && leb q nproc then wake_if chan r else r) ≡ wake_if chan r
    in_range chan r q s = ground arith
