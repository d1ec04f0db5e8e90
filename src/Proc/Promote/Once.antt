-- ===== src/Proc/Promote/Once.antt =====
-- A whole promotion: each ready list in turn, the sleep list and the running list.
use tron_boss_os.Base.{
  ℕ, zero, suc, ◌+◌, ◌-◌, ◌≤◌, ◌<◌, ◌≡◌, refl, sym, ap, ◌∙◌, inl, inr, Bool, false, ◌||◌, arith,
  ◌==◌, Bool-cases, if◌then◌else◌, has,
}
use tron_boss_os.Links
use tron_boss_os.Links.{Ptr, null, nproc, max_priority, loop_fuel, ListId, Links}
use tron_boss_os.Links.Chain.{IsSlot, IsLists-short}
use tron_boss_os.Kernel.{
  Proc, Kernel, ProcState, runnable, sleeping, running, same_state, ok, add_uint,
}
use tron_boss_os.Table.{Table, View, place, Table-procs, has-place}
use tron_boss_os.Proc.{ticks_to_promote}
use tron_boss_os.Proc.Walk.{on_members, for_each-list, for_each-Chain}
use tron_boss_os.Proc.Promote.{
  promoted, relabelled, set_head, promotion_on_other_lists, promotion_on_ready_lists, promote_ready,
  promote, promote_if_due,
}
use tron_boss_os.Proc.Promote.Lists.{joined, join-IsLists}
use tron_boss_os.Proc.Promote.Keeps.{
  raise_at, raise_from, raise_from_step, raise_from_last, raised, Table-joined,
}

promotion_on_ready_lists-Table :
    (k : Kernel) {v : View} (i : ℕ)
    → Table null k.procs k.links v
    → i < max_priority
    → (g : Links) × (ps : Ptr → Proc) × (promotion_on_ready_lists i k
        ≡ ok tt (record k { procs = ps; links = g }))
      × Table null ps g (joined v i)
      × ((q : Ptr) → IsSlot q → ps q ≡ raise_at i (k.procs q))
unfolding promotion_on_ready_lists
promotion_on_ready_lists-Table k {v} i t lt =
    let (g, e, c, lists) = join-IsLists k t.lists i in
    let short = IsLists-short t.lists (i + 1) in
    let walk =
      for_each-Chain loop_fuel (relabelled i) (k.links.heads (i + 1)) (v (i + 1))
        (record k { links = g }) (omega arith) c (t.lists.distinct (i + 1)) in
    (
      set_head (i + 1) null g,
      on_members (relabelled i) (v (i + 1)) k.procs,
      ground (arith, e, walk),
      Table-joined t i lt lists,
      raised t i lt,
    )

promote_ready-Table :
    (n : ℕ) (k : Kernel) {v : View}
    → Table null k.procs k.links v
    → n ≤ max_priority
    → (g : Links) × (ps : Ptr → Proc) × (v' : View) × (promote_ready n k
        ≡ ok tt (record k { procs = ps; links = g }))
      × Table null ps g v'
      × ((q : Ptr) → IsSlot q → ps q ≡ raise_from (max_priority - n) (k.procs q))
unfolding promote_ready
promote_ready-Table zero k {v} t le =
    (k.links, k.procs, v, refl, t, λ q s. sym (raise_from_last (k.procs q) (t.capped q s)))
promote_ready-Table (suc n) k {v} t le =
    let i = max_priority - suc n in
    let (g, ps, e, t1, r1) = promotion_on_ready_lists-Table k i t (omega arith) in
    let (g2, ps2, v2, e2, t2, r2) =
      promote_ready-Table n (record k { procs = ps; links = g }) t1 (omega arith) in
    let next : max_priority - n ≡ suc i = omega arith in
    (
      g2,
      ps2,
      v2,
      ground (arith, e, e2),
      t2,
      λ q s.
          r2 q s
          ∙ ap (λ j. raise_from j (ps q)) next
          ∙ ap (raise_from (suc i)) (r1 q s)
          ∙ raise_from_step i (k.procs q),
    )

-- The lists whose order the priority does not decide.
promote_other :
    (r : Proc) (b : Bool) (s : ProcState)
    → b ≡ same_state r.state s
    → same_state s runnable ≡ false
    → let r' = if b then promoted r else r in
      (place r' ≡ place r) × (r.priority ≤ max_priority → r'.priority ≤ max_priority)
promote_other r b s e ne = (ground arith, ground arith)

abbrev raise_if : ProcState → Proc → Proc
raise_if s r = if same_state r.state s then promoted r else r

on_sleep :
    (r : Proc) → r.priority ≤ max_priority → (place r == Links.sleep) ≡ same_state r.state sleeping
on_sleep r h = ground arith

on_running :
    (r : Proc) → r.priority ≤ max_priority → (place r == Links.running) ≡ same_state r.state running
on_running r h = ground arith

promotion_on_other_lists-Table :
    (k : Kernel) {v : View} (l : ListId) (s : ProcState)
    → Table null k.procs k.links v
    → same_state s runnable ≡ false
    → ((r : Proc) → r.priority ≤ max_priority → (place r == l) ≡ same_state r.state s)
    → (ps : Ptr → Proc) × (promotion_on_other_lists l k ≡ ok tt (record k { procs = ps }))
      × Table null ps k.links v
      × ((q : Ptr) → IsSlot q → ps q ≡ raise_if s (k.procs q))
unfolding promotion_on_other_lists
promotion_on_other_lists-Table k {v} l s t ne on =
    let test : (q : Ptr) → IsSlot q → has q (v l) ≡ same_state (k.procs q).state s =
      λ q slot. has-place t l q slot ∙ on (k.procs q) (t.capped q slot) in
    (
      on_members promoted (v l) k.procs,
      for_each-list k t.lists l promoted,
      Table-procs t _ (λ q slot out. (promote_other (k.procs q) (has q (v l)) s (test q slot) ne).0)
          (λ q slot.
            (promote_other (k.procs q) (has q (v l)) s (test q slot) ne).1 (t.capped q slot)),
      λ q slot. ap (λ b. if b then promoted (k.procs q) else k.procs q) (test q slot),
    )

-- The level of a process after a promotion: one less, unless it is 0 already, for a process that is
-- runnable, running or asleep.
abbrev pub raised_once : Proc → Proc
raised_once r =
    if same_state r.state runnable || (same_state r.state running || same_state r.state sleeping)
    then promoted r
    else r

raise_all :
    (r : Proc)
    → r.priority ≤ max_priority
    → raise_from 0 (raise_if running (raise_if sleeping r)) ≡ raised_once r
raise_all r h = ground arith

-- A promotion raises each process that is runnable, running or asleep by exactly one level, up to
-- level 0, and changes nothing else of it and no other process. The processes of each ready list
-- are found again on the list of their new level. Nothing panics, every walk ends, and the next
-- promotion is set for `ticks_to_promote` ticks later.
pub promote-Table :
    (k : Kernel) {v : View}
    → Table null k.procs k.links v
    → (g : Links) × (ps : Ptr → Proc) × (v' : View) × (promote k
        ≡ ok tt (record k {
          procs = ps;
          links = g;
          promote_at_time = add_uint k.ticks ticks_to_promote;
        }))
      × Table null ps g v'
      × ((q : Ptr) → IsSlot q → ps q ≡ raised_once (k.procs q))
unfolding promote
promote-Table k {v} t =
    let (ps, e, t1, r1) = promotion_on_other_lists-Table k Links.sleep sleeping t refl on_sleep in
    let (ps2, e2, t2, r2) =
      promotion_on_other_lists-Table (record k { procs = ps }) Links.running running t1 refl
        on_running in
    let (g3, ps3, v3, e3, t3, r3) =
      promote_ready-Table max_priority (record k { procs = ps2 }) t2 (omega arith) in
    (
      g3,
      ps3,
      v3,
      ground (arith, e, e2, e3),
      t3,
      λ q s.
          r3 q s
          ∙ ap (raise_from 0) (r2 q s ∙ ap (raise_if running) (r1 q s))
          ∙ raise_all (k.procs q) (t.capped q s),
    )

pub promote_if_due-Table :
    (k : Kernel) {v : View}
    → Table null k.procs k.links v
    → (g : Links) × (ps : Ptr → Proc) × (v' : View) × (n : ℕ) × (promote_if_due k
        ≡ ok tt (record k { procs = ps; links = g; promote_at_time = n }))
      × Table null ps g v'
unfolding promote_if_due
promote_if_due-Table k {v} t = elim (Bool-cases (k.promote_at_time == k.ticks)) [
  | inl due ↦
      let (g, ps, v', e, t', r) = promote-Table k t in
      (g, ps, v', add_uint k.ticks ticks_to_promote, rw due e, t')
  | inr wait ↦ (k.links, k.procs, v, k.promote_at_time, rw wait refl, t)
]
