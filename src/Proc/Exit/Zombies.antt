-- ===== src/Proc/Exit/Zombies.antt =====
-- exit's walk along the zombie list, in which each zombie child wakes init.
use mathlib.Core.List.{append_assoc}
use tron_boss_os.Base.{
  ℕ, zero, suc, ◌<◌, ◌≡◌, refl, sym, ap, ◌∙◌, subst, inl, inr, Bool, true, false, List, [], ◌∷◌,
  ◌++◌, arith, ◌==◌, Bool-cases, if◌then◌else◌, update, update_same, has, length, Distinct,
  head_or_zero, has-append,
}
use tron_boss_os.Links
use tron_boss_os.Links.{Ptr, null, max_priority, loop_fuel, ListId, Links}
use tron_boss_os.Links.Chain.{IsSlot}
use tron_boss_os.Kernel.{Proc, Kernel, ok}
use tron_boss_os.Table.{Table, View, Table-update, next_on}
use tron_boss_os.Proc.Array.{wake_if, wakeup1-slots}
use tron_boss_os.Proc.Walk.{on_members, on_members-cons}
use tron_boss_os.Proc.Sched.Wakeup.{after}
use tron_boss_os.Proc.Exit.{adopted, zombie_loop}

abbrev pub wake_maybe : Bool → ℕ → Proc → Proc
wake_maybe w chan r = if w then wake_if chan r else r

wake_again :
    (w b : Bool) (chan parent init : ℕ) (r : Proc)
    → wake_maybe w chan (if b then adopted parent init (wake_if chan r) else wake_if chan r)
      ≡ wake_maybe true chan (if b then adopted parent init r else r)
wake_again true true chan parent init r = ground arith
wake_again true false chan parent init r = ground arith
wake_again false true chan parent init r = ground arith
wake_again false false chan parent init r = ground arith

pub zombie_loop-Table :
    (fuel : ℕ) (k : Kernel) {v : View} (parent : Ptr) (before rest : List Ptr)
    → length rest < fuel
    → Table null k.procs k.links v
    → v Links.zombie ≡ before ++ rest
    → (g : Links) × (ps : Ptr → Proc) × (v' : View) × (w : Bool) × (zombie_loop fuel parent
          (head_or_zero rest)
          k
        ≡ ok tt (record k { procs = ps; links = g }))
      × Table null ps g v'
      × ((q : Ptr)
          → IsSlot q
          → ps q ≡ wake_maybe w k.initproc (on_members (adopted parent k.initproc) rest k.procs q))
      × ((m : ℕ) → Links.sleep < m → v' m ≡ v m)
unfolding zombie_loop
zombie_loop-Table zero k parent before rest short t e = elim short [ ]
zombie_loop-Table (suc fuel) k {v} parent before [] short t e =
    (k.links, k.procs, v, false, refl, t, (λ q s. refl), (λ m h. refl))
zombie_loop-Table (suc fuel) k {v} parent before (z ∷ rest) short t e =
    let i = k.initproc in
    let out : has z rest ≡ false =
      after z before rest (subst (λ ys. Distinct ys) e (t.lists.distinct Links.zombie)) in
    let (ne, next) = next_on t Links.zombie before z rest e in
    let cons = on_members-cons (adopted parent i) z rest k.procs out in
    let e' : v Links.zombie ≡ (before ++ z ∷ []) ++ rest =
      e ∙ sym (append_assoc before (z ∷ []) rest) in
    elim (Bool-cases ((k.procs z).parent == parent)) [
      | inl hit ↦
          let r : Proc = record (k.procs z) { parent = i } in
          let ps0 = update k.procs z r in
          let s =
            t.lists.slots Links.zombie z (rw e (ground (arith, has-append z before (z ∷ rest)))) in
          let t0 = Table-update t z r refl (t.capped z s) in
          let (g1, ps1, v1, e1, t1, r1, f1) = wakeup1-slots (record k { procs = ps0 }) i t0 in
          let (_, next1) =
            next_on t1 Links.zombie before z rest (f1 Links.zombie (omega arith) ∙ e) in
          let (g2, ps2, v2, w, e2, t2, r2, f2) =
            zombie_loop-Table fuel (record k { procs = ps1; links = g1 }) parent (before ++ z ∷ [])
              rest (omega arith) t1 (f1 Links.zombie (omega arith) ∙ e') in
          let hit' : adopted parent i (k.procs z) ≡ r = rw hit refl in
          (
            g2,
            ps2,
            v2,
            true,
            ground (arith, ne, hit, e1, next1, e2),
            t2,
            (λ q s.
                r2 q s
                ∙ ap (λ (x : Proc). wake_maybe w i (if has q rest then adopted parent i x else x))
                    (r1 q s)
                ∙ wake_again w (has q rest) i parent i (ps0 q)
                ∙ ap (λ (x : Proc). wake_maybe true i x)
                    (ap (λ (y : Proc). on_members (adopted parent i) rest (update k.procs z y) q)
                        (sym hit')
                      ∙ ap (λ (ps : Ptr → Proc). ps q) cons)),
            (λ m h. f2 m h ∙ f1 m h),
          )
      | inr miss ↦
          let (g2, ps2, v2, w, e2, t2, r2, f2) =
            zombie_loop-Table fuel k parent (before ++ z ∷ []) rest (omega arith) t e' in
          let miss' : adopted parent i (k.procs z) ≡ k.procs z = rw miss refl in
          (
            g2,
            ps2,
            v2,
            w,
            ground (arith, ne, miss, next, e2),
            t2,
            (λ q s.
                r2 q s
                ∙ ap (wake_maybe w i) (
                    ap (λ (ps : Ptr → Proc). on_members (adopted parent i) rest ps q)
                      (sym (ap (update k.procs z) miss' ∙ update_same k.procs z))
                    ∙ ap (λ (ps : Ptr → Proc). ps q) cons)),
            f2,
          )
    ]
