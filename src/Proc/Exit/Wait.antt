-- ===== src/Proc/Exit/Wait.antt =====
-- One round of wait's loop: a zombie child is cleared away, or wait gives up, or it sleeps.
use tron_boss_os.Base.{
  ℕ, zero, suc, ◌-◌, ◌≤◌, ◌≡◌, refl, ◌∙◌, ◌≢◌, inl, inr, ◌⊎◌, Bool, true, false, ◌||◌, not, [], ◌∷◌,
  arith, ◌==◌, eq-cases, ==→eq, ==→ne, Bool-cases, if◌then◌else◌, pos, negsuc, update, update_self,
  update-update, has, some,
}
use tron_boss_os.Links
use tron_boss_os.Links.{Ptr, null, max_priority, loop_fuel, ListId, Links}
use tron_boss_os.Links.Chain.{IsSlot}
use tron_boss_os.Kernel.{
  Proc, Kernel, ProcState, unused, embryo, sleeping, runnable, running, zombie, kfree, freevm,
  ptable_lock, ok, Run,
}
use tron_boss_os.Kernel.Spinlock.{Holds, Free, released, release-held, released-Free}
use tron_boss_os.Table.{Table, View, place, Table-update_out, take_off, put_front, on_list}
use tron_boss_os.Proc.Switch.{assert_state-passes, billed}
use tron_boss_os.Proc.Walk.{first, first_found, first_missing, find_first-list}
use tron_boss_os.Proc.Sched.Sleep.{put_to_sleep, sleep-Table}
use tron_boss_os.Proc.Exit.{
  is_child, check_for_children, have_kids, have_ready_kids, WaitStep, returns, sleeps, wait_decide,
  wait_round,
}

-- The process as wait leaves it on the free list.
abbrev pub cleared : Proc → Proc
cleared r = record r {
  kstack = null;
  state = unused;
  pid = 0;
  parent = null;
  name = [];
  killed = false;
}

pub is_zombie : (r : Proc) → r.priority ≤ max_priority → place r ≡ Links.zombie → r.state ≡ zombie
is_zombie r cap at = ground arith

-- How a round ends.
pub data Waited (k k' : Kernel) : WaitStep → Type 0 where
  reaped :
      (c : Ptr)
      → IsSlot c
      → (k.procs c).state ≡ zombie
      → (k.procs c).parent ≡ k.proc
      → k'.procs ≡ update k.procs c (cleared (k.procs c))
      → Free ptable_lock 0 k'
      → Waited k k' (returns (pos (k.procs c).pid))
  gave_up :
      ((k.procs k.proc).killed ≡ true)
        ⊎ ((q : Ptr) → IsSlot q → (k.procs q).state ≢ unused → (k.procs q).parent ≢ k.proc)
      → ((q : Ptr) → IsSlot q → (k.procs q).state ≡ zombie → (k.procs q).parent ≢ k.proc)
      → k'.procs ≡ k.procs
      → Free ptable_lock 0 k'
      → Waited k k' (returns (negsuc 0))
  waiting :
      (b : Bool) (c : Ptr)
      → (k.procs k.proc).killed ≡ false
      → IsSlot c
      → (k.procs c).parent ≡ k.proc
      → ((q : Ptr) → IsSlot q → (k.procs q).state ≡ zombie → (k.procs q).parent ≢ k.proc)
      → k'.procs
        ≡ update k.procs k.proc (billed k.ticks (put_to_sleep k.ticks k.proc (k.procs k.proc)))
      → Holds ptable_lock 0 k'
      → Waited k k' (sleeps b)

module _ (k : Kernel) {v : View} (t : Table null k.procs k.links v) (p : Ptr) where
  abbrev found : ListId → Ptr
  found l = first (is_child p) k.procs (v l)

  abbrev Childless : ListId → Type 0
  Childless l = (q : Ptr) → has q (v l) ≡ true → is_child p (k.procs q) ≡ false

  Child : Type 0
  Child = (c : Ptr) × IsSlot c × ((k.procs c).parent ≡ p)

  childless : (l : ListId) → found l ≡ null → Childless l
  childless l e =
      first_missing (is_child p) k.procs (v l) (λ q m. let s = t.lists.slots l q m in omega arith) e

  child_on : (l : ListId) → found l ≢ null → Child
  unfolding Child
  child_on l ne =
      let (m, b) = first_found (is_child p) k.procs (v l) ne in
      (found l, t.lists.slots l (found l) m, ==→eq _ _ b)

  abbrev kid : ListId → Bool
  kid l = not (found l == null)

  kid_true : (l : ListId) → kid l ≡ true → Child
  kid_true l h = child_on l (ground arith)

  kid-false : (l : ListId) → kid l ≡ false → Childless l
  kid-false l h = childless l (ground arith)

  check-kid :
      (l : ListId) → check_for_children l p k ≡ ok (if found l == null then negsuc 0 else pos 0) k
  unfolding check_for_children
  check-kid l = rw (find_first-list k t.lists l (is_child p)) refl

  have_kids-kid : have_kids p k ≡ ok (kid Links.embryo || (kid Links.running || kid Links.sleep)) k
  unfolding have_kids
  have_kids-kid =
      ground (arith, check-kid Links.embryo, check-kid Links.running, check-kid Links.sleep)

  some_child : (kid Links.embryo || (kid Links.running || kid Links.sleep)) ≡ true → Child
  some_child h = elim (Bool-cases (kid Links.embryo)) [
    | inl e ↦ kid_true Links.embryo e
    | inr e ↦ elim (Bool-cases (kid Links.running)) [
      | inl r ↦ kid_true Links.running r
      | inr r ↦ kid_true Links.sleep (ground arith)
    ]
  ]

  -- The flag behind the loop over the ready lists, and what it says.
  have_ready_kids-kid :
      (n : ℕ) (b : Bool)
      → n ≤ suc max_priority
      → (b' : Bool) × (have_ready_kids n p b k ≡ ok b' k)
        × (b' ≡ true → (b ≡ true) ⊎ Child)
        × (b' ≡ false
            → (b ≡ false)
              × ((i : ℕ) → suc max_priority - n ≤ i → i ≤ max_priority → Childless (Links.ready i)))
  unfolding have_ready_kids
  have_ready_kids-kid zero b le = (b, refl, (λ h. inl h), λ h. (h, λ i lo hi. absurd (omega arith)))
  have_ready_kids-kid (suc n) b le =
      let j = suc max_priority - suc n in
      let (b', e, up, down) = have_ready_kids-kid n (b || kid (Links.ready j)) (omega arith) in
      (
        b',
        ground (arith, check-kid (Links.ready j), e),
        (λ h. elim (up h) [
          | inr c ↦ inr c
          | inl o ↦ elim (Bool-cases b) [
            | inl was ↦ inl was
            | inr not_was ↦ inr (kid_true (Links.ready j) (ground arith))
          ]
        ]),
        λ h.
            let (o, rest) = down h in
            (
              ground arith,
              λ i lo hi. elim (eq-cases i j) [
                | inl (f, _) ↦ rw f (kid-false (Links.ready j) (ground arith))
                | inr (f, _) ↦ rest i (omega arith) hi
              ],
            ),
      )

  no_zombie :
      Childless Links.zombie
      → (q : Ptr) → IsSlot q
      → (k.procs q).state ≡ zombie
      → (k.procs q).parent ≢ p
  no_zombie c q s st = ==→ne _ _ (c q (on_list t q s st))

  no_child :
      Childless Links.zombie
      → Childless Links.embryo
      → Childless Links.running
      → Childless Links.sleep
      → ((i : ℕ) → i ≤ max_priority → Childless (Links.ready i))
      → (q : Ptr) → IsSlot q
      → (s : ProcState) → (k.procs q).state ≡ s
      → s ≢ unused
      → (k.procs q).parent ≢ p
  no_child cz ce cn cs cr q s unused st used = absurd (used refl)
  no_child cz ce cn cs cr q s embryo st used = ==→ne _ _ (ce q (on_list t q s st))
  no_child cz ce cn cs cr q s sleeping st used = ==→ne _ _ (cs q (on_list t q s st))
  no_child cz ce cn cs cr q s runnable st used =
      ==→ne _ _ (cr (k.procs q).priority (t.capped q s) q (on_list t q s st))
  no_child cz ce cn cs cr q s running st used = ==→ne _ _ (cn q (on_list t q s st))
  no_child cz ce cn cs cr q s zombie st used = ==→ne _ _ (cz q (on_list t q s st))

-- The run ends with a value, and the invariant holds.
pub record Ended (k : Kernel) (run : Run WaitStep) : Type 0 where
  pub result : WaitStep
  pub end : Kernel
  pub view : View
  pub returned : run ≡ ok result end
  pub table : Table null end.procs end.links view
  pub outcome : Waited k end result

reap-Ended :
    (k : Kernel) {v : View} (c : Ptr) (kids : Bool)
    → Table null k.procs k.links v
    → Holds ptable_lock 0 k
    → c ≢ null
    → has c (v Links.zombie) ≡ true
    → (k.procs c).parent ≡ k.proc
    → Ended k (wait_decide k.proc c kids k)
unfolding wait_decide released
reap-Ended k {v} c kids t held ne m child =
    let s = t.lists.slots Links.zombie c m in
    let st = is_zombie (k.procs c) (t.capped c s) (t.home Links.zombie c m) in
    let (g, e, t1) = take_off t Links.zombie c m in
    let r0 : Proc = record (k.procs c) { kstack = null } in
    let r = cleared (k.procs c) in
    let t2 =
      put_front (Table-update_out t1 r (t.capped c s)) Links.free s
        (rw (update_self k.procs c r) refl) in
    let k1 : Kernel = record k { links = g } in
    let g2 = Links.add_to_front_of_list Links.free c g in
    let k2 : Kernel = record k {
      procs = update k.procs c r;
      links = g2;
      calls = freevm (k.procs c).pgdir ∷ kfree (k.procs c).kstack ∷ k.calls;
    } in
    let h2 : Holds ptable_lock 0 k2 = record {
      locked = held.locked;
      depth = held.depth;
      quiet = held.quiet;
    } in
    record {
      result = returns (pos (k.procs c).pid);
      end = released ptable_lock 0 k2;
      view = _;
      returned = ground (
        arith,
        ne,
        e,
        assert_state-passes c zombie k1 st,
        update_self k.procs c r0,
        update-update k.procs c r0 r,
        release-held ptable_lock 0 k2 h2,
      );
      table = t2;
      outcome = reaped c s st child refl (released-Free ptable_lock 0 k2);
    }

give_up-Ended :
    (k : Kernel) {v : View} (kids : Bool)
    → Table null k.procs k.links v
    → Holds ptable_lock 0 k
    → ((k.procs k.proc).killed ≡ true)
      ⊎ (((q : Ptr) → IsSlot q → (k.procs q).state ≢ unused → (k.procs q).parent ≢ k.proc)
          × (kids ≡ false))
    → ((q : Ptr) → IsSlot q → (k.procs q).state ≡ zombie → (k.procs q).parent ≢ k.proc)
    → (not kids || (k.procs k.proc).killed) ≡ true
    → Ended k (wait_decide k.proc null kids k)
unfolding wait_decide released
give_up-Ended k {v} kids t held why none e = record {
  result = returns (negsuc 0);
  end = released ptable_lock 0 k;
  view = v;
  returned = rw (e, release-held ptable_lock 0 k held) refl;
  table = t;
  outcome =
      gave_up (elim why [ inl h ↦ inl h | inr h ↦ inr h.0 ]) none refl
        (released-Free ptable_lock 0 k);
}

sleep-Ended :
    (k : Kernel) {v : View} (kids : Bool) (c : Ptr)
    → Table null k.procs k.links v
    → Holds ptable_lock 0 k
    → IsSlot k.proc
    → (k.procs k.proc).state ≡ running
    → IsSlot c
    → (k.procs c).parent ≡ k.proc
    → ((q : Ptr) → IsSlot q → (k.procs q).state ≡ zombie → (k.procs q).parent ≢ k.proc)
    → (not kids || (k.procs k.proc).killed) ≡ false
    → Ended k (wait_decide k.proc null kids k)
unfolding wait_decide
sleep-Ended k {v} kids c t held s run sc child none e =
    let (b, k', eq, ps, t', h') = sleep-Table k k.proc (some ptable_lock) t s run held in
    record {
      result = sleeps b;
      end = k';
      view = _;
      returned = rw (e, eq) refl;
      table = t';
      outcome = waiting b c (ground arith) sc child none ps h';
    }

wait_round-decides :
    (k : Kernel) {v : View} (t : Table null k.procs k.links v) (kids : Bool)
    → have_ready_kids
        (suc max_priority)
        k.proc
        (kid k t k.proc Links.embryo
          || (kid k t k.proc Links.running || kid k t k.proc Links.sleep))
        k
      ≡ ok kids k
    → wait_round k ≡ wait_decide k.proc (found k t k.proc Links.zombie) kids k
unfolding wait_round
wait_round-decides k {v} t kids e =
    rw (have_kids-kid k t k.proc, e, find_first-list k t.lists Links.zombie (is_child k.proc)) refl

wait_decide-Ended :
    (k : Kernel) {v : View} (t : Table null k.procs k.links v)
    → Holds ptable_lock 0 k
    → IsSlot k.proc
    → (k.procs k.proc).state ≡ running
    → (kids : Bool)
    → (kids ≡ true
        → ((kid k t k.proc Links.embryo
              || (kid k t k.proc Links.running || kid k t k.proc Links.sleep))
            ≡ true)
          ⊎ Child k t k.proc)
    → (kids ≡ false
        → ((kid k t k.proc Links.embryo
              || (kid k t k.proc Links.running || kid k t k.proc Links.sleep))
            ≡ false)
          × ((i : ℕ) → 0 ≤ i → i ≤ max_priority → Childless k t k.proc (Links.ready i)))
    → Ended k (wait_decide k.proc (found k t k.proc Links.zombie) kids k)
unfolding Child
wait_decide-Ended k {v} t held s run kids up down =
    let p = k.proc in
    let c = found k t p Links.zombie in
    elim (eq-cases c null) [
      | inr (ne, _) ↦
          let (m, b) = first_found (is_child p) k.procs (v Links.zombie) ne in
          reap-Ended k c kids t held ne m (==→eq _ _ b)
      | inl (none, _) ↦
          let cz = childless k t p Links.zombie none in
          rw none (elim (Bool-cases (not kids || (k.procs p).killed)) [
            | inl stop ↦
                give_up-Ended k kids t held
                  (elim (Bool-cases kids) [
                    | inl yes' ↦ inl (ground arith)
                    | inr no' ↦
                        let (no_some, cr) = down no' in
                        inr (
                          (λ q sq used.
                              no_child k t p cz (kid-false k t p Links.embryo (ground arith))
                                (kid-false k t p Links.running (ground arith))
                                (kid-false k t p Links.sleep (ground arith))
                                (λ i hi. cr i (omega arith) hi) q sq (k.procs q).state refl used),
                          no',
                        )
                  ])
                  (no_zombie k t p cz) stop
            | inr go_on ↦
                let child : Child k t p = elim (up (ground arith)) [
                  | inr d ↦ d
                  | inl d ↦ some_child k t p d
                ] in
                sleep-Ended k kids child.0 t held s run child.1 child.2 (no_zombie k t p cz) go_on
          ])
    ]

-- A round of `wait` with `ptable.lock` held always comes to an end and keeps the invariant. Where a
-- zombie has the process for its parent, one such zombie is cleared and put on the free list, and
-- its pid is returned. Else, -1 is returned and nothing has changed, and then the process has been
-- killed or no process in use has it for a parent; or the process has not been killed, it goes to
-- sleep on its own address, still holding the lock, and some process has it for a parent.
pub wait_round-Ended :
    (k : Kernel) {v : View}
    → Table null k.procs k.links v
    → Holds ptable_lock 0 k
    → IsSlot k.proc
    → (k.procs k.proc).state ≡ running
    → Ended k (wait_round k)
wait_round-Ended k {v} t held s run =
    let (kids, e, up, down) =
      have_ready_kids-kid k t k.proc (suc max_priority)
        (kid k t k.proc Links.embryo
          || (kid k t k.proc Links.running || kid k t k.proc Links.sleep))
        (omega arith) in
    let go = wait_decide-Ended k t held s run kids up down in
    record {
      result = go.result;
      end = go.end;
      view = go.view;
      returned = wait_round-decides k t kids e ∙ go.returned;
      table = go.table;
      outcome = go.outcome;
    }
