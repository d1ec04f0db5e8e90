-- ===== src/Table.antt =====
-- The invariant of `ptable`: every process stands on the one list that its state names, a runnable
-- one on the ready list of its priority, and on no other.
use tron_boss_os.Base.{
  ℕ, ◌≤◌, ◌≡◌, refl, ap, ◌∙◌, subst, ◌≢◌, inl, inr, true, false, ◌||◌, List, [], ◌∷◌, ◌++◌, some,
  arith, ◌==◌, Bool-false, eq-cases, pos, update, update_self, update_other, has, has-append,
  has-erase, erase, erase-head, head_or_zero,
}
use tron_boss_os.Links
use tron_boss_os.Links.{
  Ptr, null, nproc, max_priority, ListId, Links, remove_from_list, remove_from_front,
  add_to_front_of_list, add_to_ready_priority_list,
}
use tron_boss_os.Links.Chain.{Chain, Chain-suffix, Chain-head, IsSlot, IsLists}
use tron_boss_os.Links.Remove.{remove_from_list-IsLists, remove_from_front-IsLists}
use tron_boss_os.Links.Insert.{add_to_front_of_list-IsLists, add_to_ready_priority_list-IsLists}
use tron_boss_os.Kernel.{Proc, ProcState, unused, embryo, sleeping, runnable, running, zombie}

-- The list on which a process of this state and priority belongs.
abbrev pub list_of : ProcState → ℕ → ListId
list_of unused n = Links.free
list_of embryo n = Links.embryo
list_of sleeping n = Links.sleep
list_of runnable n = Links.ready n
list_of running n = Links.running
list_of zombie n = Links.zombie

abbrev pub place : Proc → ListId
place p = list_of p.state p.priority

abbrev pub View : Type 0
View = ListId → List Ptr

-- `v` gives the contents of the lists. The process `out` stands on no list while it is moved; it
-- is `null` between operations.
pub record Table (out : Ptr) (procs : Ptr → Proc) (h : Links) (v : View) : Type 0 where
  pub lists : IsLists h v
  pub home : (l : ListId) (q : Ptr) → has q (v l) ≡ true → place (procs q) ≡ l
  pub outside : (l : ListId) → has out (v l) ≡ false
  pub complete : (q : Ptr) → IsSlot q → q ≢ out → has q (v (place (procs q))) ≡ true
  pub capped : (q : Ptr) → IsSlot q → (procs q).priority ≤ max_priority

module _ {procs : Ptr → Proc} {h : Links} {v : View} where
  -- Fields are written that do not decide the place of a process, or those of `out`.
  pub Table-procs :
      {out : Ptr} (t : Table out procs h v) (procs' : Ptr → Proc)
      → ((q : Ptr) → IsSlot q → q ≢ out → place (procs' q) ≡ place (procs q))
      → ((q : Ptr) → IsSlot q → (procs' q).priority ≤ max_priority)
      → Table out procs' h v
  Table-procs {out} t procs' same capped = record {
    lists = t.lists;
    home = λ l q m. same q (t.lists.slots l q m) (ground (arith, t.outside l)) ∙ t.home l q m;
    outside = t.outside;
    complete = λ q s ne. rw (same q s ne) (t.complete q s ne);
    capped = capped;
  }

  pub Table-update_out :
      {out : Ptr} (t : Table out procs h v) (r : Proc)
      → r.priority ≤ max_priority
      → Table out (update procs out r) h v
  Table-update_out {out} t r cap =
      Table-procs t (update procs out r) (λ q s ne. ap place (update_other procs out r q ne))
        (λ q s. elim (eq-cases q out) [
          | inl (e, b) ↦ rw (e, update_self procs out r) cap
          | inr (e, b) ↦ rw (update_other procs out r q e) (t.capped q s)
        ])

  pub Table-update :
      {out : Ptr} (t : Table out procs h v) (p : Ptr) (r : Proc)
      → place r ≡ place (procs p)
      → r.priority ≤ max_priority
      → Table out (update procs p r) h v
  Table-update {out} t p r same cap =
      Table-procs t (update procs p r)
        (λ q s ne. elim (eq-cases q p) [
          | inl (e, b) ↦ rw (e, update_self procs p r) same
          | inr (e, b) ↦ ap place (update_other procs p r q e)
        ])
        (λ q s. elim (eq-cases q p) [
          | inl (e, b) ↦ rw (e, update_self procs p r) cap
          | inr (e, b) ↦ rw (update_other procs p r q e) (t.capped q s)
        ])

  pub Table-detach :
      (t : Table null procs h v) (l : ListId) (p : Ptr) {g : Links}
      → has p (v l) ≡ true
      → IsLists g (update v l (erase p (v l)))
      → Table p procs g (update v l (erase p (v l)))
  unfolding update
  Table-detach t l p {g} m lists = record {
    lists = lists;
    home = λ n q b. t.home n q (kept n q b);
    outside = λ n. elim (eq-cases n l) [
      | inl (e, b) ↦ rw b (ground (arith, has-erase p p (v l) (t.lists.distinct l)))
      | inr (e, b) ↦ rw b (ground (arith, t.lists.apart n l p))
    ];
    complete = λ q s ne. elim (eq-cases (place (procs q)) l) [
      | inl (e, b) ↦ rw b (
          ground (
            arith,
            has-erase q p (v l) (t.lists.distinct l),
            subst (λ n. has q (v n) ≡ true) e (t.complete q s (omega arith)),
          ))
      | inr (e, b) ↦ rw b (t.complete q s (omega arith))
    ];
    capped = t.capped;
  }
    where
      kept :
          (n : ListId) (q : Ptr) → has q (update v l (erase p (v l)) n) ≡ true → has q (v n) ≡ true
      kept n q b = elim (eq-cases n l) [
        | inl (e, c) ↦ rw e (ground (arith, has-erase q p (v l) (t.lists.distinct l)))
        | inr (e, c) ↦ ground arith
      ]

  pub Table-attach :
      {p : Ptr} (t : Table p procs h v) (l : ListId) (ys : List Ptr) {g : Links}
      → place (procs p) ≡ l
      → ((a : Ptr) → has a ys ≡ ((a == p) || has a (v l)))
      → IsLists g (update v l ys)
      → Table null procs g (update v l ys)
  unfolding update
  Table-attach {p} t l ys {g} at members lists = record {
    lists = lists;
    home = λ n q b. elim (eq-cases n l) [
      | inl (e, c) ↦ elim (eq-cases q p) [
        | inl (e', c') ↦ rw (e', e) at
        | inr (e', c') ↦ rw e (t.home l q (ground (arith, members q)))
      ]
      | inr (e, c) ↦ t.home n q (ground arith)
    ];
    outside = λ n. Bool-false (λ b. absurd (omega (arith, lists.slots n null b)));
    complete = λ q s ne. elim (eq-cases q p) [
      | inl (e, c) ↦ rw (e, at) (ground (arith, members p))
      | inr (e, c) ↦ elim (eq-cases (place (procs q)) l) [
        | inl (f, d) ↦
            rw d (ground (arith, members q, subst (λ n. has q (v n) ≡ true) f (t.complete q s e)))
        | inr (f, d) ↦ rw d (t.complete q s e)
      ]
    ];
    capped = t.capped;
  }

  pub take_off :
      (t : Table null procs h v) (l : ListId) (p : Ptr)
      → has p (v l) ≡ true
      → (g : Links) × (remove_from_list l p h ≡ some (pos 0, g))
        × Table p procs g (update v l (erase p (v l)))
  take_off t l p m =
      let (g, eq, lists) = remove_from_list-IsLists t.lists l p m in
      (g, eq, Table-detach t l p m lists)

  pub take_off_front :
      (t : Table null procs h v) (l : ListId) (q x : Ptr) (xs : List Ptr)
      → v l ≡ x ∷ xs
      → (g : Links) × (remove_from_front l q h ≡ (pos 0, g))
        × (h.heads l ≡ x)
        × Table x procs g (update v l xs)
  take_off_front t l q x xs e =
      let (g, eq, at, lists) = remove_from_front-IsLists t.lists l q x xs e in
      let same : erase x (v l) ≡ xs = ap (erase x) e ∙ erase-head x x xs refl in
      (
        g,
        eq,
        at,
        subst (λ ys. Table x procs g (update v l ys)) same
            (Table-detach t l x (rw e (ground arith)) (rw same lists)),
      )

  pub put_front :
      {p : Ptr} (t : Table p procs h v) (l : ListId)
      → IsSlot p
      → place (procs p) ≡ l
      → Table null procs (add_to_front_of_list l p h) (update v l (p ∷ v l))
  put_front {p} t l s at =
      Table-attach t l (p ∷ v l) at (λ a. refl)
        (add_to_front_of_list-IsLists t.lists l p s t.outside)

  pub put_back :
      {p : Ptr} (t : Table p procs h v) (l : ListId)
      → IsSlot p
      → place (procs p) ≡ l
      → (g : Links) × (add_to_ready_priority_list l p h ≡ some (pos 0, g))
        × Table null procs g (update v l (v l ++ p ∷ []))
  put_back {p} t l s at =
      let (g, eq, lists) = add_to_ready_priority_list-IsLists t.lists l p s t.outside in
      (
        g,
        eq,
        Table-attach t l (v l ++ p ∷ []) at (λ a. ground (arith, has-append a (v l) (p ∷ [])))
            lists,
      )

  -- A process whose state and priority are known stands on the list that they name.
  pub on_list :
      (t : Table null procs h v) (p : Ptr)
      → IsSlot p
      → {s : ProcState} → (procs p).state ≡ s
      → has p (v (list_of s (procs p).priority)) ≡ true
  on_list t p slot e =
      subst (λ st. has p (v (list_of st (procs p).priority)) ≡ true) e
        (t.complete p slot (omega arith))

  -- A process stands on a list exactly if the list is its place.
  pub has-place :
      (t : Table null procs h v) (l : ListId) (q : Ptr)
      → IsSlot q
      → has q (v l) ≡ (place (procs q) == l)
  has-place t l q s = elim (eq-cases (place (procs q)) l) [
    | inl (e, b) ↦ rw b (subst (λ m. has q (v m) ≡ true) e (t.complete q s (omega arith)))
    | inr (e, b) ↦ rw b (Bool-false (λ m. absurd (e (t.home l q m))))
  ]

  -- Behind a process of a list stands the head of the rest of the list.
  pub next_on :
      (t : Table null procs h v) (l : ListId) (before : List Ptr) (p : Ptr) (rest : List Ptr)
      → v l ≡ before ++ p ∷ rest
      → (p ≢ null) × (h.next p ≡ head_or_zero rest)
  next_on t l before p rest e =
      let c =
        Chain-suffix h.next (h.heads l) before (p ∷ rest)
          (subst (Chain h.next (h.heads l)) e (t.lists.chain l)) in
      (c.1, Chain-head h.next (h.next p) rest c.2)

pub Table-along :
    {out : Ptr} {ps ps' : Ptr → Proc} {h : Links} {v : View}
    → ps ≡ ps'
    → Table out ps h v
    → Table out ps' h v
Table-along {out} {ps} {ps'} {h} {v} e = subst (λ qs. Table out qs h v) e
