-- ===== src/Proc/Promote/Keeps.antt =====
-- What a promotion does to the processes, and that it keeps the invariant of the table.
use tron_boss_os.Base.{
  ℕ, suc, ◌+◌, ◌-◌, ◌≤◌, ◌<◌, ◌≡◌, ap, ◌∙◌, inl, inr, Bool, false, ◌||◌, ◌&&◌, [], arith, ◌==◌, ltb,
  Bool-false, if◌then◌else◌, update, update_self, update_other, has, has-append, eq-cases,
}
use tron_boss_os.Links.{Ptr, null, max_priority, ListId, Links}
use tron_boss_os.Links.Chain.{IsSlot, IsLists}
use tron_boss_os.Kernel.{Proc, runnable, same_state}
use tron_boss_os.Table.{Table, View, place, has-place}
use tron_boss_os.Proc.Walk.{on_members}
use tron_boss_os.Proc.Promote.{relabelled}
use tron_boss_os.Proc.Promote.Lists.{joined}

-- Relabelling ready list i + 1, and all of them from there on.
abbrev pub raise_at : ℕ → Proc → Proc
raise_at i r =
    if same_state r.state runnable && (r.priority == suc i) then record r { priority = i } else r

abbrev pub raise_from : ℕ → Proc → Proc
raise_from i r =
    if same_state r.state runnable && ltb i r.priority
    then record r { priority = r.priority - 1 }
    else r

pub raise_from_step : (i : ℕ) (r : Proc) → raise_from (suc i) (raise_at i r) ≡ raise_from i r
raise_from_step i r = ground arith

pub raise_from_last : (r : Proc) → r.priority ≤ max_priority → raise_from max_priority r ≡ r
raise_from_last r h = ground arith

raise_place :
    (i : ℕ) (r : Proc)
    → i < max_priority
    → r.priority ≤ max_priority
    → (raise_at i r).priority ≤ max_priority
raise_place i r h cap = ground arith

relabel_member :
    (i : ℕ) (r : Proc) (b : Bool)
    → i < max_priority
    → r.priority ≤ max_priority
    → b ≡ (place r == i + 1)
    → (if b then relabelled i r else r) ≡ raise_at i r
relabel_member i r b h cap e = ground arith

-- The place of a process that is relabelled, in terms of where it stood.
place_raised :
    (i : ℕ) (r : Proc)
    → i < max_priority
    → r.priority ≤ max_priority
    → place (raise_at i r) ≡ (if place r == i + 1 then i else place r)
place_raised i r h cap = ground arith

module _ {procs : Ptr → Proc} {h : Links} {v : View} (t : Table null procs h v) (i : ℕ)
    (lt : i < max_priority) where
  pub raised :
      (q : Ptr) → IsSlot q → on_members (relabelled i) (v (i + 1)) procs q ≡ raise_at i (procs q)
  raised q s =
      relabel_member i (procs q) (has q (v (i + 1))) lt (t.capped q s) (has-place t (i + 1) q s)

  has-joined :
      (l : ListId) (q : Ptr)
      → has q (joined v i l) ≡ (
          if l == i
          then has q (v i) || has q (v (i + 1))
          else if l == i + 1
          then false
          else has q (v l))
  has-joined l q = elim (eq-cases l i) [
    | inl (e, b) ↦
        rw b (ap (has q) (ap (joined v i) e ∙ update_self _ i _) ∙ has-append q (v i) (v (i + 1)))
    | inr (e, b) ↦ rw b (
        ap (has q) (update_other _ i _ l e) ∙ elim (eq-cases l (i + 1)) [
          | inl (f, c) ↦ rw c (ap (has q) (ap (update v (i + 1) []) f ∙ update_self v (i + 1) []))
          | inr (f, c) ↦ rw c (ap (has q) (update_other v (i + 1) [] l f))
        ])
  ]

  has_raised :
      (l : ListId) (q : Ptr) → IsSlot q → has q (joined v i l) ≡ (place (raise_at i (procs q)) == l)
  has_raised l q s = ground (
    arith,
    has-joined l q,
    has-place t i q s,
    has-place t (i + 1) q s,
    has-place t l q s,
    place_raised i (procs q) lt (t.capped q s),
  )

  pub Table-joined :
      {g : Links}
      → IsLists g (joined v i)
      → Table null (on_members (relabelled i) (v (i + 1)) procs) g (joined v i)
  Table-joined lists = record {
    lists = lists;
    home = λ l q m. let s = lists.slots l q m in rw (raised q s) (ground (arith, has_raised l q s));
    outside = λ l. Bool-false (λ b. absurd (omega (arith, lists.slots l null b)));
    complete =
        λ q s ne. rw (raised q s) (ground (arith, has_raised (place (raise_at i (procs q))) q s));
    capped = λ q s. rw (raised q s) (raise_place i (procs q) lt (t.capped q s));
  }
