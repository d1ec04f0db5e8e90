-- ===== src/Proc/Create/Init.antt =====
-- userinit sets the lists up: the invariant holds from there on.
use tron_boss_os.Base.{
  ℕ, zero, suc, ◌+◌, ◌-◌, ◌≤◌, ◌<◌, ◌≡◌, refl, subst, inl, inr, false, ◌&&◌, List, [], ◌∷◌, arith,
  ltb, leb, eq-cases, Bool-false, update, has, fun_ext,
}
use tron_boss_os.Links
use tron_boss_os.Links.{Ptr, null, nproc, max_priority, ListId, Links, add_to_front_of_list}
use tron_boss_os.Links.Chain.{IsSlot, IsLists}
use tron_boss_os.Links.Insert.{add_to_front_of_list-IsLists}
use tron_boss_os.Kernel.{Proc, Kernel, unused}
use tron_boss_os.Table.{Table, View}
use tron_boss_os.Proc.Create.{fill_free, clear_heads}

-- The slots up to `m`, the last first.
unfoldable pub slots_down : ℕ → List Ptr
slots_down zero = []
slots_down (suc m) = suc m ∷ slots_down m

has-slots_down : (m q : ℕ) → has q (slots_down m) ≡ (ltb 0 q && leb q m)
unfolding slots_down
has-slots_down zero q = ground arith
has-slots_down (suc m) q = ground (arith, has-slots_down m q)

-- The free list alone, with the slots up to `m`.
abbrev pub free_only : ℕ → View
free_only m = update (λ _. []) Links.free (slots_down m)

free_only-step :
    (m : ℕ) → update (free_only m) Links.free (suc m ∷ free_only m Links.free) ≡ free_only (suc m)
unfolding update slots_down
free_only-step m = fun_ext λ l. ground arith

pub empty-IsLists : (h : Links) → ((l : ListId) → h.heads l ≡ null) → IsLists h (free_only 0)
unfolding update slots_down
empty-IsLists h z = record {
  chain = λ l. elim (eq-cases l Links.free) [ inl (e, b) ↦ rw b (z l) | inr (e, b) ↦ rw b (z l) ];
  distinct = λ l. elim (eq-cases l Links.free) [ inl (e, b) ↦ rw b tt | inr (e, b) ↦ rw b tt ];
  apart = λ l m a p. ground arith;
  slots = λ l a p. ground arith;
}

pub free_only-missing : (m q : ℕ) → m < q → (l : ListId) → has q (free_only m l) ≡ false
unfolding update
free_only-missing m q lt l = ground (arith, has-slots_down m q)

fill_free-IsLists :
    (n m : ℕ) (h : Links)
    → n + m ≡ nproc
    → IsLists h (free_only m)
    → IsLists (fill_free n h) (free_only nproc)
unfolding fill_free
fill_free-IsLists zero m h e i =
    let same : m ≡ nproc = omega arith in subst (λ j. IsLists h (free_only j)) same i
fill_free-IsLists (suc n) m h e i =
    let p : nproc - n ≡ suc m = omega arith in
    let i' =
      add_to_front_of_list-IsLists i Links.free (suc m) (omega arith, omega arith)
        (free_only-missing m (suc m) (omega arith)) in
    fill_free-IsLists n (suc m) (add_to_front_of_list Links.free (nproc - n) h) (omega arith)
      (rw p (subst (IsLists (add_to_front_of_list Links.free (suc m) h)) (free_only-step m) i'))

-- The state lists as userinit sets them up: all slots are free, and the last is first in line.
pub init_lists :
    (procs : Ptr → Proc) (h : Links)
    → ((l : ListId) → h.heads l ≡ null)
    → ((q : Ptr) → IsSlot q → ((procs q).state ≡ unused) × ((procs q).priority ≤ max_priority))
    → Table null procs (fill_free nproc (clear_heads h)) (free_only nproc)
unfolding clear_heads update
init_lists procs h empty unused_all =
    let lists =
      fill_free-IsLists nproc 0 (clear_heads h) (omega arith)
        (empty-IsLists (clear_heads h) (λ l. ground (arith, empty l))) in
    record {
      lists = lists;
      home = λ l q m. ground (arith, has-slots_down nproc q, unused_all q);
      outside = λ l. Bool-false (λ b. absurd (omega (arith, lists.slots l null b)));
      complete = λ q s ne. ground (arith, has-slots_down nproc q, unused_all q);
      capped = λ q s. (unused_all q s).1;
    }

pub free_first : free_only nproc Links.free ≡ nproc ∷ slots_down 63
unfolding update slots_down
free_first = refl
