-- ===== src/Proc/Walk.antt =====
-- The two kinds of loop that proc.c writes over a list of processes: `for_each` is
-- `while(p){ write p's fields; p = p->next; }`, and `find_first` is
-- `while(p){ if(test) return p; p = p->next; }`, NULL if the test never holds.
use tron_boss_os.Base.{
  ℕ, zero, suc, ◌<◌, ◌≡◌, refl, sym, ap, ◌∙◌, subst, ◌≢◌, inl, inr, Bool, true, false, List, [],
  ◌∷◌, arith, ◌==◌, eq-cases, Bool-cases, ne→==, if◌then◌else◌, update, update_self, update_other,
  length, has, Distinct, fun_ext,
}
use tron_boss_os.Links.{Ptr, null, loop_fuel, ListId}
use tron_boss_os.Links.Chain.{Chain, IsLists, IsLists-short}
use tron_boss_os.Kernel.{Proc, Kernel, M, ok, out_of_fuel, ◌>>◌, pure, modify}

unfoldable pub for_each : ℕ → (Proc → Proc) → Ptr → M (Unit {0})
for_each zero f p = λ _. out_of_fuel
for_each (suc fuel) f p =
    if p == null then pure tt else (do modify p f; λ k. for_each fuel f (k.links.next p) k)

unfoldable pub find_first : ℕ → (Proc → Bool) → Ptr → M Ptr
find_first zero test p = λ _. out_of_fuel
find_first (suc fuel) test p =
    if p == null
    then pure null
    else (λ k. (if test (k.procs p) then pure p else find_first fuel test (k.links.next p)) k)

-- The processes of a list are rewritten, the others are not.
abbrev pub on_members : (Proc → Proc) → List Ptr → (Ptr → Proc) → Ptr → Proc
on_members f xs procs q = if has q xs then f (procs q) else procs q

abbrev pub first : (Proc → Bool) → (Ptr → Proc) → List Ptr → Ptr
first test procs [] = null
first test procs (x ∷ xs) = let rest = first test procs xs in if test (procs x) then x else rest

pub on_members-cons :
    (f : Proc → Proc) (x : Ptr) (xs : List Ptr) (procs : Ptr → Proc)
    → has x xs ≡ false
    → on_members f xs (update procs x (f (procs x))) ≡ on_members f (x ∷ xs) procs
on_members-cons f x xs procs out = fun_ext λ q. elim (eq-cases q x) [
  | inl (e, t) ↦ rw (t, e, out) (update_self procs x (f (procs x)))
  | inr (e, t) ↦ rw (t, update_other procs x (f (procs x)) q e) refl
]

pub for_each-Chain :
    (fuel : ℕ) (f : Proc → Proc) (p : Ptr) (xs : List Ptr) (k : Kernel)
    → length xs < fuel
    → Chain k.links.next p xs
    → Distinct xs
    → for_each fuel f p k ≡ ok tt (record k { procs = on_members f xs k.procs })
unfolding for_each
for_each-Chain zero f p xs k short c d = elim short [ ]
for_each-Chain (suc fuel) f p [] k short c d = rw c refl
for_each-Chain (suc fuel) f p (x ∷ xs) k short c d =
    let ih =
      for_each-Chain fuel f (k.links.next p) xs
        (record k { procs = update k.procs p (f (k.procs p)) }) (omega arith) (rw c.0 c.2) d.1 in
    rw (ne→== p null (rw c.0 c.1)) (
      ih
      ∙ ap (λ (g : Ptr → Proc). ok tt (record k { procs = g }))
          (on_members-cons f p xs k.procs (rw c.0 d.0)
            ∙ ap (λ y. on_members f (y ∷ xs) k.procs) c.0))

pub find_first-Chain :
    (fuel : ℕ) (test : Proc → Bool) (p : Ptr) (xs : List Ptr) (k : Kernel)
    → length xs < fuel
    → Chain k.links.next p xs
    → find_first fuel test p k ≡ ok (first test k.procs xs) k
unfolding find_first
find_first-Chain zero test p xs k short c = elim short [ ]
find_first-Chain (suc fuel) test p [] k short c = rw c refl
find_first-Chain (suc fuel) test p (x ∷ xs) k short c =
    let ih = find_first-Chain fuel test (k.links.next p) xs k (omega arith) (rw c.0 c.2) in
    rw (ne→== p null (rw c.0 c.1)) (elim (Bool-cases (test (k.procs x))) [
      | inl yes' ↦ rw (c.0, yes') refl
      | inr no' ↦ rw (no', subst (λ y. test (k.procs y) ≡ false) (sym c.0) no') ih
    ])

-- The loops from the head of a list.
module _ (k : Kernel) {v : ListId → List Ptr} (i : IsLists k.links v) (l : ListId) where
  pub for_each-list :
      (f : Proc → Proc)
      → for_each loop_fuel f (k.links.heads l) k
        ≡ ok tt (record k { procs = on_members f (v l) k.procs })
  for_each-list f =
      let short = IsLists-short i l in
      for_each-Chain loop_fuel f (k.links.heads l) (v l) k (omega arith) (i.chain l) (i.distinct l)

  pub find_first-list :
      (test : Proc → Bool)
      → find_first loop_fuel test (k.links.heads l) k ≡ ok (first test k.procs (v l)) k
  find_first-list test =
      let short = IsLists-short i l in
      find_first-Chain loop_fuel test (k.links.heads l) (v l) k (omega arith) (i.chain l)

-- What is found stands on the list and passes the test; NULL is found where none passes it.
pub first_found :
    (test : Proc → Bool) (procs : Ptr → Proc) (xs : List Ptr)
    → first test procs xs ≢ null
    → (has (first test procs xs) xs ≡ true) × (test (procs (first test procs xs)) ≡ true)
first_found test procs [] ne = absurd (ne refl)
first_found test procs (x ∷ xs) ne = ground (arith, first_found test procs xs)

pub first_missing :
    (test : Proc → Bool) (procs : Ptr → Proc) (xs : List Ptr)
    → ((q : Ptr) → has q xs ≡ true → q ≢ null)
    → first test procs xs ≡ null
    → (q : Ptr) → has q xs ≡ true
    → test (procs q) ≡ false
first_missing test procs [] ne e q m = cc
first_missing test procs (x ∷ xs) ne e q m =
    let head : test (procs x) ≡ false = ground (arith, ne x) in
    let rest : first test procs xs ≡ null = rw head at e in
    elim (eq-cases q x) [
      | inl (e', t) ↦ rw e' head
      | inr (e', t) ↦ first_missing test procs xs (λ a b. ne a (ground arith)) rest q (ground arith)
    ]
