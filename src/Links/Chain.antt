-- ===== src/Links/Chain.antt =====
-- What the pointers of the state lists stand for: a list of addresses for each head.
use tron_boss_os.Base.{
  ◌≤◌, ◌≡◌, sym, subst, ◌≢◌, inl, inr, true, false, List, [], ◌∷◌, ◌++◌, head_or_zero, arith,
  eq-cases, update, update_other, length, has, Distinct, length-Distinct-le,
}
use tron_boss_os.Links.{Ptr, null, nproc, ListId, Links}

-- From `p` the `next` fields lead through `xs` to NULL.
abbrev pub Chain : (Ptr → Ptr) → Ptr → List Ptr → Type 0
Chain next p [] = p ≡ null
Chain next p (x ∷ xs) = (p ≡ x) × (x ≢ null) × Chain next (next x) xs

pub Chain-frame :
    (f g : Ptr → Ptr) (p : Ptr) (xs : List Ptr)
    → ((a : Ptr) → has a xs ≡ true → g a ≡ f a)
    → Chain f p xs
    → Chain g p xs
Chain-frame f g p [] same c = c
Chain-frame f g p (x ∷ xs) same c = (
  c.0,
  c.1,
  subst (λ y. Chain g y xs) (sym (same x (ground arith)))
      (Chain-frame f g (f x) xs (λ a h. same a (ground arith)) c.2),
)

-- A write to a node outside the chain is not seen.
pub Chain-update :
    (f : Ptr → Ptr) (p a b : Ptr) (xs : List Ptr)
    → has a xs ≡ false
    → Chain f p xs
    → Chain (update f a b) p xs
Chain-update f p a b xs out =
    Chain-frame f (update f a b) p xs λ c h. update_other f a b c (ground arith)

-- The address of a slot of `ptable.proc`.
abbrev pub IsSlot : Ptr → Type 0
IsSlot p = (1 ≤ p) × (p ≤ nproc)

-- `v` gives the contents of each list: the chains are those lists, no process stands in two
-- places, and all are slots of the table.
pub record IsLists (h : Links) (v : ListId → List Ptr) : Type 0 where
  pub chain : (l : ListId) → Chain h.next (h.heads l) (v l)
  pub distinct : (l : ListId) → Distinct (v l)
  pub apart : (l m : ListId) (a : Ptr) → has a (v l) ≡ true → has a (v m) ≡ true → l ≡ m
  pub slots : (l : ListId) (a : Ptr) → has a (v l) ≡ true → IsSlot a

pub IsLists-short :
    {h : Links} {v : ListId → List Ptr} → IsLists h v → (l : ListId) → length (v l) ≤ nproc
IsLists-short {h} {v} i l = length-Distinct-le nproc (v l) (i.distinct l) (i.slots l)

-- One list is given new contents; the others keep theirs, and so do the nodes of those.
pub IsLists-update :
    {h : Links} {v : ListId → List Ptr} (i : IsLists h v) (l : ListId) (ys : List Ptr) (g : Links)
    → Chain g.next (g.heads l) ys
    → Distinct ys
    → ((m : ListId) → m ≢ l → g.heads m ≡ h.heads m)
    → ((m : ListId) (a : Ptr) → m ≢ l → has a (v m) ≡ true → g.next a ≡ h.next a)
    → ((a : Ptr) → has a ys ≡ true → IsSlot a × ((m : ListId) → m ≢ l → has a (v m) ≡ false))
    → IsLists g (update v l ys)
unfolding update
IsLists-update {h} {v} i l ys g c d heads frame members = record {
  chain = chain';
  distinct = distinct';
  apart = apart';
  slots = slots';
}
  where
    chain' : (m : ListId) → Chain g.next (g.heads m) (update v l ys m)
    chain' m = elim (eq-cases m l) [
      | inl (e, t) ↦ rw (t, e) c
      | inr (e, t) ↦
          rw t (rw (heads m e) (Chain-frame h.next g.next _ (v m) (λ a. frame m a e) (i.chain m)))
    ]

    distinct' : (m : ListId) → Distinct (update v l ys m)
    distinct' m = elim (eq-cases m l) [ inl (e, t) ↦ rw t d | inr (e, t) ↦ rw t (i.distinct m) ]

    apart' :
        (m n : ListId) (a : Ptr)
        → has a (update v l ys m) ≡ true
        → has a (update v l ys n) ≡ true
        → m ≡ n
    apart' m n a p q = ground (
      arith,
      i.apart m n a,
      (members a),
      (λ (e : has a ys ≡ true). (members a e).1 m),
      (λ (e : has a ys ≡ true). (members a e).1 n),
    )

    slots' : (m : ListId) (a : Ptr) → has a (update v l ys m) ≡ true → IsSlot a
    slots' m a p = ground (arith, i.slots m a, members a)

pub Chain-ne_null :
    (f : Ptr → Ptr) (p : Ptr) (xs : List Ptr) (a : Ptr) → Chain f p xs → has a xs ≡ true → a ≢ null
Chain-ne_null f p [] a c m = cc
Chain-ne_null f p (x ∷ xs) a c m = elim (eq-cases a x) [
  | inl (e, t) ↦ rw e c.1
  | inr (e, t) ↦ Chain-ne_null f (f x) xs a c.2 (ground arith)
]

pub Chain-head : (f : Ptr → Ptr) (p : Ptr) (xs : List Ptr) → Chain f p xs → p ≡ head_or_zero xs
Chain-head f p [] c = c
Chain-head f p (x ∷ xs) c = c.0

pub Chain-suffix :
    (f : Ptr → Ptr) (p : Ptr) (xs ys : List Ptr)
    → Chain f p (xs ++ ys)
    → Chain f (head_or_zero ys) ys
Chain-suffix f p [] ys c = subst (λ q. Chain f q ys) (Chain-head f p ys c) c
Chain-suffix f p (x ∷ xs) ys c = Chain-suffix f (f x) xs ys c.2
