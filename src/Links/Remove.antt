-- ===== src/Links/Remove.antt =====
-- Taking a process off a list: `removefromlist` and `removefromfront`.
use tron_boss_os.Base.{
  ℕ, zero, suc, ◌≤◌, ◌<◌, ◌≡◌, refl, sym, ◌∙◌, subst, ◌≢◌, inl, inr, true, false, List, [], ◌∷◌,
  some, arith, eq-cases, erase-head, erase-tail, pos, negsuc, update, update_self, update_other,
  length, has, erase, has-erase, erase-Distinct, Distinct,
}
use tron_boss_os.Links.{
  Ptr, null, nproc, ListId, Links, loop_fuel, unlink_loop, remove_from_list, remove_from_front,
}
use tron_boss_os.Links.Chain.{
  Chain, Chain-update, Chain-ne_null, IsLists, IsLists-short, IsLists-update,
}

-- The loop finds `p` behind `previous` and links round it.
unlink_loop-erase :
    (fuel previous current p : ℕ) (h : Links) (xs : List Ptr)
    → length xs < fuel
    → Chain h.next current xs
    → Distinct xs
    → has previous xs ≡ false
    → has p xs ≡ true
    → previous ≢ p
    → h.next previous ≡ current
    → (nx : Ptr → Ptr) × (unlink_loop fuel previous current p h
        ≡ some (pos 0, record h { next = nx }))
      × Chain nx (nx previous) (erase p xs)
      × ((a : Ptr) → a ≢ previous → has a xs ≡ false → nx a ≡ h.next a)
unfolding unlink_loop
unlink_loop-erase zero previous current p h xs short c d out m ne link = elim short [ ]
unlink_loop-erase (suc fuel) previous current p h [] short c d out m ne link = cc
unlink_loop-erase (suc fuel) previous current p h (x ∷ xs) short c d out m ne link =
    elim (eq-cases current p) [
      | inl (e, t) ↦ (
        update (update h.next previous (h.next p)) p null,
        ground arith,
        subst
            (λ zs.
              Chain (update (update h.next previous (h.next p)) p null)
                (update (update h.next previous (h.next p)) p null previous) zs)
            (sym (erase-head p x xs (ground arith)))
            (rw
              (
                update_other (update h.next previous (h.next p)) p null previous ne,
                update_self h.next previous (h.next p),
              )
              (Chain-update _ _ p null xs (ground arith) (
                Chain-update _ _ previous (h.next p) xs (ground arith)
                  (subst (λ y. Chain h.next (h.next y) xs) (sym (sym e ∙ c.0)) c.2)))),
        (λ a na ma. update_other _ p null a (ground arith) ∙ update_other h.next previous _ a na),
      )
      | inr (e, t) ↦
          let (nx, eq, c', f) =
            unlink_loop-erase fuel current (h.next current) p h xs (omega arith) (rw c.0 c.2) d.1
              (rw c.0 d.0) (ground arith) e refl in
          (
            nx,
            ground arith,
            subst (λ zs. Chain nx (nx previous) zs) (sym (erase-tail p x xs (ground arith)))
                (
                  (f previous (ground arith) (ground arith)) ∙ link ∙ c.0,
                  c.1,
                  subst (λ y. Chain nx (nx y) (erase p xs)) c.0 c',
                ),
            (λ a na ma. f a (ground arith) (ground arith)),
          )
    ]

remove_from_list-Chain :
    (l : ListId) (p : Ptr) (h : Links) (ys : List Ptr)
    → length ys ≤ nproc
    → Chain h.next (h.heads l) ys
    → Distinct ys
    → has p ys ≡ true
    → (g : Links) × (remove_from_list l p h ≡ some (pos 0, g))
      × Chain g.next (g.heads l) (erase p ys)
      × ((m : ListId) → m ≢ l → g.heads m ≡ h.heads m)
      × ((a : Ptr) → has a ys ≡ false → g.next a ≡ h.next a)
unfolding remove_from_list
remove_from_list-Chain l p h [] short c d m = cc
remove_from_list-Chain l p h (x ∷ xs) short c d m =
    let p_ne : p ≢ null = Chain-ne_null h.next (h.heads l) (x ∷ xs) p c m in
    elim (eq-cases x p) [
      | inl (e, t) ↦ (
        record { next = update h.next p null; heads = update h.heads l (h.next (h.heads l)) },
        ground (arith, c.0),
        subst (λ zs. Chain (update h.next p null) (update h.heads l (h.next (h.heads l)) l) zs)
            (sym (erase-head p x xs (sym e)))
            (rw (update_self h.heads l (h.next (h.heads l)), c.0)
              (Chain-update _ _ p null xs (ground arith) c.2)),
        (λ n ne. update_other h.heads l _ n ne),
        (λ a out. update_other h.next p null a (ground arith)),
      )
      | inr (e, t) ↦
          let (nx, eq, c', f) =
            unlink_loop-erase loop_fuel x (h.next x) p h xs (omega arith) c.2 d.1 d.0 (ground arith)
              e refl in
          (
            record h { next = nx },
            ground (arith, c.0, eq),
            subst (λ zs. Chain nx (h.heads l) zs) (sym (erase-tail p x xs (ground arith)))
                (c.0, c.1, c'),
            (λ n ne. refl),
            (λ a out. f a (ground arith) (ground arith)),
          )
    ]

-- A process on the list `l` is taken off it: the routine returns 0, `l` holds what it held but for
-- that process, in the same order, and every other list is as it was.
pub remove_from_list-IsLists :
    {h : Links} {v : ListId → List Ptr} (i : IsLists h v) (l : ListId) (p : Ptr)
    → has p (v l) ≡ true
    → (g : Links) × (remove_from_list l p h ≡ some (pos 0, g))
      × IsLists g (update v l (erase p (v l)))
remove_from_list-IsLists {h} {v} i l p m =
    let (g, eq, c, heads, frame) =
      remove_from_list-Chain l p h (v l) (IsLists-short i l) (i.chain l) (i.distinct l) m in
    (
      g,
      eq,
      IsLists-update i l (erase p (v l)) g c (erase-Distinct p (v l) (i.distinct l)) heads
          (λ n a ne b. frame a (not_has n a ne b))
          (λ a b. (i.slots l a (kept a b), λ n ne. elsewhere n a ne (kept a b))),
    )
  where
    kept : (a : Ptr) → has a (erase p (v l)) ≡ true → has a (v l) ≡ true
    kept a b = ground (arith, has-erase a p (v l) (i.distinct l))

    elsewhere : (n : ListId) (a : Ptr) → n ≢ l → has a (v l) ≡ true → has a (v n) ≡ false
    elsewhere n a ne b = ground (arith, i.apart n l a)

    not_has : (n : ListId) (a : Ptr) → n ≢ l → has a (v n) ≡ true → has a (v l) ≡ false
    not_has n a ne b = ground (arith, i.apart n l a)

-- The head of a list is taken off it.
pub remove_from_front-IsLists :
    {h : Links} {v : ListId → List Ptr} (i : IsLists h v) (l : ListId) (q x : Ptr) (xs : List Ptr)
    → v l ≡ x ∷ xs
    → (g : Links) × (remove_from_front l q h ≡ (pos 0, g))
      × (h.heads l ≡ x)
      × IsLists g (update v l xs)
unfolding remove_from_front
remove_from_front-IsLists {h} {v} i l q x xs e = (
  record { next = update h.next (h.heads l) null; heads = update h.heads l (h.next (h.heads l)) },
  ground (arith, c.0, c.1),
  c.0,
  IsLists-update i l xs _ chain' d.1 (λ n ne. update_other h.heads l _ n ne)
      (λ n a ne b.
        update_other h.next (h.heads l) null a (ground (arith, i.apart n l a, here, c.0)))
      (λ a b. (i.slots l a (rest a b), λ n ne. ground (arith, i.apart n l a, rest a b))),
)
  where
    c : Chain h.next (h.heads l) (x ∷ xs)
    c = subst (Chain h.next (h.heads l)) e (i.chain l)

    d : Distinct (x ∷ xs)
    d = subst (λ ys. Distinct ys) e (i.distinct l)

    here : has x (v l) ≡ true
    here = rw e (ground arith)

    rest : (a : Ptr) → has a xs ≡ true → has a (v l) ≡ true
    rest a b = rw e (ground arith)

    chain' : Chain (update h.next (h.heads l) null) (update h.heads l (h.next (h.heads l)) l) xs
    chain' =
        rw (update_self h.heads l (h.next (h.heads l)), c.0) (Chain-update _ _ x null xs d.0 c.2)

-- A process that is not on the list is not found: the routine returns -1 and changes nothing.
unlink_loop-missing :
    (fuel previous current p : ℕ) (h : Links) (xs : List Ptr)
    → length xs < fuel
    → Chain h.next current xs
    → has p xs ≡ false
    → unlink_loop fuel previous current p h ≡ some (negsuc 0, h)
unfolding unlink_loop
unlink_loop-missing zero previous current p h xs short c out = elim short [ ]
unlink_loop-missing (suc fuel) previous current p h [] short c out = ground arith
unlink_loop-missing (suc fuel) previous current p h (x ∷ xs) short c out = ground (
  arith,
  c.0,
  c.1,
  unlink_loop-missing fuel current (h.next current) p h xs (omega arith) (rw c.0 c.2)
      (ground arith),
)

remove_from_list-missing_Chain :
    (l : ListId) (p : Ptr) (h : Links) (ys : List Ptr)
    → length ys ≤ nproc
    → Chain h.next (h.heads l) ys
    → has p ys ≡ false
    → remove_from_list l p h ≡ some (negsuc 0, h)
unfolding remove_from_list
remove_from_list-missing_Chain l p h [] short c out = ground arith
remove_from_list-missing_Chain l p h (x ∷ xs) short c out = ground (
  arith,
  c.0,
  c.1,
  unlink_loop-missing loop_fuel (h.heads l) (h.next (h.heads l)) p h xs (omega arith) (rw c.0 c.2)
      (ground arith),
)

pub remove_from_list-missing :
    {h : Links} {v : ListId → List Ptr} (i : IsLists h v) (l : ListId) (p : Ptr)
    → has p (v l) ≡ false
    → remove_from_list l p h ≡ some (negsuc 0, h)
remove_from_list-missing {h} {v} i l p out =
    remove_from_list-missing_Chain l p h (v l) (IsLists-short i l) (i.chain l) out
