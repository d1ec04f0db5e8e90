-- ===== src/Links/Insert.antt =====
-- Putting a process on a list: `addtofrontoflist` and `addtoreadyprioritylist`.
use tron_boss_os.Base.{
  ℕ, zero, suc, ◌≤◌, ◌<◌, ◌≡◌, refl, sym, ap, ◌∙◌, subst, ◌≢◌, inl, inr, true, false, List, [], ◌∷◌,
  ◌++◌, some, arith, eq-cases, ne→==, pos, update, update_self, update_other, length, has,
  has-append, append-Distinct, Distinct,
}
use tron_boss_os.Links.{
  Ptr, null, nproc, ListId, Links, loop_fuel, last_loop, add_to_front_of_list,
  add_to_ready_priority_list,
}
use tron_boss_os.Links.Chain.{Chain, Chain-update, IsSlot, IsLists, IsLists-short, IsLists-update}

-- The process that is put on a list goes to its front.
pub add_to_front_of_list-IsLists :
    {h : Links} {v : ListId → List Ptr} (i : IsLists h v) (l : ListId) (p : Ptr)
    → IsSlot p
    → ((m : ListId) → has p (v m) ≡ false)
    → IsLists (add_to_front_of_list l p h) (update v l (p ∷ v l))
unfolding add_to_front_of_list
add_to_front_of_list-IsLists {h} {v} i l p slot out = rw (ne→== p null (omega arith)) (
    IsLists-update i l (p ∷ v l) _ chain' (out l, i.distinct l)
      (λ m ne. update_other h.heads l p m ne)
      (λ m a ne b. update_other h.next p (h.heads l) a (ground (arith, out m)))
      (λ a b. elim (eq-cases a p) [
        | inl (e, t) ↦ (rw e slot, λ m ne. rw e (out m))
        | inr (e, t) ↦
            let b' : has a (v l) ≡ true = ground arith in
            (i.slots l a b', λ m ne. ground (arith, i.apart l m a b'))
      ]))
  where
    chain' : Chain (update h.next p (h.heads l)) (update h.heads l p l) (p ∷ v l)
    chain' = (
      update_self h.heads l p,
      (omega arith),
      rw (update_self h.next p (h.heads l)) (Chain-update h.next _ p _ (v l) (out l) (i.chain l)),
    )

-- The walk ends at a node of the list behind which another chain can be hung.
pub last_loop-append :
    (fuel current : ℕ) (h : Links) (x : Ptr) (xs : List Ptr)
    → length xs < fuel
    → Chain h.next current (x ∷ xs)
    → (z : Ptr) × (last_loop fuel current h ≡ some z)
      × (has z (x ∷ xs) ≡ true)
      × ((g : Ptr → Ptr) (ys : List Ptr)
          → ((a : Ptr) → has a (x ∷ xs) ≡ true → a ≢ z → g a ≡ h.next a)
          → Distinct (x ∷ xs)
          → Chain g (g z) ys
          → Chain g current ((x ∷ xs) ++ ys))
unfolding last_loop
last_loop-append zero current h x xs short c = elim short [ ]
last_loop-append (suc fuel) current h x [] short c = (
  current,
  ground (arith, c.0, c.2),
  ground (arith, c.0),
  λ g ys same d c'. (c.0, c.1, subst (λ y. Chain g (g y) ys) c.0 c'),
)
last_loop-append (suc fuel) current h x (y ∷ xs) short c =
    let (z, eq, m, hang) =
      last_loop-append fuel (h.next current) h y xs (omega arith) (rw c.0 c.2) in
    (
      z,
      ground (arith, c.0, c.2.0, c.2.1),
      ground arith,
      λ g ys same d c'. (
        c.0,
        c.1,
        subst (λ t. Chain g t ((y ∷ xs) ++ ys))
            (ap h.next c.0 ∙ sym (same x (ground arith) (ground arith)))
            (hang g ys (λ a b ne. same a (ground arith) ne) d.1 c'),
      ),
    )

add_to_ready_priority_list-Chain :
    (l : ListId) (p : Ptr) (h : Links) (ys : List Ptr)
    → length ys ≤ nproc
    → p ≢ null
    → Chain h.next (h.heads l) ys
    → Distinct ys
    → has p ys ≡ false
    → (g : Links) × (add_to_ready_priority_list l p h ≡ some (pos 0, g))
      × Chain g.next (g.heads l) (ys ++ p ∷ [])
      × ((m : ListId) → m ≢ l → g.heads m ≡ h.heads m)
      × ((a : Ptr) → has a ys ≡ false → a ≢ p → g.next a ≡ h.next a)
unfolding add_to_ready_priority_list
add_to_ready_priority_list-Chain l p h [] short ne c d out = (
  record { next = update h.next p null; heads = update h.heads l p },
  ground (arith, c),
  (update_self h.heads l p, ne, update_self h.next p null),
  (λ m e. update_other h.heads l p m e),
  λ a o e. update_other h.next p null a e,
)
add_to_ready_priority_list-Chain l p h (x ∷ xs) short ne c d out =
    let (z, eq, m, hang) = last_loop-append loop_fuel (h.heads l) h x xs (omega arith) c in
    (
      record h { next = update (update h.next z p) p null },
      ground (arith, c.0, c.1, eq),
      hang (update (update h.next z p) p null) (p ∷ [])
          (λ a b e. update_other _ p null a (ground arith) ∙ update_other h.next z p a e) d
          (
            update_other _ p null z (ground arith) ∙ update_self h.next z p,
            ne,
            update_self _ p null,
          ),
      (λ n e. refl),
      λ a o e. update_other _ p null a e ∙ update_other h.next z p a (ground arith),
    )

-- The process that is put on a ready list goes to its end: the routine returns 0.
pub add_to_ready_priority_list-IsLists :
    {h : Links} {v : ListId → List Ptr} (i : IsLists h v) (l : ListId) (p : Ptr)
    → IsSlot p
    → ((m : ListId) → has p (v m) ≡ false)
    → (g : Links) × (add_to_ready_priority_list l p h ≡ some (pos 0, g))
      × IsLists g (update v l (v l ++ p ∷ []))
add_to_ready_priority_list-IsLists {h} {v} i l p slot out =
    let (g, eq, c, heads, frame) =
      add_to_ready_priority_list-Chain l p h (v l) (IsLists-short i l) (omega arith) (i.chain l)
        (i.distinct l) (out l) in
    (
      g,
      eq,
      IsLists-update i l (v l ++ p ∷ []) g c
          (append-Distinct (v l) (p ∷ []) (i.distinct l) (refl, tt) (λ a b. ground (arith, out l)))
          heads (λ m a ne b. frame a (ground (arith, i.apart m l a)) (ground (arith, out m)))
          (λ a b. elim (eq-cases a p) [
            | inl (e, t) ↦ (rw e slot, λ m ne. rw e (out m))
            | inr (e, t) ↦
                let b' : has a (v l) ≡ true = ground (arith, has-append a (v l) (p ∷ [])) in
                (i.slots l a b', λ m ne. ground (arith, i.apart l m a b'))
          ]),
    )
