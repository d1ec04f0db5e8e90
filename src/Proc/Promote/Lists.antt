-- ===== src/Proc/Promote/Lists.antt =====
-- Joining two ready lists: the pointers of promotiononreadylists.
use tron_boss_os.Base.{
  ℕ, ◌+◌, ◌≤◌, ◌≡◌, refl, sym, ap, ◌∙◌, subst, ◌≢◌, inl, inr, true, false, List, [], ◌∷◌, ◌++◌,
  arith, update, update_self, update_other, has, has-append, append-Distinct, length, Distinct,
  eq-cases,
}
use tron_boss_os.Links.{Ptr, null, nproc, loop_fuel, ListId, Links}
use tron_boss_os.Links.Chain.{
  IsSlot, Chain, Chain-frame, Chain-update, IsLists, IsLists-short, IsLists-update,
}
use tron_boss_os.Links.Insert.{last_loop-append}
use tron_boss_os.Kernel.{Kernel, ok}
use tron_boss_os.Table.{View}
use tron_boss_os.Proc.Promote.{join, set_head}

-- The list `i` with the list `i + 1` behind it, which is left empty.
abbrev pub joined : View → ℕ → View
joined v i = update (update v (i + 1) []) i (v i ++ v (i + 1))

pub IsLists-clear :
    {h : Links} {v : View} (i : IsLists h v) (l : ListId)
    → IsLists (set_head l null h) (update v l [])
IsLists-clear {h} {v} i l =
    IsLists-update i l [] (set_head l null h) (update_self h.heads l null) tt
      (λ m ne. update_other h.heads l null m ne) (λ m a ne b. refl) (λ a b. cc)

join-Chain :
    (k : Kernel) {v : View} (t : IsLists k.links v) (i : ℕ) (ys : List Ptr)
    → v i ≡ ys
    → (g : Links) × (join i (k.links.heads i) (k.links.heads (i + 1)) k
        ≡ ok tt (record k { links = g }))
      × Chain g.next (g.heads i) (ys ++ v (i + 1))
      × ((m : ListId) → m ≢ i → g.heads m ≡ k.links.heads m)
      × ((a : Ptr) → has a ys ≡ false → g.next a ≡ k.links.next a)
unfolding join
join-Chain k {v} t i [] e = (
  set_head i (k.links.heads (i + 1)) k.links,
  ground (arith, subst (λ zs. Chain k.links.next (k.links.heads i) zs) e (t.chain i)),
  rw (update_self k.links.heads i (k.links.heads (i + 1))) (t.chain (i + 1)),
  (λ m ne. update_other k.links.heads i _ m ne),
  λ a out. refl,
)
join-Chain k {v} t i (x ∷ xs) e =
    let h = k.links in
    let c : Chain h.next (h.heads i) (x ∷ xs) =
      subst (λ zs. Chain h.next (h.heads i) zs) e (t.chain i) in
    let d : Distinct (x ∷ xs) = subst (λ zs. Distinct zs) e (t.distinct i) in
    let short : length (v i) ≤ nproc = IsLists-short t i in
    let short' : length (x ∷ xs) ≤ nproc = subst (λ zs. length zs ≤ nproc) e short in
    let (z, eq, m, hang) = last_loop-append loop_fuel (h.heads i) h x xs (omega arith) c in
    let nx = update h.next z (h.heads (i + 1)) in
    let out : has z (v (i + 1)) ≡ false =
      let b : has z (v i) ≡ true = rw e m in ground (arith, t.apart i (i + 1) z) in
    (
      record h { next = nx },
      ground (arith, c.0, c.1, eq),
      hang nx (v (i + 1)) (λ a b ne. update_other h.next z _ a ne) d
          (rw (update_self h.next z (h.heads (i + 1)))
            (Chain-update h.next _ z _ (v (i + 1)) out (t.chain (i + 1)))),
      (λ n ne. refl),
      λ a b. update_other h.next z _ a (ground arith),
    )

pub join-IsLists :
    (k : Kernel) {v : View} (t : IsLists k.links v) (i : ℕ)
    → (g : Links) × (join i (k.links.heads i) (k.links.heads (i + 1)) k
        ≡ ok tt (record k { links = g }))
      × Chain g.next (k.links.heads (i + 1)) (v (i + 1))
      × IsLists (set_head (i + 1) null g) (joined v i)
join-IsLists k {v} t i =
    let h = k.links in
    let (g, e, c, heads, frame) = join-Chain k t i (v i) refl in
    let apart : (m n : ListId) (a : Ptr) → m ≢ n → has a (v m) ≡ true → has a (v n) ≡ false =
      λ m n a ne b. ground (arith, t.apart m n a) in
    let old = IsLists-clear t (i + 1) in
    (
      g,
      e,
      Chain-frame h.next g.next _ (v (i + 1)) (λ a b. frame a (apart (i + 1) i a (omega arith) b))
          (t.chain (i + 1)),
      IsLists-update old i (v i ++ v (i + 1)) (set_head (i + 1) null g)
          (rw (update_other g.heads (i + 1) null i (omega arith)) c)
          (append-Distinct (v i) (v (i + 1)) (t.distinct i) (t.distinct (i + 1))
            (λ a b. apart i (i + 1) a (omega arith) b))
          (λ m ne. elim (eq-cases m (i + 1)) [
            | inl (f, _) ↦
                rw (f, update_self g.heads (i + 1) null) (sym (update_self h.heads (i + 1) null))
            | inr (f, _) ↦
                update_other g.heads (i + 1) null m f
                ∙ heads m ne
                ∙ sym (update_other h.heads (i + 1) null m f)
          ])
          (λ m a ne b. elim (eq-cases m (i + 1)) [
            | inl (f, _) ↦
                let w : has a [] ≡ true =
                  subst (λ ys. has a ys ≡ true)
                    (ap (update v (i + 1) []) f ∙ update_self v (i + 1) []) b in
                cc
            | inr (f, _) ↦
                frame a
                  (apart m i a ne (subst (λ ys. has a ys ≡ true) (update_other v (i + 1) [] m f) b))
          ])
          (λ a b. (
            members a b,
            λ m ne. elim (eq-cases m (i + 1)) [
              | inl (f, _) ↦
                  subst (λ ys. has a ys ≡ false)
                    (sym (ap (update v (i + 1) []) f ∙ update_self v (i + 1) [])) refl
              | inr (f, _) ↦
                  subst (λ ys. has a ys ≡ false) (sym (update_other v (i + 1) [] m f))
                    (elsewhere a b m ne f)
            ],
          )),
    )
  where
    members : (a : Ptr) → has a (v i ++ v (i + 1)) ≡ true → IsSlot a
    members a b = ground (arith, has-append a (v i) (v (i + 1)), t.slots i a, t.slots (i + 1) a)

    elsewhere :
        (a : Ptr)
        → has a (v i ++ v (i + 1)) ≡ true
        → (m : ListId) → m ≢ i
        → m ≢ i + 1
        → has a (v m) ≡ false
    elsewhere a b m ne f =
        ground (arith, has-append a (v i) (v (i + 1)), t.apart m i a, t.apart m (i + 1) a)
