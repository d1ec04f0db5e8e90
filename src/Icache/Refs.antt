-- ===== src/Icache/Refs.antt =====
-- References to inodes: one for each holder of a pointer, and one entry for each inode.
use tron_boss_os.Base.{
  ℕ, ◌^◌, ◌≤◌, ◌<◌, ◌≡◌, ◌≢◌, refl, sym, ap, ◌∙◌, inl, inr, Bool, true, false, ◌&&◌, List, [], ◌∷◌,
  arith, ◌==◌, eq-cases, update, update_self, update_other, has, erase, length, count, count-has,
  subst,
}
use tron_boss_os.Links.{Ptr}
use tron_boss_os.Kernel.{add_uint}
use tron_boss_os.Icache.{ninode, Inode, Icache, idup}

abbrev pub is_named : (dev inum : ℕ) → Inode → Bool
is_named dev inum i = (i.dev == dev) && (i.inum == inum)

-- `holders` has an entry as often as it is held.
pub record IsIcache (t : Icache) (holders : List Ptr) : Type 0 where
  pub counted : (ip : Ptr) → (t ip).ref ≡ count ip holders
  pub slots : (ip : Ptr) → has ip holders ≡ true → (1 ≤ ip) × (ip ≤ ninode)
  pub once :
      (dev inum : ℕ) (a b : Ptr)
      → has a holders ≡ true
      → has b holders ≡ true
      → is_named dev inum (t a) ≡ true
      → is_named dev inum (t b) ≡ true
      → a ≡ b

pub count_le : (a : ℕ) (xs : List ℕ) → count a xs ≤ length xs
count_le a [] = omega arith
count_le a (x ∷ xs) = ground (arith, count_le a xs)

pub has-erase_le : (a b : ℕ) (xs : List ℕ) → has a (erase b xs) ≡ true → has a xs ≡ true
has-erase_le a b [] m = m
has-erase_le a b (x ∷ xs) m = ground (arith, has-erase_le a b xs)

-- The reference count of an entry changes, but not its name.
pub IsIcache-same_name :
    (t : Icache) (holders : List Ptr) (ip : Ptr) (x : Inode) (holders' : List Ptr)
    → IsIcache t holders
    → x.dev ≡ (t ip).dev
    → x.inum ≡ (t ip).inum
    → x.ref ≡ count ip holders'
    → ((g : Ptr) → g ≢ ip → count g holders ≡ count g holders')
    → ((g : Ptr) → has g holders' ≡ true → has g holders ≡ true)
    → IsIcache (update t ip x) holders'
IsIcache-same_name t holders ip x holders' i ed en er others held =
    let name : (dev inum : ℕ) (g : Ptr)
        → is_named dev inum (update t ip x g) ≡ is_named dev inum (t g) =
      λ dev inum g. elim (eq-cases g ip) [
        | inl (e, _) ↦
            ap (λ (u : Ptr). is_named dev inum (update t ip x u)) e
            ∙ ap (is_named dev inum) (update_self t ip x)
            ∙ ap (λ (d : ℕ). (d == dev) && (x.inum == inum)) ed
            ∙ ap (λ (k : ℕ). ((t ip).dev == dev) && (k == inum)) en
            ∙ ap (λ (u : Ptr). is_named dev inum (t u)) (sym e)
        | inr (ne, _) ↦ ap (is_named dev inum) (update_other t ip x g ne)
      ] in
    record {
      counted = λ g. elim (eq-cases g ip) [
        | inl (e, _) ↦ rw (e, update_self t ip x) er
        | inr (ne, _) ↦ rw (update_other t ip x g ne) (i.counted g ∙ others g ne)
      ];
      slots = λ g m. i.slots g (held g m);
      once = λ dev inum a b ma mb na nb.
          i.once dev inum a b (held a ma) (held b mb) (sym (name dev inum a) ∙ na)
            (sym (name dev inum b) ∙ nb);
    }

-- An entry that nobody holds gets the name of an inode that has no entry.
pub IsIcache-new_name :
    (t : Icache) (holders : List Ptr) (ip : Ptr) (x : Inode)
    → IsIcache t holders
    → (1 ≤ ip) × (ip ≤ ninode)
    → has ip holders ≡ false
    → x.ref ≡ 1
    → ((g : Ptr) → has g holders ≡ true → is_named x.dev x.inum (t g) ≡ false)
    → IsIcache (update t ip x) (ip ∷ holders)
IsIcache-new_name t holders ip x i slot out er new =
    let at : (a : Ptr) → a ≡ ip → update t ip x a ≡ x =
      λ a e. ap (update t ip x) e ∙ update_self t ip x in
    let kept : (dev inum : ℕ) (a : Ptr)
        → a ≢ ip
        → is_named dev inum (update t ip x a) ≡ true
        → is_named dev inum (t a) ≡ true =
      λ dev inum a ne n. sym (ap (is_named dev inum) (update_other t ip x a ne)) ∙ n in
    let clash : (dev inum : ℕ) (a b : Ptr)
        → a ≡ ip
        → b ≢ ip
        → has b (ip ∷ holders) ≡ true
        → is_named dev inum (update t ip x a) ≡ true
        → is_named dev inum (update t ip x b) ≡ true
        → true ≡ false =
      λ dev inum a b e ne m na nb.
        let nx : is_named dev inum x ≡ true = sym (ap (is_named dev inum) (at a e)) ∙ na in
        let nt : is_named x.dev x.inum (t b) ≡ true = ground (arith, nx, kept dev inum b ne nb) in
        sym nt ∙ new b (ground arith) in
    record {
      counted = λ g. elim (eq-cases g ip) [
        | inl (e, _) ↦
            subst (λ (u : Ptr). (update t ip x u).ref ≡ count u (ip ∷ holders)) (sym e)
              (ap Inode.ref (update_self t ip x) ∙ ground (arith, er, count-has ip holders))
        | inr (ne, _) ↦ rw (update_other t ip x g ne) (ground (arith, i.counted g))
      ];
      slots = λ g m. elim (eq-cases g ip) [
        | inl (e, _) ↦ subst (λ (u : Ptr). (1 ≤ u) × (u ≤ ninode)) (sym e) slot
        | inr (ne, _) ↦ i.slots g (ground arith)
      ];
      once = λ dev inum a b ma mb na nb. elim (eq-cases a ip) [
        | inl (e, _) ↦ elim (eq-cases b ip) [
          | inl (e', _) ↦ e ∙ sym e'
          | inr (ne', _) ↦ absurd (ground (arith, clash dev inum a b e ne' mb na nb))
        ]
        | inr (ne, _) ↦ elim (eq-cases b ip) [
          | inl (e', _) ↦ absurd (ground (arith, clash dev inum b a e' ne ma nb na))
          | inr (ne', _) ↦
              i.once dev inum a b (ground arith) (ground arith) (kept dev inum a ne na)
                (kept dev inum b ne' nb)
        ]
      ];
    }

pub held_again :
    (g ip : Ptr) (holders : List Ptr)
    → has ip holders ≡ true
    → has g (ip ∷ holders) ≡ true
    → has g holders ≡ true
held_again g ip holders m mg = elim (eq-cases g ip) [
  | inl (e, _) ↦ ap (λ (u : Ptr). has u holders) e ∙ m
  | inr (ne, _) ↦ ground arith
]

pub one_more :
    (r : ℕ) (ip : Ptr) (holders : List Ptr)
    → r ≡ count ip holders
    → length holders < 2 ^ 31
    → add_uint r 1 ≡ count ip (ip ∷ holders)
one_more r ip holders e few = ground (arith, count_le ip holders)

-- One holder more of an inode that is held: iget finds it, or idup
pub IsIcache-more :
    (t : Icache) (holders : List Ptr) (ip : Ptr)
    → IsIcache t holders
    → length holders < 2 ^ 31
    → has ip holders ≡ true
    → IsIcache (update t ip (record (t ip) { ref = add_uint (t ip).ref 1 })) (ip ∷ holders)
IsIcache-more t holders ip i few m =
    IsIcache-same_name t holders ip (record (t ip) { ref = add_uint (t ip).ref 1 }) (ip ∷ holders) i
      refl refl (one_more (t ip).ref ip holders (i.counted ip) few) (λ g ne. ground arith)
      (λ g mg. held_again g ip holders m mg)

-- A change of an entry that keeps its name and its references
pub IsIcache-same :
    (t : Icache) (holders : List Ptr) (ip : Ptr) (x : Inode)
    → IsIcache t holders
    → x.dev ≡ (t ip).dev
    → x.inum ≡ (t ip).inum
    → x.ref ≡ (t ip).ref
    → IsIcache (update t ip x) holders
IsIcache-same t holders ip x i ed en er =
    IsIcache-same_name t holders ip x holders i ed en (er ∙ i.counted ip) (λ g ne. refl) (λ g m. m)

pub free_entry : (e : Ptr) (holders : List Ptr) → count e holders ≡ 0 → has e holders ≡ false
free_entry e holders z = ground (arith, count-has e holders)

pub taken_entry : (e : Ptr) (holders : List Ptr) → count e holders ≢ 0 → has e holders ≡ true
taken_entry e holders ne = ground (arith, count-has e holders)

-- idup
pub idup-IsIcache :
    (t : Icache) (holders : List Ptr) (ip : Ptr)
    → IsIcache t holders
    → length holders < 2 ^ 31
    → has ip holders ≡ true
    → IsIcache (idup ip t).1 (ip ∷ holders)
unfolding idup
idup-IsIcache t holders ip i few m = IsIcache-more t holders ip i few m
