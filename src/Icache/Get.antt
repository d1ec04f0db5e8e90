-- ===== src/Icache/Get.antt =====
-- iget: one entry for each inode.
use tron_boss_os.Base.{
  ℕ, ◌^◌, ◌≤◌, ◌<◌, ◌≡◌, refl, sym, ap, ◌∙◌, inl, inr, ◌⊎◌, Bool, true, false, ◌&&◌, some, none,
  List, ◌∷◌, arith, ◌==◌, Bool-cases, update, update_self, has, length, count, count-has, ne→==,
}
use tron_boss_os.Links.{Ptr, null}
use tron_boss_os.Kernel.{add_uint}
use tron_boss_os.Icache.{ninode, Inode, Icache, is_cached, vacant, take_entry, iget}
use tron_boss_os.Icache.Search.{iget_loop-Finds}
use tron_boss_os.Icache.Refs.{
  is_named, IsIcache, count_le, IsIcache-new_name, IsIcache-more, free_entry, taken_entry,
}

cached_named : (dev inum : ℕ) (x : Inode) → is_cached dev inum x ≡ true → is_named dev inum x ≡ true
cached_named dev inum x c = ground arith

cached_held :
    (dev inum : ℕ) (t : Icache) (holders : List Ptr) (ip : Ptr)
    → (t ip).ref ≡ count ip holders
    → is_cached dev inum (t ip) ≡ true
    → has ip holders ≡ true
cached_held dev inum t holders ip e c = ground (arith, count-has ip holders)

-- An inode that somebody holds is found.
held_cached :
    (dev inum : ℕ) (t : Icache) (holders : List Ptr) (ip : Ptr)
    → (t ip).ref ≡ count ip holders
    → length holders < 2 ^ 31
    → has ip holders ≡ true
    → is_named dev inum (t ip) ≡ true
    → is_cached dev inum (t ip) ≡ true
held_cached dev inum t holders ip e few m n =
    ground (arith, count-has ip holders, count_le ip holders)

true_or_false : {A : Type 0} {b : Bool} → b ≡ true → b ≡ false → A
true_or_false t f = absurd (ground arith)

named_self : (dev inum : ℕ) → ((dev == dev) && (inum == inum)) ≡ true
named_self dev inum = ground arith

-- `iget` in a well-formed cache with less than 2 ^ 31 references: it returns the entry of the inode,
-- with one reference more, if somebody holds the inode; otherwise an entry that nobody holds, with
-- the inode's name, one reference and not valid; and it panics only if nobody holds the inode and
-- all entries are held. An inode never has two entries.
pub iget-IsIcache :
    (t : Icache) (holders : List Ptr) (dev inum : ℕ)
    → IsIcache t holders
    → length holders < 2 ^ 31
    → ((ip : Ptr) × (t' : Icache) × (iget dev inum t ≡ some (ip, t'))
        × (has ip holders ≡ true)
        × (is_named dev inum (t ip) ≡ true)
        × IsIcache t' (ip ∷ holders))
      ⊎ (((ip : Ptr) → has ip holders ≡ true → is_named dev inum (t ip) ≡ false)
          × (((ip : Ptr) × (t' : Icache) × (iget dev inum t ≡ some (ip, t'))
                × (has ip holders ≡ false)
                × ((t' ip).valid ≡ false)
                × (is_named dev inum (t' ip) ≡ true)
                × IsIcache t' (ip ∷ holders))
              ⊎ ((iget dev inum t ≡ none)
                  × ((ip : Ptr) → 1 ≤ ip → ip ≤ ninode → has ip holders ≡ true))))
unfolding iget
iget-IsIcache t holders dev inum i few =
    elim (iget_loop-Finds ninode dev inum t null (omega arith) (inl refl)) [
      | inl (ip, e, lo, hi, c) ↦
          let m = cached_held dev inum t holders ip (i.counted ip) c in
          inl (
            ip,
            update t ip (record (t ip) { ref = add_uint (t ip).ref 1 }),
            ap (take_entry dev inum t) e,
            m,
            cached_named dev inum (t ip) c,
            IsIcache-more t holders ip i few m,
          )
      | inr (missing, (e, r, which)) ↦
          let unnamed : (ip : Ptr) → has ip holders ≡ true → is_named dev inum (t ip) ≡ false =
            λ ip m. elim (Bool-cases (is_named dev inum (t ip))) [
              | inl n ↦
                  let slot = i.slots ip m in
                  absurd (
                    true_or_false (held_cached dev inum t holders ip (i.counted ip) few m n)
                      (missing ip (omega (arith, slot.0)) slot.1))
              | inr out ↦ out
            ] in
          inr (
            unnamed,
            elim which [
              | inl (lo, hi, z) ↦
                  let x = record (t e) {
                    dev = dev;
                    inum = inum;
                    ref = 1;
                    busy = false;
                    valid = false;
                  } in
                  let out : has e holders ≡ false = free_entry e holders (sym (i.counted e) ∙ z) in
                  inl (
                    e,
                    update t e x,
                    ap (take_entry dev inum t) r ∙ rw (ne→== e 0 (omega arith)) refl,
                    out,
                    ap Inode.valid (update_self t e x),
                    ap (is_named dev inum) (update_self t e x) ∙ named_self dev inum,
                    IsIcache-new_name t holders e x i (lo, hi) out refl unnamed,
                  )
              | inr (z, _, all) ↦ inr (
                ap (take_entry dev inum t) (r ∙ ap vacant z),
                λ ip lo hi.
                    taken_entry ip holders (λ free. all ip (omega arith) hi (i.counted ip ∙ free)),
              )
            ],
          )
    ]
