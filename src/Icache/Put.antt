-- ===== src/Icache/Put.antt =====
-- iput: the last reference to an inode without links frees it.
use tron_boss_os.Base.{
  ℕ, suc, ◌^◌, ◌<◌, ◌≡◌, refl, ◌∙◌, inl, inr, ◌⊎◌, true, false, Bool, Option, ◌&&◌, some, List,
  arith, ◌==◌, eq-cases, Bool-cases, update, update_self, ap, subst, has, erase, length, count,
  count-erase,
}
use tron_boss_os.Links.{Ptr}
use tron_boss_os.Kernel.{sub_uint}
use tron_boss_os.Icache.{
  Inode, Icache, Device, drop_ref, is_last, iput_enter, iput_leave, iput_free, iput, iput_rest,
  iput_locked,
}
use tron_boss_os.Icache.Trunc.{IsFreed, iput_free-IsFreed, iput_free-same}
use tron_boss_os.Icache.Refs.{
  IsIcache, count_le, has-erase_le, IsIcache-same_name, IsIcache-same, free_entry, taken_entry,
}

one_less :
    (r : ℕ) (ip : Ptr) (holders : List Ptr)
    → r ≡ count ip holders
    → length holders < 2 ^ 31
    → has ip holders ≡ true
    → sub_uint r 1 ≡ count ip (erase ip holders)
one_less r ip holders e few m =
    let n : count ip holders ≡ suc (count ip (erase ip holders)) =
      count-erase ip ip holders m ∙ ground arith in
    omega (arith, n, count_le ip holders)

-- One holder less
drop_ref-IsIcache :
    (t : Icache) (holders : List Ptr) (ip : Ptr)
    → IsIcache t holders
    → length holders < 2 ^ 31
    → has ip holders ≡ true
    → IsIcache (drop_ref ip t) (erase ip holders)
drop_ref-IsIcache t holders ip i few m =
    IsIcache-same_name t holders ip (record (t ip) { ref = sub_uint (t ip).ref 1 })
      (erase ip holders) i refl refl (one_less (t ip).ref ip holders (i.counted ip) few m)
      (λ g ne. count-erase g ip holders m ∙ ground arith) (λ g mg. has-erase_le g ip holders mg)

last_or_not :
    (x : Inode) (ip : Ptr) (holders : List Ptr)
    → x.ref ≡ count ip holders
    → has ip holders ≡ true
    → ((is_last x ≡ true)
        × (has ip (erase ip holders) ≡ false)
        × (x.valid ≡ true)
        × (x.copy.nlink ≡ 0))
      ⊎ ((is_last x ≡ false)
          × ((has ip (erase ip holders) ≡ true) ⊎ ((x.valid && (x.copy.nlink == 0)) ≡ false)))
last_or_not x ip holders e m =
    let n : x.ref ≡ suc (count ip (erase ip holders)) =
      e ∙ count-erase ip ip holders m ∙ ground arith in
    elim (eq-cases x.ref 1) [
      | inl (one, b) ↦ elim (Bool-cases (x.valid && (x.copy.nlink == 0))) [
        | inl l ↦ inl (
          ground arith,
          free_entry ip (erase ip holders) (omega arith),
          ground arith,
          ground arith,
        )
        | inr l ↦ inr (ground arith, inr l)
      ]
      | inr (ne, b) ↦ inr (rw b refl, inl (taken_entry ip (erase ip holders) (omega arith)))
    ]

iput-enters :
    (ip : Ptr) (t : Icache) (d : Device) {s : Bool × Icache}
    → iput_enter ip t ≡ some s
    → iput ip t d ≡ some (iput_rest ip s d)
unfolding iput
iput-enters ip t d e = ap (λ (s : Option (Bool × Icache)). iput_locked ip s d) e

iput_enter-frees :
    (ip : Ptr) (t : Icache)
    → is_last (t ip) ≡ true
    → (t ip).busy ≡ false
    → iput_enter ip t ≡ some (true, update t ip (record (t ip) { busy = true }))
unfolding iput_enter
iput_enter-frees ip t b idle = rw (b, idle) refl

iput_enter-drops :
    (ip : Ptr) (t : Icache) → is_last (t ip) ≡ false → iput_enter ip t ≡ some (false, drop_ref ip t)
unfolding iput_enter
iput_enter-drops ip t b = rw b refl

-- The lock of the entry does not matter to what is freed.
IsFreed-same :
    (i x : Inode) (d d' : Device) → x ≡ record i { busy = true } → IsFreed x d d' → IsFreed i d d'
IsFreed-same i x d d' e f =
    let g : IsFreed (record i { busy = true }) d d' = subst (λ (y : Inode). IsFreed y d d') e f in
    record { gone = g.gone; empty = g.empty; cut = g.cut; freed = g.freed; others = g.others }

-- What iput leaves of the entry and the references, if it has freed the inode
iput_leave-IsIcache :
    (t : Icache) (holders : List Ptr) (ip : Ptr)
    → IsIcache t holders
    → length holders < 2 ^ 31
    → has ip holders ≡ true
    → ((iput_leave ip t ip).busy ≡ false)
      × ((iput_leave ip t ip).valid ≡ false)
      × IsIcache (iput_leave ip t) (erase ip holders)
unfolding iput_leave
iput_leave-IsIcache t holders ip i few m =
    let y = record (t ip) { busy = false; valid = false } in
    let t1 = update t ip y in
    let z = record (t1 ip) { ref = sub_uint (t1 ip).ref 1 } in
    let at : update t1 ip z ip ≡ z = update_self t1 ip z in
    let before : t1 ip ≡ y = update_self t ip y in
    (
      ap (λ (x : Inode). x.busy) at ∙ ap (λ (x : Inode). x.busy) before,
      ap (λ (x : Inode). x.valid) at ∙ ap (λ (x : Inode). x.valid) before,
      drop_ref-IsIcache t1 holders ip (IsIcache-same t holders ip y i refl refl refl) few m,
    )

-- `iput` of an inode that is held, and that nobody has locked. If other references are left, or the
-- entry is not valid, or the inode has links, it takes one reference off, and the device stays as it
-- is. Else it frees each block of the inode, in order, and writes the inode back with type 0, size 0
-- and no addresses; the other inodes stay, and the entry is neither busy nor valid when it is
-- released. The cache stays well-formed, with one reference less, both ways.
pub iput-IsIcache :
    (t : Icache) (holders : List Ptr) (ip : Ptr) (d : Device)
    → IsIcache t holders
    → length holders < 2 ^ 31
    → has ip holders ≡ true
    → (t ip).busy ≡ false
    → ((t' : Icache) × (iput ip t d ≡ some (t', d))
        × ((has ip (erase ip holders) ≡ true)
            ⊎ (((t ip).valid && ((t ip).copy.nlink == 0)) ≡ false))
        × IsIcache t' (erase ip holders))
      ⊎ ((t' : Icache) × (d' : Device) × (iput ip t d ≡ some (t', d'))
          × (has ip (erase ip holders) ≡ false)
          × ((t ip).valid ≡ true)
          × ((t ip).copy.nlink ≡ 0)
          × IsFreed (t ip) d d'
          × ((t' ip).busy ≡ false)
          × ((t' ip).valid ≡ false)
          × IsIcache t' (erase ip holders))
unfolding iput_leave
iput-IsIcache t holders ip d i few m idle = elim (last_or_not (t ip) ip holders (i.counted ip) m) [
  | inr (b, which) ↦ inl (
    drop_ref ip t,
    iput-enters ip t d (iput_enter-drops ip t b),
    which,
    drop_ref-IsIcache t holders ip i few m,
  )
  | inl (b, last, v, nlink) ↦
      let x = record (t ip) { busy = true } in
      let t1 = update t ip x in
      let out = iput_free (t1 ip) d in
      let t2 = update t1 ip out.0 in
      let at : t1 ip ≡ x = update_self t ip x in
      let i1 : IsIcache t1 holders = IsIcache-same t holders ip x i refl refl refl in
      let (ed, en, er) = iput_free-same (t1 ip) d in
      let i2 : IsIcache t2 holders = IsIcache-same t1 holders ip out.0 i1 ed en er in
      let (free, invalid, i3) = iput_leave-IsIcache t2 holders ip i2 few m in
      inr (
        iput_leave ip t2,
        out.1,
        iput-enters ip t d (iput_enter-frees ip t b idle),
        last,
        v,
        nlink,
        IsFreed-same (t ip) (t1 ip) d out.1 at (iput_free-IsFreed (t1 ip) d),
        free,
        invalid,
        i3,
      )
]
