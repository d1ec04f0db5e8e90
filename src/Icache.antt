-- ===== src/Icache.antt =====
-- The inode cache of fs.c: iget, idup, ilock, iunlock, iput with itrunc and iupdate. A `struct inode *`
-- is a number: 0 is NULL, entry i of `icache.inode` is i + 1. What stands between an acquire and the
-- release of `icache.lock` is one step. `ref` is the unsigned number with the bits of the int. `none`
-- is a panic. The wakeups of iunlock and iput are left out, and bfree is only recorded.
pub mod Search
pub mod Refs
pub mod Get
pub mod Trunc
pub mod Put
use tron_boss_os.Base.{
  ℕ, zero, suc, ◌+◌, ◌-◌, ◌^◌, Bool, true, false, ◌&&◌, ◌||◌, not, Option, none, some, List, [],
  ◌∷◌, ◌++◌, ◌==◌, ltb, if◌then◌else◌, update,
}
use tron_boss_os.Links.{Ptr, null}
use tron_boss_os.Kernel.{add_uint, sub_uint}

-- NINODE of param.h
abbrev pub ninode : ℕ
ninode = 50

-- What is kept of an inode on the disk
pub record Dinode : Type 0 where
  pub type : ℕ
  pub major : ℕ
  pub minor : ℕ
  pub nlink : ℕ
  pub uid : ℕ
  pub gid : ℕ
  pub mode : ℕ
  pub size : ℕ
  pub addrs : ℕ → ℕ

-- `flags` bit by bit: I_BUSY, I_VALID
pub record Inode : Type 0 where
  pub dev : ℕ
  pub inum : ℕ
  pub ref : ℕ
  pub busy : Bool
  pub valid : Bool
  pub copy : Dinode

abbrev pub Icache : Type 0
Icache = Ptr → Inode

-- `ref > 0` of an int
abbrev pub positive : ℕ → Bool
positive r = ltb 0 r && ltb r (2 ^ 31)

abbrev pub is_cached : (dev inum : ℕ) → Inode → Bool
is_cached dev inum i = positive i.ref && (i.dev == dev) && (i.inum == inum)

-- How the loop of iget ends: at the inode, or with `empty`.
pub data Found : Type 0 where
  cached vacant : Ptr → Found

-- The loop of iget with `n` entries to go
unfoldable pub iget_loop : (n dev inum : ℕ) → Icache → (empty : Ptr) → Found
iget_loop zero dev inum t empty = vacant empty
iget_loop (suc n) dev inum t empty =
    let ip = suc (ninode - suc n) in
    let rest =
      iget_loop n dev inum t (if (empty == null) && ((t ip).ref == 0) then ip else empty) in
    if is_cached dev inum (t ip) then cached ip else rest

-- iget behind its loop
abbrev pub take_entry : (dev inum : ℕ) → Icache → Found → Option (Ptr × Icache)
take_entry dev inum t (cached ip) =
    some (ip, update t ip (record (t ip) { ref = add_uint (t ip).ref 1 }))
take_entry dev inum t (vacant empty) =
    if empty == null
    then none
    else some (
      empty,
      update t empty
          (record (t empty) { dev = dev; inum = inum; ref = 1; busy = false; valid = false }),
    )

unfoldable pub iget : (dev inum : ℕ) → Icache → Option (Ptr × Icache)
unfolding iget_loop
iget dev inum t = take_entry dev inum t (iget_loop ninode dev inum t null)

unfoldable pub idup : Ptr → Icache → Ptr × Icache
idup ip t = (ip, update t ip (record (t ip) { ref = add_uint (t ip).ref 1 }))

-- What a round of ilock comes to
pub data Lock : Type 0 where
  locked : Icache → Lock
  sleeping panics : Lock

-- ilock behind its first release: `dinode` is the inode on the disk.
abbrev pub fill : Ptr → (dinode : Dinode) → Icache → Lock
fill ip dinode t =
    if (t ip).valid
    then locked t
    else if dinode.type == 0
    then panics
    else locked (update t ip (record (t ip) { copy = dinode; valid = true }))

unfoldable pub ilock : Ptr → (disk : (dev inum : ℕ) → Dinode) → Icache → Lock
ilock ip disk t =
    if (ip == null) || not (positive (t ip).ref)
    then panics
    else if (t ip).busy
    then sleeping
    else fill ip (disk (t ip).dev (t ip).inum) (update t ip (record (t ip) { busy = true }))

unfoldable pub iunlock : Ptr → Icache → Option Icache
iunlock ip t =
    if (ip == null) || not (t ip).busy || not (positive (t ip).ref)
    then none
    else some (update t ip (record (t ip) { busy = false }))

-- The end of iput
abbrev pub drop_ref : Ptr → Icache → Icache
drop_ref ip t = update t ip (record (t ip) { ref = sub_uint (t ip).ref 1 })

-- `ip->ref == 1 && (ip->flags & I_VALID) && ip->nlink == 0`
abbrev pub is_last : Inode → Bool
is_last i = (i.ref == 1) && i.valid && (i.copy.nlink == 0)

-- iput up to itrunc, if it has to free the inode (true), or to its end
unfoldable pub iput_enter : Ptr → Icache → Option (Bool × Icache)
iput_enter ip t =
    if is_last (t ip)
    then if (t ip).busy then none else some (true, update t ip (record (t ip) { busy = true }))
    else some (false, drop_ref ip t)

-- What lies on the device of an inode: the inodes by number, the words of the blocks; and the blocks
-- for which bfree has been called, the last one at the end.
pub record Device : Type 0 where
  pub dinodes : ℕ → Dinode
  pub words : ℕ → ℕ → ℕ
  pub freed : List ℕ

-- NDIRECT, where CS333_P5 is defined, and NINDIRECT of fs.h
abbrev pub ndirect : ℕ
ndirect = 10

abbrev pub nindirect : ℕ
nindirect = 128

-- `for(i = 0; i < NDIRECT; i++)` of itrunc with `n` entries to go: the addresses, and the blocks freed
unfoldable pub trunc_direct : ℕ → (ℕ → ℕ) → List ℕ → (ℕ → ℕ) × List ℕ
trunc_direct zero addrs freed = (addrs, freed)
trunc_direct (suc n) addrs freed =
    let i = ndirect - suc n in
    let kept = trunc_direct n addrs freed in
    let cut = trunc_direct n (update addrs i 0) (freed ++ addrs i ∷ []) in
    if addrs i == 0 then kept else cut

-- `for(j = 0; j < NINDIRECT; j++)` of itrunc with `n` entries to go
unfoldable pub trunc_indirect : ℕ → (a : ℕ → ℕ) → List ℕ → List ℕ
trunc_indirect zero a freed = freed
trunc_indirect (suc n) a freed =
    let j = nindirect - suc n in trunc_indirect n a (if a j == 0 then freed else freed ++ a j ∷ [])

-- `if(ip->addrs[NDIRECT])` of itrunc
abbrev pub trunc_block : (words : ℕ → ℕ → ℕ) → (ℕ → ℕ) × List ℕ → (ℕ → ℕ) × List ℕ
trunc_block words (addrs, freed) =
    let b = addrs ndirect in
    if b == 0
    then (addrs, freed)
    else (update addrs ndirect 0, trunc_indirect nindirect (words b) freed ++ b ∷ [])

unfoldable pub iupdate : Inode → Device → Device
iupdate i d = record d { dinodes = update d.dinodes i.inum i.copy }

unfoldable pub itrunc : Inode → Device → Inode × Device
unfolding trunc_direct trunc_indirect iupdate
itrunc i d =
    let out = trunc_block d.words (trunc_direct ndirect i.copy.addrs d.freed) in
    let i' = record i { copy = record i.copy { addrs = out.0; size = 0 } } in
    (i', iupdate i' (record d { freed = out.1 }))

-- iput between its locked sections: itrunc, `ip->type = 0`, iupdate
unfoldable pub iput_free : Inode → Device → Inode × Device
unfolding itrunc iupdate
iput_free i d =
    let out = itrunc i d in
    let i' = record out.0 { copy = record out.0.copy { type = 0 } } in (i', iupdate i' out.1)

-- iput behind that: `ip->flags = 0`, and the reference
unfoldable pub iput_leave : Ptr → Icache → Icache
iput_leave ip t = drop_ref ip (update t ip (record (t ip) { busy = false; valid = false }))

abbrev pub iput_rest : Ptr → Bool × Icache → Device → Icache × Device
iput_rest ip (false, t) d = (t, d)
iput_rest ip (true, t) d =
    let out = iput_free (t ip) d in (iput_leave ip (update t ip out.0), out.1)

abbrev pub iput_locked : Ptr → Option (Bool × Icache) → Device → Option (Icache × Device)
iput_locked ip none d = none
iput_locked ip (some s) d = some (iput_rest ip s d)

unfoldable pub iput : Ptr → Icache → Device → Option (Icache × Device)
unfolding iput_enter iput_free iput_leave
iput ip t d = iput_locked ip (iput_enter ip t) d

unfoldable pub iunlockput : Ptr → Icache → Device → Option (Icache × Device)
unfolding iunlock iput
iunlockput ip t d = elim (iunlock ip t) [ none ↦ none | some t' ↦ iput ip t' d ]
