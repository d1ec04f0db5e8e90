-- ===== src/Examples/Inodes.antt =====
-- The inode cache with the root directory in its first entry, held twice; and a file that nobody but its holder has a
-- name for.
use tron_boss_os.Base.{
  ℕ, ◌≡◌, ◌≤◌, refl, ◌⊎◌, true, false, [], ◌∷◌, arith, some, none, has, if◌then◌else◌, ◌==◌, sym,
  ltb, ◌+◌, ◌∙◌,
}
use tron_boss_os.Links.{Ptr}
use tron_boss_os.Icache.{ninode, Dinode, Inode, Icache, Device, iget, iput}
use tron_boss_os.Icache.Trunc.{IsFreed}
use tron_boss_os.Icache.Refs.{is_named, IsIcache}
use tron_boss_os.Icache.Get.{iget-IsIcache}
use tron_boss_os.Icache.Put.{iput-IsIcache}

abbrev directory : Dinode
directory = record {
  type = 1;
  major = 0;
  minor = 0;
  nlink = 1;
  uid = 0;
  gid = 0;
  mode = 0;
  size = 512;
  addrs = λ i. 0;
}

abbrev entry : ℕ → Inode
entry r = record { dev = 1; inum = 1; ref = r; busy = false; valid = true; copy = directory }

abbrev root_cached : Icache
root_cached ip = if ip == 1 then entry 2 else entry 0

only_root : (ip : Ptr) → has ip (1 ∷ 1 ∷ []) ≡ true → ip ≡ 1
only_root ip m = ground arith

root_cached-IsIcache : IsIcache root_cached (1 ∷ 1 ∷ [])
root_cached-IsIcache = record {
  counted = λ ip. ground arith;
  slots = λ ip m. let e = only_root ip m in (omega (arith, e), omega (arith, e));
  once = λ dev inum a b ma mb na nb. only_root a ma ∙ sym (only_root b mb);
}

iget-IsIcache_example :
    ((ip : Ptr) × (t' : Icache) × (iget 1 2 root_cached ≡ some (ip, t'))
      × (has ip (1 ∷ 1 ∷ []) ≡ true)
      × (is_named 1 2 (root_cached ip) ≡ true)
      × IsIcache t' (ip ∷ 1 ∷ 1 ∷ []))
    ⊎ (((ip : Ptr) → has ip (1 ∷ 1 ∷ []) ≡ true → is_named 1 2 (root_cached ip) ≡ false)
        × (((ip : Ptr) × (t' : Icache) × (iget 1 2 root_cached ≡ some (ip, t'))
              × (has ip (1 ∷ 1 ∷ []) ≡ false)
              × ((t' ip).valid ≡ false)
              × (is_named 1 2 (t' ip) ≡ true)
              × IsIcache t' (ip ∷ 1 ∷ 1 ∷ []))
            ⊎ ((iget 1 2 root_cached ≡ none)
                × ((ip : Ptr) → 1 ≤ ip → ip ≤ ninode → has ip (1 ∷ 1 ∷ []) ≡ true))))
iget-IsIcache_example =
    iget-IsIcache root_cached (1 ∷ 1 ∷ []) 1 2 root_cached-IsIcache (omega arith)

-- A file without links, with the blocks 40 and 41, of which one reference is left in entry 3
abbrev unlinked : Dinode
unlinked = record directory { type = 2; nlink = 0; addrs = λ i. if ltb i 2 then 40 + i else 0 }

abbrev last_held : Icache
last_held ip = if ip == 3 then record (entry 1) { inum = 7; copy = unlinked } else entry 0

abbrev device : Device
device = record { dinodes = λ n. unlinked; words = λ b i. 0; freed = [] }

only_file : (ip : Ptr) → has ip (3 ∷ []) ≡ true → ip ≡ 3
only_file ip m = ground arith

last_held-IsIcache : IsIcache last_held (3 ∷ [])
last_held-IsIcache = record {
  counted = λ ip. ground arith;
  slots = λ ip m. let e = only_file ip m in (omega (arith, e), omega (arith, e));
  once = λ dev inum a b ma mb na nb. only_file a ma ∙ sym (only_file b mb);
}

iput-IsIcache_example :
    ((t' : Icache) × (iput 3 last_held device ≡ some (t', device))
      × ((false ≡ true) ⊎ (true ≡ false))
      × IsIcache t' [])
    ⊎ ((t' : Icache) × (d' : Device) × (iput 3 last_held device ≡ some (t', d'))
        × (false ≡ false)
        × (true ≡ true)
        × (unlinked.nlink ≡ 0)
        × IsFreed (last_held 3) device d'
        × ((t' 3).busy ≡ false)
        × ((t' 3).valid ≡ false)
        × IsIcache t' [])
iput-IsIcache_example =
    iput-IsIcache last_held (3 ∷ []) 3 device last_held-IsIcache (omega arith) refl refl
