-- ===== src/Content.antt =====
-- The bytes of a file: writei of fs.c, on a locked inode. A block of the file is reached by its number
-- in the file: that bmap finds or allocates a disk block of its own for each number is taken as given,
-- and so is that the disk does not fill up, where balloc panics. `none` is a panic.
pub mod Write
use tron_boss_os.Base.{
  ℕ, zero, suc, ◌+◌, ◌-◌, ◌*◌, ◌/◌, ◌%◌, true, false, ◌||◌, ◌&&◌, Option, none, some, List, [], ◌∷◌,
  ◌==◌, ltb, leb, if◌then◌else◌, ℤ, pos, negsuc, update, length, take, drop,
}
use tron_boss_os.Kernel.{add_uint}
use tron_boss_os.Icache.{Dinode, ndirect, nindirect}

-- BSIZE and MAXFILE of fs.h, T_DEV of stat.h, NDEV of param.h
abbrev pub bsize : ℕ
bsize = 512

abbrev pub maxfile : ℕ
maxfile = ndirect + nindirect

abbrev pub t_dev : ℕ
t_dev = 3

abbrev pub ndev : ℕ
ndev = 10

-- An inode that is locked, with the bytes of its blocks, and the inode as iupdate last wrote it
pub record Content : Type 0 where
  pub inode : Dinode
  pub blocks : ℕ → ℕ → ℕ
  pub on_disk : Dinode

-- memmove into the data of a buffer, from the index `i` on
abbrev pub copy_in : ℕ → List ℕ → (ℕ → ℕ) → ℕ → ℕ
copy_in i [] block = block
copy_in i (c ∷ cs) block = copy_in (i + 1) cs (update block i c)

-- `min(n - tot, BSIZE - off%BSIZE)`
abbrev pub part : (left off : ℕ) → ℕ
part left off = if ltb left (bsize - off % bsize) then left else bsize - off % bsize

-- The loop of writei over the bytes that are left: the offset in the end, and the blocks. bmap panics
-- for a block behind MAXFILE, and for want of fuel the result is a panic too.
unfoldable pub write_blocks : ℕ → ℕ → List ℕ → (ℕ → ℕ → ℕ) → Option (ℕ × (ℕ → ℕ → ℕ))
write_blocks zero off src blocks = none
write_blocks (suc fuel) off [] blocks = some (off, blocks)
write_blocks (suc fuel) off (c ∷ cs) blocks =
    let bn = off / bsize in
    let m = part (length (c ∷ cs)) off in
    let block = copy_in (off % bsize) (take m (c ∷ cs)) (blocks bn) in
    let rest = write_blocks fuel (add_uint off m) (drop m (c ∷ cs)) (update blocks bn block) in
    if leb maxfile bn then none else rest

-- `ip->size = off; iupdate(ip)`, if the file has grown
abbrev pub grow : ℕ → Content → Content
grow off s =
    if ltb s.inode.size off
    then record s { inode = record s.inode { size = off }; on_disk = record s.inode { size = off } }
    else s

-- The end of writei
abbrev pub wrote : ℕ → Content → Option (ℕ × (ℕ → ℕ → ℕ)) → Option (ℤ × Content)
wrote n s none = none
wrote n s (some (off, blocks)) =
    let s' = record s { blocks = blocks } in
    some (pos n, if ltb 0 n && ltb s.inode.size off then grow off s' else s')

-- The branch for a device, where `write` is the entry of devsw
abbrev pub write_device : List ℕ → Content → Option (List ℕ → ℤ) → ℤ × Content
write_device src s none = (negsuc 0, s)
write_device src s (some write) = (write src, s)

-- `devsw_write` is what is found in devsw for a major number.
unfoldable pub writei :
    (devsw_write : ℕ → Option (List ℕ → ℤ)) (src : List ℕ) (off : ℕ)
    → Content
    → Option (ℤ × Content)
unfolding write_blocks
writei devsw_write src off s =
    let n = length src in
    if s.inode.type == t_dev
    then some (
        if leb ndev s.inode.major
        then (negsuc 0, s)
        else write_device src s (devsw_write s.inode.major))
    else if ltb s.inode.size off || ltb (add_uint off n) off
    then some (negsuc 0, s)
    else if ltb (maxfile * bsize) (add_uint off n)
    then some (negsuc 0, s)
    else wrote n s (write_blocks (suc n) off src s.blocks)
