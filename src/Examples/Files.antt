-- ===== src/Examples/Files.antt =====
-- Open files, strings, and the arguments of system calls.
use tron_boss_os.Base.{
  ℕ, ◌+◌, ◌≤◌, ◌<◌, ◌≡◌, ◌≢◌, refl, inl, ◌⊎◌, true, false, [], ◌∷◌, arith, some, none, pos, ◌==◌,
  if◌then◌else◌, ltb,
}
use tron_boss_os.Links.{Ptr}
use tron_boss_os.File.{File, fd_none, fd_inode, Ftable, nothing, fileclose, done, filewrite}
use tron_boss_os.File.Refs.{IsCounted, fileclose-IsCounted}
use tron_boss_os.File.Chunks.{filewrite_writes}
use tron_boss_os.Icache.{Dinode}
use tron_boss_os.Content.{Content}
use tron_boss_os.Content.Write.{written_at}
use tron_boss_os.Strings.{Memory, memmove, strncpy, strncmp}
use tron_boss_os.Strings.Move.{within, memmove-moved}
use tron_boss_os.Strings.Copy.{strncmp-strncpy}
use tron_boss_os.Syscall.{argptr}
use tron_boss_os.Syscall.Bounds.{argptr-inside}

abbrev pub closed_file : File
closed_file = record {
  type = fd_none;
  ref = 0;
  readable = false;
  writable = false;
  pipe = 0;
  ip = 0;
  off = 0;
}

abbrev pub inode_file : File
inode_file = record closed_file { type = fd_inode; ref = 2; writable = true; ip = 5; off = 510 }

-- File 1 is held by two descriptors.
abbrev table : Ftable
table f = if f == 1 then inode_file else closed_file

table-IsCounted : IsCounted table (1 ∷ 1 ∷ [])
table-IsCounted f = ground arith

fileclose-IsCounted_example :
    (t' : Ftable) × (fileclose 1 table ≡ some (nothing, t'))
    × IsCounted t' (1 ∷ [])
    × (true ≡ false → (t' 1).type ≡ fd_none)
    × ((g : Ptr) → g ≢ 1 → t' g ≡ table g)
fileclose-IsCounted_example = fileclose-IsCounted table 1 (1 ∷ 1 ∷ []) table-IsCounted refl

-- A file of 511 bytes in one block
abbrev one_block : Dinode
one_block = record {
  type = 2;
  major = 0;
  minor = 0;
  nlink = 1;
  uid = 0;
  gid = 0;
  mode = 0;
  size = 511;
  addrs = λ i. if i == 0 then 40 else 0;
}

abbrev content : Content
content = record { inode = one_block; blocks = λ bn i. 0; on_disk = one_block }

filewrite_writes_example :
    filewrite (λ major. none) false (pos 0) (1 ∷ 2 ∷ 3 ∷ []) inode_file content
    ≡ done (pos 3) (record inode_file { off = 513 }) (written_at 510 (1 ∷ 2 ∷ 3 ∷ []) content)
filewrite_writes_example =
    filewrite_writes (λ major. none) (pos 0) (1 ∷ 2 ∷ 3 ∷ []) inode_file content refl refl
      (λ e. absurd (omega (arith, e))) (omega arith) (omega arith)

memmove-moved_example : memmove 3 2 4 (λ a. a) 5 ≡ 4
memmove-moved_example = memmove-moved 3 2 4 (λ a. a) 5

-- Five letters and a NUL
abbrev letters : Memory
letters a = if ltb a 5 then 65 else 0

strncmp-strncpy_example :
    (strncmp (strncpy 20 0 (pos 14) letters) 20 0 14 ≡ pos 0)
    × ((a : ℕ) → within 20 14 a ≡ false → strncpy 20 0 (pos 14) letters a ≡ letters a)
strncmp-strncpy_example = strncmp-strncpy 20 0 14 letters (inl (omega arith))

-- Argument 1 of a system call is the pointer 100.
abbrev stack : Memory
stack a = if a == 8 then 100 else 0

argptr-inside_example :
    ((p : ℕ) × (argptr 4096 stack 0 1 16 ≡ some p)
      × (p ≡ 100)
      × (8 + 4 ≤ 4096)
      × (p < 4096)
      × (p + 16 ≤ 4096))
    ⊎ ((argptr 4096 stack 0 1 16 ≡ none) × ((4096 < 8 + 4) ⊎ ((4096 ≤ 100) ⊎ (4096 < 100 + 16))))
argptr-inside_example = argptr-inside 4096 stack 0 1 16 (omega arith) (omega arith)
