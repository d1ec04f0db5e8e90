-- ===== src/Examples/Descriptors.antt =====
-- Descriptors 0 and 1 of a process have file 1; the argument of a system call is descriptor 1. And a
-- path of two names.
use tron_boss_os.Base.{
  ℕ, ◌≡◌, ◌≢◌, ◌<◌, refl, ◌⊎◌, [], ◌∷◌, ◌++◌, arith, some, pos, negsuc, has, ◌==◌, ltb,
  if◌then◌else◌, update,
}
use tron_boss_os.Links.{null}
use tron_boss_os.Strings.{Memory}
use tron_boss_os.File.{Ftable, nothing, closing}
use tron_boss_os.File.Refs.{IsCounted}
use tron_boss_os.Examples.Files.{closed_file, inode_file}
use tron_boss_os.Syscall.{argint}
use tron_boss_os.Sysfile.{nofile, Ofile, sys_dup, sys_close}
use tron_boss_os.Sysfile.Holders.{holders}
use tron_boss_os.Sysfile.Calls.{IsBadFd, IsFd, dup-IsCounted, close-IsCounted}
use tron_boss_os.Path.{elements}
use tron_boss_os.Path.Elements.{path_of, slashes, elements-path_of}

abbrev ofile : Ofile
ofile fd = if ltb fd 2 then 1 else null

abbrev table : Ftable
table f = if f == 1 then inode_file else closed_file

table-IsCounted : IsCounted table (holders ofile [])
unfolding holders
table-IsCounted f = ground arith

-- The int 1 at address 4
abbrev argument : Memory
argument a = if a == 4 then 1 else 0

dup-IsCounted_example :
    ((sys_dup 4096 argument 0 ofile table ≡ some (negsuc 0, ofile, table))
      × (IsBadFd ofile (argint 4096 argument 0 0) ⊎ ((i : ℕ) → i < nofile → ofile i ≢ null)))
    ⊎ ((fd : ℕ) × (new : ℕ) × (t' : Ftable) × IsFd ofile (argint 4096 argument 0 0) fd
        × (sys_dup 4096 argument 0 ofile table ≡ some (pos new, update ofile new (ofile fd), t'))
        × (new < nofile)
        × (ofile new ≡ null)
        × ((i : ℕ) → i < new → ofile i ≢ null)
        × IsCounted t' (holders (update ofile new (ofile fd)) []))
dup-IsCounted_example = dup-IsCounted 4096 argument 0 ofile table [] table-IsCounted

close-IsCounted_example :
    ((sys_close 4096 argument 0 ofile table ≡ some (nothing, (negsuc 0, ofile, table)))
      × IsBadFd ofile (argint 4096 argument 0 0))
    ⊎ ((fd : ℕ) × (t' : Ftable) × IsFd ofile (argint 4096 argument 0 0) fd
        × (sys_close 4096 argument 0 ofile table
            ≡ some (
              if has (ofile fd) (holders (update ofile fd null) [])
                  then nothing
                  else closing (table (ofile fd)).type (table (ofile fd)),
              (pos 0, update ofile fd null, t'),
            ))
        × IsCounted t' (holders (update ofile fd null) []))
close-IsCounted_example = close-IsCounted 4096 argument 0 ofile table [] table-IsCounted

-- "//usr/ls/"
elements-path_of_example :
    elements 3 (slashes 2 ++ path_of (((117, 115 ∷ 114 ∷ []), 0) ∷ ((108, 115 ∷ []), 1) ∷ []))
    ≡ some ((117 ∷ 115 ∷ 114 ∷ []) ∷ (108 ∷ 115 ∷ []) ∷ [])
elements-path_of_example =
    elements-path_of (((117, 115 ∷ 114 ∷ []), 0) ∷ ((108, 115 ∷ []), 1) ∷ []) 2 3
      ((refl, (refl, (refl, tt))), ((refl, (refl, tt)), tt)) (omega arith)
