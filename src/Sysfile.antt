-- ===== src/Sysfile.antt =====
-- File descriptors: argfd, fdalloc, sys_dup and sys_close of sysfile.c, on `proc->ofile` and the file
-- table. The arguments are given as in Syscall. `none` is a panic.
pub mod Holders
pub mod Calls
use tron_boss_os.Base.{
  ℕ, zero, suc, ◌-◌, Bool, true, false, ◌||◌, Option, none, some, ◌==◌, leb, if◌then◌else◌, ℤ, pos,
  negsuc, update,
}
use tron_boss_os.Links.{Ptr, null}
use tron_boss_os.Strings.{Memory}
use tron_boss_os.Syscall.{argint}
use tron_boss_os.File.{Ftable, filedup, Closing, nothing, fileclose}

-- NOFILE of param.h
abbrev pub nofile : ℕ
nofile = 16

-- `proc->ofile`
abbrev pub Ofile : Type 0
Ofile = ℕ → Ptr

-- argfd behind argint. A negative int is 2 ^ 31 or more here.
abbrev pub check_fd : Ofile → Option ℕ → Option (ℕ × Ptr)
check_fd ofile none = none
check_fd ofile (some fd) = if leb nofile fd || (ofile fd == null) then none else some (fd, ofile fd)

unfoldable pub argfd : (sz : ℕ) (mem : Memory) (esp n : ℕ) → Ofile → Option (ℕ × Ptr)
unfolding argint
argfd sz mem esp n ofile = check_fd ofile (argint sz mem esp n)

-- The loop of fdalloc with `n` descriptors to go; `none` is -1.
unfoldable pub fdalloc_loop : ℕ → Ptr → Ofile → Option (ℕ × Ofile)
fdalloc_loop zero f ofile = none
fdalloc_loop (suc n) f ofile =
    let fd = nofile - suc n in
    let rest = fdalloc_loop n f ofile in
    if ofile fd == null then some (fd, update ofile fd f) else rest

unfoldable pub fdalloc : Ptr → Ofile → Option (ℕ × Ofile)
unfolding fdalloc_loop
fdalloc f ofile = fdalloc_loop nofile f ofile

-- What is left after a system call: its result, the descriptors and the file table
abbrev pub Left : Type 0
Left = ℤ × Ofile × Ftable

abbrev pub dup_at : Ptr → Option (ℕ × Ofile) → Ofile → Ftable → Option Left
dup_at f none ofile t = some (negsuc 0, ofile, t)
dup_at f (some (fd, ofile')) ofile t = elim (filedup f t) [
  | none ↦ none
  | some (_, t') ↦ some (pos fd, ofile', t')
]

abbrev pub dup : Option (ℕ × Ptr) → Ofile → Ftable → Option Left
dup none ofile t = some (negsuc 0, ofile, t)
dup (some (_, f)) ofile t = dup_at f (fdalloc f ofile) ofile t

unfoldable pub sys_dup : (sz : ℕ) (mem : Memory) (esp : ℕ) → Ofile → Ftable → Option Left
unfolding argfd fdalloc filedup
sys_dup sz mem esp ofile t = dup (argfd sz mem esp 0 ofile) ofile t

abbrev pub close : Option (ℕ × Ptr) → Ofile → Ftable → Option (Closing × Left)
close none ofile t = some (nothing, (negsuc 0, ofile, t))
close (some (fd, f)) ofile t = elim (fileclose f t) [
  | none ↦ none
  | some (closing, t') ↦ some (closing, (pos 0, update ofile fd null, t'))
]

unfoldable pub sys_close :
    (sz : ℕ) (mem : Memory) (esp : ℕ) → Ofile → Ftable → Option (Closing × Left)
unfolding argfd fileclose
sys_close sz mem esp ofile t = close (argfd sz mem esp 0 ofile) ofile t
