-- ===== src/Syscall.antt =====
-- The arguments of a system call: syscall.c. `sz` is proc->sz, `esp` is proc->tf->esp, and `mem` is
-- the memory of the process. An int is given as the unsigned number with the same bits. `none` is
-- the result -1.
pub mod Bounds
use tron_boss_os.Base.{
  ℕ, zero, suc, ◌+◌, ◌-◌, ◌*◌, ◌%◌, Bool, true, false, ◌||◌, Option, none, some, ◌==◌, ltb, leb,
  if◌then◌else◌,
}
use tron_boss_os.Kernel.{uint_mod, add_uint}
use tron_boss_os.Strings.{Memory}

-- `*(int*)(addr)`, the low byte first
abbrev pub load_int : Memory → ℕ → ℕ
load_int mem addr =
    mem addr + mem (addr + 1) * 256 + mem (addr + 2) * 65536 + mem (addr + 3) * 16777216

unfoldable pub fetchint : (sz : ℕ) (mem : Memory) (addr : ℕ) → Option ℕ
fetchint sz mem addr =
    if leb sz addr || ltb sz (add_uint addr 4) then none else some (load_int mem addr)

-- `for(s = *pp; s < ep; s++)` with `n` bytes before `ep`
unfoldable pub fetchstr_loop : (n : ℕ) (mem : Memory) (s pp : ℕ) → Option ℕ
fetchstr_loop zero mem s pp = none
fetchstr_loop (suc n) mem s pp =
    let rest = fetchstr_loop n mem (suc s) pp in if mem s == 0 then some (s - pp) else rest

-- `*pp` is `addr`; the result is the length of the string.
unfoldable pub fetchstr : (sz : ℕ) (mem : Memory) (addr : ℕ) → Option ℕ
unfolding fetchstr_loop
fetchstr sz mem addr = if leb sz addr then none else fetchstr_loop (sz - addr) mem addr addr

unfoldable pub argint : (sz : ℕ) (mem : Memory) (esp n : ℕ) → Option ℕ
unfolding fetchint
argint sz mem esp n = fetchint sz mem ((esp + 4 + 4 * n) % uint_mod)

-- argptr behind argint
abbrev pub check_block : (sz size : ℕ) → Option ℕ → Option ℕ
check_block sz size none = none
check_block sz size (some i) = if leb sz i || ltb sz (add_uint i size) then none else some i

unfoldable pub argptr : (sz : ℕ) (mem : Memory) (esp n size : ℕ) → Option ℕ
unfolding argint
argptr sz mem esp n size = check_block sz size (argint sz mem esp n)

-- argstr behind argint: the string and its length
abbrev pub check_string : (sz : ℕ) (mem : Memory) → Option ℕ → Option (ℕ × ℕ)
check_string sz mem none = none
check_string sz mem (some addr) = elim (fetchstr sz mem addr) [
  | none ↦ none
  | some n ↦ some (addr, n)
]

unfoldable pub argstr : (sz : ℕ) (mem : Memory) (esp n : ℕ) → Option (ℕ × ℕ)
unfolding argint
argstr sz mem esp n = check_string sz mem (argint sz mem esp n)
