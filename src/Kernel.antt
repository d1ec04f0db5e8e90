-- ===== src/Kernel.antt =====
-- The state that proc.c works on (proc.h, `ptable` of proc.c, the per-CPU part of spinlock.c), and
-- commands on it. One CPU is modelled; `ptable.lock` makes what it holds atomic for the others.
-- `next` of `struct proc` stands in `Links`, apart from the other fields.
-- A call of a component that is not part of this state is recorded in `calls`, newest first, and
-- what it returns is an argument of the function that calls it.
pub mod Spinlock
use Prim.Native.String.{String}
use tron_boss_os.Base.{
  ℕ, suc, ◌+◌, ◌-◌, ◌%◌, ◌^◌, Bool, true, false, Option, none, some, List, [], ◌∷◌, ◌==◌,
  if◌then◌else◌, ℤ, pos, negsuc, update,
}
use tron_boss_os.Links.{Ptr, Links}

pub data ProcState : Type 0 where
  unused embryo sleeping runnable running zombie : ProcState

-- The value of the enumerator.
abbrev pub state_num : ProcState → ℕ
state_num unused = 0
state_num embryo = 1
state_num sleeping = 2
state_num runnable = 3
state_num running = 4
state_num zombie = 5

abbrev pub same_state : ProcState → ProcState → Bool
same_state s t = state_num s == state_num t

-- The registers of `struct trapframe` (x86.h) without its padding.
pub record Trapframe : Type 0 where
  pub edi : ℕ
  pub esi : ℕ
  pub ebp : ℕ
  pub oesp : ℕ
  pub ebx : ℕ
  pub edx : ℕ
  pub ecx : ℕ
  pub eax : ℕ
  pub gs : ℕ
  pub fs : ℕ
  pub es : ℕ
  pub ds : ℕ
  pub trapno : ℕ
  pub err : ℕ
  pub eip : ℕ
  pub cs : ℕ
  pub eflags : ℕ
  pub esp : ℕ
  pub ss : ℕ

pub record Context : Type 0 where
  pub edi : ℕ
  pub esi : ℕ
  pub ebx : ℕ
  pub ebp : ℕ
  pub eip : ℕ

-- `tf` and `context` are what the pointers of the source point to. `name` is the text before the
-- closing NUL. A `void *chan` is an address, 0 for none.
pub record Proc : Type 0 where
  pub sz : ℕ
  pub pgdir : Ptr
  pub kstack : Ptr
  pub state : ProcState
  pub pid : ℕ
  pub parent : Ptr
  pub tf : Trapframe
  pub context : Context
  pub chan : ℕ
  pub killed : Bool
  pub ofile : ℕ → Ptr
  pub cwd : Ptr
  pub name : List ℕ
  pub start_ticks : ℕ
  pub uid : ℕ
  pub gid : ℕ
  pub cpu_ticks_total : ℕ
  pub cpu_ticks_in : ℕ
  pub priority : ℕ
  pub budget : ℕ

-- `interrupts` is FL_IF of the flags register.
pub record Cpu : Type 0 where
  pub ncli : ℕ
  pub intena : Bool
  pub interrupts : Bool

pub data Call : Type 0 where
  kfree freevm fileclose filedup idup iput switchuvm : Ptr → Call
  inituvm : Ptr → Call
  begin_op end_op switchkvm : Call

abbrev pub LockId : Type 0
LockId = ℕ

abbrev pub ptable_lock : LockId
ptable_lock = 0

-- `locks` says which locks this CPU holds, `proc` is the process that it runs.
pub record Kernel : Type 0 where
  pub procs : Ptr → Proc
  pub links : Links
  pub promote_at_time : ℕ
  pub initproc : Ptr
  pub nextpid : ℕ
  pub ticks : ℕ
  pub proc : Ptr
  pub cpu : Cpu
  pub locks : LockId → Bool
  pub calls : List Call

-- How a command ends: with a value, in `panic`, or a walk along a list has used up its fuel.
pub data Run {ℓ} (A : Type ℓ) : Type ℓ where
  ok : A → Kernel → Run A
  panicked : String → Run A
  out_of_fuel : Run A

abbrev pub M {ℓ} : Type ℓ → Type ℓ
M A = Kernel → Run A

infixl 5 ◌>>=◌ ◌>>◌
module _ {ℓ κ} {A : Type ℓ} {B : Type κ} where
  abbrev pub and_then : Run A → (A → M B) → Run B
  and_then (ok a k) f = f a k
  and_then (panicked m) f = panicked m
  and_then out_of_fuel f = out_of_fuel

  abbrev pub ◌>>=◌ : M A → (A → M B) → M B
  ◌>>=◌ m f k = and_then (m k) f

abbrev pub ◌>>◌ {ℓ} : {B : Type ℓ} → M (Unit {0}) → M B → M B
◌>>◌ m n k = and_then (m k) (λ _. n)

abbrev pub pure {ℓ} : {A : Type ℓ} → A → M A
pure a k = ok a k

abbrev pub panic {ℓ} : {A : Type ℓ} → String → M A
panic m k = panicked m

-- `if(rc < 0) panic(m);`
abbrev pub check : ℤ → String → M (Unit {0})
check (pos _) m = pure tt
check (negsuc _) m = panic m

-- A list routine as a command.
abbrev pub on_links : (Links → Option (ℤ × Links)) → M ℤ
on_links f k = elim (f k.links) [
  | none ↦ out_of_fuel
  | some (rc, g) ↦ ok rc (record k { links = g })
]

abbrev pub link : (Links → Links) → M (Unit {0})
link f k = ok tt (record k { links = f k.links })

-- A write to fields of the process at `p`.
abbrev pub modify : Ptr → (Proc → Proc) → M (Unit {0})
modify p f k = ok tt (record k { procs = update k.procs p (f (k.procs p)) })

abbrev pub fetch : Ptr → M Proc
fetch p k = ok (k.procs p) k

abbrev pub current : M Ptr
current k = ok k.proc k

abbrev pub call : Call → M (Unit {0})
call c k = ok tt (record k { calls = c ∷ k.calls })

-- `uint` is 32 bits wide.
abbrev pub uint_mod : ℕ
uint_mod = 2 ^ 32

abbrev pub add_uint : ℕ → ℕ → ℕ
add_uint a b = (a + b) % uint_mod

abbrev pub sub_uint : ℕ → ℕ → ℕ
sub_uint a b = (a + uint_mod - b) % uint_mod
