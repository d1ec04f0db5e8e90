-- ===== src/Examples.antt =====
-- States on which the theorems are applied: a running process in slot 64 with a child in slot 63,
-- and 62 free slots.
pub mod Lists
pub mod Family
pub mod Bytes
pub mod Memory
pub mod Storage
pub mod Files
pub mod Buffers
pub mod Inodes
pub mod Descriptors
use tron_boss_os.Base.{
  ℕ, ℤ, ◌≤◌, ◌≡◌, refl, sym, ap, subst, true, ◌==◌, if◌then◌else◌, false, List, [], ◌∷◌, ◌++◌,
  arith, pos, update, update_self,
}
use tron_boss_os.Links
use tron_boss_os.Links.{
  Ptr, null, nproc, max_priority, Links, remove_from_front, add_to_front_of_list,
}
use tron_boss_os.Links.Chain.{IsSlot}
use tron_boss_os.Kernel.{Proc, ProcState, unused, running, Kernel, Cpu, Context, ptable_lock}
use tron_boss_os.Kernel.Spinlock.{Free, Holds, acquired, acquired-Holds}
use tron_boss_os.Table.{Table, View, place, take_off_front, put_front, Table-update_out}
use tron_boss_os.Proc.{default_budget}
use tron_boss_os.Proc.Create.{fill_free, clear_heads, user_frame}
use tron_boss_os.Proc.Create.Init.{slots_down, free_only, init_lists, free_first}

abbrev pub parent_slot : Ptr
parent_slot = 64

abbrev pub child_slot : Ptr
child_slot = 63

abbrev pub process : ProcState → (pid : ℕ) → (parent : Ptr) → (chan : ℕ) → Proc
process s n p c = record {
  sz = 4096;
  pgdir = 1;
  kstack = 1;
  state = s;
  pid = n;
  parent = p;
  tf = user_frame;
  context = record { edi = 0; esi = 0; ebx = 0; ebp = 0; eip = 0 };
  chan = c;
  killed = false;
  ofile = λ fd. if fd == 0 then 5 else 0;
  cwd = 1;
  name = b's' ∷ b'h' ∷ [];
  start_ticks = 0;
  uid = 0;
  gid = 0;
  cpu_ticks_total = 0;
  cpu_ticks_in = 0;
  priority = 0;
  budget = default_budget;
}

abbrev pub no_processes : Ptr → Proc
no_processes p = process unused 0 0 0

abbrev pub no_links : Links
no_links = record { next = λ _. 0; heads = λ _. 0 }

-- The first free process, with new fields, on the list where it belongs.
abbrev started_links : (p : Ptr) → Proc → Links → Links
started_links p r h = add_to_front_of_list (place r) p (remove_from_front Links.free null h).1

abbrev started_view : (p : Ptr) → Proc → (xs : List Ptr) → View → View
started_view p r xs v = let w = update v Links.free xs in update w (place r) (p ∷ w (place r))

started-Table :
    {procs : Ptr → Proc} {h : Links} {v : View}
    → Table null procs h v
    → (p : Ptr) (xs : List Ptr) (r : Proc) → v Links.free ≡ p ∷ xs
    → IsSlot p
    → r.priority ≤ max_priority
    → Table null (update procs p r) (started_links p r h) (started_view p r xs v)
started-Table {procs} {h} {v} t p xs r e s cap =
    let (g, eq, _, t1) = take_off_front t Links.free null p xs e in
    subst
      (λ (o : Links).
        Table null (update procs p r) (add_to_front_of_list (place r) p o) (started_view p r xs v))
      (sym (ap (λ (x : ℤ × Links). x.1) eq))
      (put_front (Table-update_out t1 r cap) (place r) s (rw (update_self procs p r) refl))

abbrev pub parent : Proc
parent = process running 1 0 0

abbrev idle_links : Links
idle_links = fill_free nproc (clear_heads no_links)

abbrev pub family_procs : Proc → Ptr → Proc
family_procs child = update (update no_processes parent_slot parent) child_slot child

unfoldable pub family_links : Proc → Links
family_links child = started_links child_slot child (started_links parent_slot parent idle_links)

unfoldable pub family_view : Proc → View
family_view child =
    started_view child_slot child (slots_down 62)
      (started_view parent_slot parent (slots_down 63) (free_only nproc))

abbrev pub user_cpu : Cpu
user_cpu = record { ncli = 0; intena = false; interrupts = true }

-- The parent runs in user space; no lock is held.
abbrev pub family : Proc → Kernel
family child = record {
  procs = family_procs child;
  links = family_links child;
  promote_at_time = 1100;
  initproc = parent_slot;
  nextpid = 3;
  ticks = 10;
  proc = parent_slot;
  cpu = user_cpu;
  locks = λ _. false;
  calls = [];
}

abbrev pub family_locked : Proc → Kernel
family_locked child = acquired ptable_lock (family child)

pub family-Table :
    (child : Proc)
    → child.priority ≤ max_priority
    → Table null (family_procs child) (family_links child) (family_view child)
unfolding family_links family_view update slots_down
family-Table child cap =
    let t0 = init_lists no_processes no_links (λ l. refl) (λ q s. (refl, omega arith)) in
    let t1 =
      started-Table t0 parent_slot (slots_down 63) parent free_first (omega arith) (omega arith) in
    started-Table t1 child_slot (slots_down 62) child refl (omega arith) cap

pub family-Free : (child : Proc) → Free ptable_lock 0 (family child)
family-Free child = record { unlocked = refl; depth = refl }

pub family-Holds : (child : Proc) → Holds ptable_lock 0 (family_locked child)
family-Holds child = acquired-Holds ptable_lock 0 (family child) (family-Free child)
