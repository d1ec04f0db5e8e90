-- ===== src/Proc/Create.antt =====
-- Creating processes: allocproc, userinit, growproc and fork of proc.c.
-- What the allocators return is an argument: `stack` for kalloc, with `frame` for what the page
-- holds where the trap frame comes to lie; `pgdir` for setupkvm and copyuvm; 0 where they fail.
-- Preprocessor symbol CS333_P3P4 is defined, as in the Makefile.
pub mod Alloc
pub mod Fork
pub mod Init
use Prim.Native.String.{String}
use tron_boss_os.Base.{
  ℕ, zero, suc, List, ◌+◌, ◌-◌, ◌*◌, ◌%◌, [], ◌∷◌, Option, none, some, ◌==◌, ltb, if◌then◌else◌, ℤ,
  pos, negsuc, update, take,
}
use tron_boss_os.Links
use tron_boss_os.Links.{
  Ptr, null, nproc, max_priority, ListId, Links, remove_from_list, remove_from_front,
  add_to_front_of_list, add_to_ready_priority_list,
}
use tron_boss_os.Kernel.{
  unused, embryo, runnable, Trapframe, Context, Proc, kfree, filedup, idup, inituvm, switchuvm,
  ptable_lock, M, ok, ◌>>=◌, ◌>>◌, pure, panic, check, on_links, link, modify, fetch, current, call,
  uint_mod,
}
use tron_boss_os.Proc.{
  default_priority, default_budget, ticks_to_promote, nofile, head_of, assert_state,
}
use tron_boss_os.Kernel.Spinlock.{acquire, release}

abbrev pgsize : ℕ
pgsize = 4096

-- `p->pid = nextpid++`
unfoldable pub next_pid : M ℕ
next_pid k = ok k.nextpid (record k { nextpid = (k.nextpid + 1) % uint_mod })

-- `kalloc` has failed: the process goes back to the free list.
unfoldable pub unalloc : Ptr → String → M (Unit {0})
unalloc p message = do
  acquire ptable_lock
  rc ← on_links (remove_from_list Links.embryo p)
  check rc message
  assert_state p embryo
  modify p (λ r. record r { state = unused })
  link (add_to_front_of_list Links.free p)
  release ptable_lock

abbrev fresh_context : ℕ → Context
fresh_context forkret = record { edi = 0; esi = 0; ebx = 0; ebp = 0; eip = forkret }

module _ (forkret : ℕ) where
  -- From `found`: on to the kernel stack and the fields that a new process starts with.
  unfoldable pub alloc_stack : (stack : Ptr) (frame : Trapframe) → Ptr → M Ptr
  alloc_stack stack frame p = do
    modify p (λ r. record r { kstack = stack })
    if stack == null
        then (do unalloc p "Failure removing from embryo list in allocproc."; pure null)
        else (do
          modify p (λ r. record r { tf = frame; context = fresh_context forkret })
          k ← λ k. ok k k
          modify p (λ r. record r {
            start_ticks = k.ticks;
            cpu_ticks_total = 0;
            cpu_ticks_in = 0;
            budget = default_budget;
            priority = default_priority;
          })
          pure p)

  unfoldable pub alloc_found : (stack : Ptr) (frame : Trapframe) → Ptr → M Ptr
  alloc_found stack frame p = do
    rc ← on_links (λ h. some (remove_from_front Links.free p h))
    check rc "Failed to remove from embryo."
    assert_state p unused
    modify p (λ r. record r { state = embryo })
    link (add_to_front_of_list Links.embryo p)
    n ← next_pid
    modify p (λ r. record r { pid = n })
    release ptable_lock
    alloc_stack stack frame p

  unfoldable pub allocproc : (stack : Ptr) (frame : Trapframe) → M Ptr
  allocproc stack frame = do
    acquire ptable_lock
    p ← head_of Links.free
    if p == null then (do release ptable_lock; pure null) else alloc_found stack frame p

-- `for(p = ptable.proc; p < &ptable.proc[NPROC]; p++)` with `n` slots to go
unfoldable pub fill_free : ℕ → Links → Links
fill_free zero h = h
fill_free (suc n) h = fill_free n (add_to_front_of_list Links.free (nproc - n) h)

-- The heads of all lists are set to 0.
unfoldable pub clear_heads : Links → Links
clear_heads h = record h { heads = λ l. if ltb l 11 then null else h.heads l }

abbrev pub user_frame : Trapframe
user_frame = record {
  edi = 0;
  esi = 0;
  ebp = 0;
  oesp = 0;
  ebx = 0;
  edx = 0;
  ecx = 0;
  eax = 0;
  gs = 0;
  fs = 0;
  es = 5 * 8 + 3;
  ds = 5 * 8 + 3;
  trapno = 0;
  err = 0;
  eip = 0;
  cs = 4 * 8 + 3;
  eflags = 0x200;
  esp = pgsize;
  ss = 5 * 8 + 3;
}

-- "initcode"
abbrev pub init_name : List ℕ
init_name = b'i' ∷ b'n' ∷ b'i' ∷ b't' ∷ b'c' ∷ b'o' ∷ b'd' ∷ b'e' ∷ []

-- From `initproc = p` on. `root` is what namei("/") returns.
unfoldable pub first_process : (pgdir root : Ptr) → Ptr → M (Unit {0})
first_process pgdir root p = do
  λ k. ok tt (record k { initproc = p })
  modify p (λ r. record r { pgdir = pgdir })
  if pgdir == null then panic "userinit: out of memory?" else (do
    call (inituvm pgdir)
    modify p (λ r. record r { sz = pgsize; tf = user_frame; uid = 0; gid = 0 })
    modify p (λ r. record r { name = init_name; cwd = root })
    acquire ptable_lock
    λ k. ok tt (record k { promote_at_time = ticks_to_promote })
    rc ← on_links (remove_from_list Links.embryo p)
    check rc "Failure to remove from embryo list in userinit"
    assert_state p embryo
    modify p (λ r. record r { state = runnable })
    link (λ h. record { next = update h.next p null; heads = update h.heads (Links.ready 0) p })
    release ptable_lock)

module _ (forkret : ℕ) where
  unfoldable pub userinit : (stack : Ptr) (frame : Trapframe) (pgdir root : Ptr) → M (Unit {0})
  userinit stack frame pgdir root = do
    acquire ptable_lock
    link clear_heads
    link (fill_free nproc)
    release ptable_lock
    p ← allocproc forkret stack frame
    first_process pgdir root p

-- `for(i = 0; i < NOFILE; i++)` of fork with `n` files to go
unfoldable pub fork_files : ℕ → (parent np : Ptr) → M (Unit {0})
fork_files zero parent np = pure tt
fork_files (suc n) parent np = do
  r ← fetch parent
  if r.ofile (nofile - suc n) == null then pure tt else (do
    call (filedup (r.ofile (nofile - suc n)))
    modify np
        (λ c. record c { ofile = update c.ofile (nofile - suc n) (r.ofile (nofile - suc n)) }))
  fork_files n parent np

-- `copyuvm` has failed.
unfoldable pub fork_failed : Ptr → M ℤ
fork_failed np = do
  r ← fetch np
  call (kfree r.kstack)
  modify np (λ c. record c { kstack = null })
  unalloc np "Failure to remove from embryo list in userinit"
  pure (negsuc 0)

-- The child becomes runnable.
unfoldable pub fork_ready : Ptr → M (Unit {0})
fork_ready np = do
  acquire ptable_lock
  rc ← on_links (remove_from_list Links.embryo np)
  check rc "Failure to remove from embryo list in userinit"
  assert_state np embryo
  modify np (λ c. record c { state = runnable })
  r ← fetch np
  rc ← on_links (add_to_ready_priority_list (Links.ready r.priority) np)
  check rc "Failure to add to ready list in fork"
  release ptable_lock

unfoldable pub fork_copy : Ptr → M ℤ
fork_copy np = do
  p ← current
  r ← fetch p
  modify np (λ c. record c {
    sz = r.sz;
    parent = p;
    tf = record (r.tf) { eax = 0 };
    uid = r.uid;
    gid = r.gid;
  })
  fork_files nofile p np
  call (idup r.cwd)
  modify np (λ c. record c { cwd = r.cwd; name = take 15 r.name })
  c ← fetch np
  fork_ready np
  pure (pos c.pid)

module _ (forkret : ℕ) where
  unfoldable pub fork : (stack : Ptr) (frame : Trapframe) (pgdir : Ptr) → M ℤ
  fork stack frame pgdir = do
    np ← allocproc forkret stack frame
    if np == null then pure (negsuc 0) else (do
      modify np (λ c. record c { pgdir = pgdir })
      if pgdir == null then fork_failed np else fork_copy np)

-- The size that growproc asks for; `none` where the allocator fails. `allocuvm` and `deallocuvm` of
-- vm.c return the new size, or 0 where they fail.
unfoldable pub grown : (allocuvm deallocuvm : Ptr → ℕ → ℕ → ℕ) → Proc → ℤ → Option ℕ
grown allocuvm deallocuvm r (pos zero) = some r.sz
grown allocuvm deallocuvm r (pos (suc m)) =
    let sz = allocuvm r.pgdir r.sz ((r.sz + suc m) % uint_mod) in if sz == 0 then none else some sz
grown allocuvm deallocuvm r (negsuc m) =
    let sz = deallocuvm r.pgdir r.sz ((r.sz + uint_mod - suc m) % uint_mod) in
    if sz == 0 then none else some sz

abbrev set_size : Ptr → Option ℕ → M ℤ
set_size p none = pure (negsuc 0)
set_size p (some n) = do modify p (λ c. record c { sz = n }); call (switchuvm p); pure (pos 0)

unfoldable pub growproc : (allocuvm deallocuvm : Ptr → ℕ → ℕ → ℕ) → ℤ → M ℤ
unfolding grown
growproc allocuvm deallocuvm n = do
  p ← current
  r ← fetch p
  set_size p (grown allocuvm deallocuvm r n)
