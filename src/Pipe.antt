-- ===== src/Pipe.antt =====
-- Pipes: pipe.c. The lock of the pipe is the field `locked`; an acquire that has to wait goes on
-- from the state in which the lock is free. `sleep` gives the lock up, so an operation that sleeps
-- ends there, and says with what it goes on once it is woken and has the lock again. A wakeup is
-- recorded in `wakeups`, newest first. `killed` is proc->killed at the time of the call.
pub mod Queue
pub mod Delivery
pub mod Stream
use tron_boss_os.Base.{
  ℕ, zero, suc, ◌+◌, ◌%◌, Bool, true, false, ◌&&◌, ◌||◌, not, List, [], ◌∷◌, ◌++◌, ◌==◌,
  if◌then◌else◌, ℤ, pos, negsuc, update, length,
}
use tron_boss_os.Links.{Ptr, null}
use tron_boss_os.Kernel.{add_uint}

abbrev pub pipesize : ℕ
pipesize = 512

pub data Channel : Type 0 where
  nread_channel nwrite_channel : Channel

-- `freed` says that the page of the pipe has been given back.
pub record Pipe : Type 0 where
  pub data_of : ℕ → ℕ
  pub nread : ℕ
  pub nwrite : ℕ
  pub readopen : Bool
  pub writeopen : Bool
  pub locked : Bool
  pub wakeups : List Channel
  pub freed : Bool

abbrev pub lock_pipe : Pipe → Pipe
lock_pipe p = record p { locked = true }

abbrev pub unlock_pipe : Pipe → Pipe
unlock_pipe p = record p { locked = false }

abbrev pub wake : Channel → Pipe → Pipe
wake c p = record p { wakeups = c ∷ p.wakeups }

-- The pipe that pipealloc sets up in a page with the contents `d`.
abbrev pub new_pipe : (d : ℕ → ℕ) → Pipe
new_pipe d = record {
  data_of = d;
  nread = 0;
  nwrite = 0;
  readopen = true;
  writeopen = true;
  locked = false;
  wakeups = [];
  freed = false;
}

-- What pipealloc writes to a `struct file`, next to FD_PIPE.
pub record End : Type 0 where
  pub file : Ptr
  pub readable : Bool
  pub writable : Bool
  pub page : Ptr

-- pipealloc returns 0 with both ends and the pipe, or -1 with the files that it has closed again.
pub data Alloc : Type 0 where
  made : (read_end write_end : End) → Pipe → Alloc
  failed : List Ptr → Alloc

-- At `bad`, `p` is always NULL.
abbrev pub close_files : (f0 f1 : Ptr) → List Ptr
close_files f0 f1 = (if f0 == null then [] else f0 ∷ []) ++ (if f1 == null then [] else f1 ∷ [])

-- `f0` and `f1` are what filealloc returns, `page` what kalloc returns, each if it is called.
unfoldable pub pipealloc : (f0 f1 page : Ptr) → (d : ℕ → ℕ) → Alloc
pipealloc f0 f1 page d =
    if f0 == null
    then failed (close_files f0 null)
    else if f1 == null
    then failed (close_files f0 f1)
    else if page == null
    then failed (close_files f0 f1)
    else made (record { file = f0; readable = true; writable = false; page = page })
        (record { file = f1; readable = false; writable = true; page = page }) (new_pipe d)

-- pipewrite returns, or it sleeps with these bytes left.
pub data WriteStep : Type 0 where
  write_returns : ℤ → WriteStep
  write_sleeps : List ℕ → WriteStep

-- `p->data[p->nwrite++ % PIPESIZE] = addr[i]`
abbrev pub put_byte : ℕ → Pipe → Pipe
put_byte c p = record p {
  data_of = update p.data_of (p.nwrite % pipesize) c;
  nwrite = add_uint p.nwrite 1;
}

-- The loop of pipewrite over the bytes that are left, with the lock held.
unfoldable pub write_loop : ℤ → Bool → List ℕ → Pipe → WriteStep × Pipe
write_loop n killed [] p = (write_returns n, unlock_pipe (wake nread_channel p))
write_loop n killed (c ∷ cs) p =
    let rest = write_loop n killed cs (put_byte c p) in
    if p.nwrite == add_uint p.nread pipesize
    then (if not p.readopen || killed
        then (write_returns (negsuc 0), unlock_pipe p)
        else (write_sleeps (c ∷ cs), unlock_pipe (wake nread_channel p)))
    else rest

-- `addr` is the bytes of the buffer that are to be written, none for a negative `n`.
unfoldable pub pipewrite : ℤ → Bool → List ℕ → Pipe → WriteStep × Pipe
unfolding write_loop
pipewrite n killed addr p = write_loop n killed addr (lock_pipe p)

-- piperead returns with bytes copied out, or it sleeps.
pub data ReadStep : Type 0 where
  read_returns : ℤ → List ℕ → ReadStep
  read_sleeps : ReadStep

-- `for(i = 0; i < n; i++)` of piperead: the bytes in the order in which they are copied
unfoldable pub read_loop : ℕ → Pipe → List ℕ × Pipe
read_loop zero p = ([], p)
read_loop (suc n) p =
    let rest = read_loop n (record p { nread = add_uint p.nread 1 }) in
    if p.nread == p.nwrite then ([], p) else (p.data_of (p.nread % pipesize) ∷ rest.0, rest.1)

-- The copy with the wakeup behind it. `n` is the number of rounds, 0 for a negative count.
abbrev pub read_copy : ℕ → Pipe → ReadStep × Pipe
read_copy n p =
    let out = read_loop n p in
    (read_returns (pos (length out.0)) out.0, unlock_pipe (wake nwrite_channel out.1))

unfoldable pub piperead : ℕ → Bool → Pipe → ReadStep × Pipe
unfolding read_loop
piperead n killed p =
    if (p.nread == p.nwrite) && p.writeopen
    then (if killed
        then (read_returns (negsuc 0) [], unlock_pipe (lock_pipe p))
        else (read_sleeps, unlock_pipe (lock_pipe p)))
    else read_copy n (lock_pipe p)

abbrev close_end : Bool → Pipe → Pipe
close_end true p = wake nread_channel (record p { writeopen = false })
close_end false p = wake nwrite_channel (record p { readopen = false })

unfoldable pub pipeclose : Bool → Pipe → Pipe
pipeclose writable p =
    let q = close_end writable (lock_pipe p) in
    if not q.readopen && not q.writeopen
    then record (unlock_pipe q) { freed = true }
    else unlock_pipe q
