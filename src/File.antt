-- ===== src/File.antt =====
-- Open files: file.c. A `struct file *` is a number: 0 is NULL, slot i of `ftable.file` is i + 1.
-- What stands between an acquire and the release of `ftable.lock` is one step. `none` is a panic.
pub mod Refs
pub mod Chunks
use tron_boss_os.Base.{
  ℕ, zero, suc, ◌+◌, ◌-◌, ◌*◌, ◌/◌, ◌%◌, Bool, true, false, Option, none, some, List, [], ◌∷◌, ◌==◌,
  ltb, leb, if◌then◌else◌, ℤ, pos, negsuc, update, length, take, drop,
}
use tron_boss_os.Links.{Ptr, null}
use tron_boss_os.Kernel.{add_uint}
use tron_boss_os.Log.{log_size}
use tron_boss_os.Content.{Content, writei}

-- NFILE of param.h
abbrev pub nfile : ℕ
nfile = 100

pub data FileType : Type 0 where
  fd_none fd_pipe fd_inode : FileType

pub record File : Type 0 where
  pub type : FileType
  pub ref : ℕ
  pub readable : Bool
  pub writable : Bool
  pub pipe : Ptr
  pub ip : Ptr
  pub off : ℕ

abbrev pub Ftable : Type 0
Ftable = Ptr → File

-- `for(f = ftable.file; f < ftable.file + NFILE; f++)` of filealloc with `n` slots to go
unfoldable pub alloc_loop : ℕ → Ftable → Ptr × Ftable
alloc_loop zero t = (null, t)
alloc_loop (suc n) t =
    let f = suc (nfile - suc n) in
    let rest = alloc_loop n t in
    if (t f).ref == 0 then (f, update t f (record (t f) { ref = 1 })) else rest

unfoldable pub filealloc : Ftable → Ptr × Ftable
unfolding alloc_loop
filealloc t = alloc_loop nfile t

unfoldable pub filedup : Ptr → Ftable → Option (Ptr × Ftable)
filedup f t =
    if ltb (t f).ref 1 then none else some (f, update t f (record (t f) { ref = (t f).ref + 1 }))

-- What fileclose goes on to close: nothing, an end of a pipe, or an inode, in a transaction.
pub data Closing : Type 0 where
  nothing : Closing
  pipe_end : (pipe : Ptr) (writable : Bool) → Closing
  inode : Ptr → Closing

abbrev pub closing : FileType → File → Closing
closing fd_none f = nothing
closing fd_pipe f = pipe_end f.pipe f.writable
closing fd_inode f = inode f.ip

unfoldable pub fileclose : Ptr → Ftable → Option (Closing × Ftable)
fileclose f t =
    if ltb (t f).ref 1
    then none
    else if ltb 0 ((t f).ref - 1)
    then some (nothing, update t f (record (t f) { ref = (t f).ref - 1 }))
    else some (closing (t f).type (t f), update t f (record (t f) { ref = 0; type = fd_none }))

-- `read_pipe` is what piperead returns, `read_inode` what readi returns at the file's offset.
abbrev pub read_typed : (read_pipe read_inode : ℤ) → FileType → File → Option (ℤ × File)
read_typed read_pipe read_inode fd_none f = none
read_typed read_pipe read_inode fd_pipe f = some (read_pipe, f)
read_typed read_pipe (pos r) fd_inode f = some (pos r, record f { off = add_uint f.off r })
read_typed read_pipe (negsuc r) fd_inode f = some (negsuc r, f)

unfoldable pub fileread : (read_pipe read_inode : ℤ) → File → Option (ℤ × File)
fileread read_pipe read_inode f =
    if f.readable then read_typed read_pipe read_inode f.type f else some (negsuc 0, f)

-- `((LOGSIZE-1-1-2) / 2) * 512`
abbrev pub max_chunk : ℕ
max_chunk = (log_size - 1 - 1 - 2) / 2 * 512

-- `n1` for the bytes that are left
abbrev pub chunk : ℕ → ℕ
chunk left = if ltb max_chunk left then max_chunk else left

-- What filewrite comes to: a count with the file and its content, or a panic.
pub data Written : Type 0 where
  done : ℤ → File → Content → Written
  short_filewrite wrong_type writei_panics out_of_fuel : Written

-- `while(i < n)` over the bytes that are left, for a file that is an inode. `n` is returned. Nobody
-- else writes to the inode between the transactions. `devsw_write` is the one of writei.
unfoldable pub write_loop :
    (devsw_write : ℕ → Option (List ℕ → ℤ)) → ℕ → (n : ℕ) → List ℕ → File → Content → Written
unfolding writei
write_loop devsw_write zero n addr f s = out_of_fuel
write_loop devsw_write (suc fuel) n [] f s = done (pos n) f s
write_loop devsw_write (suc fuel) n (c ∷ cs) f s =
    let n1 = chunk (length (c ∷ cs)) in
    elim (writei devsw_write (take n1 (c ∷ cs)) f.off s) [
      | none ↦ writei_panics
      | some out ↦ elim out.0 [
        | negsuc r ↦ done (negsuc 0) f out.1
        | pos r ↦
            let rest =
              write_loop devsw_write fuel n (drop n1 (c ∷ cs)) (record f { off = add_uint f.off r })
                out.1 in
            if r == n1 then rest else short_filewrite
      ]
    ]

-- The bytes at `addr` are as many as are to be written: a negative count is `negative`.
abbrev pub write_typed :
    (devsw_write : ℕ → Option (List ℕ → ℤ)) (negative : Bool) (write_pipe : ℤ)
    → List ℕ
    → FileType
    → File
    → Content
    → Written
write_typed devsw_write negative write_pipe addr fd_none f s = wrong_type
write_typed devsw_write negative write_pipe addr fd_pipe f s = done write_pipe f s
write_typed devsw_write true write_pipe addr fd_inode f s = done (negsuc 0) f s
write_typed devsw_write false write_pipe addr fd_inode f s =
    write_loop devsw_write (suc (length addr)) (length addr) addr f s

-- `write_pipe` is what pipewrite returns.
unfoldable pub filewrite :
    (devsw_write : ℕ → Option (List ℕ → ℤ)) (negative : Bool) (write_pipe : ℤ)
    → List ℕ
    → File
    → Content
    → Written
unfolding write_loop
filewrite devsw_write negative write_pipe addr f s =
    if f.writable
    then write_typed devsw_write negative write_pipe addr f.type f s
    else done (negsuc 0) f s

-- What filestat returns and leaves in `st`, where `stati` is what stati tells of an inode.
unfoldable pub filestat {ℓ} : {Stat : Type ℓ} (stati : Ptr → Stat) → File → Stat → ℤ × Stat
filestat stati f st = elim f.type [
  | fd_none ↦ (negsuc 0, st)
  | fd_pipe ↦ (negsuc 0, st)
  | fd_inode ↦ (pos 0, stati f.ip)
]
