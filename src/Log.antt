-- ===== src/Log.antt =====
-- The log of the file system: log.c. A block is its words, by their index. The log sees the blocks
-- as bio.c gives them: `seen b` are the contents of the buffer that bread returns for block `b`, and
-- a bwrite puts them on the disk. `power` counts the writes that reach the disk before the power
-- fails; a write behind that is lost. The header `lh` holds the `n` block numbers in use.
pub mod Content
pub mod Install
pub mod Settle
pub mod Commit
pub mod Space
pub mod Progress
use tron_boss_os.Base.{
  ℕ, zero, suc, ◌+◌, ◌-◌, ◌*◌, Bool, true, false, ◌&&◌, ◌||◌, not, Option, none, some, List, [],
  ◌∷◌, ◌++◌, ◌==◌, ltb, leb, if◌then◌else◌, ℤ, pos, negsuc, update, length, has,
}

-- MAXOPBLOCKS and LOGSIZE of param.h
abbrev pub max_op_blocks : ℕ
max_op_blocks = 10

abbrev pub log_size : ℕ
log_size = 30

abbrev pub Block : Type 0
Block = ℕ → ℕ

pub record Disk : Type 0 where
  pub disk : ℕ → Block
  pub seen : ℕ → Block
  pub power : ℕ

-- `memmove(dst->data, src->data, BSIZE)` between the buffers of two blocks
abbrev pub copy_block : (dst src : ℕ) → Disk → Disk
copy_block dst src d = record d { seen = update d.seen dst (d.seen src) }

unfoldable pub bwrite : ℕ → Disk → Disk
bwrite b d = record d {
  disk = if d.power == 0 then d.disk else update d.disk b (d.seen b);
  power = d.power - 1;
}

-- `for (tail = 0; tail < log.lh.n; tail++)` of install_trans, over the block numbers that are left
unfoldable pub install_loop : (start tail : ℕ) → List ℕ → Disk → Disk
install_loop start tail [] d = d
install_loop start tail (b ∷ bs) d =
    install_loop start (suc tail) bs (bwrite b (copy_block b (start + tail + 1) d))

unfoldable pub install_trans : ℕ → List ℕ → Disk → Disk
unfolding install_loop
install_trans start lh d = install_loop start 0 lh d

-- The numbers at `lh->block[i]` and behind: word 0 is `n`.
abbrev pub get_words : (n i : ℕ) → Block → List ℕ
get_words zero i c = []
get_words (suc n) i c = c (suc i) ∷ get_words n (suc i) c

abbrev pub read_head : ℕ → Disk → List ℕ
read_head start d = get_words (d.seen start 0) 0 (d.seen start)

-- `hb->block[i] = log.lh.block[i]`
abbrev pub put_words : (i : ℕ) → List ℕ → Block → Block
put_words i [] c = c
put_words i (b ∷ bs) c = put_words (suc i) bs (update c (suc i) b)

abbrev pub put_header : List ℕ → Block → Block
put_header lh c = put_words 0 lh (update c 0 (length lh))

unfoldable pub write_head : ℕ → List ℕ → Disk → Disk
write_head start lh d =
    bwrite start (record d { seen = update d.seen start (put_header lh (d.seen start)) })

unfoldable pub recover_from_log : ℕ → Disk → Disk
recover_from_log start d = write_head start [] (install_trans start (read_head start d) d)

-- `for (tail = 0; tail < log.lh.n; tail++)` of write_log
unfoldable pub write_log_loop : (start tail : ℕ) → List ℕ → Disk → Disk
write_log_loop start tail [] d = d
write_log_loop start tail (b ∷ bs) d =
    write_log_loop start (suc tail) bs
      (bwrite (start + tail + 1) (copy_block (start + tail + 1) b d))

unfoldable pub write_log : ℕ → List ℕ → Disk → Disk
unfolding write_log_loop
write_log start lh d = write_log_loop start 0 lh d

-- What commit does to the disk. `log.lh.n` is 0 afterwards.
unfoldable pub commit : ℕ → List ℕ → Disk → Disk
commit start lh d =
    if length lh == 0
    then d
    else write_head start [] (install_trans start lh (write_head start lh (write_log start lh d)))

-- `struct log` with what it needs of the buffers: which of them are B_DIRTY, by block number.
-- What stands between an acquire and the release of `log.lock` is one step, which a sleep ends.
-- `wakeups` counts the calls of wakeup(&log).
pub record Log : Type 0 where
  pub start : ℕ
  pub size : ℕ
  pub outstanding : ℤ
  pub committing : Bool
  pub lh : List ℕ
  pub dirty : ℕ → Bool
  pub wakeups : ℕ

-- initlog, for the super block's `logstart` and `nlog`, on the disk as it is found.
unfoldable pub initlog : (logstart nlog : ℕ) → Disk → Log × Disk
initlog logstart nlog d = (
  record {
    start = logstart;
    size = nlog;
    outstanding = pos 0;
    committing = false;
    lh = [];
    dirty = λ b. false;
    wakeups = 0;
  },
  recover_from_log logstart d,
)

-- begin_op goes on, or sleeps; then it starts its loop again once it is woken.
pub data Begin : Type 0 where
  admitted sleeping : Log → Begin

-- `log.lh.n + (log.outstanding+1)*MAXOPBLOCKS > LOGSIZE`
abbrev pub is_short : ℕ → ℤ → Bool
is_short n (pos k) = ltb log_size (n + (k + 1) * max_op_blocks)
is_short n (negsuc k) = ltb (log_size + k * max_op_blocks) n

abbrev pub succ : ℤ → ℤ
succ (pos k) = pos (suc k)
succ (negsuc zero) = pos 0
succ (negsuc (suc k)) = negsuc k

abbrev pub pred : ℤ → ℤ
pred (pos zero) = negsuc 0
pred (pos (suc k)) = pos k
pred (negsuc k) = negsuc (suc k)

unfoldable pub begin_op : Log → Begin
begin_op l =
    if l.committing
    then sleeping l
    else if is_short (length l.lh) l.outstanding
    then sleeping l
    else admitted (record l { outstanding = succ l.outstanding })

-- end_op up to the first release: whether to commit. `none` is a panic.
abbrev pub is_idle : ℤ → Bool
is_idle (pos k) = k == 0
is_idle (negsuc k) = false

abbrev pub leave_op : Log → Bool × Log
leave_op l =
    if is_idle l.outstanding
    then (true, record l { committing = true })
    else (false, record l { wakeups = l.wakeups + 1 })

unfoldable pub end_op_enter : Log → Option (Bool × Log)
end_op_enter l =
    if l.committing then none else some (leave_op (record l { outstanding = pred l.outstanding }))

-- end_op behind the commit, which has set `log.lh.n` to 0 and has written all its blocks, so that
-- they are not dirty.
unfoldable pub end_op_leave : Log → Log
end_op_leave l = record l {
  lh = [];
  dirty = λ b. l.dirty b && not (has b l.lh);
  committing = false;
  wakeups = l.wakeups + 1;
}

unfoldable pub end_op : Log → Disk → Option (Log × Disk)
unfolding end_op_enter
end_op l d = elim (end_op_enter l) [
  | none ↦ none
  | some (false, l') ↦ some (l', d)
  | some (true, l') ↦ some (end_op_leave l', commit l'.start l'.lh d)
]

-- The block takes the place that it has in the header, or the next one.
abbrev pub absorb : ℕ → List ℕ → List ℕ
absorb b [] = b ∷ []
absorb b (x ∷ xs) = if x == b then x ∷ xs else x ∷ absorb b xs

-- `log.outstanding < 1`
abbrev pub no_op : ℤ → Bool
no_op (pos k) = k == 0
no_op (negsuc k) = true

-- `none` is a panic.
unfoldable pub log_write : ℕ → Log → Option Log
log_write b l =
    if leb log_size (length l.lh) || leb (l.size - 1) (length l.lh)
    then none
    else if no_op l.outstanding
    then none
    else some (record l { lh = absorb b l.lh; dirty = update l.dirty b true })
