-- ===== src/Pipe/Queue.antt =====
-- The ring buffer of a pipe as a queue of bytes.
use tron_boss_os.Base.{
  ℕ, zero, suc, ◌+◌, ◌-◌, ◌%◌, ◌≤◌, ◌<◌, ◌≡◌, refl, sym, ◌∙◌, inl, inr, Bool, true, false, ◌||◌,
  not, List, [], ◌∷◌, ◌++◌, arith, ◌==◌, if◌then◌else◌, ℤ, negsuc, update, update_self,
  update_other, length, take, drop, length-append, Bool-cases, eq→==, ne→==,
}
use mathlib.Core.List.{append-nil, append_assoc}
use tron_boss_os.Kernel.{uint_mod, add_uint}
use tron_boss_os.Pipe.{
  Channel, Pipe, pipesize, WriteStep, write_returns, write_sleeps, put_byte, write_loop, pipewrite,
  lock_pipe, unlock_pipe, wake, nread_channel,
}

-- The bytes `q` lie in the ring from the counter `r` on.
abbrev pub Along : (ℕ → ℕ) → ℕ → List ℕ → Type 0
Along d r [] = Unit {0}
Along d r (c ∷ q) = (d (r % pipesize) ≡ c) × Along d (add_uint r 1) q

-- The pipe holds the bytes `q`, the oldest first.
pub record IsPipe (p : Pipe) (q : List ℕ) : Type 0 where
  pub along : Along p.data_of p.nread q
  pub low : p.nread < uint_mod
  pub count : p.nwrite ≡ add_uint p.nread (length q)
  pub fits : length q ≤ pipesize

Along-push :
    (d : ℕ → ℕ) (r w c : ℕ) (q : List ℕ)
    → r < uint_mod
    → w ≡ add_uint r (length q)
    → length q < pipesize
    → Along d r q
    → Along (update d (w % pipesize) c) r (q ++ c ∷ [])
Along-push d r w c [] low e short a =
    let same : r ≡ w = omega arith in (rw same (update_self d (w % pipesize) c), tt)
Along-push d r w c (x ∷ q) low e short a = (
  update_other d (w % pipesize) c (r % pipesize) (omega arith) ∙ a.0,
  Along-push d (add_uint r 1) w c q (omega arith) (omega arith) (omega arith) a.1,
)

put_byte-IsPipe :
    {p : Pipe} {q : List ℕ} (c : ℕ)
    → IsPipe p q
    → length q < pipesize
    → IsPipe (put_byte c p) (q ++ c ∷ [])
put_byte-IsPipe {p} {q} c i short = record {
  along = Along-push p.data_of p.nread p.nwrite c q i.low i.count short i.along;
  low = i.low;
  count = omega (arith, i.count, length-append q (c ∷ []));
  fits = omega (arith, length-append q (c ∷ []));
}

-- The pipe is full exactly if the test of pipewrite says so.
full_test :
    {p : Pipe} {q : List ℕ}
    → IsPipe p q
    → (p.nwrite == add_uint p.nread pipesize) ≡ (length q == pipesize)
full_test {p} {q} i = ground (arith, i.low, i.count, i.fits)

pub empty_test : {p : Pipe} {q : List ℕ} → IsPipe p q → (p.nread == p.nwrite) ≡ (length q == 0)
empty_test {p} {q} i = ground (arith, i.low, i.count, i.fits)

-- What pipewrite does in the end, with the bytes that did not fit.
abbrev pub written : ℤ → (broken : Bool) → List ℕ → WriteStep
written n broken [] = write_returns n
written n broken (c ∷ cs) = if broken then write_returns (negsuc 0) else write_sleeps (c ∷ cs)

-- The lock is given back and a wakeup recorded: the bytes stay.
pub unlocked-IsPipe :
    {p : Pipe} {q : List ℕ} (ws : List Channel)
    → IsPipe p q
    → IsPipe (record p { locked = false; wakeups = ws }) q
unlocked-IsPipe ws i = record { along = i.along; low = i.low; count = i.count; fits = i.fits }

pub take-nil : (room : ℕ) → take {A = ℕ} room [] ≡ []
take-nil zero = refl
take-nil (suc room) = refl

pub drop-nil : (room : ℕ) → drop {A = ℕ} room [] ≡ []
drop-nil zero = refl
drop-nil (suc room) = refl

write_loop-queue :
    (room : ℕ) (n : ℤ) (killed : Bool) (addr : List ℕ) (p : Pipe) {q : List ℕ}
    → IsPipe p q
    → length q + room ≡ pipesize
    → (p' : Pipe) × (write_loop n killed addr p
        ≡ (written n (not p.readopen || killed) (drop room addr), p'))
      × IsPipe p' (q ++ take room addr)
      × (p'.locked ≡ false)
unfolding write_loop
write_loop-queue room n killed [] p {q} i e = (
  unlock_pipe (wake nread_channel p),
  rw (drop-nil room) refl,
  rw (take-nil room, append-nil q) (unlocked-IsPipe _ i),
  refl,
)
write_loop-queue zero n killed (c ∷ cs) p {q} i e =
    let full : (p.nwrite == add_uint p.nread pipesize) ≡ true =
      full_test i ∙ eq→== (length q) pipesize (omega arith) in
    elim (Bool-cases (not p.readopen || killed)) [
      | inl broken ↦
          (unlock_pipe p, rw (full, broken) refl, rw (append-nil q) (unlocked-IsPipe _ i), refl)
      | inr whole ↦ (
        unlock_pipe (wake nread_channel p),
        rw (full, whole) refl,
        rw (append-nil q) (unlocked-IsPipe _ i),
        refl,
      )
    ]
write_loop-queue (suc room) n killed (c ∷ cs) p {q} i e =
    let free : (p.nwrite == add_uint p.nread pipesize) ≡ false =
      full_test i ∙ ne→== (length q) pipesize (omega arith) in
    let (p', eq, i', f) =
      write_loop-queue room n killed cs (put_byte c p) (put_byte-IsPipe c i (omega arith))
        (omega (arith, length-append q (c ∷ []))) in
    (p', rw free eq, rw (sym (append_assoc q (c ∷ []) (take room cs))) i', f)

-- `pipewrite` of `addr` to a pipe that holds `q` puts in as much of it as there is room for, behind
-- what is there. If all of it fits, it returns the count. Else it returns -1 if no reader is left or
-- the caller is killed, and sleeps with the bytes that did not fit if not. It ends without the lock.
pub pipewrite-queue :
    (n : ℤ) (killed : Bool) (addr : List ℕ) (p : Pipe) {q : List ℕ}
    → IsPipe p q
    → (p' : Pipe) × (pipewrite n killed addr p
        ≡ (written n (not p.readopen || killed) (drop (pipesize - length q) addr), p'))
      × IsPipe p' (q ++ take (pipesize - length q) addr)
      × (p'.locked ≡ false)
unfolding pipewrite
pipewrite-queue n killed addr p {q} i =
    write_loop-queue (pipesize - length q) n killed addr (lock_pipe p)
      (record { along = i.along; low = i.low; count = i.count; fits = i.fits })
      (omega (arith, i.fits))
