-- ===== src/Pipe/Delivery.antt =====
-- Reading from a pipe, and closing it.
use tron_boss_os.Base.{
  ℕ, zero, suc, ◌≡◌, refl, ◌∙◌, inl, inr, Bool, true, false, ◌&&◌, ◌||◌, not, List, [], ◌∷◌, arith,
  ◌==◌, if◌then◌else◌, pos, negsuc, length, take, drop, Bool-cases, ne→==,
}
use tron_boss_os.Kernel.{add_uint}
use tron_boss_os.Pipe.{
  Channel, new_pipe, Pipe, ReadStep, read_returns, read_sleeps, pipeclose, read_loop, piperead,
  lock_pipe, unlock_pipe, wake, nread_channel, nwrite_channel,
}
use tron_boss_os.Pipe.Queue.{IsPipe, empty_test, take-nil, drop-nil, unlocked-IsPipe}

read_loop-queue :
    (n : ℕ) (p : Pipe) {q : List ℕ}
    → IsPipe p q
    → (p' : Pipe) × (read_loop n p ≡ (take n q, p')) × IsPipe p' (drop n q)
unfolding read_loop
read_loop-queue zero p i = (p, refl, i)
read_loop-queue (suc n) p {q = []} i = (p, rw (empty_test i) refl, i)
read_loop-queue (suc n) p {q = x ∷ q} i =
    let (p', eq, i') =
      read_loop-queue n (record p { nread = add_uint p.nread 1 })
        (record {
          along = i.along.1;
          low = omega arith;
          count = omega (arith, i.count, i.low);
          fits = omega (arith, i.fits);
        }) in
    let more : (p.nread == p.nwrite) ≡ false =
      empty_test i ∙ ne→== (suc (length q)) 0 (omega arith) in
    (p', rw (more, eq, i.along.0) refl, i')

-- What piperead does for the bytes that the pipe holds.
abbrev pub read_result : List ℕ → (writeopen killed : Bool) → ℕ → ReadStep
read_result [] true true n = read_returns (negsuc 0) []
read_result [] true false n = read_sleeps
read_result [] false killed n = read_returns (pos 0) []
read_result (x ∷ q) writeopen killed n =
    read_returns (pos (length (take n (x ∷ q)))) (take n (x ∷ q))

-- `piperead` of `n` bytes from a pipe that holds `q`: if there are bytes, it returns the first of
-- them, `n` at most, in their order, and the rest stay. On an empty pipe it returns 0 if no writer is
-- left; else -1 if the caller is killed, and sleeps if not. It ends without the lock.
pub piperead-queue :
    (n : ℕ) (killed : Bool) (p : Pipe) {q : List ℕ}
    → IsPipe p q
    → (p' : Pipe) × (piperead n killed p ≡ (read_result q p.writeopen killed n, p'))
      × IsPipe p' (drop n q)
      × (p'.locked ≡ false)
unfolding piperead
piperead-queue n killed p {q = []} i =
    let none_left : (p.nread == p.nwrite) ≡ true = empty_test i in
    let still : IsPipe (unlock_pipe p) (drop n []) = rw (drop-nil n) (unlocked-IsPipe _ i) in
    elim (Bool-cases p.writeopen) [
      | inr closed ↦
          let (p', eq, i') =
            read_loop-queue n (lock_pipe p)
              (record { along = i.along; low = i.low; count = i.count; fits = i.fits }) in
          (
            unlock_pipe (wake nwrite_channel p'),
            rw (none_left, eq, closed, take-nil n) refl,
            unlocked-IsPipe _ i',
            refl,
          )
      | inl open_end ↦ elim (Bool-cases killed) [
        | inl dead ↦ (unlock_pipe p, rw (none_left, open_end, dead) refl, still, refl)
        | inr alive ↦ (unlock_pipe p, rw (none_left, open_end, alive) refl, still, refl)
      ]
    ]
piperead-queue n killed p {q = x ∷ q} i =
    let (p', eq, i') =
      read_loop-queue n (lock_pipe p)
        (record { along = i.along; low = i.low; count = i.count; fits = i.fits }) in
    let more : (p.nread == p.nwrite) ≡ false =
      empty_test i ∙ ne→== (suc (length q)) 0 (omega arith) in
    (unlock_pipe (wake nwrite_channel p'), rw (more, eq) refl, unlocked-IsPipe _ i', refl)

flags-IsPipe :
    {p : Pipe} {q : List ℕ} (ro wo l f : Bool) (ws : List Channel)
    → IsPipe p q
    → IsPipe (record p { readopen = ro; writeopen = wo; locked = l; freed = f; wakeups = ws }) q
flags-IsPipe ro wo l f ws i = record {
  along = i.along;
  low = i.low;
  count = i.count;
  fits = i.fits;
}

pub pipeclose-IsPipe :
    (writable : Bool) (p : Pipe) {q : List ℕ} → IsPipe p q → IsPipe (pipeclose writable p) q
unfolding pipeclose
pipeclose-IsPipe true p i = elim (Bool-cases p.readopen) [
  | inl o ↦ rw o (flags-IsPipe _ _ _ _ _ i)
  | inr o ↦ rw o (flags-IsPipe _ _ _ _ _ i)
]
pipeclose-IsPipe false p i = elim (Bool-cases p.writeopen) [
  | inl o ↦ rw o (flags-IsPipe _ _ _ _ _ i)
  | inr o ↦ rw o (flags-IsPipe _ _ _ _ _ i)
]

-- `pipeclose` of one end leaves the other end and the bytes alone, wakes those who wait at the other
-- end, gives the lock back, and frees the pipe exactly if the other end is closed.
pub pipeclose-ends :
    (writable : Bool) (p : Pipe) {q : List ℕ}
    → IsPipe p q
    → p.freed ≡ false
    → let p' = pipeclose writable p in
      IsPipe p' q
      × (p'.writeopen ≡ (p.writeopen && not writable))
      × (p'.readopen ≡ (p.readopen && writable))
      × (p'.wakeups ≡ (if writable then nread_channel else nwrite_channel) ∷ p.wakeups)
      × (p'.locked ≡ false)
      × (p'.freed ≡ not (p'.readopen || p'.writeopen))
unfolding pipeclose
pipeclose-ends true p i f = (
  pipeclose-IsPipe true p i,
  ground arith,
  ground arith,
  ground arith,
  ground arith,
  ground (arith, f),
)
pipeclose-ends false p i f = (
  pipeclose-IsPipe false p i,
  ground arith,
  ground arith,
  ground arith,
  ground arith,
  ground (arith, f),
)

pub new_pipe-IsPipe : (d : ℕ → ℕ) → IsPipe (new_pipe d) []
new_pipe-IsPipe d = record { along = tt; low = omega arith; count = refl; fits = omega arith }
