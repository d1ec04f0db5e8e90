-- ===== src/Examples/Bytes.antt =====
-- Pipes, on a pipe whose counters are about to wrap round.
use tron_boss_os.Base.{
  update, List, ℕ, inr, ◌-◌, ◌%◌, ◌≡◌, refl, true, false, [], ◌∷◌, ◌++◌, arith, pos, take, drop,
}
use tron_boss_os.Kernel.{uint_mod}
use tron_boss_os.Pipe.{Pipe, pipewrite, piperead, read_returns, new_pipe}
use tron_boss_os.Pipe.Queue.{IsPipe, written, pipewrite-queue}
use tron_boss_os.Pipe.Delivery.{piperead-queue}
use tron_boss_os.Pipe.Stream.{Transfer, start, calls, writes, reads, Transfer-IsPipe}

-- One byte, at the last value of the counter.
abbrev pipe : Pipe
pipe = record {
  data_of = λ i. i % 256;
  nread = uint_mod - 1;
  nwrite = 0;
  readopen = true;
  writeopen = true;
  locked = false;
  wakeups = [];
  freed = false;
}

pipe-IsPipe : IsPipe pipe (255 ∷ [])
pipe-IsPipe = record { along = (refl, tt); low = omega arith; count = refl; fits = omega arith }

pipewrite-queue_example :
    (p' : Pipe) × (pipewrite (pos 2) false (7 ∷ 8 ∷ []) pipe
      ≡ (written (pos 2) false (drop 511 (7 ∷ 8 ∷ [])), p'))
    × IsPipe p' ((255 ∷ []) ++ take 511 (7 ∷ 8 ∷ []))
    × (p'.locked ≡ false)
pipewrite-queue_example = pipewrite-queue (pos 2) false (7 ∷ 8 ∷ []) pipe pipe-IsPipe

piperead-queue_example :
    (p' : Pipe) × (piperead 4 false pipe ≡ (read_returns (pos 1) (255 ∷ []), p'))
    × IsPipe p' []
    × (p'.locked ≡ false)
piperead-queue_example = piperead-queue 4 false pipe pipe-IsPipe

-- Two bytes are written in one call, and one of them has been read.
abbrev two_written : Pipe
two_written = (pipewrite (pos 2) false (7 ∷ 8 ∷ []) (new_pipe (λ i. 0))).1

one_read : Transfer (λ i. 0) (7 ∷ 8 ∷ []) [] (7 ∷ []) (piperead 1 false two_written).1
unfolding pipewrite piperead update
one_read = reads 1 false (writes 2 false (calls (7 ∷ 8 ∷ []) start) (inr (refl, refl)))

Transfer-IsPipe_example :
    (q : List ℕ) × IsPipe (piperead 1 false two_written).1 q
    × ((7 ∷ 8 ∷ []) ≡ (7 ∷ []) ++ (q ++ []))
Transfer-IsPipe_example = Transfer-IsPipe one_read
