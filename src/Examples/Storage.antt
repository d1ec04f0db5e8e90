-- ===== src/Examples/Storage.antt =====
-- The log, open files, memory and the arguments of system calls.
use tron_boss_os.Base.{
  ℕ, ◌≤◌, ◌≡◌, refl, true, false, List, [], ◌∷◌, arith, ◌⊎◌, some, none, pos, update, has, length,
  Distinct,
}
use tron_boss_os.Log.{
  Block, Disk, Log, recover_from_log, commit, log_size, log_write, begin_op, admitted,
}
use tron_boss_os.Log.Content.{outside, header, IsHeader}
use tron_boss_os.Log.Settle.{boot}
use tron_boss_os.Log.Commit.{crashes, OldOrNew, committed, commit-crashes, commit_installs}
use tron_boss_os.Log.Space.{Reach, here, next, begins, IsReserved, Reach-log_write}
use tron_boss_os.Log.Progress.{end_ops, begin_op-end_ops}

-- The log is block 2 and the three behind it; blocks 7 and 9 have changed in the cache, and the
-- power fails behind the third write, which is the one of the header.
abbrev transaction : List ℕ
transaction = 7 ∷ 9 ∷ []

abbrev zeros : ℕ → Block
zeros b i = 0

abbrev changed : ℕ → Disk
changed power = record {
  disk = zeros;
  seen = update (update zeros 7 (λ i. 1)) 9 (λ i. 2);
  power = power;
}

transaction-IsHeader : IsHeader 2 3 0 transaction
transaction-IsHeader = record {
  distinct = (refl, (refl, tt));
  home = λ b m. ground arith;
  fits = omega arith;
}

changed-agrees :
    (power : ℕ) (b : ℕ) → outside 2 3 b ≡ false → (changed power).seen b ≡ (changed power).disk b
unfolding update
changed-agrees power b i = ground arith

commit-crashes_example :
    let disk' =
      (recover_from_log 2
        (boot 4 (crashes 2 (1 ∷ 0 ∷ []) (commit 2 transaction (changed 3)).disk))).disk in
    (header 2 disk' ≡ [])
    × OldOrNew 2 3 transaction (changed 3) transaction-IsHeader (changed-agrees 3) refl disk'
commit-crashes_example =
    commit-crashes 2 3 transaction (changed 3) transaction-IsHeader (changed-agrees 3) refl
      (1 ∷ 0 ∷ []) 4 (omega arith)

commit_installs_example :
    (header 2 (commit 2 transaction (changed 6)).disk ≡ [])
    × ((c : ℕ)
        → outside 2 3 c ≡ true
        → (commit 2 transaction (changed 6)).disk c ≡ committed transaction (changed 6) c)
commit_installs_example =
    commit_installs 2 3 transaction (changed 6) transaction-IsHeader (changed-agrees 6) refl
      (omega arith)

abbrev quiet : Log
quiet = record {
  start = 2;
  size = 30;
  outstanding = pos 0;
  committing = false;
  lh = [];
  dirty = λ b. false;
  wakeups = 0;
}

abbrev at_work : Log
at_work = record quiet { outstanding = pos 1 }

quiet-IsReserved : IsReserved (record { log = quiet; budgets = [] })
quiet-IsReserved = record {
  counted = refl;
  room = omega arith;
  alone = λ c. refl;
  small = tt;
  once = tt;
}

first_begins :
    Reach (record { log = quiet; budgets = [] }) (record { log = at_work; budgets = 10 ∷ [] })
unfolding begin_op
first_begins = next here (begins (record { log = quiet; budgets = [] }) refl)

Reach-log_write_example :
    ((l : Log) × (log_write 7 at_work ≡ some l)
      × (length l.lh ≤ log_size)
      × (has 7 l.lh ≡ true)
      × Distinct l.lh)
    ⊎ ((log_write 7 at_work ≡ none) × (30 ≡ log_size) × (1 ≡ log_size))
Reach-log_write_example = Reach-log_write 7 [] 9 [] quiet-IsReserved first_begins (omega arith) refl

begin_op-end_ops_example :
    (l' : Log) × (l'' : Log) × (end_ops 2
        (record quiet { outstanding = pos 2; lh = transaction })
        (changed 6)
      ≡ some (l', commit 2 transaction (changed 6)))
    × (l'.lh ≡ [])
    × (begin_op l' ≡ admitted l'')
begin_op-end_ops_example =
    begin_op-end_ops 1 (record quiet { outstanding = pos 2; lh = transaction }) (changed 6) refl
      refl
