-- ===== src/Log/Progress.antt =====
-- The end of the operations at work: the commit, and the state in which begin_op finds the log.
use tron_boss_os.Base.{
  ℕ, zero, suc, ◌+◌, ◌≡◌, refl, true, false, Option, none, some, [], arith, ne→==, pos,
}
use tron_boss_os.Log.{Disk, Log, commit, admitted, begin_op, end_op_enter, end_op_leave, end_op}

-- The end of `n` operations, one behind the other.
unfoldable pub end_ops : ℕ → Log → Disk → Option (Log × Disk)
end_ops zero l d = some (l, d)
end_ops (suc n) l d = elim (end_op l d) [ none ↦ none | some (l', d') ↦ end_ops n l' d' ]

-- The last of the operations commits what they have logged, the others only count down.
end_op-last :
    (l : Log) (d : Disk)
    → l.outstanding ≡ pos 1
    → l.committing ≡ false
    → (l' : Log) × (end_op l d ≡ some (l', commit l.start l.lh d))
      × (l'.outstanding ≡ pos 0)
      × (l'.committing ≡ false)
      × (l'.lh ≡ [])
unfolding end_op end_op_enter end_op_leave
end_op-last l d e c = (
  end_op_leave (record l { outstanding = pos 0; committing = true }),
  rw (c, e) refl,
  refl,
  refl,
  refl,
)

end_op-other :
    (l : Log) (d : Disk) (k : ℕ)
    → l.outstanding ≡ pos (suc (suc k))
    → l.committing ≡ false
    → end_op l d ≡ some (record l { outstanding = pos (suc k); wakeups = l.wakeups + 1 }, d)
unfolding end_op end_op_enter
end_op-other l d k e c = rw (end_op, end_op_enter, c, e, ne→== (suc k) 0 (omega arith)) refl

-- When all operations at work have ended, their blocks are committed, the header is empty, and an
-- operation that begins is let in. None of the ends panics.
pub begin_op-end_ops :
    (k : ℕ) (l : Log) (d : Disk)
    → l.outstanding ≡ pos (suc k)
    → l.committing ≡ false
    → (l' : Log) × (l'' : Log) × (end_ops (suc k) l d ≡ some (l', commit l.start l.lh d))
      × (l'.lh ≡ [])
      × (begin_op l' ≡ admitted l'')
unfolding end_ops begin_op
begin_op-end_ops zero l d e c =
    let (l', eq, out, idle, clear) = end_op-last l d e c in
    (
      l',
      record l' { outstanding = pos 1 },
      rw (end_ops, eq) refl,
      clear,
      rw (idle, clear, out) refl,
    )
begin_op-end_ops (suc k) l d e c =
    let (l', l'', eq, clear, go) =
      begin_op-end_ops k (record l { outstanding = pos (suc k); wakeups = l.wakeups + 1 }) d refl
        c in
    (l', l'', rw (end_ops, end_op-other l d k e c) eq, clear, go)
