-- ===== src/Log/Space.antt =====
-- The reservation of log space: begin_op admits an operation only if the log has room for all blocks
-- that the operations at work may still log, max_op_blocks for each.
use tron_boss_os.Base.{
  ℕ, suc, ◌+◌, ◌*◌, ◌≤◌, ◌<◌, ◌≡◌, refl, sym, ap, subst, ◌∙◌, inl, inr, ◌⊎◌, ◌-◌, none, leb,
  Bool-cases, Bool, true, false, ◌||◌, some, List, [], ◌∷◌, ◌++◌, arith, ◌==◌, pos, update, length,
  has, Distinct,
}
use tron_boss_os.Log.{
  Log, log_size, max_op_blocks, admitted, begin_op, end_op_enter, end_op_leave, log_write, absorb,
}

-- The log, and for each operation at work how many more blocks it may log.
pub record Ops : Type 0 where
  pub log : Log
  pub budgets : List ℕ

abbrev pub total : List ℕ → ℕ
total [] = 0
total (r ∷ rs) = r + total rs

-- No budget is above max_op_blocks.
abbrev pub Small : List ℕ → Type 0
Small [] = Unit {0}
Small (r ∷ rs) = (r ≤ max_op_blocks) × Small rs

-- What the system calls do to the log, in any order.
pub data Step : Ops → Ops → Type 0 where
  begins :
      (s : Ops) {l : Log}
      → begin_op s.log ≡ admitted l
      → Step s (record { log = l; budgets = max_op_blocks ∷ s.budgets })
  logs :
      (s : Ops) (b : ℕ) (rs : List ℕ) (r : ℕ) (ts : List ℕ) {l : Log}
      → s.budgets ≡ rs ++ suc r ∷ ts
      → log_write b s.log ≡ some l
      → Step s (record { log = l; budgets = rs ++ r ∷ ts })
  ends :
      (s : Ops) (rs : List ℕ) (r : ℕ) (ts : List ℕ) {last : Bool} {l : Log}
      → s.budgets ≡ rs ++ r ∷ ts
      → end_op_enter s.log ≡ some (last, l)
      → Step s (record { log = l; budgets = rs ++ ts })
  commits : (s : Ops) → s.log.committing ≡ true → Step s (record s { log = end_op_leave s.log })

pub data Reach (s : Ops) : Ops → Type 0 where
  here : Reach s s
  next : {t u : Ops} → Reach s t → Step t u → Reach s u

-- The blocks in the header and those that may still come find room; nobody works during a commit.
pub record IsReserved (s : Ops) : Type 0 where
  pub counted : s.log.outstanding ≡ pos (length s.budgets)
  pub room : length s.log.lh + total s.budgets ≤ log_size
  pub alone : s.log.committing ≡ true → s.budgets ≡ []
  pub small : Small s.budgets
  pub once : Distinct s.log.lh

total-append : (rs ts : List ℕ) → total (rs ++ ts) ≡ total rs + total ts
total-append [] ts = omega arith
total-append (r ∷ rs) ts = omega (arith, total-append rs ts)

has-absorb : (a b : ℕ) (xs : List ℕ) → has a (absorb b xs) ≡ (has a xs || (a == b))
has-absorb a b [] = ground arith
has-absorb a b (x ∷ xs) = ground (arith, has-absorb a b xs)

absorb-Distinct : (b : ℕ) (xs : List ℕ) → Distinct xs → Distinct (absorb b xs)
absorb-Distinct b [] d = (refl, tt)
absorb-Distinct b (x ∷ xs) d = ground (arith, absorb-Distinct b xs d.1, has-absorb x b xs)

length-absorb-le : (b : ℕ) (xs : List ℕ) → length (absorb b xs) ≤ suc (length xs)
length-absorb-le b [] = omega arith
length-absorb-le b (x ∷ xs) = ground (arith, length-absorb-le b xs)

total-le : (rs : List ℕ) → Small rs → total rs ≤ length rs * max_op_blocks
total-le [] h = omega arith
total-le (r ∷ rs) h = omega (arith, total-le rs h.1)

Small-append : (rs ts : List ℕ) → Small rs → Small ts → Small (rs ++ ts)
Small-append [] ts h k = k
Small-append (r ∷ rs) ts h k = (h.0, Small-append rs ts h.1 k)

Small-split : (rs ts : List ℕ) → Small (rs ++ ts) → Small rs × Small ts
Small-split [] ts h = (tt, h)
Small-split (r ∷ rs) ts h = let (a, b) = Small-split rs ts h.1 in ((h.0, a), b)

-- What begin_op has tested when it lets an operation in.
begin_op-room :
    (l l' : Log) (k : ℕ)
    → l.outstanding ≡ pos k
    → begin_op l ≡ admitted l'
    → (length l.lh + (k + 1) * max_op_blocks ≤ log_size)
      × (l.committing ≡ false)
      × (l'.outstanding ≡ pos (suc k))
      × (l'.lh ≡ l.lh)
      × (l'.committing ≡ l.committing)
unfolding begin_op
begin_op-room l l' k e b = ground arith

log_write-keeps :
    (b : ℕ) (l l' : Log)
    → log_write b l ≡ some l'
    → (l'.lh ≡ absorb b l.lh) × (l'.outstanding ≡ l.outstanding) × (l'.committing ≡ l.committing)
unfolding log_write
log_write-keeps b l l' e = ground arith

end_op_enter-keeps :
    (l l' : Log) (k : ℕ) (last : Bool)
    → l.outstanding ≡ pos (suc k)
    → end_op_enter l ≡ some (last, l')
    → (l'.lh ≡ l.lh) × (l'.outstanding ≡ pos k) × (l'.committing ≡ (k == 0)) × (last ≡ (k == 0))
unfolding end_op_enter
end_op_enter-keeps l l' k last e b = ground arith

length-middle : (rs ts : List ℕ) (r : ℕ) → length (rs ++ r ∷ ts) ≡ suc (length (rs ++ ts))
length-middle [] ts r = refl
length-middle (x ∷ rs) ts r = ap suc (length-middle rs ts r)

begins-IsReserved :
    (s : Ops) (l : Log)
    → begin_op s.log ≡ admitted l
    → IsReserved s
    → IsReserved (record { log = l; budgets = max_op_blocks ∷ s.budgets })
begins-IsReserved s l b i =
    let (room, idle, out, same, still) = begin_op-room s.log l (length s.budgets) i.counted b in
    record {
      counted = out;
      room = omega (arith, ap length same, total-le s.budgets i.small);
      alone = λ c. cc;
      small = (omega arith, i.small);
      once = rw same i.once;
    }

logs-IsReserved :
    (s : Ops) (b : ℕ) (rs : List ℕ) (r : ℕ) (ts : List ℕ) (l : Log)
    → s.budgets ≡ rs ++ suc r ∷ ts
    → log_write b s.log ≡ some l
    → IsReserved s
    → IsReserved (record { log = l; budgets = rs ++ r ∷ ts })
logs-IsReserved s b rs r ts l e w i =
    let (lh, out, still) = log_write-keeps b s.log l w in
    let (lo, hi) = Small-split rs (suc r ∷ ts) (subst Small e i.small) in
    record {
      counted =
          out
          ∙ i.counted
          ∙ ap (λ n. pos n)
              (ap length e ∙ length-middle rs ts (suc r) ∙ sym (length-middle rs ts r));
      room = omega (
        arith,
        i.room,
        ap length lh,
        length-absorb-le b s.log.lh,
        ap total e,
        total-append rs (suc r ∷ ts),
        total-append rs (r ∷ ts),
      );
      alone = λ c.
          absurd (
            omega
              (arith, ap length (sym e ∙ i.alone (sym still ∙ c)), length-middle rs ts (suc r)));
      small = Small-append rs (r ∷ ts) lo (omega arith, hi.1);
      once = rw lh (absorb-Distinct b s.log.lh i.once);
    }

ends-IsReserved :
    (s : Ops) (rs : List ℕ) (r : ℕ) (ts : List ℕ) (last : Bool) (l : Log)
    → s.budgets ≡ rs ++ r ∷ ts
    → end_op_enter s.log ≡ some (last, l)
    → IsReserved s
    → IsReserved (record { log = l; budgets = rs ++ ts })
ends-IsReserved s rs r ts last l e b i =
    let n = ap length e ∙ length-middle rs ts r in
    let (lh, out, still, _) =
      end_op_enter-keeps s.log l (length (rs ++ ts)) last (i.counted ∙ ap (λ n. pos n) n) b in
    let (lo, hi) = Small-split rs (r ∷ ts) (subst Small e i.small) in
    record {
      counted = out;
      room =
          omega
            (arith, i.room, ap length lh, ap total e, total-append rs (r ∷ ts), total-append rs ts);
      alone = λ c. none_left (rs ++ ts) (sym still ∙ c);
      small = Small-append rs ts lo hi.1;
      once = rw lh i.once;
    }
  where
    none_left : (bs : List ℕ) → (length bs == 0) ≡ true → bs ≡ []
    none_left [] h = refl
    none_left (x ∷ bs) h = absurd (ground arith)

commits-IsReserved :
    (s : Ops)
    → IsReserved s
    → s.log.committing ≡ true
    → IsReserved (record s { log = end_op_leave s.log })
unfolding end_op_leave
commits-IsReserved s i c = record {
  counted = i.counted;
  room = omega (arith, i.room);
  alone = λ f. i.alone c;
  small = i.small;
  once = tt;
}

Step-IsReserved : {s t : Ops} → Step s t → IsReserved s → IsReserved t
Step-IsReserved (begins s {l} b) i = begins-IsReserved s l b i
Step-IsReserved (logs s b rs r ts {l} e w) i = logs-IsReserved s b rs r ts l e w i
Step-IsReserved (ends s rs r ts {last} {l} e w) i = ends-IsReserved s rs r ts last l e w i
Step-IsReserved (commits s c) i = commits-IsReserved s i c

pub Reach-IsReserved : {s t : Ops} → IsReserved s → Reach s t → IsReserved t
Reach-IsReserved i here = i
Reach-IsReserved i (next r st) = Step-IsReserved st (Reach-IsReserved i r)

-- In every state that is reached, by system calls that log `max_op_blocks` blocks each at most, an
-- operation that has blocks left may log one, in a log of log_size blocks at least, which is the size
-- that mkfs makes: log_write keeps the header to log_size blocks, none of them twice; or it panics,
-- and this only in a log of exactly log_size blocks whose header has log_size - 1 already.
pub Reach-log_write :
    {s t : Ops} (b : ℕ) (rs : List ℕ) (r : ℕ) (ts : List ℕ)
    → IsReserved s
    → Reach s t
    → log_size ≤ t.log.size
    → t.budgets ≡ rs ++ suc r ∷ ts
    → ((l : Log) × (log_write b t.log ≡ some l)
        × (length l.lh ≤ log_size)
        × (has b l.lh ≡ true)
        × Distinct l.lh)
      ⊎ ((log_write b t.log ≡ none) × (t.log.size ≡ log_size) × (suc (length t.log.lh) ≡ log_size))
unfolding log_write
Reach-log_write {s} {t} b rs r ts start path big e =
    let i = Reach-IsReserved start path in
    let n = ap length e ∙ length-middle rs ts (suc r) in
    let room : length t.log.lh < log_size =
      omega (arith, i.room, ap total e, total-append rs (suc r ∷ ts)) in
    elim (Bool-cases (leb (t.log.size - 1) (length t.log.lh))) [
      | inl full ↦ inr (ground (arith, room, full), ground (arith, big), ground (arith, big))
      | inr free ↦ inl (
        record t.log { lh = absorb b t.log.lh; dirty = update t.log.dirty b true },
        ground (arith, room, free, i.counted, n),
        omega (arith, length-absorb-le b t.log.lh),
        has-absorb b b t.log.lh ∙ ground arith,
        absorb-Distinct b t.log.lh i.once,
      )
    ]
