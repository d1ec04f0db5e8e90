-- ===== src/Proc/Budget.antt =====
-- The time budget that yield and sleep charge.
use tron_boss_os.Base.{ℕ, ◌+◌, ◌-◌, ◌≤◌, ◌<◌, ◌≡◌, arith, ◌==◌, if◌then◌else◌}
use tron_boss_os.Links.{max_priority}
use tron_boss_os.Kernel.{Proc, uint_mod, sub_uint}
use tron_boss_os.Proc.{charge_budget, ticks_in_cpu, default_budget}

-- The next level, up to the last.
abbrev pub demoted : ℕ → ℕ
demoted n = if n == max_priority then n else n + 1

sub_uint_lem : (a b : ℕ) → a < uint_mod → b ≤ a → sub_uint a b ≡ a - b
sub_uint_lem a b h k = omega arith

sub_uint_wraps : (a b : ℕ) → a < b → b < uint_mod → sub_uint a b ≡ a + uint_mod - b
sub_uint_wraps a b h k = omega arith

-- A process that has used less than its budget keeps its level and the rest of the budget.
pub charge_budget_within :
    (ticks : ℕ) (r : Proc)
    → r.budget < uint_mod
    → ticks_in_cpu ticks r < r.budget
    → let r' = charge_budget ticks r in
      (r'.priority ≡ r.priority) × (r'.budget ≡ r.budget - ticks_in_cpu ticks r)
unfolding charge_budget
charge_budget_within ticks r fits lt =
    ground (arith, sub_uint_lem r.budget (ticks_in_cpu ticks r) fits (omega arith))

-- A process that has used its budget up to the tick is demoted by one level, unless it is on the
-- last, and gets a full budget.
pub charge_budget_used :
    (ticks : ℕ) (r : Proc)
    → r.budget < uint_mod
    → ticks_in_cpu ticks r ≡ r.budget
    → let r' = charge_budget ticks r in
      (r'.priority ≡ demoted r.priority) × (r'.budget ≡ default_budget)
unfolding charge_budget
charge_budget_used ticks r fits h =
    ground (arith, sub_uint_lem r.budget (ticks_in_cpu ticks r) fits (omega arith))

-- A process that has used more than its budget is not demoted: the budget is unsigned, so it wraps
-- round to a value near 2 ^ 32 instead of falling to 0 or below.
pub charge_budget_overrun :
    (ticks : ℕ) (r : Proc)
    → r.budget < ticks_in_cpu ticks r
    → ticks_in_cpu ticks r < uint_mod
    → let r' = charge_budget ticks r in
      (r'.priority ≡ r.priority) × (r'.budget ≡ r.budget + uint_mod - ticks_in_cpu ticks r)
unfolding charge_budget
charge_budget_overrun ticks r over fits =
    ground (arith, sub_uint_wraps r.budget (ticks_in_cpu ticks r) over fits)
