-- ===== src/Strings/Move.antt =====
-- memmove copies as if from a snapshot of the source, also where the two ranges overlap.
use tron_boss_os.Base.{
  ℕ, zero, suc, ◌+◌, ◌-◌, ◌≤◌, ◌<◌, ◌≡◌, inl, inr, ◌⊎◌, Bool, false, ◌&&◌, arith, ltb, leb,
  if◌then◌else◌, update, ◌∙◌, ap, Bool-cases, ◌==◌,
}
use tron_boss_os.Strings.{Memory, copy_up, copy_down, memmove}

abbrev pub within : (start n a : ℕ) → Bool
within start n a = leb start a && ltb a (start + n)

-- The byte at `a` once `n` bytes at `src`, all read before the first write, are at `dst`.
abbrev pub moved : (dst src n : ℕ) → Memory → ℕ → ℕ
moved dst src n m a = if within dst n a then m (src + (a - dst)) else m a

copy_up_lem :
    (d s n : ℕ) (m : Memory) (a : ℕ) → (d ≤ s) ⊎ (s + n ≤ d) → copy_up d s n m a ≡ moved d s n m a
unfolding copy_up update
copy_up_lem d s zero m a apart = ground arith
copy_up_lem d s (suc n) m a apart =
    let first : a ≡ d → m (s + (a - d)) ≡ m s = λ e. ap m (omega arith) in
    let next : d < a → m (suc s + (a - suc d)) ≡ m (s + (a - d)) = λ lt. ap m (omega arith) in
    let other : d < a → a < d + suc n → (suc s + (a - suc d) == d) ≡ false =
      λ lo hi. ground arith in
    copy_up_lem (suc d) (suc s) n (update m d (m s)) a (ground arith)
    ∙ ground (arith, first, next, other)

copy_down_lem :
    (d s n : ℕ) (m : Memory) (a : ℕ) → s ≤ d → copy_down (d + n) (s + n) n m a ≡ moved d s n m a
unfolding copy_down update
copy_down_lem d s zero m a le = ground arith
copy_down_lem d s (suc n) m a le =
    let m' = update m (d + n) (m (s + n)) in
    let last : a ≡ d + n → m (s + (a - d)) ≡ m (s + n) = λ e. ap m (omega arith) in
    let other : d ≤ a → a < d + n → (s + (a - d) == d + n) ≡ false = λ lo hi. ground arith in
    ap (λ (k : ℕ). copy_down k (s + suc n - 1) n (update m k (m (s + suc n - 1))) a) (omega arith)
    ∙ ap (λ (k : ℕ). copy_down (d + n) k n (update m (d + n) (m k)) a) (omega arith)
    ∙ copy_down_lem d s n m' a le
    ∙ ground (arith, last, other)

-- `memmove`, whichever way it goes, leaves at `dst` the `n` bytes that were at `src`, and changes
-- no other byte.
pub memmove-moved :
    (dst src n : ℕ) (m : Memory) (a : ℕ) → memmove dst src n m a ≡ moved dst src n m a
unfolding memmove
memmove-moved dst src n m a = elim (Bool-cases (ltb src dst && ltb dst (src + n))) [
  | inl b ↦ rw b (copy_down_lem dst src n m a (ground arith))
  | inr b ↦ rw b (copy_up_lem dst src n m a (ground arith))
]
