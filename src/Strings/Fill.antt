-- ===== src/Strings/Fill.antt =====
-- memset writes words where it can, and that is the byte in every place.
use tron_boss_os.Base.{
  ℕ, zero, suc, ◌+◌, ◌*◌, ◌/◌, ◌%◌, ◌<◌, ◌≡◌, inl, inr, ◌&&◌, arith, if◌then◌else◌, update, ◌∙◌, ap,
  Bool-cases, ◌==◌,
}
use tron_boss_os.Strings.{Memory, stosb, stosl, store_word, memset}
use tron_boss_os.Strings.Move.{within}

abbrev pub filled : (dst b n : ℕ) → Memory → ℕ → ℕ
filled dst b n m a = if within dst n a then b else m a

stosb_lem : (d v n : ℕ) (m : Memory) (a : ℕ) → stosb d v n m a ≡ filled d (v % 256) n m a
unfolding stosb update
stosb_lem d v zero m a = ground arith
stosb_lem d v (suc n) m a = stosb_lem (suc d) v n (update m d (v % 256)) a ∙ ground arith

-- A byte in each of the four places of a word
same_bytes :
    (b : ℕ)
    → b < 256
    → let v = b * 16777216 + b * 65536 + b * 256 + b in
      (v % 256 ≡ b) × (v / 256 % 256 ≡ b) × (v / 65536 % 256 ≡ b) × (v / 16777216 % 256 ≡ b)
same_bytes b lt = (omega arith, omega arith, omega arith, omega arith)

store_word-filled :
    (d b : ℕ) (m : Memory) (a : ℕ)
    → b < 256
    → store_word d (b * 16777216 + b * 65536 + b * 256 + b) m a ≡ filled d b 4 m a
unfolding update
store_word-filled d b m a lt = let p = same_bytes b lt in ground (arith, p.0, p.1, p.2, p.3)

stosl_lem :
    (d b n : ℕ) (m : Memory) (a : ℕ)
    → b < 256
    → stosl d (b * 16777216 + b * 65536 + b * 256 + b) n m a ≡ filled d b (4 * n) m a
unfolding stosl
stosl_lem d b zero m a lt = ground arith
stosl_lem d b (suc n) m a lt =
    let v = b * 16777216 + b * 65536 + b * 256 + b in
    stosl_lem (d + 4) b n (store_word d v m) a lt ∙ ground (arith, store_word-filled d b m a lt)

-- `memset` writes the low byte of `c` to each of the `n` bytes at `dst` and changes no other byte.
pub memset-filled :
    (dst c n : ℕ) (m : Memory) (a : ℕ) → memset dst c n m a ≡ filled dst (c % 256) n m a
unfolding memset
memset-filled dst c n m a = elim (Bool-cases ((dst % 4 == 0) && (n % 4 == 0))) [
  | inl b ↦ rw b (
      stosl_lem dst (c % 256) (n / 4) m a (omega arith)
      ∙ ap (λ (k : ℕ). filled dst (c % 256) k m a) (ground arith))
  | inr b ↦ rw b (stosb_lem dst c n m a)
]
