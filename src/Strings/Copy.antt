-- ===== src/Strings/Copy.antt =====
-- What strncmp, strncpy, safestrcpy and strlen do with the string that stands at an address.
use tron_boss_os.Base.{
  ℕ, zero, suc, ◌+◌, ◌-◌, ◌≤◌, ◌<◌, ◌≡◌, ◌≢◌, refl, sym, inl, inr, ◌⊎◌, false, arith, if◌then◌else◌,
  update, update_self, update_other, ◌∙◌, ap, ◌==◌, eq-cases, some, List, [], ◌∷◌, pos, length,
}
use tron_boss_os.Strings.{
  Memory, minus, strncmp, pad, strncpy_loop, strncpy, safestrcpy_loop, safestrcpy, strlen_loop,
  strlen,
}
use tron_boss_os.Strings.Move.{within}

-- The bytes up to the first NUL, of the `n` bytes at `p`
abbrev pub string : (n : ℕ) → Memory → (p : ℕ) → List ℕ
string zero m p = []
string (suc n) m p = let rest = string n m (suc p) in if m p == 0 then [] else m p ∷ rest

string-same :
    (n : ℕ) (m m' : Memory) (p : ℕ)
    → ((a : ℕ) → p ≤ a → a < p + n → m' a ≡ m a)
    → string n m' p ≡ string n m p
string-same zero m m' p same = refl
string-same (suc n) m m' p same =
    let rest = string-same n m m' (suc p) (λ a lo hi. same a (omega arith) (omega arith)) in
    rw (same p (omega arith) (omega arith), rest) refl

string-stop : (n : ℕ) (m : Memory) (p : ℕ) → m p ≡ 0 → string (suc n) m p ≡ []
string-stop n m p e = ground arith

string-next : (n : ℕ) (m : Memory) (p : ℕ) → m p ≢ 0 → string (suc n) m p ≡ m p ∷ string n m (suc p)
string-next n m p ne = ground arith

minus_zero : (a b : ℕ) → minus a b ≡ pos 0 → a ≡ b
minus_zero a b e = ground arith

-- `strncmp` answers 0 exactly if the two strings, of at most `n` bytes, are the same.
pub strncmp-string :
    (m : Memory) (p q n : ℕ)
    → ((strncmp m p q n ≡ pos 0) → string n m p ≡ string n m q)
      × (string n m p ≡ string n m q → strncmp m p q n ≡ pos 0)
unfolding strncmp
strncmp-string m p q zero = (λ e. refl, λ e. refl)
strncmp-string m p q (suc n) =
    let rest = strncmp-string m (suc p) (suc q) n in
    ground (arith, minus_zero (m p) (m q), rest.0, rest.1)

pad-frame : (s n : ℕ) (m : Memory) (a : ℕ) → within s n a ≡ false → pad s n m a ≡ m a
unfolding pad
pad-frame s zero m a out = refl
pad-frame s (suc n) m a out =
    pad-frame (suc s) n (update m s 0) a (ground arith) ∙ update_other m s 0 a (ground arith)

strncpy_loop-frame :
    (s t n : ℕ) (m : Memory) (a : ℕ) → within s n a ≡ false → strncpy_loop s t n m a ≡ m a
unfolding strncpy_loop
strncpy_loop-frame s t zero m a out = refl
strncpy_loop-frame s t (suc n) m a out =
    let m' = update m s (m t) in
    let e : m' a ≡ m a = update_other m s (m t) a (ground arith) in
    let p = pad-frame (suc s) n m' a (ground arith) in
    let r = strncpy_loop-frame (suc s) (suc t) n m' a (ground arith) in ground (arith, e, p, r)

safestrcpy_loop-frame :
    (s t n : ℕ) (m : Memory) (a : ℕ) → within s (suc n) a ≡ false → safestrcpy_loop s t n m a ≡ m a
unfolding safestrcpy_loop
safestrcpy_loop-frame s t zero m a out = update_other m s 0 a (ground arith)
safestrcpy_loop-frame s t (suc n) m a out =
    let m' = update m s (m t) in
    let e : m' a ≡ m a = update_other m s (m t) a (ground arith) in
    let p : update m' (suc s) 0 a ≡ m' a = update_other m' (suc s) 0 a (ground arith) in
    let r = safestrcpy_loop-frame (suc s) (suc t) n m' a (ground arith) in ground (arith, e, p, r)

strncpy_loop-pad :
    (s t n : ℕ) (m : Memory)
    → m t ≡ 0
    → strncpy_loop s t (suc n) m ≡ pad (suc s) n (update m s (m t))
unfolding strncpy_loop
strncpy_loop-pad s t n m z = ground arith

strncpy_loop-next :
    (s t n : ℕ) (m : Memory)
    → m t ≢ 0
    → strncpy_loop s t (suc n) m ≡ strncpy_loop (suc s) (suc t) n (update m s (m t))
unfolding strncpy_loop
strncpy_loop-next s t n m ne = ground arith

safestrcpy_loop-stop :
    (s t n : ℕ) (m : Memory)
    → m t ≡ 0
    → safestrcpy_loop s t (suc n) m ≡ update (update m s (m t)) (suc s) 0
unfolding safestrcpy_loop
safestrcpy_loop-stop s t n m z = ground arith

safestrcpy_loop-next :
    (s t n : ℕ) (m : Memory)
    → m t ≢ 0
    → safestrcpy_loop s t (suc n) m ≡ safestrcpy_loop (suc s) (suc t) n (update m s (m t))
unfolding safestrcpy_loop
safestrcpy_loop-next s t n m ne = ground arith

-- A memory that has the byte at `t` at `s` and, behind `s`, the string behind `t`
string-next_same :
    (k n s t : ℕ) (m m' r : Memory)
    → m t ≢ 0
    → r s ≡ m t
    → string k r (suc s) ≡ string n m' (suc t)
    → ((a : ℕ) → suc t ≤ a → a < suc t + n → m' a ≡ m a)
    → string (suc k) r s ≡ string (suc n) m t
string-next_same k n s t m m' r ne e rest same =
    string-next k r s (λ z. ne (sym e ∙ z))
    ∙ ap (λ (x : ℕ). x ∷ string k r (suc s)) e
    ∙ ap (λ (xs : List ℕ). m t ∷ xs) (rest ∙ string-same n m m' (suc t) same)
    ∙ sym (string-next n m t ne)

strncpy_loop-string :
    (s t n : ℕ) (m : Memory)
    → (t + n ≤ s) ⊎ (s + n ≤ t)
    → string n (strncpy_loop s t n m) s ≡ string n m t
strncpy_loop-string s t zero m apart = refl
strncpy_loop-string s t (suc n) m apart =
    let m' = update m s (m t) in
    let e : m' s ≡ m t = update_self m s (m t) in
    elim (eq-cases (m t) 0) [
      | inl (z, _) ↦
          ap (λ (r : Memory). string (suc n) r s) (strncpy_loop-pad s t n m z)
          ∙ string-stop n (pad (suc s) n m') s (pad-frame (suc s) n m' s (ground arith) ∙ e ∙ z)
          ∙ sym (string-stop n m t z)
      | inr (ne, _) ↦
          ap (λ (r : Memory). string (suc n) r s) (strncpy_loop-next s t n m ne)
          ∙ string-next_same n n s t m m' (strncpy_loop (suc s) (suc t) n m') ne
              (strncpy_loop-frame (suc s) (suc t) n m' s (ground arith) ∙ e)
              (strncpy_loop-string (suc s) (suc t) n m' (ground arith))
              (λ a lo hi. update_other m s (m t) a (ground arith))
    ]

safestrcpy_loop-string :
    (s t n : ℕ) (m : Memory)
    → (t + n ≤ s) ⊎ (s + suc n ≤ t)
    → string (suc n) (safestrcpy_loop s t n m) s ≡ string n m t
unfolding safestrcpy_loop
safestrcpy_loop-string s t zero m apart =
    string-stop 0 (safestrcpy_loop s t 0 m) s (update_self m s 0)
safestrcpy_loop-string s t (suc n) m apart =
    let m' = update m s (m t) in
    let e : m' s ≡ m t = update_self m s (m t) in
    elim (eq-cases (m t) 0) [
      | inl (z, _) ↦
          ap (λ (r : Memory). string (suc (suc n)) r s) (safestrcpy_loop-stop s t n m z)
          ∙ string-stop (suc n) (update m' (suc s) 0) s
              (update_other m' (suc s) 0 s (omega arith) ∙ e ∙ z)
          ∙ sym (string-stop n m t z)
      | inr (ne, _) ↦
          ap (λ (r : Memory). string (suc (suc n)) r s) (safestrcpy_loop-next s t n m ne)
          ∙ string-next_same (suc n) n s t m m' (safestrcpy_loop (suc s) (suc t) n m') ne
              (safestrcpy_loop-frame (suc s) (suc t) n m' s (ground arith) ∙ e)
              (safestrcpy_loop-string (suc s) (suc t) n m' (ground arith))
              (λ a lo hi. update_other m s (m t) a (ground arith))
    ]

-- `safestrcpy` with a positive `n` leaves at `s` the string at `t`, cut to `n - 1` bytes and with
-- its NUL in the `n` bytes at `s`, and changes no other byte, if the ranges do not overlap.
pub safestrcpy-string :
    (s t n : ℕ) (m : Memory)
    → (t + n ≤ s) ⊎ (s + suc n ≤ t)
    → (string (suc n) (safestrcpy s t (pos (suc n)) m) s ≡ string n m t)
      × ((a : ℕ) → within s (suc n) a ≡ false → safestrcpy s t (pos (suc n)) m a ≡ m a)
unfolding safestrcpy
safestrcpy-string s t n m apart =
    (safestrcpy_loop-string s t n m apart, safestrcpy_loop-frame s t n m)

-- A name that `strncpy` stores in a field of `n` bytes compares equal by `strncmp` to the name that
-- was given, and no byte out of the field changes, if the name's `n` bytes are not in the field.
pub strncmp-strncpy :
    (s t n : ℕ) (m : Memory)
    → (t + n ≤ s) ⊎ (s + n ≤ t)
    → (strncmp (strncpy s t (pos n) m) s t n ≡ pos 0)
      × ((a : ℕ) → within s n a ≡ false → strncpy s t (pos n) m a ≡ m a)
unfolding strncpy
strncmp-strncpy s t n m apart = (
  (strncmp-string (strncpy_loop s t n m) s t n).1 (
      strncpy_loop-string s t n m apart
      ∙ sym (
          string-same n m (strncpy_loop s t n m) t
            (λ a lo hi. strncpy_loop-frame s t n m a (ground arith)))),
  strncpy_loop-frame s t n m,
)

strlen_loop_lem :
    (fuel : ℕ) (m : Memory) (s n k : ℕ)
    → k < fuel
    → m (s + n + k) ≡ 0
    → strlen_loop fuel m s n ≡ some (n + length (string fuel m (s + n)))
unfolding strlen_loop
strlen_loop_lem zero m s n k lt z = absurd (omega arith)
strlen_loop_lem (suc fuel) m s n k lt z = elim (eq-cases (m (s + n)) 0) [
  | inl (_, b) ↦ rw b (ap some (omega arith))
  | inr (ne, b) ↦
      let p : k ≢ 0 = λ e. ne (sym (ap m (omega arith)) ∙ z) in
      let a : suc (s + n) ≡ s + suc n = omega arith in
      let rest = strlen_loop_lem fuel m s (suc n) (k - 1) (omega arith) (ap m (omega arith) ∙ z) in
      rw b (rest ∙ rw a (ap some (omega arith)))
]

-- `strlen` is the number of bytes up to the first NUL, with any fuel that reaches a NUL.
pub strlen-string :
    (fuel : ℕ) (m : Memory) (s k : ℕ)
    → k < fuel
    → m (s + k) ≡ 0
    → strlen fuel m s ≡ some (length (string fuel m s))
unfolding strlen
strlen-string fuel m s k lt z =
    let a : s + 0 ≡ s = omega arith in
    strlen_loop_lem fuel m s 0 k lt (ap m (omega arith) ∙ z)
    ∙ ap (λ (p : ℕ). some (0 + length (string fuel m p))) a
    ∙ ap some (omega arith)
