-- ===== src/Syscall/Bounds.antt =====
-- What argptr and fetchstr let through, in a process that ends at KERNBASE at most. A size that is
-- negative as an int is not looked at here.
use tron_boss_os.Base.{
  ℕ, zero, suc, ◌+◌, ◌-◌, ◌*◌, ◌%◌, ◌≤◌, ◌<◌, ◌≡◌, ◌≢◌, refl, sym, ap, ◌∙◌, inl, inr, ◌⊎◌, ◌||◌,
  none, some, ltb, leb, arith, Bool-cases, eq-cases,
}
use tron_boss_os.Kernel.{uint_mod}
use tron_boss_os.Kalloc.{kernbase}
use tron_boss_os.Strings.{Memory}
use tron_boss_os.Syscall.{load_int, fetchint, fetchstr_loop, fetchstr, argint, argptr, check_block}

-- Where argument `n` stands
abbrev pub slot : (esp n : ℕ) → ℕ
slot esp n = (esp + 4 + 4 * n) % uint_mod

fetchint_lem :
    (sz : ℕ) (mem : Memory) (addr : ℕ)
    → sz ≤ kernbase
    → ((addr + 4 ≤ sz) × (fetchint sz mem addr ≡ some (load_int mem addr)))
      ⊎ ((sz < addr + 4) × (fetchint sz mem addr ≡ none))
unfolding fetchint
fetchint_lem sz mem addr le = elim (Bool-cases (ltb sz (addr + 4))) [
  | inl b ↦ inr (ground arith, ground arith)
  | inr b ↦ inl (ground arith, ground arith)
]

check_block_lem :
    (sz size i : ℕ)
    → sz ≤ kernbase
    → size < kernbase
    → ((i < sz) × (i + size ≤ sz) × (check_block sz size (some i) ≡ some i))
      ⊎ ((sz ≤ i) ⊎ (sz < i + size)) × (check_block sz size (some i) ≡ none)
check_block_lem sz size i le lt = elim (Bool-cases (leb sz i || ltb sz (i + size))) [
  | inl b ↦ inr (ground arith, ground arith)
  | inr b ↦ inl (ground arith, ground arith, ground arith)
]

-- `argptr` for a block of `size` bytes that is not negative as an int: it hands out a pointer only
-- if the argument and the whole block lie in the process, and then the argument itself; otherwise
-- it fails.
pub argptr-inside :
    (sz : ℕ) (mem : Memory) (esp n size : ℕ)
    → sz ≤ kernbase
    → size < kernbase
    → ((p : ℕ) × (argptr sz mem esp n size ≡ some p)
        × (p ≡ load_int mem (slot esp n))
        × (slot esp n + 4 ≤ sz)
        × (p < sz)
        × (p + size ≤ sz))
      ⊎ ((argptr sz mem esp n size ≡ none)
          × ((sz < slot esp n + 4)
              ⊎ ((sz ≤ load_int mem (slot esp n)) ⊎ (sz < load_int mem (slot esp n) + size))))
unfolding argptr argint
argptr-inside sz mem esp n size le lt = elim (fetchint_lem sz mem (slot esp n) le) [
  | inr (out, e) ↦ inr (ap (check_block sz size) e, inl out)
  | inl (slot_in, e) ↦ elim (check_block_lem sz size (load_int mem (slot esp n)) le lt) [
    | inl (in1, in2, e') ↦
        inl (load_int mem (slot esp n), ap (check_block sz size) e ∙ e', refl, slot_in, in1, in2)
    | inr (out, e') ↦ inr (ap (check_block sz size) e ∙ e', inr out)
  ]
]

-- The first NUL behind `s` within `n` bytes
fetchstr_loop_lem :
    (n : ℕ) (mem : Memory) (s pp : ℕ)
    → pp ≤ s
    → ((k : ℕ) × (fetchstr_loop n mem s pp ≡ some (s + k - pp))
        × (k < n)
        × (mem (s + k) ≡ 0)
        × ((j : ℕ) → j < k → mem (s + j) ≢ 0))
      ⊎ ((fetchstr_loop n mem s pp ≡ none) × ((j : ℕ) → j < n → mem (s + j) ≢ 0))
unfolding fetchstr_loop
fetchstr_loop_lem zero mem s pp le = inr (refl, λ j lt. absurd (omega arith))
fetchstr_loop_lem (suc n) mem s pp le =
    let shift : (j : ℕ) → mem (suc s + j) ≡ mem (s + suc j) = λ j. ap mem (omega arith) in
    elim (eq-cases (mem s) 0) [
      | inl (z, b) ↦ inl (
        0,
        rw b (ap some (omega arith)),
        omega arith,
        ap mem (omega arith) ∙ z,
        λ j lt. absurd (omega arith),
      )
      | inr (ne, b) ↦
          let before : (k : ℕ)
              → ((j : ℕ) → j < k → mem (suc s + j) ≢ 0)
              → (j : ℕ) → j < suc k
              → mem (s + j) ≢ 0 =
            λ k all j lt. elim (eq-cases j 0) [
              | inl (e, _) ↦ λ z. ne (ap mem (omega arith) ∙ z)
              | inr (other, _) ↦ λ z. all (j - 1) (omega arith) (ap mem (omega arith) ∙ z)
            ] in
          elim (fetchstr_loop_lem n mem (suc s) pp (omega arith)) [
            | inl (k, e, lt, z, all) ↦ inl (
              suc k,
              rw b (e ∙ ap some (omega arith)),
              omega arith,
              sym (shift k) ∙ z,
              before k all,
            )
            | inr (e, all) ↦ inr (rw b e, before n all)
          ]
    ]

-- `fetchstr` finds the first NUL at or behind `addr` and returns the distance to it, if it lies in
-- the process, and fails if there is none in the process.
pub fetchstr-inside :
    (sz : ℕ) (mem : Memory) (addr : ℕ)
    → ((k : ℕ) × (fetchstr sz mem addr ≡ some k)
        × (addr + k < sz)
        × (mem (addr + k) ≡ 0)
        × ((j : ℕ) → j < k → mem (addr + j) ≢ 0))
      ⊎ ((fetchstr sz mem addr ≡ none) × ((j : ℕ) → addr + j < sz → mem (addr + j) ≢ 0))
unfolding fetchstr
fetchstr-inside sz mem addr = elim (Bool-cases (leb sz addr)) [
  | inl b ↦ inr (rw b refl, λ j lt. absurd (ground arith))
  | inr b ↦ elim (fetchstr_loop_lem (sz - addr) mem addr addr (omega arith)) [
    | inl (k, e, lt, z, all) ↦ inl (k, rw b (e ∙ ap some (omega arith)), ground arith, z, all)
    | inr (e, all) ↦ inr (rw b e, λ j lt. all j (omega arith))
  ]
]
