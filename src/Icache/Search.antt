-- ===== src/Icache/Search.antt =====
-- The loop of iget.
use tron_boss_os.Base.{
  ℕ, zero, suc, ◌-◌, ◌≤◌, ◌<◌, ◌≡◌, ◌≢◌, refl, inl, inr, ◌⊎◌, true, false, ◌&&◌, arith, ◌==◌,
  if◌then◌else◌, eq-cases, Bool-cases, ap, ◌∙◌, sym, subst,
}
use tron_boss_os.Links.{Ptr, null}
use tron_boss_os.Icache.{ninode, Icache, is_cached, Found, cached, vacant, iget_loop}

-- No entry, or one that is free
abbrev pub IsEmpty : Icache → Ptr → Type 0
IsEmpty t e = (e ≡ null) ⊎ ((1 ≤ e) × (e ≤ ninode) × ((t e).ref ≡ 0))

-- What the loop finds with `n` entries to go
abbrev pub Finds : (n dev inum : ℕ) → Icache → (empty : Ptr) → Found → Type 0
Finds n dev inum t empty r =
    ((ip : Ptr) × (r ≡ cached ip) × (1 ≤ ip) × (ip ≤ ninode) × (is_cached dev inum (t ip) ≡ true))
    ⊎ (((ip : Ptr) → ninode - n < ip → ip ≤ ninode → is_cached dev inum (t ip) ≡ false)
        × ((e : Ptr) × (r ≡ vacant e)
            × (((1 ≤ e) × (e ≤ ninode) × ((t e).ref ≡ 0))
                ⊎ ((e ≡ null)
                    × (empty ≡ null)
                    × ((ip : Ptr) → ninode - n < ip → ip ≤ ninode → (t ip).ref ≢ 0)))))

-- "Remember empty slot."
remember :
    (t : Icache) (empty ip : Ptr)
    → let e = if (empty == null) && ((t ip).ref == 0) then ip else empty in
      ((e ≡ ip) × ((t ip).ref ≡ 0)) ⊎ ((e ≡ empty) × (empty ≡ null → (t ip).ref ≢ 0))
remember t empty ip = elim (eq-cases empty null) [
  | inl (_, b) ↦ elim (eq-cases (t ip).ref 0) [
    | inl (z, b') ↦ rw (b, b') (inl (refl, z))
    | inr (nz, b') ↦ rw (b, b') (inr (refl, λ _. nz))
  ]
  | inr (ne, b) ↦ rw b (inr (refl, λ e. absurd (ne e)))
]

pub iget_loop-Finds :
    (n dev inum : ℕ) (t : Icache) (empty : Ptr)
    → n ≤ ninode
    → IsEmpty t empty
    → Finds n dev inum t empty (iget_loop n dev inum t empty)
unfolding iget_loop
iget_loop-Finds zero dev inum t empty le (inl e) =
    inr (
      λ ip lo hi. absurd (omega arith),
      (empty, refl, inr (e, e, λ ip lo hi. absurd (omega arith))),
    )
iget_loop-Finds zero dev inum t empty le (inr e) =
    inr (λ ip lo hi. absurd (omega arith), (empty, refl, inl e))
iget_loop-Finds (suc n) dev inum t empty le em =
    let ip0 = suc (ninode - suc n) in
    let empty' = if (empty == null) && ((t ip0).ref == 0) then ip0 else empty in
    let em' : IsEmpty t empty' = elim (remember t empty ip0) [
      | inl (e, z) ↦ subst (IsEmpty t) (sym e) (inr (omega arith, omega arith, z))
      | inr (e, _) ↦ subst (IsEmpty t) (sym e) em
    ] in
    elim (Bool-cases (is_cached dev inum (t ip0))) [
      | inl b ↦ rw b (inl (ip0, refl, omega arith, omega arith, b))
      | inr b ↦ elim (iget_loop-Finds n dev inum t empty' (omega arith) em') [
        | inl (ip, e, lo, hi, c) ↦ rw (iget_loop, b) (inl (ip, e, lo, hi, c))
        | inr (none_cached, (e, r, which)) ↦
            rw (iget_loop, b)
              (inr (
                λ ip lo hi. elim (eq-cases ip ip0) [
                  | inl (e, _) ↦ ap (λ (k : Ptr). is_cached dev inum (t k)) e ∙ b
                  | inr (ne, _) ↦ none_cached ip (omega arith) hi
                ],
                (
                  e,
                  r,
                  elim which [
                    | inl free ↦ inl free
                    | inr (z, z', all) ↦ elim (remember t empty ip0) [
                      | inl (e', _) ↦ absurd (omega (arith, e', z'))
                      | inr (e', held) ↦
                          let none : empty ≡ null = sym e' ∙ z' in
                          inr (
                            z,
                            none,
                            λ ip lo hi. elim (eq-cases ip ip0) [
                              | inl (same, _) ↦ λ zero_ref.
                                  held none (sym (ap (λ (k : Ptr). (t k).ref) same) ∙ zero_ref)
                              | inr (ne, _) ↦ all ip (omega arith) hi
                            ],
                          )
                    ]
                  ],
                ),
              ))
      ]
    ]
