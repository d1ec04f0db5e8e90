-- ===== src/File/Refs.antt =====
-- Reference counts of files: one for each holder of the file, that is a descriptor of some process.
use tron_boss_os.Base.{
  count, count-has, has-counted, count-erase, ℕ, zero, suc, ◌+◌, ◌-◌, ◌≤◌, ◌<◌, ◌≡◌, ◌≢◌, refl, ap,
  ◌∙◌, inl, inr, ◌⊎◌, true, false, some, List, ◌∷◌, arith, if◌then◌else◌, eq-cases, Bool-cases,
  update, update_self, update_other, has, erase,
}
use tron_boss_os.Links.{Ptr, null}
use tron_boss_os.File.{
  nfile, File, Ftable, fd_none, alloc_loop, filealloc, filedup, nothing, closing, fileclose,
}

-- `holders` has a file as often as it is held, and the table counts that.
abbrev pub IsCounted : Ftable → List Ptr → Type 0
IsCounted t holders = (f : Ptr) → (t f).ref ≡ count f holders

IsCounted-update :
    (t : Ftable) (f : Ptr) (r : File) (holders : List Ptr)
    → ((g : Ptr) → g ≢ f → (t g).ref ≡ count g holders)
    → r.ref ≡ count f holders
    → IsCounted (update t f r) holders
IsCounted-update t f r holders other self g = elim (eq-cases g f) [
  | inl (e, _) ↦ rw (e, update_self t f r) self
  | inr (ne, _) ↦ rw (update_other t f r g ne) (other g ne)
]

-- What filealloc returns: the first slot behind the `i` that have been seen whose count is 0.
alloc_loop_lem :
    (n : ℕ) (t : Ftable)
    → n ≤ nfile
    → ((alloc_loop n t ≡ (null, t)) × ((f : Ptr) → nfile - n < f → f ≤ nfile → (t f).ref ≢ 0))
      ⊎ ((f : Ptr) × (nfile - n < f)
          × (f ≤ nfile)
          × ((t f).ref ≡ 0)
          × (alloc_loop n t ≡ (f, update t f (record (t f) { ref = 1 }))))
unfolding alloc_loop
alloc_loop_lem zero t le = inl (refl, λ f lo hi. absurd (omega arith))
alloc_loop_lem (suc n) t le =
    let f0 = suc (nfile - suc n) in
    elim (eq-cases (t f0).ref 0) [
      | inl (e, b) ↦ inr (f0, omega arith, omega arith, e, rw b refl)
      | inr (ne, b) ↦ elim (alloc_loop_lem n t (omega arith)) [
        | inl (eq, full) ↦ inl (
          rw b eq,
          λ f lo hi. elim (eq-cases f f0) [
            | inl (e, _) ↦ rw e ne
            | inr (other, _) ↦ full f (omega arith) hi
          ],
        )
        | inr (f, lo, hi, e, eq) ↦ inr (f, omega arith, hi, e, rw b eq)
      ]
    ]

-- `filealloc` hands out a file that nobody holds, with one reference, or NULL where every file of
-- the table is held; no other count changes.
pub filealloc-IsCounted :
    (t : Ftable) (holders : List Ptr)
    → IsCounted t holders
    → ((filealloc t ≡ (null, t)) × ((f : Ptr) → 0 < f → f ≤ nfile → has f holders ≡ true))
      ⊎ ((f : Ptr) × (t' : Ftable) × (filealloc t ≡ (f, t'))
          × (f ≢ null)
          × (has f holders ≡ false)
          × IsCounted t' (f ∷ holders))
unfolding filealloc
filealloc-IsCounted t holders c = elim (alloc_loop_lem nfile t (omega arith)) [
  | inl (eq, full) ↦ inl (eq, λ f lo hi. has-counted f holders (λ e. full f lo hi (c f ∙ e)))
  | inr (f, lo, hi, e, eq) ↦ inr (
    f,
    update t f (record (t f) { ref = 1 }),
    eq,
    omega arith,
    ground (arith, c f, count-has f holders),
    IsCounted-update t f (record (t f) { ref = 1 }) (f ∷ holders) (λ g ne. ground (arith, c g))
        (ground (arith, c f)),
  )
]

pub filedup-IsCounted :
    (t : Ftable) (f : Ptr) (holders : List Ptr)
    → IsCounted t holders
    → has f holders ≡ true
    → (t' : Ftable) × (filedup f t ≡ some (f, t')) × IsCounted t' (f ∷ holders)
unfolding filedup
filedup-IsCounted t f holders c m = (
  update t f (record (t f) { ref = (t f).ref + 1 }),
  ground (arith, c f, count-has f holders),
  IsCounted-update t f (record (t f) { ref = (t f).ref + 1 }) (f ∷ holders)
      (λ g ne. ground (arith, c g)) (ground (arith, c f)),
)

-- `fileclose` of a file that is held does not panic and takes one reference off. It closes the pipe
-- end or the inode behind the file exactly if nobody holds the file any more, and the slot is then
-- free of a type.
pub fileclose-IsCounted :
    (t : Ftable) (f : Ptr) (holders : List Ptr)
    → IsCounted t holders
    → has f holders ≡ true
    → (t' : Ftable) × (fileclose f t
        ≡ some (if has f (erase f holders) then nothing else closing (t f).type (t f), t'))
      × IsCounted t' (erase f holders)
      × (has f (erase f holders) ≡ false → (t' f).type ≡ fd_none)
      × ((g : Ptr) → g ≢ f → t' g ≡ t g)
unfolding fileclose
fileclose-IsCounted t f holders c m =
    let left : suc (count f (erase f holders)) ≡ (t f).ref =
      ground (arith, count-erase f f holders m, c f) in
    let others : (g : Ptr) → g ≢ f → (t g).ref ≡ count g (erase f holders) =
      λ g ne. ground (arith, count-erase g f holders m, c g) in
    elim (Bool-cases (has f (erase f holders))) [
      | inl held ↦ (
        update t f (record (t f) { ref = (t f).ref - 1 }),
        ground (arith, left, count-has f (erase f holders)),
        IsCounted-update t f (record (t f) { ref = (t f).ref - 1 }) (erase f holders) others
            (ground (arith, left)),
        λ last. ground arith,
        λ g ne. update_other t f (record (t f) { ref = (t f).ref - 1 }) g ne,
      )
      | inr last ↦ (
        update t f (record (t f) { ref = 0; type = fd_none }),
        ground (arith, left, count-has f (erase f holders)),
        IsCounted-update t f (record (t f) { ref = 0; type = fd_none }) (erase f holders) others
            (ground (arith, left, count-has f (erase f holders))),
        λ last. ap File.type (update_self t f (record (t f) { ref = 0; type = fd_none })),
        λ g ne. update_other t f (record (t f) { ref = 0; type = fd_none }) g ne,
      )
    ]
