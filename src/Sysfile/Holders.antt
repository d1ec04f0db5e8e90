-- ===== src/Sysfile/Holders.antt =====
-- Descriptors and the file table: a file has as many references as descriptors.
use tron_boss_os.Base.{
  ℕ, zero, suc, ◌+◌, ◌<◌, ◌≡◌, ◌≢◌, refl, sym, ap, ◌∙◌, inl, inr, true, false, List, [], ◌∷◌, ◌++◌,
  arith, ◌==◌, ltb, if◌then◌else◌, eq-cases, update, update_self, update_other, has, erase, count,
  count-has, count-erase, ne→==,
}
use tron_boss_os.Links.{Ptr, null}
use tron_boss_os.File.{Ftable}
use tron_boss_os.File.Refs.{IsCounted}
use tron_boss_os.Sysfile.{nofile, Ofile}

-- The files of the descriptors below `n`
abbrev pub held : ℕ → Ofile → List Ptr
held zero o = []
held (suc n) o = let rest = held n o in if o n == null then rest else o n ∷ rest

count-append : (a : ℕ) (xs ys : List ℕ) → count a (xs ++ ys) ≡ count a xs + count a ys
count-append a [] ys = omega arith
count-append a (x ∷ xs) ys = ground (arith, count-append a xs ys)

held-same : (n : ℕ) (o o' : Ofile) → ((i : ℕ) → i < n → o' i ≡ o i) → held n o' ≡ held n o
held-same zero o o' same = refl
held-same (suc n) o o' same =
    rw (same n (omega arith), held-same n o o' (λ i lt. same i (omega arith))) refl

-- A descriptor is filled.
count-held-update :
    (n : ℕ) (o : Ofile) (fd : ℕ) (f g : Ptr)
    → fd < n
    → o fd ≡ null
    → f ≢ null
    → count g (held n (update o fd f)) ≡ count g (f ∷ held n o)
count-held-update zero o fd f g lt e ne = absurd (omega arith)
count-held-update (suc n) o fd f g lt e ne = elim (eq-cases fd n) [
  | inl (same, _) ↦
      let at : update o fd f n ≡ f = ap (update o fd f) (sym same) ∙ update_self o fd f in
      let below : held n (update o fd f) ≡ held n o =
        held-same n o (update o fd f) (λ i lt. update_other o fd f i (omega arith)) in
      let free : o n ≡ null = ap o (sym same) ∙ e in rw (at, below, free, ne→== f null ne) refl
  | inr (other, _) ↦
      let at : update o fd f n ≡ o n = update_other o fd f n (λ k. other (sym k)) in
      let rest = count-held-update n o fd f g (omega arith) e ne in rw at (ground (arith, rest))
]

-- A descriptor is cleared.
count-held_clear :
    (n : ℕ) (o : Ofile) (fd : ℕ) (g : Ptr)
    → fd < n
    → o fd ≢ null
    → count g (o fd ∷ held n (update o fd null)) ≡ count g (held n o)
count-held_clear zero o fd g lt ne = absurd (omega arith)
count-held_clear (suc n) o fd g lt ne = elim (eq-cases fd n) [
  | inl (same, _) ↦
      let at : update o fd null n ≡ null =
        ap (update o fd null) (sym same) ∙ update_self o fd null in
      let below : held n (update o fd null) ≡ held n o =
        held-same n o (update o fd null) (λ i lt. update_other o fd null i (omega arith)) in
      let b : (o n == null) ≡ false = ne→== (o n) null (λ z. ne (ap o same ∙ z)) in
      rw (at, below, b, ap o same) refl
  | inr (other, _) ↦
      let at : update o fd null n ≡ o n = update_other o fd null n (λ k. other (sym k)) in
      let rest = count-held_clear n o fd g (omega arith) ne in
      elim (eq-cases (o n) null) [
        | inl (_, b) ↦ rw (at, b) rest
        | inr (_, b) ↦ rw (at, b) (ground (arith, rest))
      ]
]

-- All holders: the descriptors of the process, and those of the others
unfoldable pub holders : Ofile → List Ptr → List Ptr
holders o others = held nofile o ++ others

count-append_update :
    (n : ℕ) (o : Ofile) (others : List Ptr) (fd : ℕ) (f g : Ptr)
    → fd < n
    → o fd ≡ null
    → f ≢ null
    → count g (f ∷ (held n o ++ others)) ≡ count g (held n (update o fd f) ++ others)
count-append_update n o others fd f g lt e ne = ground (
  arith,
  count-append g (held n o) others,
  count-append g (held n (update o fd f)) others,
  count-held-update n o fd f g lt e ne,
)

count-append_clear :
    (n : ℕ) (o : Ofile) (others : List Ptr) (fd : ℕ) (g : Ptr)
    → fd < n
    → o fd ≢ null
    → count g (held n o ++ others) ≡ count g (o fd ∷ (held n (update o fd null) ++ others))
count-append_clear n o others fd g lt ne = ground (
  arith,
  count-append g (held n o) others,
  count-append g (held n (update o fd null)) others,
  count-held_clear n o fd g lt ne,
)

count_self : (a : ℕ) (xs ys : List ℕ) → count a ys ≡ count a (a ∷ xs) → has a ys ≡ true
count_self a xs ys e = ground (arith, count-has a ys)

pub has-holders :
    (o : Ofile) (others : List Ptr) (fd : ℕ)
    → fd < nofile
    → o fd ≢ null
    → has (o fd) (holders o others) ≡ true
unfolding holders
has-holders o others fd lt ne =
    count_self (o fd) (held nofile (update o fd null) ++ others) (held nofile o ++ others)
      (count-append_clear nofile o others fd (o fd) lt ne)

pub IsCounted-fdalloc :
    (t : Ftable) (o : Ofile) (others : List Ptr) (fd : ℕ) (f : Ptr)
    → fd < nofile
    → o fd ≡ null
    → f ≢ null
    → IsCounted t (f ∷ holders o others)
    → IsCounted t (holders (update o fd f) others)
unfolding holders
IsCounted-fdalloc t o others fd f lt e ne c g =
    c g ∙ count-append_update nofile o others fd f g lt e ne

count-erase_cons :
    (a g : Ptr) (xs ys : List Ptr)
    → count g ys ≡ count g (a ∷ xs)
    → has a ys ≡ true
    → count g (erase a ys) ≡ count g xs
count-erase_cons a g xs ys e m = ground (arith, count-erase g a ys m, e)

-- The file of the descriptor that is cleared is held as often as before, less one.
pub count-erase-holders :
    (o : Ofile) (others : List Ptr) (fd : ℕ) (g : Ptr)
    → fd < nofile
    → o fd ≢ null
    → count g (erase (o fd) (holders o others)) ≡ count g (holders (update o fd null) others)
unfolding holders
count-erase-holders o others fd g lt ne =
    count-erase_cons (o fd) g (held nofile (update o fd null) ++ others) (held nofile o ++ others)
      (count-append_clear nofile o others fd g lt ne) (has-holders o others fd lt ne)

pub has-count : (a : ℕ) (xs ys : List ℕ) → count a xs ≡ count a ys → has a xs ≡ has a ys
has-count a xs ys e = sym (count-has a xs) ∙ ap (ltb 0) e ∙ count-has a ys
