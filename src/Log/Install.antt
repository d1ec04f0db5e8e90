-- ===== src/Log/Install.antt =====
-- The two copying loops of log.c, for any number of writes that reach the disk.
use tron_boss_os.Base.{
  ℕ, suc, ◌+◌, ◌-◌, ◌≤◌, ◌<◌, ◌≡◌, refl, sym, ap, ◌∙◌, ◌≢◌, inl, inr, ◌⊎◌, true, false, List, [],
  ◌∷◌, arith, eq-cases, update, update_self, update_other, length, has,
}
use tron_boss_os.Log.{Disk, copy_block, bwrite, install_loop, write_log_loop}
use tron_boss_os.Log.Content.{
  outside, logged, logged-frame, apart, log_block, IsHeader, IsHeader-tail,
}

-- A block that is copied from one buffer to another, and written.
abbrev pub copied : (dst src : ℕ) → Disk → Disk
copied dst src d = bwrite dst (copy_block dst src d)

pub copied-disk : (dst src : ℕ) (d : Disk) (c : ℕ) → c ≢ dst → (copied dst src d).disk c ≡ d.disk c
unfolding bwrite
copied-disk dst src d c ne =
    ground (arith, update_other d.disk dst (update d.seen dst (d.seen src) dst) c ne)

pub copied-seen : (dst src : ℕ) (d : Disk) (c : ℕ) → c ≢ dst → (copied dst src d).seen c ≡ d.seen c
unfolding bwrite
copied-seen dst src d c ne = update_other d.seen dst (d.seen src) c ne

pub copied_self :
    (dst src : ℕ) (d : Disk)
    → 0 < d.power
    → ((copied dst src d).disk dst ≡ d.seen src) × ((copied dst src d).seen dst ≡ d.seen src)
unfolding bwrite
copied_self dst src d on = (
  ground (
    arith,
    update_self d.disk dst (update d.seen dst (d.seen src) dst),
    update_self d.seen dst (d.seen src),
  ),
  update_self d.seen dst (d.seen src),
)

pub copied-power : (dst src : ℕ) (d : Disk) → (copied dst src d).power ≡ d.power - 1
unfolding bwrite
copied-power dst src d = refl

module _ (start : ℕ) where
  pub install-disk :
      (tail : ℕ) (xs : List ℕ) (d : Disk) (c : ℕ)
      → has c xs ≡ false
      → (install_loop start tail xs d).disk c ≡ d.disk c
  unfolding install_loop
  install-disk tail [] d c m = refl
  install-disk tail (x ∷ xs) d c m =
      install-disk (suc tail) xs (copied x (start + tail + 1) d) c (ground arith)
      ∙ copied-disk x (start + tail + 1) d c (ground arith)

  pub install-seen :
      (tail : ℕ) (xs : List ℕ) (d : Disk) (c : ℕ)
      → has c xs ≡ false
      → (install_loop start tail xs d).seen c ≡ d.seen c
  unfolding install_loop
  install-seen tail [] d c m = refl
  install-seen tail (x ∷ xs) d c m =
      install-seen (suc tail) xs (copied x (start + tail + 1) d) c (ground arith)
      ∙ copied-seen x (start + tail + 1) d c (ground arith)

  pub install-power :
      (tail : ℕ) (xs : List ℕ) (d : Disk)
      → (install_loop start tail xs d).power ≡ d.power - length xs
  unfolding install_loop
  install-power tail [] d = omega arith
  install-power tail (x ∷ xs) d = omega (
    arith,
    install-power (suc tail) xs (copied x (start + tail + 1) d),
    copied-power x (start + tail + 1) d,
  )

-- On a disk whose log blocks are in the cache as they are on the disk, an installation that is not
-- cut off leaves every block with its logged contents.
pub install-logged :
    (start cap tail : ℕ) (xs : List ℕ) (d : Disk) (c : ℕ)
    → IsHeader start cap tail xs
    → ((b : ℕ) → outside start cap b ≡ false → d.seen b ≡ d.disk b)
    → length xs ≤ d.power
    → (install_loop start tail xs d).disk c ≡ logged start tail xs d.disk c
unfolding install_loop
install-logged start cap tail [] d c h same on = refl
install-logged start cap tail (x ∷ xs) d c h same on =
    let k = start + tail + 1 in
    let d1 = copied x k d in
    let out : outside start cap x ≡ true = h.home x (ground arith) in
    let k_in : outside start cap k ≡ false = log_block start cap tail (omega (arith, h.fits)) in
    let frame : (b : ℕ) → outside start cap b ≡ false → d1.disk b ≡ d.disk b =
      λ b i. copied-disk x k d b (apart start cap i out) in
    elim (eq-cases c x) [
      | inl (e, b) ↦ rw b (
          install-disk start (suc tail) xs d1 c (rw e h.distinct.0)
          ∙ ap d1.disk e
          ∙ (copied_self x k d (omega arith)).0
          ∙ same k k_in)
      | inr (ne, b) ↦ rw b (
          install-logged start cap (suc tail) xs d1 c (IsHeader-tail start cap h)
            (λ b i. copied-seen x k d b (apart start cap i out) ∙ same b i ∙ sym (frame b i))
            (omega (arith, copied-power x k d))
          ∙ logged-frame start cap (suc tail) xs d.disk d1.disk c (omega (arith, h.fits))
              (λ b _. frame b) (λ m. copied-disk x k d c ne))
    ]

module _ (start : ℕ) where
  pub write_log-disk :
      (tail : ℕ) (xs : List ℕ) (d : Disk) (c : ℕ)
      → (c ≤ start + tail) ⊎ (start + tail + length xs < c)
      → (write_log_loop start tail xs d).disk c ≡ d.disk c
  unfolding write_log_loop
  write_log-disk tail [] d c o = refl
  write_log-disk tail (x ∷ xs) d c (inl l) =
      write_log-disk (suc tail) xs (copied (start + tail + 1) x d) c (inl (omega arith))
      ∙ copied-disk (start + tail + 1) x d c (omega arith)
  write_log-disk tail (x ∷ xs) d c (inr l) =
      write_log-disk (suc tail) xs (copied (start + tail + 1) x d) c (inr (omega arith))
      ∙ copied-disk (start + tail + 1) x d c (omega arith)

  pub write_log-seen :
      (tail : ℕ) (xs : List ℕ) (d : Disk) (c : ℕ)
      → (c ≤ start + tail) ⊎ (start + tail + length xs < c)
      → (write_log_loop start tail xs d).seen c ≡ d.seen c
  unfolding write_log_loop
  write_log-seen tail [] d c o = refl
  write_log-seen tail (x ∷ xs) d c (inl l) =
      write_log-seen (suc tail) xs (copied (start + tail + 1) x d) c (inl (omega arith))
      ∙ copied-seen (start + tail + 1) x d c (omega arith)
  write_log-seen tail (x ∷ xs) d c (inr l) =
      write_log-seen (suc tail) xs (copied (start + tail + 1) x d) c (inr (omega arith))
      ∙ copied-seen (start + tail + 1) x d c (omega arith)

  pub write_log-power :
      (tail : ℕ) (xs : List ℕ) (d : Disk)
      → (write_log_loop start tail xs d).power ≡ d.power - length xs
  unfolding write_log_loop
  write_log-power tail [] d = omega arith
  write_log-power tail (x ∷ xs) d = omega (
    arith,
    write_log-power (suc tail) xs (copied (start + tail + 1) x d),
    copied-power (start + tail + 1) x d,
  )

-- Behind write_log, where it is not cut off, the log holds what the cache has of the blocks.
pub write_log-logged :
    (start cap tail : ℕ) (xs : List ℕ) (d : Disk) (c : ℕ)
    → IsHeader start cap tail xs
    → length xs ≤ d.power
    → has c xs ≡ true
    → logged start tail xs (write_log_loop start tail xs d).disk c ≡ d.seen c
unfolding write_log_loop
write_log-logged start cap tail [] d c h on m = ground arith
write_log-logged start cap tail (x ∷ xs) d c h on m =
    let k = start + tail + 1 in
    let d1 = copied k x d in
    let k_in : outside start cap k ≡ false = log_block start cap tail (omega (arith, h.fits)) in
    elim (eq-cases c x) [
      | inl (e, b) ↦ rw b (
          write_log-disk start (suc tail) xs d1 k (inl (omega arith))
          ∙ (copied_self k x d (omega arith)).0
          ∙ ap d.seen (sym e))
      | inr (ne, b) ↦ rw b (
          write_log-logged start cap (suc tail) xs d1 c (IsHeader-tail start cap h)
            (omega (arith, copied-power k x d)) (ground arith)
          ∙ copied-seen k x d c (λ e. apart start cap k_in (h.home c m) (sym e)))
    ]

-- And the cache of the log blocks agrees with the disk, if it did before.
pub write_log-agrees :
    (start tail : ℕ) (xs : List ℕ) (d : Disk) (b : ℕ)
    → length xs ≤ d.power
    → d.seen b ≡ d.disk b
    → (write_log_loop start tail xs d).seen b ≡ (write_log_loop start tail xs d).disk b
unfolding write_log_loop
write_log-agrees start tail [] d b on same = same
write_log-agrees start tail (x ∷ xs) d b on same =
    let k = start + tail + 1 in
    let (at, at') = copied_self k x d (omega arith) in
    write_log-agrees start (suc tail) xs (copied k x d) b (omega (arith, copied-power k x d))
      (elim (eq-cases b k) [
        | inl (e, _) ↦ ap (copied k x d).seen e ∙ at' ∙ sym at ∙ ap (copied k x d).disk (sym e)
        | inr (ne, _) ↦ copied-seen k x d b ne ∙ same ∙ sym (copied-disk k x d b ne)
      ])
