-- ===== src/Log/Commit.antt =====
-- A commit is atomic: wherever the power fails, in it or in the recoveries behind it.
use tron_boss_os.Base.{
  ℕ, ◌+◌, ◌≤◌, ◌<◌, ◌≡◌, refl, sym, ap, ◌∙◌, inl, inr, ◌⊎◌, true, false, List, [], ◌∷◌, arith, ◌==◌,
  ltb, if◌then◌else◌, eq-cases, length, has, Bool-cases,
}
use tron_boss_os.Log.{
  Block, Disk, install_loop, install_trans, write_log, write_log_loop, write_head, recover_from_log,
  commit,
}
use tron_boss_os.Log.Content.{
  outside, logged-missing, logged-same, apart, header, content, IsHeader,
}
use tron_boss_os.Log.Install.{
  install-power, write_log-disk, write_log-power, write_log-logged, write_log-agrees,
}
use tron_boss_os.Log.Settle.{
  Agrees, boot, install-off, write_head-off, write_head-disk, write_head-seen, write_head-power,
  write_head_self, write_head-header, content-at, header-same, Settles, finish, finish-cleared,
  finish-installed, finish-Settles,
}

-- Recoveries that are each cut off after some number of writes.
unfoldable pub crashes : ℕ → List ℕ → (ℕ → Block) → ℕ → Block
crashes start [] disk = disk
crashes start (p ∷ ps) disk = crashes start ps (recover_from_log start (boot p disk)).disk

module _ (start cap : ℕ) where
  pub recover-Settles :
      (p : ℕ) (disk : ℕ → Block)
      → IsHeader start cap 0 (header start disk)
      → Settles start cap disk (recover_from_log start (boot p disk)).disk
  unfolding recover_from_log install_trans
  recover-Settles p disk h =
      finish-Settles start cap (header start disk) (boot p disk) h (λ b i. refl) refl

  -- A recovery that is not cut off: the log is empty, and every block has what it stood for.
  pub recover-content :
      (p : ℕ) (disk : ℕ → Block)
      → IsHeader start cap 0 (header start disk)
      → cap < p
      → (header start (recover_from_log start (boot p disk)).disk ≡ [])
        × ((c : ℕ)
            → outside start cap c ≡ true
            → (recover_from_log start (boot p disk)).disk c ≡ content start disk c)
  unfolding recover_from_log install_trans
  recover-content p disk h lt =
      let on : length (header start disk) < p = omega (arith, h.fits) in
      (
        finish-cleared start cap (header start disk) (boot p disk) h (λ b i. refl) refl on,
        λ c o.
            finish-installed start cap (header start disk) (boot p disk) h (λ b i. refl) refl c on
              o,
      )

  Settles-trans :
      {a b c : ℕ → Block} → Settles start cap a b → Settles start cap b c → Settles start cap a c
  Settles-trans s t = record { keeps = λ x o. t.keeps x o ∙ s.keeps x o; valid = t.valid }

  pub crashes-Settles :
      (ps : List ℕ) (disk : ℕ → Block)
      → IsHeader start cap 0 (header start disk)
      → Settles start cap disk (crashes start ps disk)
  unfolding crashes
  crashes-Settles [] disk h = record { keeps = λ c o. refl; valid = h }
  crashes-Settles (p ∷ ps) disk h =
      let s = recover-Settles p disk h in
      Settles-trans s (crashes-Settles ps (recover_from_log start (boot p disk)).disk s.valid)

-- The contents that a commit of `lh` gives the blocks: those of the cache for the blocks of `lh`.
abbrev pub committed : List ℕ → Disk → ℕ → Block
committed lh d c = if has c lh then d.seen c else d.disk c

module _ (start cap : ℕ) (lh : List ℕ) (d : Disk) (h : IsHeader start cap 0 lh)
    (agrees : Agrees start cap d) (empty : header start d.disk ≡ []) where
  empty_header : IsHeader start cap 0 []
  empty_header = record { distinct = tt; home = λ b m. ground arith; fits = omega arith }

  abbrev d1 : Disk
  d1 = write_log_loop start 0 lh d

  abbrev d2 : Disk
  d2 = write_head start lh d1

  d1-outside : (c : ℕ) → (c ≤ start) ⊎ (outside start cap c ≡ true) → d1.disk c ≡ d.disk c
  d1-outside c (inl l) = write_log-disk start 0 lh d c (inl (omega arith))
  d1-outside c (inr o) = elim (Bool-cases (ltb c start)) [
    | inl l ↦ write_log-disk start 0 lh d c (inl (ground arith))
    | inr l ↦ write_log-disk start 0 lh d c (inr (ground (arith, h.fits)))
  ]

  -- The power fails before the header is written: nothing has happened.
  commit-short :
      d.power ≤ length lh
      → (header start (finish start lh d2).disk ≡ [])
        × ((c : ℕ)
            → outside start cap c ≡ true
            → content start (finish start lh d2).disk c ≡ d.disk c)
  commit-short short =
      let off1 : d1.power ≡ 0 = omega (arith, write_log-power start 0 lh d) in
      let off2 : d2.power ≡ 0 = omega (arith, off1, write_head-power start lh d1) in
      let off3 : (install_loop start 0 lh d2).power ≡ 0 =
        omega (arith, off2, install-power start 0 lh d2) in
      let same : (finish start lh d2).disk ≡ d1.disk =
        write_head-off start [] (install_loop start 0 lh d2) off3
        ∙ install-off start 0 lh d2 off2
        ∙ write_head-off start lh d1 off1 in
      let head : header start (finish start lh d2).disk ≡ [] =
        header-same start (finish start lh d2).disk d.disk
          (ap (λ (f : ℕ → Block). f start) same ∙ d1-outside start (inl (omega arith)))
        ∙ empty in
      (
        head,
        λ c o.
            content-at start [] (finish start lh d2).disk c head
            ∙ ap (λ (f : ℕ → Block). f c) same
            ∙ d1-outside c (inr o),
      )

  d2-Agrees : length lh < d.power → Agrees start cap d2
  d2-Agrees long b i =
      let on : 0 < d1.power = omega (arith, write_log-power start 0 lh d) in
      elim (eq-cases b start) [
        | inl (e, _) ↦
            let (at, at') = write_head_self start lh d1 on in
            ap d2.seen e ∙ at' ∙ sym at ∙ ap d2.disk (sym e)
        | inr (ne, _) ↦
            write_head-seen start lh d1 b ne
            ∙ write_log-agrees start 0 lh d b (omega arith) (agrees b i)
            ∙ sym (write_head-disk start lh d1 b ne)
      ]

  -- Once the header is written, the disk stands for the new contents.
  d2-content :
      (c : ℕ)
      → length lh < d.power
      → outside start cap c ≡ true
      → content start d2.disk c ≡ committed lh d c
  d2-content c long o =
      let on : 0 < d1.power = omega (arith, write_log-power start 0 lh d) in
      let away : (b : ℕ) → start < b → outside start cap b ≡ false → d2.disk b ≡ d1.disk b =
        λ b lt i. write_head-disk start lh d1 b (omega arith) in
      content-at start lh d2.disk c (write_head-header start lh d1 on)
      ∙ elim (Bool-cases (has c lh)) [
        | inl m ↦ rw m (
            logged-same start cap 0 lh d1.disk d2.disk c h.fits away m
            ∙ write_log-logged start cap 0 lh d c h (omega arith) m)
        | inr m ↦ rw m (
            logged-missing start cap 0 lh d2.disk c m
            ∙ write_head-disk start lh d1 c (λ e. apart start cap head_in o (sym e))
            ∙ d1-outside c (inr o))
      ]
    where
      head_in : outside start cap start ≡ false
      head_in = ground arith

  -- What a disk behind a commit that may be cut off stands for: the old contents, or the new ones.
  abbrev pub OldOrNew : (ℕ → Block) → Type 0
  OldOrNew view =
      ((c : ℕ) → outside start cap c ≡ true → view c ≡ d.disk c)
      ⊎ ((c : ℕ) → outside start cap c ≡ true → view c ≡ committed lh d c)

  finish-OldOrNew :
      IsHeader start cap 0 (header start (finish start lh d2).disk)
      × OldOrNew (content start (finish start lh d2).disk)
  finish-OldOrNew = elim (Bool-cases (ltb (length lh) d.power)) [
    | inl long ↦
        let on : length lh < d.power = ground arith in
        let s =
          finish-Settles start cap lh d2 h (d2-Agrees on)
            (write_head-header start lh d1 (omega (arith, write_log-power start 0 lh d))) in
        (s.valid, inr (λ c o. s.keeps c o ∙ d2-content c on o))
    | inr short ↦ let (head, old) = commit-short (ground arith) in (rw head empty_header, inl old)
  ]

  commit-OldOrNew :
      IsHeader start cap 0 (header start (commit start lh d).disk)
      × OldOrNew (content start (commit start lh d).disk)
  unfolding commit install_trans write_log
  commit-OldOrNew = elim (Bool-cases (length lh == 0)) [
    | inl none_logged ↦
        rw none_logged (rw empty empty_header, inl (λ c o. content-at start [] d.disk c empty))
    | inr some_logged ↦ rw some_logged finish-OldOrNew
  ]

  -- The power fails at any point of a commit, and then at any points of any number of recoveries.
  -- The next recovery that is not cut off leaves an empty log, and either every block outside the log
  -- as it was on the disk before the commit, or every one as the commit was to leave it.
  pub commit-crashes :
      (ps : List ℕ) (p : ℕ)
      → cap < p
      → let disk' =
          (recover_from_log start (boot p (crashes start ps (commit start lh d).disk))).disk in
        (header start disk' ≡ []) × OldOrNew disk'
  commit-crashes ps p lt =
      let (valid, either_way) = commit-OldOrNew in
      let s = crashes-Settles start cap ps (commit start lh d).disk valid in
      let (clear, now) =
        recover-content start cap p (crashes start ps (commit start lh d).disk) s.valid lt in
      (
        clear,
        elim either_way [
          | inl old ↦ inl (λ c o. now c o ∙ s.keeps c o ∙ old c o)
          | inr new ↦ inr (λ c o. now c o ∙ s.keeps c o ∙ new c o)
        ],
      )

  -- A commit that is not cut off: each block of the transaction has on the disk what the cache has of
  -- it, every other block outside the log is as it was, and the log is empty.
  pub commit_installs :
      length lh + length lh + 1 < d.power
      → (header start (commit start lh d).disk ≡ [])
        × ((c : ℕ) → outside start cap c ≡ true → (commit start lh d).disk c ≡ committed lh d c)
  unfolding commit install_trans write_log
  commit_installs enough = elim (Bool-cases (length lh == 0)) [
    | inl none_logged ↦ rw none_logged (empty, λ c o. unlogged lh (ground arith) c)
    | inr some_logged ↦
        let long : length lh < d.power = omega arith in
        let on : 0 < d1.power = omega (arith, write_log-power start 0 lh d) in
        let left : length lh < d2.power =
          omega (arith, write_log-power start 0 lh d, write_head-power start lh d1) in
        let head = write_head-header start lh d1 on in
        rw some_logged (
          finish-cleared start cap lh d2 h (d2-Agrees long) head left,
          λ c o.
              finish-installed start cap lh d2 h (d2-Agrees long) head c left o
              ∙ d2-content c long o,
        )
  ]
    where
      unlogged : (xs : List ℕ) → length xs ≡ 0 → (c : ℕ) → d.disk c ≡ committed xs d c
      unlogged [] e c = refl
      unlogged (x ∷ xs) e c = absurd (omega arith)
