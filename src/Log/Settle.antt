-- ===== src/Log/Settle.antt =====
-- Installing what the header names, and clearing it: wherever the power fails, the disk stands for
-- what it stood for.
use tron_boss_os.Base.{
  ℕ, suc, ◌+◌, ◌-◌, ◌≤◌, ◌<◌, ◌≡◌, refl, sym, ap, ◌∙◌, subst, ◌≢◌, inl, inr, true, false, List, [],
  ◌∷◌, arith, ltb, update, update_self, update_other, length, has, Bool-cases, Bool-false,
}
use tron_boss_os.Log.{Block, Disk, get_words, bwrite, install_loop, write_head, put_header}
use tron_boss_os.Log.Content.{
  outside, logged, logged-frame, apart, header, content, header-put_header, IsHeader,
}
use tron_boss_os.Log.Install.{copied, install-disk, install-power, install-logged}

-- The cache has the blocks of the log as they are on the disk.
abbrev pub Agrees : (start cap : ℕ) → Disk → Type 0
Agrees start cap d = (b : ℕ) → outside start cap b ≡ false → d.seen b ≡ d.disk b

-- The machine starts with an empty cache, and power for `p` writes.
abbrev pub boot : ℕ → (ℕ → Block) → Disk
boot p disk = record { disk = disk; seen = disk; power = p }

pub bwrite-off : (b : ℕ) (d : Disk) → d.power ≡ 0 → (bwrite b d).disk ≡ d.disk
unfolding bwrite
bwrite-off b d off = ground arith

copied-off :
    (dst src : ℕ) (d : Disk)
    → d.power ≡ 0
    → ((copied dst src d).disk ≡ d.disk) × ((copied dst src d).power ≡ 0)
unfolding bwrite
copied-off dst src d off = (ground arith, ground arith)

pub install-off :
    (start tail : ℕ) (xs : List ℕ) (d : Disk)
    → d.power ≡ 0
    → (install_loop start tail xs d).disk ≡ d.disk
unfolding install_loop
install-off start tail [] d off = refl
install-off start tail (x ∷ xs) d off =
    let (same, off') = copied-off x (start + tail + 1) d off in
    install-off start (suc tail) xs (copied x (start + tail + 1) d) off' ∙ same

module _ (start : ℕ) (lh : List ℕ) (d : Disk) where
  pub write_head-off : d.power ≡ 0 → (write_head start lh d).disk ≡ d.disk
  unfolding write_head
  write_head-off off = bwrite-off start _ off

  pub write_head-disk : (c : ℕ) → c ≢ start → (write_head start lh d).disk c ≡ d.disk c
  unfolding write_head bwrite
  write_head-disk c ne = ground (
    arith,
    update_other d.disk start (update d.seen start (put_header lh (d.seen start)) start) c ne,
  )

  pub write_head-seen : (c : ℕ) → c ≢ start → (write_head start lh d).seen c ≡ d.seen c
  unfolding write_head bwrite
  write_head-seen c ne = update_other d.seen start (put_header lh (d.seen start)) c ne

  pub write_head-power : (write_head start lh d).power ≡ d.power - 1
  unfolding write_head bwrite
  write_head-power = refl

  pub write_head_self :
      0 < d.power
      → ((write_head start lh d).disk start ≡ put_header lh (d.seen start))
        × ((write_head start lh d).seen start ≡ put_header lh (d.seen start))
  unfolding write_head bwrite
  write_head_self on = (
    ground (
      arith,
      update_self d.disk start (update d.seen start (put_header lh (d.seen start)) start),
      update_self d.seen start (put_header lh (d.seen start)),
    ),
    update_self d.seen start (put_header lh (d.seen start)),
  )

  pub write_head-header : 0 < d.power → header start (write_head start lh d).disk ≡ lh
  write_head-header on =
      header-put_header start lh (d.seen start) (write_head start lh d).disk (write_head_self on).0

pub content-at :
    (start : ℕ) (xs : List ℕ) (disk : ℕ → Block) (c : ℕ)
    → header start disk ≡ xs
    → content start disk c ≡ logged start 0 xs disk c
content-at start xs disk c e = ap (λ ys. logged start 0 ys disk c) e

pub header-same :
    (start : ℕ) (a b : ℕ → Block) → a start ≡ b start → header start a ≡ header start b
header-same start a b e = ap (λ (c : Block). get_words (c 0) 0 c) e

-- The disk stands for what it stood for, and its header is one that the log can hold.
pub record Settles (start cap : ℕ) (disk disk' : ℕ → Block) : Type 0 where
  pub keeps : (c : ℕ) → outside start cap c ≡ true → content start disk' c ≡ content start disk c
  pub valid : IsHeader start cap 0 (header start disk')

-- Installing the blocks of the header and clearing it.
abbrev pub finish : ℕ → List ℕ → Disk → Disk
finish start xs d = write_head start [] (install_loop start 0 xs d)

module _ (start cap : ℕ) (xs : List ℕ) (d : Disk) (h : IsHeader start cap 0 xs)
    (agrees : Agrees start cap d) (head : header start d.disk ≡ xs) where
  pub head_in : outside start cap start ≡ false
  head_in = ground arith

  not_logged : (b : ℕ) → outside start cap b ≡ false → has b xs ≡ false
  not_logged b i = Bool-false (λ m. absurd (apart start cap i (h.home b m) refl))

  pub installed-region :
      (b : ℕ) → outside start cap b ≡ false → (install_loop start 0 xs d).disk b ≡ d.disk b
  installed-region b i = install-disk start 0 xs d b (not_logged b i)

  -- Cut off before the header is cleared.
  pub finish-short : d.power ≤ length xs → Settles start cap d.disk (finish start xs d).disk
  finish-short short =
      let d1 = install_loop start 0 xs d in
      let same : (finish start xs d).disk ≡ d1.disk =
        write_head-off start [] d1 (omega (arith, install-power start 0 xs d)) in
      let head1 : header start d1.disk ≡ xs =
        header-same start d1.disk d.disk (installed-region start head_in) ∙ head in
      let s1 : Settles start cap d.disk d1.disk = record {
        keeps = λ c o.
            content-at start xs d1.disk c head1
            ∙ logged-frame start cap 0 xs d.disk d1.disk c h.fits (λ b _. installed-region b)
                (install-disk start 0 xs d c)
            ∙ sym (content-at start xs d.disk c head);
        valid = rw head1 h;
      } in
      subst (Settles start cap d.disk) (sym same) s1

  -- Run to the end.
  pub finish-cleared : length xs < d.power → header start (finish start xs d).disk ≡ []
  finish-cleared long =
      write_head-header start [] (install_loop start 0 xs d)
        (omega (arith, install-power start 0 xs d))

  pub finish-installed :
      (c : ℕ)
      → length xs < d.power
      → outside start cap c ≡ true
      → (finish start xs d).disk c ≡ content start d.disk c
  finish-installed c long o =
      write_head-disk start [] (install_loop start 0 xs d) c
        (λ e. apart start cap head_in o (sym e))
      ∙ install-logged start cap 0 xs d c h agrees (omega arith)
      ∙ sym (content-at start xs d.disk c head)

  pub finish-Settles : Settles start cap d.disk (finish start xs d).disk
  finish-Settles = elim (Bool-cases (ltb (length xs) d.power)) [
    | inr short ↦ finish-short (ground arith)
    | inl long ↦
        let on : length xs < d.power = ground arith in
        record {
          keeps = λ c o.
              content-at start [] (finish start xs d).disk c (finish-cleared on)
              ∙ finish-installed c on o;
          valid =
              rw (finish-cleared on)
                (record { distinct = tt; home = λ b m. ground arith; fits = omega arith });
        }
  ]
