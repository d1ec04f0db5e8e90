-- ===== src/Log/Content.antt =====
-- What a disk stands for: the contents that it has once a committed transaction is installed.
use tron_boss_os.Base.{
  ℕ, zero, suc, ◌+◌, ◌≤◌, ◌<◌, ◌≡◌, ◌≢◌, refl, sym, ap, ◌∙◌, inl, inr, Bool, true, false, ◌||◌,
  List, [], ◌∷◌, arith, ◌==◌, ltb, if◌then◌else◌, eq-cases, update, update_self, update_other,
  length, has, Distinct, Bool-cases,
}
use tron_boss_os.Log.{Block, get_words, put_words, put_header}

-- A block that is not of the log: its header is block `start`, and it has `cap` blocks behind that.
abbrev pub outside : (start cap b : ℕ) → Bool
outside start cap b = ltb b start || ltb (start + cap) b

-- The contents of block `c` if the blocks `xs` are logged from place `tail` on.
abbrev pub logged : (start tail : ℕ) → List ℕ → (ℕ → Block) → ℕ → Block
logged start tail [] d c = d c
logged start tail (x ∷ xs) d c =
    let rest = logged start (suc tail) xs d c in if c == x then d (start + tail + 1) else rest

abbrev pub header : ℕ → (ℕ → Block) → List ℕ
header start d = get_words (d start 0) 0 (d start)

abbrev pub content : ℕ → (ℕ → Block) → ℕ → Block
content start d c = logged start 0 (header start d) d c

-- A header that the log can hold: no block twice, none of the log itself, `cap` at most.
pub record IsHeader (start cap : ℕ) (tail : ℕ) (xs : List ℕ) : Type 0 where
  pub distinct : Distinct xs
  pub home : (b : ℕ) → has b xs ≡ true → outside start cap b ≡ true
  pub fits : tail + length xs ≤ cap

module _ (start cap : ℕ) where
  pub IsHeader-tail :
      {tail x : ℕ} {xs : List ℕ}
      → IsHeader start cap tail (x ∷ xs)
      → IsHeader start cap (suc tail) xs
  IsHeader-tail h = record {
    distinct = h.distinct.1;
    home = λ b m. h.home b (ground arith);
    fits = omega (arith, h.fits);
  }

  pub logged-missing :
      (tail : ℕ) (xs : List ℕ) (d : ℕ → Block) (c : ℕ)
      → has c xs ≡ false
      → logged start tail xs d c ≡ d c
  logged-missing tail [] d c m = refl
  logged-missing tail (x ∷ xs) d c m = ground (arith, logged-missing (suc tail) xs d c)

  -- The log blocks alone decide what is logged.
  pub logged-same :
      (tail : ℕ) (xs : List ℕ) (d d' : ℕ → Block) (c : ℕ)
      → tail + length xs ≤ cap
      → ((b : ℕ) → start < b → outside start cap b ≡ false → d' b ≡ d b)
      → has c xs ≡ true
      → logged start tail xs d' c ≡ logged start tail xs d c
  logged-same tail [] d d' c le same m = ground arith
  logged-same tail (x ∷ xs) d d' c le same m = elim (eq-cases c x) [
    | inl (_, b) ↦ rw b (same (start + tail + 1) (omega arith) (ground arith))
    | inr (_, b) ↦ rw b (logged-same (suc tail) xs d d' c (omega arith) same (ground arith))
  ]

  -- The same contents, where a block that is not logged is as it was.
  pub logged-frame :
      (tail : ℕ) (xs : List ℕ) (d d' : ℕ → Block) (c : ℕ)
      → tail + length xs ≤ cap
      → ((b : ℕ) → start < b → outside start cap b ≡ false → d' b ≡ d b)
      → (has c xs ≡ false → d' c ≡ d c)
      → logged start tail xs d' c ≡ logged start tail xs d c
  logged-frame tail xs d d' c le same keep = elim (Bool-cases (has c xs)) [
    | inl m ↦ logged-same tail xs d d' c le same m
    | inr m ↦ logged-missing tail xs d' c m ∙ keep m ∙ sym (logged-missing tail xs d c m)
  ]

  pub apart : {b x : ℕ} → outside start cap b ≡ false → outside start cap x ≡ true → b ≢ x
  apart i o e = cc (ap (outside start cap) e)

  pub log_block : (tail : ℕ) → tail < cap → outside start cap (start + tail + 1) ≡ false
  log_block tail lt = ground arith

get_words-same :
    (n i : ℕ) (c c' : Block) → ((j : ℕ) → i < j → c' j ≡ c j) → get_words n i c' ≡ get_words n i c
get_words-same zero i c c' same = refl
get_words-same (suc n) i c c' same =
    ground (arith, same (suc i), get_words-same n (suc i) c c' (λ j lt. same j (omega arith)))

put_words-below : (i : ℕ) (bs : List ℕ) (c : Block) (j : ℕ) → j ≤ i → put_words i bs c j ≡ c j
put_words-below i [] c j le = refl
put_words-below i (b ∷ bs) c j le =
    put_words-below (suc i) bs (update c (suc i) b) j (omega arith)
    ∙ update_other c (suc i) b j (omega arith)

get_words-put_words :
    (i : ℕ) (bs : List ℕ) (c : Block) → get_words (length bs) i (put_words i bs c) ≡ bs
get_words-put_words i [] c = refl
get_words-put_words i (b ∷ bs) c = ground (
  arith,
  put_words-below (suc i) bs (update c (suc i) b) (suc i),
  update_self c (suc i) b,
  get_words-put_words (suc i) bs (update c (suc i) b),
)

-- A header that is written is read back.
pub header-put_header :
    (start : ℕ) (lh : List ℕ) (c : Block) (d : ℕ → Block)
    → d start ≡ put_header lh c
    → header start d ≡ lh
header-put_header start lh c d e =
    let n : put_header lh c 0 ≡ length lh =
      put_words-below 0 lh (update c 0 (length lh)) 0 (omega arith) ∙ update_self c 0 (length lh) in
    ap (λ (b : Block). get_words (b 0) 0 b) e
    ∙ ap (λ (k : ℕ). get_words k 0 (put_header lh c)) n
    ∙ get_words-put_words 0 lh (update c 0 (length lh))
