-- ===== src/Path/Elements.antt =====
-- A path is taken apart into the names that it was put together from, each cut to DIRSIZ bytes.
use tron_boss_os.Base.{
  ℕ, zero, suc, ◌<◌, ◌≡◌, refl, ap, ◌∙◌, false, none, some, List, [], ◌∷◌, ◌++◌, arith, ◌==◌, take,
  length,
}
use tron_boss_os.Path.{dirsiz, slash, skip_slashes, split_elem, take_elem, skipelem, elements}

abbrev pub slashes : ℕ → List ℕ
slashes zero = []
slashes (suc n) = slash ∷ slashes n

-- No byte is a slash.
abbrev pub Plain : List ℕ → Type 0
Plain [] = Unit {0}
Plain (c ∷ cs) = ((c == slash) ≡ false) × Plain cs

-- A name with the number of slashes behind it, less one
abbrev pub Part : Type 0
Part = (ℕ × List ℕ) × ℕ

-- The names are `c ∷ cs`, so that none is empty.
abbrev pub name_of : Part → List ℕ
name_of p = p.0.0 ∷ p.0.1

abbrev pub names : List Part → List (List ℕ)
names [] = []
names (p ∷ ps) = take dirsiz (name_of p) ∷ names ps

-- The parts behind one another: at least one slash between two, any number behind the last
abbrev pub path_of : List Part → List ℕ
path_of [] = []
path_of (p ∷ []) = name_of p ++ slashes p.1
path_of (p ∷ q ∷ ps) = name_of p ++ (slashes (suc p.1) ++ path_of (q ∷ ps))

abbrev pub PlainParts : List Part → Type 0
PlainParts [] = Unit {0}
PlainParts (p ∷ ps) = Plain (name_of p) × PlainParts ps

skip_slashes-slashes : (n : ℕ) (cs : List ℕ) → skip_slashes (slashes n ++ cs) ≡ skip_slashes cs
unfolding skip_slashes
skip_slashes-slashes zero cs = refl
skip_slashes-slashes (suc n) cs = skip_slashes-slashes n cs

skip_slashes-all : (n : ℕ) → skip_slashes (slashes n) ≡ []
unfolding skip_slashes
skip_slashes-all zero = refl
skip_slashes-all (suc n) = skip_slashes-all n

skip_slashes-path_of : (ps : List Part) → PlainParts ps → skip_slashes (path_of ps) ≡ path_of ps
unfolding skip_slashes
skip_slashes-path_of [] pl = refl
skip_slashes-path_of (p ∷ []) pl = rw (pl.0.0) refl
skip_slashes-path_of (p ∷ q ∷ ps) pl = rw (pl.0.0) refl

split_elem-slashes :
    (cs : List ℕ) (n : ℕ) → Plain cs → split_elem (cs ++ slashes n) ≡ (cs, slashes n)
unfolding split_elem
split_elem-slashes [] zero pl = refl
split_elem-slashes [] (suc n) pl = refl
split_elem-slashes (c ∷ cs) n pl = rw (pl.0, split_elem-slashes cs n pl.1) refl

split_elem-append : (cs ds : List ℕ) → Plain cs → split_elem (cs ++ slash ∷ ds) ≡ (cs, slash ∷ ds)
unfolding split_elem
split_elem-append [] ds pl = refl
split_elem-append (c ∷ cs) ds pl = rw (pl.0, split_elem-append cs ds pl.1) refl

take_elem-path_of :
    (p : Part) (ps : List Part)
    → PlainParts (p ∷ ps)
    → take_elem (path_of (p ∷ ps)) ≡ some (take dirsiz (name_of p), path_of ps)
take_elem-path_of p [] pl =
    ap (λ (o : List ℕ × List ℕ). some (take dirsiz o.0, skip_slashes o.1))
      (split_elem-slashes (name_of p) p.1 pl.0)
    ∙ ap (λ (r : List ℕ). some (take dirsiz (name_of p), r)) (skip_slashes-all p.1)
take_elem-path_of p (q ∷ ps) pl =
    ap (λ (o : List ℕ × List ℕ). some (take dirsiz o.0, skip_slashes o.1))
      (split_elem-append (name_of p) (slashes p.1 ++ path_of (q ∷ ps)) pl.0)
    ∙ ap (λ (r : List ℕ). some (take dirsiz (name_of p), r))
        (skip_slashes-slashes (suc p.1) (path_of (q ∷ ps)) ∙ skip_slashes-path_of (q ∷ ps) pl.1)

skipelem-path_of :
    (n : ℕ) (p : Part) (ps : List Part)
    → PlainParts (p ∷ ps)
    → skipelem (slashes n ++ path_of (p ∷ ps)) ≡ some (take dirsiz (name_of p), path_of ps)
unfolding skipelem
skipelem-path_of n p ps pl =
    ap take_elem (skip_slashes-slashes n (path_of (p ∷ ps)) ∙ skip_slashes-path_of (p ∷ ps) pl)
    ∙ take_elem-path_of p ps pl

skipelem-slashes : (n : ℕ) → skipelem (slashes n ++ []) ≡ none
unfolding skipelem
skipelem-slashes n = ap take_elem (skip_slashes-slashes n [])

-- A path of names without slashes, with any number of slashes in front and behind and at least one
-- between two names, is taken apart into these names, each cut to DIRSIZ bytes; a round for each
-- name and one more is enough.
pub elements-path_of :
    (ps : List Part) (n fuel : ℕ)
    → PlainParts ps
    → length ps < fuel
    → elements fuel (slashes n ++ path_of ps) ≡ some (names ps)
unfolding elements
elements-path_of ps n zero pl lt = absurd (omega arith)
elements-path_of [] n (suc fuel) pl lt = rw (elements, skipelem-slashes n) refl
elements-path_of (p ∷ ps) n (suc fuel) pl lt =
    rw (elements, skipelem-path_of n p ps pl, elements-path_of ps 0 fuel pl.1 (omega arith)) refl
