-- ===== src/Path.antt =====
-- Path names: skipelem of fs.c, and the loop over it in namex. A path is its bytes before the NUL,
-- and so is the name, of which at most DIRSIZ bytes are kept.
pub mod Elements
use tron_boss_os.Base.{
  ℕ, zero, suc, Bool, true, false, Option, none, some, List, [], ◌∷◌, ◌==◌, if◌then◌else◌, take,
}

-- DIRSIZ of fs.h
abbrev pub dirsiz : ℕ
dirsiz = 14

abbrev pub slash : ℕ
slash = 47

-- `while(*path == '/') path++`
unfoldable pub skip_slashes : List ℕ → List ℕ
skip_slashes [] = []
skip_slashes (c ∷ cs) = let rest = skip_slashes cs in if c == slash then rest else c ∷ cs

-- `while(*path != '/' && *path != 0) path++`: the bytes that it passes, and those behind them
unfoldable pub split_elem : List ℕ → List ℕ × List ℕ
split_elem [] = ([], [])
split_elem (c ∷ cs) =
    let rest = split_elem cs in if c == slash then ([], c ∷ cs) else (c ∷ rest.0, rest.1)

-- The name and the path behind it, for a path that does not begin with a slash
abbrev pub take_elem : List ℕ → Option (List ℕ × List ℕ)
take_elem [] = none
take_elem (c ∷ cs) =
    let parts = split_elem (c ∷ cs) in some (take dirsiz parts.0, skip_slashes parts.1)

-- `none` is 0: there is no name to take off.
unfoldable pub skipelem : List ℕ → Option (List ℕ × List ℕ)
unfolding skip_slashes split_elem
skipelem path = take_elem (skip_slashes path)

-- The names that the loop of namex goes through, in at most `fuel` rounds; `none` is too little fuel.
unfoldable pub elements : (fuel : ℕ) → List ℕ → Option (List (List ℕ))
unfolding skipelem
elements zero path = none
elements (suc fuel) path = elim (skipelem path) [
  | none ↦ some []
  | some (name, rest) ↦ elim (elements fuel rest) [ none ↦ none | some names ↦ some (name ∷ names) ]
]
