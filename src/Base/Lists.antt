-- ===== src/Base/Lists.antt =====
-- Lists of addresses with a Boolean membership test, and maps from numbers.
use Prim.Native.Nat.{ℕ, zero, suc, ◌+◌, ◌≤◌}
use mathlib.Core.Path.{◌≡◌, refl, ap, fun_ext}
use mathlib.Core.Logic.{◌≢◌}
use mathlib.Core.Bool.{Bool, true, false, ◌||◌, ◌&&◌, not}
use mathlib.Core.List.{List, [], ◌∷◌, ◌++◌}
use native.Mathlib.Omega.{arith}
use tron_boss_os.Base.Tests.{◌==◌, ltb, if◌then◌else◌}

-- A map with one entry replaced.
unfoldable pub update {ℓ} : {A : Type ℓ} → (ℕ → A) → ℕ → A → ℕ → A
update f k x j = if j == k then x else f j

pub update_self {ℓ} : {A : Type ℓ} (f : ℕ → A) (k : ℕ) (x : A) → update f k x k ≡ x
unfolding update
update_self f k x = ground arith

pub update_other {ℓ} :
    {A : Type ℓ} (f : ℕ → A) (k : ℕ) (x : A) (j : ℕ) → j ≢ k → update f k x j ≡ f j
unfolding update
update_other f k x j h = ground arith

module _ {ℓ} {A : Type ℓ} where
  abbrev pub length : List A → ℕ
  length [] = 0
  length (x ∷ xs) = suc (length xs)

  pub length-append : (xs ys : List A) → length (xs ++ ys) ≡ length xs + length ys
  length-append [] ys = omega arith
  length-append (x ∷ xs) ys = omega (arith, length-append xs ys)

abbrev pub has : ℕ → List ℕ → Bool
has a [] = false
has a (x ∷ xs) = (a == x) || has a xs

-- No address occurs twice.
abbrev pub Distinct : List ℕ → Type 0
Distinct [] = Unit {0}
Distinct (x ∷ xs) = (has x xs ≡ false) × Distinct xs

-- The list without the first occurrence of an address.
abbrev pub erase : ℕ → List ℕ → List ℕ
erase a [] = []
erase a (x ∷ xs) = let rest = erase a xs in if a == x then xs else x ∷ rest

pub has-append : (a : ℕ) (xs ys : List ℕ) → has a (xs ++ ys) ≡ (has a xs || has a ys)
has-append a [] ys = refl
has-append a (x ∷ xs) ys = ground (arith, has-append a xs ys)

pub has-erase :
    (a b : ℕ) (xs : List ℕ) → Distinct xs → has a (erase b xs) ≡ (has a xs && not (a == b))
has-erase a b [] d = refl
has-erase a b (x ∷ xs) d = ground (arith, has-erase a b xs d.1)

pub erase-Distinct : (b : ℕ) (xs : List ℕ) → Distinct xs → Distinct (erase b xs)
erase-Distinct b [] d = tt
erase-Distinct b (x ∷ xs) d = ground (arith, has-erase x b xs d.1, erase-Distinct b xs d.1)

pub length-erase-ge : (b : ℕ) (xs : List ℕ) → length xs ≤ suc (length (erase b xs))
length-erase-ge b [] = omega arith
length-erase-ge b (x ∷ xs) = ground (arith, length-erase-ge b xs)

pub append-Distinct :
    (xs ys : List ℕ)
    → Distinct xs
    → Distinct ys
    → ((a : ℕ) → has a xs ≡ true → has a ys ≡ false)
    → Distinct (xs ++ ys)
append-Distinct [] ys d e apart = e
append-Distinct (x ∷ xs) ys d e apart = (
  ground (arith, has-append x xs ys, apart x),
  append-Distinct xs ys d.1 e (λ a h. apart a (ground arith)),
)

-- Distinct numbers from 1 to n are at most n many.
pub length-Distinct-le :
    (n : ℕ) (xs : List ℕ)
    → Distinct xs
    → ((a : ℕ) → has a xs ≡ true → (1 ≤ a) × (a ≤ n))
    → length xs ≤ n
length-Distinct-le zero [] d h = omega arith
length-Distinct-le zero (x ∷ xs) d h = absurd (ground (arith, h x))
length-Distinct-le (suc n) xs d h = omega (
  arith,
  length-erase-ge (suc n) xs,
  length-Distinct-le n (erase (suc n) xs) (erase-Distinct (suc n) xs d) below,
)
  where
    below : (a : ℕ) → has a (erase (suc n) xs) ≡ true → (1 ≤ a) × (a ≤ n)
    below a m = ground (arith, h a, has-erase a (suc n) xs d)

pub erase-head : (a x : ℕ) (xs : List ℕ) → a ≡ x → erase a (x ∷ xs) ≡ xs
erase-head a x xs e = ground arith

pub erase-tail : (a x : ℕ) (xs : List ℕ) → a ≢ x → erase a (x ∷ xs) ≡ x ∷ erase a xs
erase-tail a x xs e = ground arith

abbrev pub take {ℓ} : {A : Type ℓ} → ℕ → List A → List A
take zero xs = []
take (suc n) [] = []
take (suc n) (x ∷ xs) = x ∷ take n xs

pub update-update {ℓ} :
    {A : Type ℓ} (f : ℕ → A) (k : ℕ) (x y : A) → update (update f k x) k y ≡ update f k y
unfolding update
update-update f k x y = fun_ext λ j. ground arith

pub update_same {ℓ} : {A : Type ℓ} (f : ℕ → A) (k : ℕ) → update f k (f k) ≡ f
unfolding update
update_same f k = fun_ext λ j. ground arith

pub erase-append : (a : ℕ) (xs ys : List ℕ) → has a xs ≡ false → erase a (xs ++ a ∷ ys) ≡ xs ++ ys
erase-append a [] ys out = erase-head a a ys refl
erase-append a (x ∷ xs) ys out = ground (arith, erase-append a xs ys)

-- Where a list that is given by its nodes begins; 0 for the empty list.
abbrev pub head_or_zero : List ℕ → ℕ
head_or_zero [] = 0
head_or_zero (x ∷ xs) = x

abbrev pub drop {ℓ} : {A : Type ℓ} → ℕ → List A → List A
drop zero xs = xs
drop (suc n) [] = []
drop (suc n) (x ∷ xs) = drop n xs

pub take-append-drop {ℓ} : {A : Type ℓ} (n : ℕ) (xs : List A) → take n xs ++ drop n xs ≡ xs
take-append-drop zero xs = refl
take-append-drop (suc n) [] = refl
take-append-drop (suc n) (x ∷ xs) = cc (take-append-drop n xs)

pub length-take {ℓ} : {A : Type ℓ} (n : ℕ) (xs : List A) → n ≤ length xs → length (take n xs) ≡ n
length-take zero xs le = refl
length-take (suc n) [] le = absurd (omega arith)
length-take (suc n) (x ∷ xs) le = ap suc (length-take n xs (omega arith))

-- How often an address occurs
abbrev pub count : ℕ → List ℕ → ℕ
count a [] = 0
count a (x ∷ xs) = let rest = count a xs in if a == x then suc rest else rest

pub count-has : (a : ℕ) (xs : List ℕ) → ltb 0 (count a xs) ≡ has a xs
count-has a [] = refl
count-has a (x ∷ xs) = ground (arith, count-has a xs)

pub has-counted : (a : ℕ) (xs : List ℕ) → count a xs ≢ 0 → has a xs ≡ true
has-counted a xs ne = ground (arith, count-has a xs)

pub count-erase : (a b : ℕ) (xs : List ℕ) → has b xs ≡ true → count a xs ≡ count a (b ∷ erase b xs)
count-erase a b [] m = ground arith
count-erase a b (x ∷ xs) m = ground (arith, count-erase a b xs)
