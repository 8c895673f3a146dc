-- ===== src/Prelude/Lists.antt =====
-- Lists measured and indexed by native numbers, under the library's names.
use Prim.Native.Nat.{ℕ, zero, suc, ◌+◌, ◌≤◌, ◌<◌}
use mathlib.Core.Path.{◌≡◌, refl, ap}
use mathlib.Core.Bool.{Bool, true, false}
use mathlib.Core.List.{List, [], ◌∷◌, ◌++◌}
use mathlib.Core.Option.{Option, none, some}
use mathlib.Core.Logic.{◌⊎◌, inl, inr}
use native.Mathlib.Omega.{arith}
use advanced_oslab.Prelude.Tests.{◌==◌, if◌then◌else◌}

module _ {ℓ} {A : Type ℓ} where
  abbrev pub length : List A → ℕ
  length [] = 0
  length (x ∷ xs) = suc (length xs)

  abbrev pub is_nil : List A → Bool
  is_nil [] = true
  is_nil (x ∷ xs) = false

  abbrev pub head? : List A → Option A
  head? [] = none
  head? (x ∷ xs) = some x

  pub length-append : (xs ys : List A) → length (xs ++ ys) ≡ length xs + length ys
  length-append [] ys = omega arith
  length-append (x ∷ xs) ys = omega (arith, length-append xs ys)

  pub append_assoc : (xs ys zs : List A) → (xs ++ ys) ++ zs ≡ xs ++ (ys ++ zs)
  append_assoc [] ys zs = refl
  append_assoc (x ∷ xs) ys zs = ap (λ t. x ∷ t) (append_assoc xs ys zs)

  pub append_nil : (xs : List A) → xs ++ [] ≡ xs
  append_nil [] = refl
  append_nil (x ∷ xs) = ap (λ t. x ∷ t) (append_nil xs)

abbrev pub is_some {ℓ} : {A : Type ℓ} → Option A → Bool
is_some none = false
is_some (some a) = true

-- How often a pointer stands in a list, and the list without its first occurrence.
unfoldable pub count : ℕ → List ℕ → ℕ
count u [] = 0
count u (x ∷ xs) = (if u == x then 1 else 0) + count u xs

unfoldable pub erase : ℕ → List ℕ → List ℕ
erase u [] = []
erase u (x ∷ xs) = if u == x then xs else x ∷ erase u xs

pub count-append : (u : ℕ) (xs ys : List ℕ) → count u (xs ++ ys) ≡ count u xs + count u ys
unfolding count
count-append u [] ys = omega arith
count-append u (x ∷ xs) ys = omega (arith, count-append u xs ys)

pub count-erase_self :
    (u : ℕ) (xs : List ℕ) → 0 < count u xs → count u (erase u xs) + 1 ≡ count u xs
unfolding count erase
count-erase_self u [] h = absurd (omega arith)
count-erase_self u (x ∷ xs) h = ground (arith, count-erase_self u xs)

pub count-erase : (u v : ℕ) (xs : List ℕ) → (u == v) ≡ false → count u (erase v xs) ≡ count u xs
unfolding count erase
count-erase u v [] h = refl
count-erase u v (x ∷ xs) h = ground (arith, count-erase u v xs)

pub length-erase : (u : ℕ) (xs : List ℕ) → 0 < count u xs → length (erase u xs) + 1 ≡ length xs
unfolding count erase
length-erase u [] h = absurd (omega arith)
length-erase u (x ∷ xs) h = ground (arith, length-erase u xs)

pub count-append_one :
    (u v : ℕ) (xs : List ℕ) → count u (xs ++ v ∷ []) ≡ count u xs + (if u == v then 1 else 0)
unfolding count
count-append_one u v xs = omega (arith, count-append u xs (v ∷ []))

pub is_nil-length {ℓ} : {A : Type ℓ} (xs : List A) → is_nil xs ≡ (length xs == 0)
is_nil-length [] = refl
is_nil-length (x ∷ xs) = ground arith

pub count-le-length : (u : ℕ) (xs : List ℕ) → count u xs ≤ length xs
unfolding count
count-le-length u [] = omega arith
count-le-length u (x ∷ xs) = ground (arith, count-le-length u xs)

pub count-erase-le : (u v : ℕ) (xs : List ℕ) → count u (erase v xs) ≤ count u xs
unfolding count erase
count-erase-le u v [] = omega arith
count-erase-le u v (x ∷ xs) = ground (arith, count-erase-le u v xs)

pub head?-some {ℓ} : {A : Type ℓ} (xs : List A) → 0 < length xs → (x : A) × (head? xs ≡ some x)
head?-some [] h = absurd (omega arith)
head?-some (x ∷ xs) h = (x, refl)

pub count_of_head : (u : ℕ) (xs : List ℕ) → head? xs ≡ some u → 0 < count u xs
unfolding count
count_of_head u [] h = cc
count_of_head u (x ∷ xs) h = ground arith

pub erase-append_one : (u : ℕ) (xs : List ℕ) → count u xs ≡ 0 → erase u (xs ++ u ∷ []) ≡ xs
unfolding count erase
erase-append_one u [] h = ground arith
erase-append_one u (x ∷ xs) h = ground (arith, erase-append_one u xs)

-- The values of a function below a bound, in order.
unfoldable pub tabulate {ℓ} : {A : Type ℓ} → (ℕ → A) → ℕ → List A
tabulate f zero = []
tabulate f (suc n) = tabulate f n ++ (f n ∷ [])

pub tabulate-next {ℓ} :
    {A : Type ℓ} (f : ℕ → A) (n : ℕ) → tabulate f n ++ (f n ∷ []) ≡ tabulate f (n + 1)
unfolding tabulate
tabulate-next f n = ground arith

pub List-cases {ℓ} :
    {A : Type ℓ} (xs : List A) → (xs ≡ []) ⊎ ((x : A) × (ys : List A) × (xs ≡ x ∷ ys))
List-cases [] = inl refl
List-cases (x ∷ ys) = inr (x, ys, refl)
