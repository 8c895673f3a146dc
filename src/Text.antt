-- ===== src/Text.antt =====
-- Strings as their bytes, and the calls of the C++ library on them that the programs in
-- Assignment_3 and Assignment_4 make: `==`, `getline`, `to_string`, `stoi`, the zero that ends a string.
pub mod Pieces
pub mod Decimal
pub mod Cut
use Prim.Native.Char.{code}
use Prim.Native.String.{String}
use advanced_oslab.Prelude.{
  ℕ, zero, suc, ◌+◌, ◌-◌, ◌*◌, ◌/◌, ◌%◌, ◌^◌, ◌≡◌, refl, ◌↔◌, Bool, true, false, not, ◌&&◌, ◌||◌,
  Option, none, some, List, [], ◌∷◌, ◌++◌, ◌==◌, ltb, leb, if◌then◌else◌, arith,
}
use advanced_oslab.Prelude.Int.{ℤ, pos, negsuc}

abbrev pub Bytes : Type 0
Bytes = List ℕ

-- The codes of a literal.
abbrev pub codes : String → Bytes
codes String.[] = []
codes (String.◌∷◌ c s) = code c ∷ codes s

unfoldable pub same : Bytes → Bytes → Bool
same [] [] = true
same [] (d ∷ t) = false
same (c ∷ s) [] = false
same (c ∷ s) (d ∷ t) = (c == d) && same s t

-- A map from strings with one entry changed.
abbrev pub put {ℓ} : {A : Type ℓ} → (Bytes → A) → Bytes → A → Bytes → A
put m k v j = if same k j then v else m j

unfoldable pub has : ℕ → Bytes → Bool
has sep [] = false
has sep (c ∷ s) = (c == sep) || has sep s

-- `s.substr(0, s.find(sep))`, and `s.substr(s.find(sep) + 1)`: without the separator that is all of `s`.
unfoldable pub before : ℕ → Bytes → Bytes
before sep [] = []
before sep (c ∷ s) = let rest = before sep s in if c == sep then [] else c ∷ rest

unfoldable pub behind : ℕ → Bytes → Option Bytes
behind sep [] = none
behind sep (c ∷ s) = let rest = behind sep s in if c == sep then some s else rest

abbrev pub after : ℕ → Bytes → Bytes
after sep s = elim (behind sep s) [ none ↦ s | some rest ↦ rest ]

abbrev pub longer : ℕ → List Bytes → List Bytes
longer c [] = (c ∷ []) ∷ []
longer c (p ∷ ps) = (c ∷ p) ∷ ps

-- `while (getline(s, piece, sep))`: the pieces it reads. A separator at the end adds none.
unfoldable pub pieces : ℕ → Bytes → List Bytes
pieces sep [] = []
pieces sep (c ∷ s) =
    let rest = pieces sep s in elim (c == sep) [ true ↦ [] ∷ rest | false ↦ longer c rest ]

unfoldable pub to_digits : (fuel n : ℕ) → Bytes → Bytes
to_digits zero n out = out
to_digits (suc fuel) n out = elim (ltb n 10) [
  | true ↦ (48 + n) ∷ out
  | false ↦ to_digits fuel (n / 10) ((48 + n % 10) ∷ out)
]

-- A number has fewer digits than its value and one more.
unfoldable pub to_string : ℕ → Bytes
to_string n = to_digits (suc n) n []

abbrev pub is_digit : ℕ → Bool
is_digit c = leb 48 c && leb c 57

abbrev pub is_space : ℕ → Bool
is_space c = (c == 32) || (leb 9 c && leb c 13)

unfoldable pub skip_spaces : Bytes → Bytes
skip_spaces [] = []
skip_spaces (c ∷ s) = let rest = skip_spaces s in if is_space c then rest else c ∷ s

unfoldable pub scan : ℕ → Bytes → ℕ
scan n [] = n
scan n (c ∷ s) = let rest = scan (n * 10 + (c - 48)) s in if is_digit c then rest else n

abbrev pub signed : Bool → ℕ → Option ℤ
signed true n = if leb n (2 ^ 31) then some (if n == 0 then pos 0 else negsuc (n - 1)) else none
signed false n = if ltb n (2 ^ 31) then some (pos n) else none

unfoldable pub unsigned : Bool → Bytes → Option ℤ
unsigned minus [] = none
unsigned minus (c ∷ s) = if is_digit c then signed minus (scan 0 (c ∷ s)) else none

abbrev pub with_sign : Bytes → Option ℤ
with_sign [] = none
with_sign (c ∷ s) =
    if c == 45
    then unsigned true s
    else if c == 43
    then unsigned false s
    else unsigned false (c ∷ s)

-- `stoi`: `none` where it throws. What follows the digits is ignored.
unfoldable pub stoi : Bytes → Option ℤ
unfolding skip_spaces unsigned
stoi s = with_sign (skip_spaces s)

-- What comes before the zero that ends a C string; `none` if there is no zero.
unfoldable pub c_string : Bytes → Option Bytes
c_string [] = none
c_string (c ∷ s) =
    let rest : Option Bytes = elim (c_string s) [ none ↦ none | some t ↦ some (c ∷ t) ] in
    if c == 0 then some [] else rest

pub same_iff : (s t : Bytes) → (same s t ≡ true) ↔ (s ≡ t)
unfolding same
same_iff [] [] = (λ h. refl, λ h. refl)
same_iff [] (d ∷ t) = ground arith
same_iff (c ∷ s) [] = ground arith
same_iff (c ∷ s) (d ∷ t) = ground (arith, same_iff s t)

pub same_refl : (s : Bytes) → same s s ≡ true
same_refl s = (same_iff s s).1 refl

pub put_self {ℓ} : {A : Type ℓ} (m : Bytes → A) (k : Bytes) (v : A) → put m k v k ≡ v
put_self m k v = rw (same_refl k)
