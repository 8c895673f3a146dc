-- ===== src/Entries/Split.antt =====
-- Assignment_2/Project2/src/client/client.c: the search for "/input/" in a path.
use advanced_oslab.Prelude.{
  ℕ, ◌≡◌, sym, ap, ◌∙◌, inl, inr, Option, none, some, [], ◌∷◌, ◌++◌, ◌==◌, if◌then◌else◌, arith,
  Bool-cases, Option-cases,
}
use advanced_oslab.Clients.Neighbours.{some_injective}
use advanced_oslab.Entries.{FilePath, strip, split}

strip_lem : (word s rest : FilePath) → strip word s ≡ some rest → s ≡ word ++ rest
unfolding strip
strip_lem [] s rest e = some_injective e
strip_lem (p ∷ word) [] rest e = absurd (ground arith)
strip_lem (p ∷ word) (c ∷ s) rest e = elim (Bool-cases (p == c)) [
  | inl same ↦
      let is : p ≡ c = ground arith in
      let tail =
        strip_lem word s rest (sym (ap (λ b. if b then strip word s else none) same) ∙ e) in
      λ i. sym is i ∷ tail i
  | inr apart ↦ absurd (ground (arith, sym (ap (λ b. if b then strip word s else none) apart) ∙ e))
]

split-here : (word s rest : FilePath) → strip word s ≡ some rest → split word s ≡ some ([], rest)
unfolding split
split-here word [] rest e = rw (split, e)
split-here word (c ∷ s) rest e = rw (split, e)

split-end : (word : FilePath) → strip word [] ≡ none → split word [] ≡ none
unfolding split
split-end word e = rw (split, e)

split-never :
    (word s : FilePath) (c : ℕ)
    → strip word (c ∷ s) ≡ none
    → split word s ≡ none
    → split word (c ∷ s) ≡ none
unfolding split
split-never word s c e f = rw (split, e, f)

split-later :
    (word s : FilePath) (c : ℕ) (base rest : FilePath)
    → strip word (c ∷ s) ≡ none
    → split word s ≡ some (base, rest)
    → split word (c ∷ s) ≡ some (c ∷ base, rest)
unfolding split
split-later word s c base rest e f = rw (split, e, f)

-- Two ways to say what `split` returns.
parts_eq :
    {s : Option (FilePath × FilePath)} {b r base rest : FilePath}
    → s ≡ some (b, r)
    → s ≡ some (base, rest)
    → (b ≡ base) × (r ≡ rest)
parts_eq p q = let same = some_injective (sym p ∙ q) in (ap (λ t. t.0) same, ap (λ t. t.1) same)

put_together :
    (word s b r base rest : FilePath)
    → s ≡ b ++ (word ++ r)
    → (b ≡ base) × (r ≡ rest)
    → s ≡ base ++ (word ++ rest)
put_together word s b r base rest e (p, q) = e ∙ λ i. p i ++ (word ++ q i)

-- What `strstr` splits a string into, with the word between the two parts, is the string.
pub split_lem :
    (word s base rest : FilePath) → split word s ≡ some (base, rest) → s ≡ base ++ (word ++ rest)
split_lem word [] base rest e = elim (Option-cases (strip word [])) [
  | inl gone ↦ absurd (ground (arith, sym (split-end word gone) ∙ e))
  | inr (r, found) ↦
      put_together word [] [] r base rest (strip_lem word [] r found)
        (parts_eq (split-here word [] r found) e)
]
split_lem word (c ∷ s) base rest e = elim (Option-cases (strip word (c ∷ s))) [
  | inl gone ↦ elim (Option-cases (split word s)) [
    | inl none_later ↦ absurd (ground (arith, sym (split-never word s c gone none_later) ∙ e))
    | inr ((b, r), later) ↦
        put_together word (c ∷ s) (c ∷ b) r base rest (ap (λ t. c ∷ t) (split_lem word s b r later))
          (parts_eq (split-later word s c b r gone later) e)
  ]
  | inr (r, found) ↦
      put_together word (c ∷ s) [] r base rest (strip_lem word (c ∷ s) r found)
        (parts_eq (split-here word (c ∷ s) r found) e)
]
