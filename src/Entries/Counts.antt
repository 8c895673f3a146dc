-- ===== src/Entries/Counts.antt =====
-- Assignment_2/Project2/src/client/client.c and server/server.c: how often an entry stands in the lists of
-- requests, and statements about every entry.
use advanced_oslab.Prelude.{
  ℕ, ◌+◌, ◌≤◌, ◌≡◌, ap, Bool, true, false, List, [], ◌∷◌, ◌++◌, ◌==◌, ==_refl, count, erase, arith,
  Bool-cases, inl, inr, count-erase, count-append_one,
}
use advanced_oslab.Prelude.Arrays.{update}
use advanced_oslab.Entries.{Entry, Memory}
use advanced_oslab.Entries.Protocol.{bit}

pub update_at :
    (P : ℕ → Entry → Type 0) (memory : Memory) (i : ℕ) (e : Entry)
    → P i e
    → ((j : ℕ) → (i == j) ≡ false → P j (memory j))
    → (j : ℕ) → P j (update memory i e j)
update_at P memory i e own others j = elim (Bool-cases (i == j)) [
  | inl equal ↦ let is : i ≡ j = ground (arith, equal) in rw equal (rw is at own)
  | inr apart ↦ rw apart (others j apart)
]

pub at_all : (P : ℕ → Type 0) (i : ℕ) → P i → ((j : ℕ) → (i == j) ≡ false → P j) → (j : ℕ) → P j
at_all P i own others j = elim (Bool-cases (i == j)) [
  | inl equal ↦ let is : i ≡ j = ground (arith, equal) in rw is at own
  | inr apart ↦ others j apart
]

pub count_cons : (i j : ℕ) (xs : List ℕ) → (i == j) ≡ false → count j (i ∷ xs) ≡ count j xs
unfolding count
count_cons i j xs apart = ground (arith, apart)

pub count_own : (i : ℕ) (xs : List ℕ) → count i (i ∷ xs) ≡ 1 + count i xs
unfolding count
count_own i xs = ground (arith, ==_refl i)

pub count_last : (i j : ℕ) (xs : List ℕ) → (i == j) ≡ false → count j (xs ++ i ∷ []) ≡ count j xs
count_last i j xs apart = ground (arith, apart, count-append_one j i xs)

pub count_last_own : (i : ℕ) (xs : List ℕ) → count i (xs ++ i ∷ []) ≡ count i xs + 1
count_last_own i xs = ground (arith, ==_refl i, count-append_one i i xs)

pub count_erase : (i j : ℕ) (xs : List ℕ) → (i == j) ≡ false → count j (erase i xs) ≡ count j xs
count_erase i j xs apart = count-erase j i xs (ground (arith, apart))

pub bit-le : (b : Bool) → bit b ≤ 1
bit-le true = omega arith
bit-le false = omega arith

pub count-cons_both :
    (i j : ℕ) (xs ys : List ℕ) → count j (i ∷ xs) + count j ys ≡ count j xs + count j (i ∷ ys)
unfolding count
count-cons_both i j xs ys = omega arith

pub count_none : (j : ℕ) {xs : List ℕ} → xs ≡ [] → count j xs ≡ 0
unfolding count
count_none j is = ap (count j) is

pub erase_own : (i : ℕ) (xs : List ℕ) → erase i (i ∷ xs) ≡ xs
unfolding erase
erase_own i xs = rw (==_refl i)
