-- ===== src/Bits/Laws.antt =====
-- Assignment_1/Project1/gtthreads/src/gt_bitops.h: the bit operations, digit by digit.
use advanced_oslab.Prelude.{
  ℕ, zero, suc, ◌+◌, ◌-◌, ◌/◌, ◌%◌, ◌^◌, ◌≤◌, ◌<◌, ◌≡◌, refl, inl, inr, true, false, not, ◌&&◌,
  ◌||◌, some, arith, ◌==◌, if◌then◌else◌, Bool-cases,
}
use native.Mathlib.Nat.{pow-suc, pow-succ', div-div-eq-div-mul}
use advanced_oslab.Bits.{is_bit_set, set_bit, reset_bit, scan_forward, lowest_bit_set}

-- After `SET_BIT` at a place, `IS_BIT_SET` holds there and is as before at every other place.
pub is_bit_set-set_bit : (m i j : ℕ) → is_bit_set (set_bit m i) j ≡ (i == j || is_bit_set m j)
unfolding is_bit_set set_bit
is_bit_set-set_bit m zero zero = ground arith
is_bit_set-set_bit m zero (suc j) = ground arith
is_bit_set-set_bit m (suc i) zero = ground arith
is_bit_set-set_bit m (suc i) (suc j) = ground (arith, is_bit_set-set_bit (m / 2) i j)

-- After `RESET_BIT` at a place, `IS_BIT_SET` fails there and is as before at every other place.
pub is_bit_set-reset_bit :
    (m i j : ℕ) → is_bit_set (reset_bit m i) j ≡ (not (i == j) && is_bit_set m j)
unfolding is_bit_set reset_bit
is_bit_set-reset_bit m zero zero = ground arith
is_bit_set-reset_bit m zero (suc j) = ground arith
is_bit_set-reset_bit m (suc i) zero = ground arith
is_bit_set-reset_bit m (suc i) (suc j) = ground (arith, is_bit_set-reset_bit (m / 2) i j)

-- The tested digit is that of the mask shifted down by the offset.
pub is_bit_set-shift : (m i : ℕ) → is_bit_set m i ≡ (m / 2 ^ i % 2 == 1)
unfolding is_bit_set
is_bit_set-shift m zero = ground arith
is_bit_set-shift m (suc i) =
    rw (pow-succ' 2 i, ← div-div-eq-div-mul m 2 (2 ^ i)) (is_bit_set-shift (m / 2) i)

pub is_bit_set-zero : (i : ℕ) → is_bit_set 0 i ≡ false
unfolding is_bit_set
is_bit_set-zero zero = refl
is_bit_set-zero (suc i) = is_bit_set-zero i

-- A mask that fits its width and has no digit set there is 0.
pub eq_zero_of_clear : (w m : ℕ) → m < 2 ^ w → ((i : ℕ) → i < w → is_bit_set m i ≡ false) → m ≡ 0
unfolding is_bit_set
eq_zero_of_clear zero m h clear = omega arith
eq_zero_of_clear (suc w) m h clear =
    let half : m / 2 ≡ 0 =
      eq_zero_of_clear w (m / 2) (omega (arith, pow-suc 2 w))
        (λ i q. clear (suc i) (omega arith)) in
    ground (arith, clear 0 (omega arith), half)

pub set_bit-lt : (w m i : ℕ) → m < 2 ^ w → i < w → set_bit m i < 2 ^ w
unfolding set_bit
set_bit-lt zero m i h lt = absurd (omega arith)
set_bit-lt (suc w) m zero h lt = omega (arith, pow-suc 2 w)
set_bit-lt (suc w) m (suc i) h lt =
    omega (arith, pow-suc 2 w, set_bit-lt w (m / 2) i (omega (arith, pow-suc 2 w)) (omega arith))

pub reset_bit-le : (m i : ℕ) → reset_bit m i ≤ m
unfolding reset_bit
reset_bit-le m zero = omega arith
reset_bit-le m (suc i) = omega (arith, reset_bit-le (m / 2) i)

-- `btsl` adds the digit's weight if the digit is clear, and `btrl` takes it away if it is set.
pub set_bit_lem : (m i : ℕ) → set_bit m i ≡ (if is_bit_set m i then m else m + 2 ^ i)
unfolding is_bit_set set_bit
set_bit_lem m zero = ground arith
set_bit_lem m (suc i) = ground (arith, pow-suc 2 i, set_bit_lem (m / 2) i)

pub le_of_is_bit_set : (m i : ℕ) → is_bit_set m i ≡ true → 2 ^ i ≤ m
unfolding is_bit_set
le_of_is_bit_set m zero h = ground arith
le_of_is_bit_set m (suc i) h = ground (arith, pow-suc 2 i, le_of_is_bit_set (m / 2) i)

pub reset_bit_lem : (m i : ℕ) → reset_bit m i ≡ (if is_bit_set m i then m - 2 ^ i else m)
unfolding is_bit_set reset_bit
reset_bit_lem m zero = ground arith
reset_bit_lem m (suc i) =
    ground (arith, pow-suc 2 i, reset_bit_lem (m / 2) i, le_of_is_bit_set (m / 2) i)

scan_forward-below : (w m i j : ℕ) → scan_forward w m ≡ some i → j < i → is_bit_set m j ≡ false
unfolding scan_forward is_bit_set
scan_forward-below zero m i j h lt = cc
scan_forward-below (suc w) m zero j h lt = absurd (omega arith)
scan_forward-below (suc w) m (suc i) zero h lt = ground arith
scan_forward-below (suc w) m (suc i) (suc j) h lt =
    scan_forward-below w (m / 2) i j (ground arith) (omega arith)

pub scan_forward-some : (w m i : ℕ) → scan_forward w m ≡ some i → (i < w) × (is_bit_set m i ≡ true)
unfolding scan_forward is_bit_set
scan_forward-some zero m i h = cc
scan_forward-some (suc w) m zero h = (omega arith, ground arith)
scan_forward-some (suc w) m (suc i) h =
    let (p, q) = scan_forward-some w (m / 2) i (ground arith) in (omega arith, q)

pub scan_forward-ne_zero : (w m : ℕ) → m < 2 ^ w → 0 < m → (i : ℕ) × (scan_forward w m ≡ some i)
unfolding scan_forward
scan_forward-ne_zero zero m h pos = absurd (omega arith)
scan_forward-ne_zero (suc w) m h pos = elim (Bool-cases (m % 2 == 1)) [
  | inl odd ↦ (0, rw odd)
  | inr even ↦
      let (i, e) = scan_forward-ne_zero w (m / 2) (omega (arith, pow-suc 2 w)) (ground arith) in
      (suc i, rw (even, e))
]

-- On a mask of 32 digits that is not 0, `LOWEST_BIT_SET` finds the lowest digit that is set.
pub lowest_bit_set_lem :
    (m : ℕ)
    → m < 2 ^ 32
    → 0 < m
    → (i : ℕ) × (lowest_bit_set m ≡ some i)
      × (i < 32)
      × (is_bit_set m i ≡ true)
      × ((j : ℕ) → j < i → is_bit_set m j ≡ false)
unfolding lowest_bit_set
lowest_bit_set_lem m h pos =
    let (i, e) = scan_forward-ne_zero 32 m h pos in
    let (lt, is) = scan_forward-some 32 m i e in
    (i, e, lt, is, λ j q. scan_forward-below 32 m i j e q)
