-- ===== src/Text/Decimal.antt =====
-- What `stoi` reads of what `to_string` prints.
use advanced_oslab.Prelude.{
  ℕ, zero, suc, ◌+◌, ◌*◌, ◌/◌, ◌%◌, ◌^◌, ◌<◌, ◌≡◌, refl, ◌∙◌, sym, ap, true, false, some, [], ◌∷◌,
  ltb, arith, Bool-cases, inl, inr, is_nil,
}
use advanced_oslab.Prelude.Int.{pos}
use advanced_oslab.Text.{
  Bytes, has, to_digits, to_string, is_digit, skip_spaces, scan, unsigned, stoi,
}

scan_digit : (n d : ℕ) (s : Bytes) → d < 10 → scan n ((48 + d) ∷ s) ≡ scan (n * 10 + d) s
unfolding scan
scan_digit n d s h = ground arith

to_digits_small :
    (fuel n : ℕ) (out : Bytes) → ltb n 10 ≡ true → to_digits (suc fuel) n out ≡ (48 + n) ∷ out
unfolding to_digits
to_digits_small fuel n out h = rw (h, to_digits) refl

to_digits_large :
    (fuel n : ℕ) (out : Bytes)
    → ltb n 10 ≡ false
    → to_digits (suc fuel) n out ≡ to_digits fuel (n / 10) ((48 + n % 10) ∷ out)
unfolding to_digits
to_digits_large fuel n out h = rw (h, to_digits) refl

scan-to_digits : (fuel n : ℕ) (out : Bytes) → n < fuel → scan 0 (to_digits fuel n out) ≡ scan n out
scan-to_digits zero n out h = absurd (omega arith)
scan-to_digits (suc fuel) n out h = elim (Bool-cases (ltb n 10)) [
  | inl small ↦ ground (arith, to_digits_small fuel n out small, scan_digit 0 n out)
  | inr large ↦ ground (
    arith,
    to_digits_large fuel n out large,
    scan-to_digits fuel (n / 10) ((48 + n % 10) ∷ out),
    scan_digit (n / 10) (n % 10) out,
  )
]

to_digits-digit :
    (fuel n : ℕ) (out : Bytes)
    → n < fuel
    → (c : ℕ) × (s : Bytes) × (to_digits fuel n out ≡ c ∷ s) × (is_digit c ≡ true)
to_digits-digit zero n out h = absurd (omega arith)
to_digits-digit (suc fuel) n out h = elim (Bool-cases (ltb n 10)) [
  | inl small ↦ (48 + n, out, to_digits_small fuel n out small, ground arith)
  | inr large ↦
      let (c, s, e, d) = to_digits-digit fuel (n / 10) ((48 + n % 10) ∷ out) (ground arith) in
      (c, s, to_digits_large fuel n out large ∙ e, d)
]

has-to_digits :
    (sep fuel n : ℕ) (out : Bytes)
    → is_digit sep ≡ false
    → has sep out ≡ false
    → has sep (to_digits fuel n out) ≡ false
unfolding has to_digits
has-to_digits sep zero n out d h = h
has-to_digits sep (suc fuel) n out d h = elim (Bool-cases (ltb n 10)) [
  | inl small ↦ rw (to_digits_small fuel n out small) (ground arith)
  | inr large ↦
      let next : has sep ((48 + n % 10) ∷ out) ≡ false = ground arith in
      rw (to_digits_large fuel n out large)
        (has-to_digits sep fuel (n / 10) ((48 + n % 10) ∷ out) d next)
]

pub has-to_string : (sep n : ℕ) → is_digit sep ≡ false → has sep (to_string n) ≡ false
unfolding to_string has
has-to_string sep n d = has-to_digits sep (suc n) n [] d refl

stoi_digit :
    (c : ℕ) (s : Bytes)
    → is_digit c ≡ true
    → scan 0 (c ∷ s) < 2 ^ 31
    → stoi (c ∷ s) ≡ some (pos (scan 0 (c ∷ s)))
unfolding stoi skip_spaces unsigned
stoi_digit c s d h = ground arith

pub stoi-to_string : (n : ℕ) → n < 2 ^ 31 → stoi (to_string n) ≡ some (pos n)
unfolding to_string scan
stoi-to_string n h =
    let (c, s, e, d) = to_digits-digit (suc n) n [] (omega arith) in
    let value : scan 0 (c ∷ s) ≡ n =
      ap (scan 0) (sym e) ∙ scan-to_digits (suc n) n [] (omega arith) in
    ap stoi e ∙ stoi_digit c s d (omega (arith, value)) ∙ ap (λ m. some (pos m)) value

pub to_string-nonempty : (n : ℕ) → is_nil (to_string n) ≡ false
unfolding to_string
to_string-nonempty n = let (c, s, e, d) = to_digits-digit (suc n) n [] (omega arith) in ap is_nil e
