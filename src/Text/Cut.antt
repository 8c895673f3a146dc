-- ===== src/Text/Cut.antt =====
-- What `find` and `substr` cut from a text at its first separator.
use advanced_oslab.Prelude.{ℕ, ◌≡◌, refl, true, false, some, [], ◌∷◌, ◌++◌, arith}
use advanced_oslab.Text.{Bytes, has, before, behind, after}

pub before-append : (sep : ℕ) (a s : Bytes) → has sep a ≡ false → before sep (a ++ sep ∷ s) ≡ a
unfolding has before
before-append sep [] s h = ground arith
before-append sep (c ∷ a) s h = ground (arith, before-append sep a s)

pub behind-append : (sep : ℕ) (a s : Bytes) → has sep a ≡ false → behind sep (a ++ sep ∷ s) ≡ some s
unfolding has behind
behind-append sep [] s h = ground arith
behind-append sep (c ∷ a) s h = ground (arith, behind-append sep a s)

pub has_sep : (sep : ℕ) (a s : Bytes) → has sep (a ++ sep ∷ s) ≡ true
unfolding has
has_sep sep [] s = ground arith
has_sep sep (c ∷ a) s = ground (arith, has_sep sep a s)

pub after-append : (sep : ℕ) (a s : Bytes) → has sep a ≡ false → after sep (a ++ sep ∷ s) ≡ s
after-append sep a s h = rw (behind-append sep a s h, after) refl
