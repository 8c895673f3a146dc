-- ===== src/Text/Pieces.antt =====
-- What `getline` reads of a text that a separator ends, or that has none.
use advanced_oslab.Prelude.{ℕ, ◌≡◌, false, [], ◌∷◌, ◌++◌, arith}
use advanced_oslab.Text.{Bytes, has, pieces}

pub pieces-append :
    (sep : ℕ) (a s : Bytes) → has sep a ≡ false → pieces sep (a ++ sep ∷ s) ≡ a ∷ pieces sep s
unfolding has pieces
pieces-append sep [] s h = ground arith
pieces-append sep (c ∷ a) s h = ground (arith, pieces-append sep a s)

pub pieces-last :
    (sep : ℕ) (c : ℕ) (a : Bytes) → has sep (c ∷ a) ≡ false → pieces sep (c ∷ a) ≡ (c ∷ a) ∷ []
unfolding has pieces
pieces-last sep c [] h = ground arith
pieces-last sep c (d ∷ a) h = ground (arith, pieces-last sep d a)

pub has-append :
    (sep : ℕ) (a b : Bytes) → has sep a ≡ false → has sep b ≡ false → has sep (a ++ b) ≡ false
unfolding has
has-append sep [] b h k = k
has-append sep (c ∷ a) b h k = ground (arith, has-append sep a b)
