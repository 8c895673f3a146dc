-- ===== src/Matrix/Generate.antt =====
-- Assignment_1/Project1/gtthreads/src/gt_matrix.c: what `generate_matrix` writes.
use advanced_oslab.Prelude.{
  ℕ, zero, suc, ◌+◌, ltb, leb, ◌&&◌, ◌==◌, if◌then◌else◌, ◌≡◌, refl, arith,
}
use advanced_oslab.Matrix.{Matrix, write, fill_row, fill, generate_matrix}

fill_row_lem :
    (m : ℕ → ℕ → ℕ) (i j val rounds r c : ℕ)
    → fill_row m i j val rounds r c
      ≡ (if (i == r) && (leb j c && ltb c (j + rounds)) then val else m r c)
unfolding fill_row
fill_row_lem m i j val zero r c = ground arith
fill_row_lem m i j val (suc rounds) r c =
    ground (arith, fill_row_lem (write m i j val) i (j + 1) val rounds r c)

fill_lem :
    (m : ℕ → ℕ → ℕ) (i val cols rounds r c : ℕ)
    → fill m i val cols rounds r c
      ≡ (if leb i r && (ltb r (i + rounds) && ltb c cols) then val else m r c)
unfolding fill
fill_lem m i val cols zero r c = ground arith
fill_lem m i val cols (suc rounds) r c = ground (
  arith,
  fill_lem (fill_row m i 0 val cols) (i + 1) val cols rounds r c,
  fill_row_lem m i 0 val cols r c,
)

-- `generate_matrix` writes the value to the cells of the upper left square of the size given, leaves
-- every other cell as it is, and sets both dimensions.
pub generate_matrix_lem :
    (mat : Matrix) (val size : ℕ)
    → ((r c : ℕ)
        → (generate_matrix mat val size).m r c
          ≡ (if ltb r size && ltb c size then val else mat.m r c))
      × ((generate_matrix mat val size).rows ≡ size)
      × ((generate_matrix mat val size).cols ≡ size)
unfolding generate_matrix
generate_matrix_lem mat val size =
    ((λ r c. ground (arith, fill_lem mat.m 0 val size size r c)), refl, refl)
