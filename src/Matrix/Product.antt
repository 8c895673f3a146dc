-- ===== src/Matrix/Product.antt =====
-- Assignment_1/Project1/gtthreads/src/gt_matrix.c: what the loops of `uthread_mulmat` do, and where they stop.
use advanced_oslab.Prelude.{
  ℕ, zero, suc, ◌+◌, ◌≤◌, ◌<◌, ltb, Bool, true, false, ◌&&◌, if◌then◌else◌, ◌≡◌, refl, ap, ◌∙◌,
  arith,
}
use advanced_oslab.Prelude.Outcome.{undefined}
use advanced_oslab.Matrix.{
  Matrix, UthreadArg, Vars, loop_k, loop_j, loop_i, may_yield, uthread_mulmat, size_max,
}

abbrev pub at : (i j k num_yield : ℕ) → Vars
at i j k num_yield = record { i = i; j = j; k = k; num_yield = num_yield }

-- The yields after so many more rounds.
abbrev pub yields_after : Bool → ℕ → ℕ → ℕ
yields_after yields n rounds =
    if yields then (if ltb (n + rounds) 10 then n + rounds else 10) else n

loop_k_lem :
    (yields : Bool) (rounds i j k n : ℕ)
    → n ≤ 10
    → loop_k yields rounds (at i j k n) ≡ at i j (k + rounds) (yields_after yields n rounds)
unfolding loop_k
loop_k_lem false zero i j k n small = ground arith
loop_k_lem true zero i j k n small = ground arith
loop_k_lem false (suc rounds) i j k n small = ground (arith, loop_k_lem false rounds i j (k + 1) n)
loop_k_lem true (suc rounds) i j k n small =
    ground (arith, loop_k_lem true rounds i j (k + 1) (if ltb n 10 then n + 1 else n))

abbrev pub all_yields : Bool → ℕ → ℕ
all_yields yields n = if yields then 10 else n

yields_after_all : (yields : Bool) (n : ℕ) → yields_after yields n size_max ≡ all_yields yields n
yields_after_all false n = refl
yields_after_all true n = ground arith

all_yields-le : (yields : Bool) (n : ℕ) → n ≤ 10 → all_yields yields n ≤ 10
all_yields-le false n small = small
all_yields-le true n small = ground arith

all_yields_twice :
    (yields : Bool) (n : ℕ) → all_yields yields (all_yields yields n) ≡ all_yields yields n
all_yields_twice false n = refl
all_yields_twice true n = refl

plus_zero : (n : ℕ) → 0 + n ≡ n
plus_zero n = omega arith

loop_j-suc :
    (yields : Bool) (rounds i j k n : ℕ)
    → n ≤ 10
    → loop_j yields (suc rounds) (at i j k n)
      ≡ loop_j yields rounds (at i (j + 1) size_max (all_yields yields n))
unfolding loop_j
loop_j-suc yields rounds i j k n small =
    ap (λ w. loop_j yields rounds (record w { j = w.j + 1 }))
      (loop_k_lem yields size_max i j 0 n small ∙ ap (at i j size_max) (yields_after_all yields n))

loop_j_lem :
    (yields : Bool) (rounds i j k n : ℕ)
    → n ≤ 10
    → loop_j yields (suc rounds) (at i j k n) ≡ at i (j + suc rounds) size_max (all_yields yields n)
unfolding loop_j
loop_j_lem yields zero i j k n small =
    loop_j-suc yields zero i j k n small
    ∙ ap (λ x. at i x size_max (all_yields yields n)) (ground arith)
loop_j_lem yields (suc rounds) i j k n small =
    loop_j-suc yields (suc rounds) i j k n small
    ∙ loop_j_lem yields rounds i (j + 1) size_max (all_yields yields n)
        (all_yields-le yields n small)
    ∙ ground (arith, all_yields_twice yields n)

loop_i-suc :
    (yields : Bool) (cols rounds i j k n : ℕ)
    → n ≤ 10
    → loop_i yields (suc cols) (suc rounds) (at i j k n)
      ≡ loop_i yields (suc cols) rounds (at (i + 1) (suc cols) size_max (all_yields yields n))
unfolding loop_i
loop_i-suc yields cols rounds i j k n small =
    ap (λ w. loop_i yields (suc cols) rounds (record w { i = w.i + 1 }))
      (loop_j_lem yields cols i 0 k n small
        ∙ ap (λ x. at i x size_max (all_yields yields n)) (plus_zero (suc cols)))

loop_i_lem :
    (yields : Bool) (cols rounds i j k n : ℕ)
    → n ≤ 10
    → loop_i yields (suc cols) (suc rounds) (at i j k n)
      ≡ at (i + suc rounds) (suc cols) size_max (all_yields yields n)
unfolding loop_i
loop_i_lem yields cols zero i j k n small =
    loop_i-suc yields cols zero i j k n small
    ∙ ap (λ x. at x (suc cols) size_max (all_yields yields n)) (ground arith)
loop_i_lem yields cols (suc rounds) i j k n small =
    loop_i-suc yields cols (suc rounds) i j k n small
    ∙ loop_i_lem yields cols rounds (i + 1) (suc cols) size_max (all_yields yields n)
        (all_yields-le yields n small)
    ∙ ground (arith, all_yields_twice yields n)

-- Once the loops of `uthread_mulmat` have run on a matrix of positive size, `i` and `j` are the size
-- and `k` is 256, and the uthread has called `gt_yield` ten times if it may at all and not once if
-- it may not.
pub loops_lem :
    (yields : Bool) (size : ℕ)
    → 0 < size
    → loop_i yields size size (at 0 0 0 0)
      ≡ record { i = size; j = size; k = 256; num_yield = if yields then 10 else 0 }
loops_lem yields zero nonempty = ground arith
loops_lem yields (suc size) nonempty =
    loop_i_lem yields size size 0 0 0 0 (omega arith)
    ∙ ap (λ x. at x (suc size) size_max (all_yields yields 0)) (plus_zero (suc size))

out_of_bounds : (b : Bool) → (b && (b && ltb 256 size_max)) ≡ false
out_of_bounds false = refl
out_of_bounds true = refl

-- On a matrix of positive size `uthread_mulmat` indexes its arrays out of bounds: the statement that
-- adds a product stands behind the loops, where `k` is 256.
pub uthread_mulmat-undefined :
    (is_credit_scheduler : Bool) (arg : UthreadArg) (a b c : Matrix)
    → 0 < arg.matrix_size
    → uthread_mulmat is_credit_scheduler arg a b c ≡ undefined
unfolding uthread_mulmat
uthread_mulmat-undefined is_credit_scheduler arg a b c nonempty = rw (
  loops_lem (may_yield is_credit_scheduler arg) arg.matrix_size nonempty,
  out_of_bounds (ltb arg.matrix_size size_max),
)
