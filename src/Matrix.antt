-- ===== src/Matrix.antt =====
-- Assignment_1/Project1/gtthreads/src/gt_matrix.c: the matrices, what one uthread does to them, the
-- command line, and the uthreads that `main` creates.
pub mod Product
pub mod Generate
pub mod Spawns
use advanced_oslab.Prelude.{
  ℕ, zero, suc, ◌+◌, ◌*◌, ◌/◌, ◌%◌, Bool, true, false, ◌&&◌, List, [], ◌∷◌, ◌++◌, ltb, leb, ◌==◌,
  if◌then◌else◌,
}
use Prim.Native.String.{String}
use text.Mathlib.Text.{◌==◌ as str_eq}
use advanced_oslab.Prelude.Arrays.{update}
use advanced_oslab.Prelude.Int.{ℤ, pos}
use advanced_oslab.Prelude.Outcome.{Outcome, ok, undefined, ◌>>=◌, ◌>>◌, defined}

abbrev pub size_max : ℕ
size_max = 256

-- `matrix_t`; the cells are `int`s that stay non-negative here.
pub record Matrix : Type 0 where
  pub m : ℕ → ℕ → ℕ
  pub rows : ℕ
  pub cols : ℕ

abbrev pub write : (ℕ → ℕ → ℕ) → ℕ → ℕ → ℕ → ℕ → ℕ → ℕ
write m i j v = update m i (update (m i) j v)

-- The two loops of `generate_matrix`, with so many rounds to go.
unfoldable pub fill_row : (ℕ → ℕ → ℕ) → (i j val rounds : ℕ) → ℕ → ℕ → ℕ
fill_row m i j val zero = m
fill_row m i j val (suc rounds) = fill_row (write m i j val) i (j + 1) val rounds

unfoldable pub fill : (ℕ → ℕ → ℕ) → (i val cols rounds : ℕ) → ℕ → ℕ → ℕ
unfolding fill_row
fill m i val cols zero = m
fill m i val cols (suc rounds) = fill (fill_row m i 0 val cols) (i + 1) val cols rounds

unfoldable pub generate_matrix : Matrix → ℕ → ℕ → Matrix
unfolding fill
generate_matrix mat val matrix_size = record {
  m = fill mat.m 0 val matrix_size matrix_size;
  rows = matrix_size;
  cols = matrix_size;
}

-- `uthread_arg_t`, less the pointers to the matrices and the fields that nothing sets.
pub record UthreadArg : Type 0 where
  pub matrix_size : ℕ
  pub tid : ℕ
  pub gid : ℕ

pub record Vars : Type 0 where
  pub i : ℕ
  pub j : ℕ
  pub k : ℕ
  pub num_yield : ℕ

-- The body of the loops, which is the `if` alone: `gt_yield` is called at most ten times.
abbrev pub body : Bool → Vars → Vars
body yields v = record v {
  num_yield = if yields && ltb v.num_yield 10 then v.num_yield + 1 else v.num_yield;
}

-- `for (k = ...)`, `for (j = ...)`, `for (i = ...)`, with so many rounds to go.
unfoldable pub loop_k : Bool → ℕ → Vars → Vars
loop_k yields zero v = v
loop_k yields (suc rounds) v = loop_k yields rounds (record (body yields v) { k = v.k + 1 })

unfoldable pub loop_j : Bool → ℕ → Vars → Vars
unfolding loop_k
loop_j yields zero v = v
loop_j yields (suc rounds) v =
    let w = loop_k yields size_max (record v { k = 0 }) in
    loop_j yields rounds (record w { j = w.j + 1 })

unfoldable pub loop_i : Bool → (cols : ℕ) → ℕ → Vars → Vars
unfolding loop_j
loop_i yields cols zero v = v
loop_i yields cols (suc rounds) v =
    let w = loop_j yields cols (record v { j = 0 }) in
    loop_i yields cols rounds (record w { i = w.i + 1 })

-- `is_credit_scheduler == 1 && ptr->tid <= 32`
abbrev pub may_yield : Bool → UthreadArg → Bool
may_yield is_credit_scheduler arg = is_credit_scheduler && leb arg.tid 32

-- `uthread_mulmat`, compiled without GT_GROUP_SPLIT: the calls of `gt_yield` and the product matrix.
-- The statement behind the loops is not part of them.
unfoldable pub uthread_mulmat : Bool → UthreadArg → (a b c : Matrix) → Outcome (ℕ × Matrix)
unfolding loop_i
uthread_mulmat is_credit_scheduler arg a b c = do
  let v =
      loop_i (may_yield is_credit_scheduler arg) arg.matrix_size arg.matrix_size
        (record { i = 0; j = 0; k = 0; num_yield = 0 })
  defined (ltb v.i size_max && (ltb v.j size_max && ltb v.k size_max))
  ok (v.num_yield, record c { m = write c.m v.i v.j (c.m v.i v.j + a.m v.i v.k * b.m v.k v.j) })

pub record Options : Type 0 where
  pub is_load_balancing : Bool
  pub is_credit_scheduler : Bool

-- `parse_args`; behind the last argument stands a NULL, which `-s` would follow.
unfoldable pub parse_args : Options → List String → Outcome Options
parse_args o [] = ok o
parse_args o (arg ∷ []) =
    if str_eq arg "-lb"
    then ok (record o { is_load_balancing = true })
    else (if str_eq arg "-s" then undefined else ok o)
parse_args o (arg ∷ value ∷ rest) =
    let balanced = parse_args (record o { is_load_balancing = true }) (value ∷ rest) in
    let chosen =
      parse_args (if str_eq value "1" then record o { is_credit_scheduler = true } else o) rest in
    let other = parse_args o (value ∷ rest) in
    if str_eq arg "-lb" then balanced else (if str_eq arg "-s" then chosen else other)

-- A uthread that `main` creates.
pub record Spawn : Type 0 where
  pub arg : UthreadArg
  pub credits : ℕ

abbrev pub num_threads : ℕ
num_threads = 128

abbrev pub num_groups : ℕ
num_groups = 4

-- `count` uthreads of one size and credit, numbered from `thread_id` on.
unfoldable pub spawn_some : (count thread_id size credit : ℕ) → List Spawn
spawn_some zero thread_id size credit = []
spawn_some (suc count) thread_id size credit =
    record {
      arg = record { matrix_size = size; tid = thread_id; gid = thread_id % num_groups };
      credits = credit;
    }
    ∷ spawn_some count (thread_id + 1) size credit

-- `for (size = ...; size <= 256; size *= 2)`, with so many rounds to go.
unfoldable pub spawn_sizes : (rounds per_size thread_id size credit : ℕ) → List Spawn
unfolding spawn_some
spawn_sizes zero per_size thread_id size credit = []
spawn_sizes (suc rounds) per_size thread_id size credit =
    spawn_some per_size thread_id size credit
    ++ spawn_sizes rounds per_size (thread_id + per_size) (size * 2) credit

-- `for (credit = 25; credit <= 100; credit += 25)`, with so many rounds to go.
unfoldable pub spawn_credits : (rounds thread_id credit : ℕ) → List Spawn
unfolding spawn_sizes
spawn_credits zero thread_id credit = []
spawn_credits (suc rounds) thread_id credit =
    spawn_sizes 4 (num_threads / 4 / 4) thread_id 32 credit
    ++ spawn_credits rounds (thread_id + 32) (credit + 25)

-- The uthreads of `main`, in order of creation.
unfoldable pub spawns : Bool → List Spawn
unfolding spawn_credits
spawns is_credit_scheduler =
    if is_credit_scheduler then spawn_credits 4 0 25 else spawn_sizes 4 (num_threads / 4) 0 32 0
