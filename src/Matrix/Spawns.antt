-- ===== src/Matrix/Spawns.antt =====
-- Assignment_1/Project1/gtthreads/src/gt_matrix.c: the uthreads of `main` in closed form.
use advanced_oslab.Prelude.{ℕ, ◌+◌, ◌*◌, ◌/◌, ◌%◌, ◌^◌, Bool, true, false, ◌≡◌, refl, tabulate}
use advanced_oslab.Matrix.{Spawn, spawns}

-- The size and the credits that the group of uthread `i` stands for.
abbrev pub spawn_at : Bool → ℕ → Spawn
spawn_at true i = record {
  arg = record { matrix_size = 32 * 2 ^ (i / 8 % 4); tid = i; gid = i % 4 };
  credits = 25 * (i / 32 + 1);
}
spawn_at false i = record {
  arg = record { matrix_size = 32 * 2 ^ (i / 32); tid = i; gid = i % 4 };
  credits = 0;
}

-- `main` creates 128 uthreads, whose numbers are 0 to 127 in order and whose groups are these modulo
-- 4. Under the credit scheduler uthread `i` has 25 * (i / 32 + 1) credits and a matrix of size 32 *
-- 2 ^ ((i / 8) mod 4); under the priority scheduler it has no credits and a matrix of size 32 * 2 ^
-- (i / 32).
pub spawns_lem :
    (is_credit_scheduler : Bool)
    → spawns is_credit_scheduler ≡ tabulate (spawn_at is_credit_scheduler) 128
unfolding spawns tabulate
spawns_lem true = refl
spawns_lem false = refl
