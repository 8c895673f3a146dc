-- ===== src/Schedule/Turns.antt =====
-- Assignment_1/Project1/gtthreads/src/gt_uthread.c: a uthread that never yields, from turn to turn.
use advanced_oslab.Prelude.{ℕ, suc, ◌+◌, ◌*◌, ◌≤◌, ◌≡◌, true, arith}
use advanced_oslab.Prelude.Int.{ℤ, pos, pos_part, neg_part, ◌-ℤ◌, ◌≤ℤ◌, -ℤ_parts}
use advanced_oslab.Uthread.{Uthread}
use advanced_oslab.Schedule.{charge, requeue}

-- The uthread is resumed at `started`, runs until `now`, is charged and goes to the active run
-- queue.
pub data Turn (u : Uthread) : Uthread → Type 0 where
  turn :
      (started now : ℕ)
      → started ≤ now
      → (requeue true (charge true now (record u { start_running_time_step = started }))).to_active
        ≡ true
      → Turn u
          (requeue true (charge true now (record u { start_running_time_step = started }))).left

-- So many turns in a row.
pub data Turns (u : Uthread) : ℕ → Uthread → Type 0 where
  none_yet : Turns u 0 u
  then_turn : {n : ℕ} {v w : Uthread} → Turns u n v → Turn v w → Turns u (suc n) w

charge-le :
    (u : Uthread) (now : ℕ)
    → u.start_running_time_step ≤ now
    → (charge true now u).credits ≤ℤ u.credits
unfolding charge ◌-ℤ◌
charge-le u now le = ground arith

negative_bound : (c : ℤ) → 1 ≤ pos_part c → neg_part c ≡ 0 → neg_part (c -ℤ pos 25) ≤ 24
unfolding ◌-ℤ◌
negative_bound c some_left nonneg = ground arith

active-credits :
    (u : Uthread)
    → (requeue true u).to_active ≡ true
    → ((requeue true u).left.credits ≡ u.credits -ℤ pos 25)
      × (1 ≤ pos_part u.credits)
      × (neg_part u.credits ≡ 0)
unfolding requeue
active-credits u active = (ground arith, ground arith, ground arith)

-- A turn costs 25 credits at least, and the uthread still had some when it ended.
Turn-credits :
    {u v : Uthread}
    → Turn u v
    → (pos_part v.credits + 25 + neg_part u.credits ≤ pos_part u.credits + neg_part v.credits)
      × (neg_part v.credits ≤ 24)
Turn-credits {u} (turn started now le active) =
    let before = record u { start_running_time_step = started } in
    let paid = charge true now before in
    let (e, some_left, nonneg) = active-credits paid active in
    (
      rw (e) (omega (arith, -ℤ_parts paid.credits (pos 25), charge-le before now le)),
      rw (e) (negative_bound paid.credits some_left nonneg),
    )

Turns-credits :
    {u v : Uthread} {n : ℕ}
    → Turns u n v
    → pos_part v.credits + neg_part u.credits + 25 * n ≤ pos_part u.credits + neg_part v.credits
Turns-credits none_yet = omega arith
Turns-credits (then_turn r t) = omega (arith, Turns-credits r, Turn-credits t)

-- A uthread with `25 * k` credits or fewer has at most `k` turns in a row in which
-- `uthread_schedule` puts it back into the active run queue.
pub Turns-le : {u v : Uthread} {n : ℕ} (k : ℕ) → Turns u n v → u.credits ≤ℤ pos (25 * k) → n ≤ k
Turns-le k none_yet few = omega arith
Turns-le k (then_turn r t) few = omega (arith, Turns-credits (then_turn r t), Turn-credits t)
