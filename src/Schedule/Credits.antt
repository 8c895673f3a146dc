-- ===== src/Schedule/Credits.antt =====
-- Assignment_1/Project1/gtthreads/src/gt_uthread.c: the deduction of credits, and the run queue
-- that they choose.
use advanced_oslab.Prelude.{
  ℕ, ◌-◌, ◌*◌, ◌/◌, ◌≤◌, ◌<◌, ◌≡◌, ◌↔◌, Bool, true, false, ltb, if◌then◌else◌, arith,
}
use advanced_oslab.Prelude.Int.{pos, negsuc, ltb_ℤ, ◌+ℤ◌, ◌-ℤ◌}
use advanced_oslab.Uthread.{uthread_runnable, Uthread}
use advanced_oslab.Schedule.{charge, requeue}

-- Under the credit scheduler, a uthread with `c` > 0 credits that is stopped, at a time not before
-- its step began, pays a credit for each full millisecond of the step, and is left with -1 if the
-- step took more than `c` milliseconds; the step is added to its total time and its state is kept.
pub charge_lem :
    (u : Uthread) (c now : ℕ)
    → u.credits ≡ pos c
    → 0 < c
    → u.start_running_time_step ≤ now
    → ((charge true now u).credits ≡ (
        if ltb (1000 * c) (now - u.start_running_time_step)
        then negsuc 0
        else pos (c - (now - u.start_running_time_step) / 1000)))
      × ((charge true now u).run_time_total
          ≡ u.run_time_total +ℤ pos (now - u.start_running_time_step))
      × ((charge true now u).uthread_state ≡ u.uthread_state)
unfolding charge ◌-ℤ◌
charge_lem u c now e pos_c later = (ground arith, ground arith, ground arith)

-- A stopped uthread goes back to the active run queue exactly if the credit scheduler runs, it has
-- credits left, and it did not yield.
pub requeue-active_iff :
    (credit : Bool) (u : Uthread)
    → ((requeue credit u).to_active ≡ true)
      ↔ ((credit ≡ true) × (ltb_ℤ (pos 0) u.credits ≡ true) × (u.is_yield_valid ≡ false))
unfolding requeue
requeue-active_iff credit u = (λ h. ground arith, λ h. ground arith)

-- Under the credit scheduler, a stopped uthread is queued as runnable, with the credits that it has
-- if it yielded with some left, with 25 less if it did not yield and has some left, and with its
-- initial ones if none are left; its mark of a yield is cleared.
pub requeue-credits :
    (u : Uthread)
    → ((requeue true u).queued.credits ≡ (
        if ltb_ℤ (pos 0) u.credits
        then (if u.is_yield_valid then u.credits else u.credits -ℤ pos 25)
        else u.initial_credits))
      × ((requeue true u).left.is_yield_valid ≡ false)
      × ((requeue true u).queued.uthread_state ≡ uthread_runnable)
unfolding requeue
requeue-credits u = (ground arith, ground arith, ground arith)
