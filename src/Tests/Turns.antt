-- ===== src/Tests/Turns.antt =====
-- The scheduler at work: kthread 0 runs uthread 3, and uthread 1 waits.
use advanced_oslab.Prelude.{
  ℕ, ◌+◌, ◌*◌, ◌≤◌, ◌<◌, ◌≡◌, refl, [], ◌∷◌, ◌↔◌, ◌++◌, Option, none, some, Bool, true, false, not,
  ◌&&◌, ◌||◌, ◌==◌, if◌then◌else◌, arith,
}
use advanced_oslab.Prelude.Int.{◌+ℤ◌, ◌-ℤ◌}
use advanced_oslab.Prelude.Outcome.{ok}
use advanced_oslab.Bits.{is_bit_set, set_bit}
use advanced_oslab.Runqueue.{init_runqueue, added}
use advanced_oslab.Kthread.{KthreadRunqueue, World}
use advanced_oslab.Sched.{sched_find_best_uthread}
use advanced_oslab.Sched.Settled.{IsSettled}
use advanced_oslab.Schedule.{to_uthread, charge, requeue, cycles_used, uthread_schedule}
use advanced_oslab.Schedule.Continue.{Continued, uthread_schedule-continue}
use advanced_oslab.Schedule.Turns.{Turns, turn, none_yet, then_turn, Turns-le}
use advanced_oslab.Schedule.Priority.{Switched, uthread_schedule-priority}
use advanced_oslab.Tests.Fixtures.{
  queue, threads, empty, empty-IsValid, one, one-IsValid, krunqueue, krunqueue-IsSettled, context,
  world,
}

abbrev running : KthreadRunqueue
running = krunqueue one empty

running-IsSettled : IsSettled threads running
running-IsSettled = krunqueue-IsSettled one empty one-IsValid empty-IsValid

abbrev now : (credit : Bool) → World
now credit = world credit false running (krunqueue empty empty)

one_turn :
    Turns
      (threads 3)
      1
      (requeue true (charge true 1500 (record (threads 3) { start_running_time_step = 1000 }))).left
unfolding requeue charge cycles_used ◌-ℤ◌ ◌+ℤ◌
one_turn = then_turn none_yet (turn 1000 1500 (omega arith) refl)

turns_example : 1 ≤ 2
turns_example = Turns-le 2 one_turn (omega arith)

schedule_example :
    (v : ℕ) × (w' : World) × (uthread_schedule sched_find_best_uthread (now false) 0 2000 2001 true
      ≡ ok (to_uthread v, w'))
    × Switched (now false) 0 (context 0 running) 3 v w'
unfolding init_runqueue added is_bit_set set_bit advanced_oslab.Prelude.count
schedule_example =
    uthread_schedule-priority (now false) 0 2000 2001 3 refl refl refl refl running-IsSettled refl
      refl refl (omega arith) (omega arith)

continue_example :
    (v : ℕ) × (w' : World) × (uthread_schedule sched_find_best_uthread (now true) 0 1500 1501 true
      ≡ ok (to_uthread v, w'))
    × Continued (now true) 0 (context 0 running) 3 v w'
unfolding init_runqueue added is_bit_set set_bit requeue charge cycles_used ◌-ℤ◌ ◌+ℤ◌
    advanced_oslab.Prelude.count
continue_example =
    uthread_schedule-continue (now true) 0 1500 1501 3 refl refl refl refl refl running-IsSettled
      refl refl refl (omega arith)
