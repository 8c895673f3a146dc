-- ===== src/Tests/Choices.antt =====
-- The choice of the next uthread at work: kthread 0 with uthread 1 queued, kthread 1 with none.
use advanced_oslab.Prelude.{ℕ, ◌≡◌, refl, none, some, false, arith}
use advanced_oslab.Prelude.Outcome.{ok}
use advanced_oslab.Bits.{is_bit_set, set_bit}
use advanced_oslab.Runqueue.{init_runqueue, added}
use advanced_oslab.Kthread.{KthreadRunqueue, World}
use advanced_oslab.Sched.{sched_find_best_uthread}
use advanced_oslab.Sched.Settled.{IsSettled}
use advanced_oslab.Sched.Active.{FromActive, swapped, sched_find_best_uthread-active}
use advanced_oslab.Sched.Twice.{sched_find_best_uthread-twice}
use advanced_oslab.Tests.Fixtures.{
  queue, threads, empty, empty-IsValid, one, one-IsValid, krunqueue, krunqueue-IsSettled, context,
  world,
}

abbrev busy : KthreadRunqueue
busy = krunqueue one empty

abbrev expired : KthreadRunqueue
expired = krunqueue empty one

abbrev bare : KthreadRunqueue
bare = krunqueue empty empty

busy-IsSettled : IsSettled threads busy
busy-IsSettled = krunqueue-IsSettled one empty one-IsValid empty-IsValid

expired-IsSettled : IsSettled threads expired
expired-IsSettled = krunqueue-IsSettled empty one empty-IsValid one-IsValid

bare-IsSettled : IsSettled threads bare
bare-IsSettled = krunqueue-IsSettled empty empty empty-IsValid empty-IsValid

active_example :
    (u : ℕ) × (w' : World) × (sched_find_best_uthread (world false false busy bare) 0
      ≡ ok (some u, w'))
    × FromActive (world false false busy bare) 0 (context 0 busy) u w'
unfolding init_runqueue added is_bit_set set_bit
active_example =
    sched_find_best_uthread-active (world false false busy bare) 0 refl busy-IsSettled (omega arith)

twice_example :
    (w' : World) × (sched_find_best_uthread (world false false expired bare) 0 ≡ ok (none, w'))
    × (u : ℕ) × (w'' : World) × (sched_find_best_uthread w' 0 ≡ ok (some u, w''))
    × FromActive w' 0 (record (context 0 expired) { krunqueue = swapped expired }) u w''
unfolding init_runqueue added is_bit_set set_bit
twice_example =
    sched_find_best_uthread-twice (world false false expired bare) 0 refl expired-IsSettled refl
      (omega arith) refl
