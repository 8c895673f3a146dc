-- ===== src/Tests/Steals.antt =====
-- Load balancing at work: kthread 1 finds what kthread 0 has queued, and not the other way round.
use advanced_oslab.Prelude.{ℕ, ◌≡◌, refl, none, some, true, arith}
use advanced_oslab.Prelude.Outcome.{ok}
use advanced_oslab.Bits.{is_bit_set, set_bit}
use advanced_oslab.Runqueue.{init_runqueue, added}
use advanced_oslab.Kthread.{KthreadRunqueue, World}
use advanced_oslab.Sched.{sched_find_best_uthread}
use advanced_oslab.Sched.Settled.{IsSettled}
use advanced_oslab.Sched.Active.{swapped}
use advanced_oslab.Sched.Steal.{Stolen, sched_find_best_uthread-none, sched_find_best_uthread-steal}
use advanced_oslab.Tests.Fixtures.{
  queue, threads, empty, empty-IsValid, one, one-IsValid, krunqueue, krunqueue-IsSettled, context,
  world,
}

abbrev loaded : KthreadRunqueue
loaded = krunqueue one empty

abbrev bare : KthreadRunqueue
bare = krunqueue empty empty

loaded-IsSettled : IsSettled threads loaded
loaded-IsSettled = krunqueue-IsSettled one empty one-IsValid empty-IsValid

bare-IsSettled : IsSettled threads bare
bare-IsSettled = krunqueue-IsSettled empty empty empty-IsValid empty-IsValid

none_example :
    (w' : World) × (sched_find_best_uthread (world true true bare loaded) 0 ≡ ok (none, w'))
    × (w'.kthread_cpu_map 0 ≡ some (record (context 0 bare) { krunqueue = swapped bare }))
unfolding init_runqueue added is_bit_set set_bit
none_example =
    let (w', returns, exchanged, others) =
      sched_find_best_uthread-none (world true true bare loaded) 0 refl bare-IsSettled refl refl
        (λ j below small. absurd (omega arith)) in
    (w', returns, exchanged)

steal_example :
    (u : ℕ) × (w' : World) × (sched_find_best_uthread (world true true loaded bare) 1
      ≡ ok (some u, w'))
    × Stolen (world true true loaded bare) 1 (context 1 bare) 0 (context 0 loaded) u w'
unfolding init_runqueue added is_bit_set set_bit
steal_example =
    sched_find_best_uthread-steal (world true true loaded bare) 1 refl bare-IsSettled refl refl 0
      (λ j below. absurd (omega arith)) (omega arith) (omega arith) refl refl loaded-IsSettled refl
