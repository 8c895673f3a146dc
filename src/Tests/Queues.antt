-- ===== src/Tests/Queues.antt =====
-- The bit masks and the run queue at work.
use advanced_oslab.Prelude.{
  ℕ, ◌+◌, ◌^◌, ◌≤◌, ◌<◌, ◌≡◌, refl, [], ◌∷◌, Option, some, Bool, true, false, not, ◌||◌, ◌&&◌, ◌==◌,
  if◌then◌else◌, arith,
}
use advanced_oslab.Prelude.Outcome.{ok}
use advanced_oslab.Bits.{is_bit_set}
use advanced_oslab.Uthread.{Uthreads}
use advanced_oslab.Runqueue.{Runqueue, init_runqueue, bucket, add, rem, added, removed}
use advanced_oslab.Runqueue.Invariant.{IsValid}
use advanced_oslab.Runqueue.Add.{add_lem, added-IsValid}
use advanced_oslab.Runqueue.Remove.{rem_lem, removed-stale_mark}
use advanced_oslab.Runqueue.Init.{init_runqueue_lem}
use advanced_oslab.Tests.Fixtures.{queue, threads, zeros-IsZeroed, empty, one, one-IsValid}

add_example : (runq' : Runqueue) × (add threads one 2 ≡ ok runq') × (bucket runq' 16 1 ≡ 1 ∷ 2 ∷ [])
unfolding init_runqueue added advanced_oslab.Prelude.count
add_example =
    let (runq', returns, valid, lists, total) = add_lem 2 one-IsValid refl refl (omega arith) in
    (runq', returns, lists 16 1)

rem_example : (runq' : Runqueue) × (rem threads one 1 ≡ ok runq') × (bucket runq' 16 1 ≡ [])
unfolding init_runqueue added advanced_oslab.Prelude.count advanced_oslab.Prelude.erase
rem_example =
    let (runq', returns, valid, lists, total) = rem_lem 1 one-IsValid refl (omega arith) in
    (runq', returns, lists 16 1)

-- Uthread 9 has a priority of its own in the group of the others.
abbrev mixed : Uthreads
mixed u = if u == 9 then record (threads 9) { uthread_priority = 5 } else threads u

abbrev both : Runqueue
both = added (added empty 16 1 1) 5 1 9

mixed-IsValid : IsValid mixed both
unfolding init_runqueue advanced_oslab.Prelude.count added
mixed-IsValid =
    let (first, lists) = init_runqueue_lem zeros-IsZeroed mixed in
    let second =
      added-IsValid first 1 16 1 (omega arith) (omega arith) (omega arith) refl refl refl in
    added-IsValid second 9 5 1 (omega arith) (omega arith) (omega arith) refl refl refl

stale_mark_example :
    (is_bit_set ((removed both 5 1 9).uthread_group_mask 1) 5 ≡ true)
    × (bucket (removed both 5 1 9) 5 1 ≡ [])
unfolding init_runqueue advanced_oslab.Prelude.count added
stale_mark_example =
    removed-stale_mark 9 5 1 mixed-IsValid (omega arith) (omega arith) (omega arith) refl
      (omega arith)
