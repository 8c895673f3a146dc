-- ===== src/Runqueue/Cycle.antt =====
-- Assignment_1/Project1/gtthreads/src/gt_pq.c: a uthread that is queued and taken out again.
use advanced_oslab.Prelude.{
  ℕ, ◌+◌, ◌^◌, ◌<◌, ◌≡◌, true, count, erase-append_one, count-append_one, arith,
}
use advanced_oslab.Prelude.Outcome.{ok, ◌>>=◌}
use advanced_oslab.TailQueue.{TailQueue}
use advanced_oslab.Uthread.{Uthreads}
use advanced_oslab.Runqueue.{Runqueue, bucket, in_bounds, add, rem}
use advanced_oslab.Runqueue.Invariant.{IsValid}
use advanced_oslab.Runqueue.Add.{add_lem}
use advanced_oslab.Runqueue.Remove.{rem_lem}

module _ ⦃T : TailQueue⦄ {us : Uthreads} {runq : Runqueue} where
  -- `__add_to_runqueue` and then `__rem_from_runqueue` of a uthread within the arrays that was not
  -- queued, on a valid run queue with room, return with every list and the total as they were, and
  -- the run queue valid.
  pub rem-add :
      (u : ℕ)
      → IsValid us runq
      → in_bounds (us u) ≡ true
      → count u (bucket runq (us u).uthread_priority (us u).uthread_gid) ≡ 0
      → runq.uthread_tot + 1 < 2 ^ 32
      → (runq' : Runqueue) × ((add us runq u >>= λ r. rem us r u) ≡ ok runq')
        × IsValid us runq'
        × ((p g : ℕ) → bucket runq' p g ≡ bucket runq p g)
        × (runq'.uthread_tot ≡ runq.uthread_tot)
  rem-add u valid bounds new room =
      let (mid, e, mid_valid, mid_buckets, mid_tot) = add_lem u valid bounds new room in
      let own = mid_buckets (us u).uthread_priority (us u).uthread_gid in
      let tail = count-append_one u u (bucket runq (us u).uthread_priority (us u).uthread_gid) in
      let (last, f, last_valid, last_buckets, last_tot) =
        rem_lem u mid_valid bounds (ground (arith, own, tail)) in
      (
        last,
        rw (e) f,
        last_valid,
        λ p g.
            ground (arith, mid_buckets p g, last_buckets p g, erase-append_one u (bucket runq p g)),
        omega arith,
      )
