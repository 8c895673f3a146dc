-- ===== src/Sched/Rob.antt =====
-- Assignment_1/Project1/gtthreads/src/gt_pq.c: one round of the load balancing loop, at a kthread
-- that is not idle.
use advanced_oslab.Prelude.{ℕ, ◌≡◌, true, false, ◌||◌, some, ◌==◌, arith, count, count-le-length}
use advanced_oslab.Prelude.Outcome.{ok}
use advanced_oslab.TailQueue.{TailQueue}
use advanced_oslab.Uthread.{Uthreads}
use advanced_oslab.Runqueue
use advanced_oslab.Runqueue.{Runqueue, bucket, in_bounds}
use advanced_oslab.Runqueue.Invariant.{IsValid}
use advanced_oslab.Runqueue.Best.{mask_zero-tot, mask_zero-load}
use advanced_oslab.Runqueue.Add.{add_lem}
use advanced_oslab.Runqueue.Cycle.{rem-add}
use advanced_oslab.Kthread.{
  Slot, KthreadRunqueue, runq_at, set_runq, KthreadContext, is_kthread_done, World, put_krunqueue,
  unlock_runq,
}
use advanced_oslab.Sched.{steal_from}
use advanced_oslab.Sched.Settled.{IsSettled, Taken, best-rem, IsBest-queued, lock_runq-free}

module _ ⦃T : TailQueue⦄ where
  abbrev pub locked : KthreadRunqueue → KthreadRunqueue
  locked k = record k { kthread_runqlock = record k.kthread_runqlock { locked = 1 } }

  -- The other kthread's run queue once its uthread is gone.
  abbrev pub robbed : KthreadRunqueue → Runqueue → KthreadRunqueue
  robbed k runq = unlock_runq (set_runq (locked k) k.active_runq runq)

  -- An empty run queue takes the uthread in and gives it out again.
  pub pass_through :
      {us : Uthreads} {runq : Runqueue} (u : ℕ)
      → IsValid us runq
      → runq.uthread_mask ≡ 0
      → in_bounds (us u) ≡ true
      → (mid : Runqueue) × (last : Runqueue) × (Runqueue.add us runq u ≡ ok mid)
        × (Runqueue.rem us mid u ≡ ok last)
        × IsValid us last
        × ((p g : ℕ) → bucket last p g ≡ bucket runq p g)
  pass_through {us} {runq} u valid empty bounds =
      let none_here : count u (bucket runq (us u).uthread_priority (us u).uthread_gid) ≡ 0 = omega (
        arith,
        mask_zero-load valid empty (us u).uthread_priority (us u).uthread_gid (ground arith)
            (ground arith),
        count-le-length u (bucket runq (us u).uthread_priority (us u).uthread_gid),
      ) in
      let room = mask_zero-tot valid empty in
      let (mid, e, _, _, _) = add_lem u valid bounds none_here (omega arith) in
      let (last, f, valid', same, _) = rem-add u valid bounds none_here (omega arith) in
      (mid, last, e, rw e at f, valid', same)

  pub steal_from_lem :
      (w : World) (me t : ℕ) (slot : Slot) {c other : KthreadContext}
      → w.kthread_cpu_map me ≡ some c
      → w.kthread_cpu_map t ≡ some other
      → (t == me) ≡ false
      → (is_kthread_done other
          || (runq_at other.krunqueue other.krunqueue.active_runq).uthread_mask == 0)
        ≡ false
      → IsSettled w.uthreads other.krunqueue
      → c.krunqueue.kthread_runqlock.locked ≡ 0
      → IsValid w.uthreads (runq_at c.krunqueue slot)
      → (runq_at c.krunqueue slot).uthread_mask ≡ 0
      → (u : ℕ) × (runq' mid last : Runqueue) × (steal_from w me slot t other
          ≡ ok (
              some (
                u,
                put_krunqueue
                    (put_krunqueue w t other (robbed other.krunqueue runq'))
                    me
                    c
                    (set_runq (locked c.krunqueue) slot mid),
              )))
        × Taken w.uthreads (runq_at other.krunqueue other.krunqueue.active_runq) u runq'
        × (Runqueue.rem w.uthreads mid u ≡ ok last)
        × IsValid w.uthreads last
        × ((p g : ℕ) → bucket last p g ≡ bucket (runq_at c.krunqueue slot) p g)
  unfolding steal_from
  steal_from_lem w me t slot {c} {other} at_me at_t ne ready settled free valid empty =
      let (u, runq', found, removed, taken) = best-rem settled.active_valid (ground arith) in
      let (bounds, _) = IsBest-queued settled.active_valid taken.is_best in
      let (mid, last, e, f, valid', same) = pass_through u valid empty bounds in
      (
        u,
        runq',
        mid,
        last,
        rw (
          ready,
          lock_runq-free other.krunqueue settled.lock_free,
          found,
          removed,
          ne,
          at_me,
          lock_runq-free c.krunqueue free,
          e,
        ),
        taken,
        f,
        valid',
        same,
      )
