-- ===== src/Sched/Settled.antt =====
-- A kthread's run queue between two calls of the scheduler, and the lemmas on locks, slots and
-- the map that the proofs about the scheduler share.
use advanced_oslab.Prelude.{
  ℕ, ◌+◌, ◌<◌, ◌≡◌, ◌≢◌, refl, true, ◌&&◌, some, ◌==◌, if◌then◌else◌, arith, count, erase,
}
use advanced_oslab.Prelude.Outcome.{ok}
use advanced_oslab.TailQueue.{TailQueue}
use advanced_oslab.Uthread.{Uthreads}
use advanced_oslab.Runqueue
use advanced_oslab.Runqueue.{Runqueue, bucket, in_bounds}
use advanced_oslab.Runqueue.Invariant.{IsValid}
use advanced_oslab.Runqueue.Remove.{rem_lem}
use advanced_oslab.Runqueue.Best.{IsBest, best_lem, best-belongs}
use advanced_oslab.Spinlock
use advanced_oslab.Kthread.{
  Slot, slot0, slot1, KthreadRunqueue, runq_at, set_runq, KthreadContext, World, put_krunqueue,
  lock_runq, unlock_runq,
}
use advanced_oslab.Sched.{take_out, take_best}

module _ ⦃T : TailQueue⦄ where
  -- The lock is free, the two pointers name different run queues, and both are valid.
  pub record IsSettled (us : Uthreads) (k : KthreadRunqueue) : Type 0 where
    pub lock_free : k.kthread_runqlock.locked ≡ 0
    pub apart : k.active_runq ≢ k.expires_runq
    pub active_valid : IsValid us (runq_at k k.active_runq)
    pub expires_valid : IsValid us (runq_at k k.expires_runq)

  pub lock_runq-free :
      (k : KthreadRunqueue)
      → k.kthread_runqlock.locked ≡ 0
      → lock_runq k ≡ ok (record k { kthread_runqlock = record k.kthread_runqlock { locked = 1 } })
  unfolding Spinlock.acquire
  lock_runq-free k free = rw (free)

  pub unlock_runq-locked : (k : KthreadRunqueue) → (unlock_runq k).kthread_runqlock.locked ≡ 0
  unfolding Spinlock.release
  unlock_runq-locked k = ground arith

  pub runq_at-set_self :
      (k : KthreadRunqueue) (s : Slot) (r : Runqueue) → runq_at (set_runq k s r) s ≡ r
  runq_at-set_self k slot0 r = refl
  runq_at-set_self k slot1 r = refl

  pub runq_at-set_ne :
      (k : KthreadRunqueue) (s t : Slot) (r : Runqueue)
      → s ≢ t
      → runq_at (set_runq k s r) t ≡ runq_at k t
  runq_at-set_ne k slot0 slot0 r ne = absurd (ne refl)
  runq_at-set_ne k slot0 slot1 r ne = refl
  runq_at-set_ne k slot1 slot0 r ne = refl
  runq_at-set_ne k slot1 slot1 r ne = absurd (ne refl)

  -- The best uthread of a run queue is within the bounds of the arrays and is queued.
  pub IsBest-queued :
      {us : Uthreads} {runq : Runqueue} {u p g : ℕ}
      → IsValid us runq
      → IsBest runq u p g
      → (in_bounds (us u) ≡ true)
        × (0 < count u (bucket runq (us u).uthread_priority (us u).uthread_gid))
  IsBest-queued {us} {u} valid is =
      let (is_p, is_g, here) = best-belongs valid is in
      (ground (arith, is.p_lt, is.g_lt), rw (is_p, is_g) here)

  -- The outcome of taking the best uthread of `runq` out of it.
  pub record Taken (us : Uthreads) (runq : Runqueue) (u : ℕ) (runq' : Runqueue) : Type 0 where
    pub p : ℕ
    pub g : ℕ
    pub is_best : IsBest runq u p g
    pub valid : IsValid us runq'
    pub tot : runq'.uthread_tot + 1 ≡ runq.uthread_tot
    pub buckets :
        (q h : ℕ)
        → bucket runq' q h
          ≡ (if p == q && g == h then erase u (bucket runq q h) else bucket runq q h)

  pub best-rem :
      {us : Uthreads} {runq : Runqueue}
      → IsValid us runq
      → 0 < runq.uthread_mask
      → (u : ℕ) × (runq' : Runqueue) × (Runqueue.best runq ≡ ok u)
        × (Runqueue.rem us runq u ≡ ok runq')
        × Taken us runq u runq'
  best-rem {us} valid pos =
      let (u, p, g, found, is) = best_lem valid pos in
      let (bounds, here) = IsBest-queued valid is in
      let (is_p, is_g, _) = best-belongs valid is in
      let (runq', removed, valid', buckets, tot) = rem_lem u valid bounds here in
      (
        u,
        runq',
        found,
        removed,
        record {
          p = p;
          g = g;
          is_best = is;
          valid = valid';
          tot = tot;
          buckets = λ q h. ground (arith, buckets q h);
        },
      )

  pub take_best_lem :
      (w : World) (me : ℕ) (slot : Slot) {c : KthreadContext}
      → w.kthread_cpu_map me ≡ some c
      → IsValid w.uthreads (runq_at c.krunqueue slot)
      → 0 < (runq_at c.krunqueue slot).uthread_mask
      → (u : ℕ) × (runq' : Runqueue) × (take_best w me slot
          ≡ ok (some u, put_krunqueue w me c (unlock_runq (set_runq c.krunqueue slot runq'))))
        × Taken w.uthreads (runq_at c.krunqueue slot) u runq'
  unfolding take_best take_out
  take_best_lem w me slot {c} at valid pos =
      let (u, runq', found, removed, taken) = best-rem valid pos in
      (u, runq', rw (at, found, removed), taken)
