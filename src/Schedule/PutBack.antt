-- ===== src/Schedule/PutBack.antt =====
-- Assignment_1/Project1/gtthreads/src/gt_uthread.c: a uthread that is not over, queued again.
use advanced_oslab.Prelude.{
  ℕ, ◌+◌, ◌^◌, ◌<◌, ◌≡◌, ◌≢◌, refl, sym, [], ◌∷◌, ◌++◌, Bool, true, false, some, if◌then◌else◌,
  arith, count,
}
use mathlib.Core.Path.{subst}
use advanced_oslab.Prelude.Arrays.{update}
use advanced_oslab.Prelude.Outcome.{ok}
use advanced_oslab.TailQueue.{TailQueue}
use advanced_oslab.Uthread.{Uthreads}
use advanced_oslab.Spinlock
use advanced_oslab.Runqueue.{Runqueue, bucket, in_bounds}
use advanced_oslab.Runqueue.Invariant.{IsValid, belongs}
use advanced_oslab.Runqueue.Add.{add_lem}
use advanced_oslab.Kthread.{
  Slot, KthreadRunqueue, runq_at, set_runq, KthreadContext, World, put_krunqueue,
}
use advanced_oslab.Sched.Settled.{IsSettled, runq_at-set_self, runq_at-set_ne}
use advanced_oslab.Schedule.{requeue, enqueue, put_back, put_uthread}
use advanced_oslab.Schedule.Places.{
  SamePlaces, requeue-places, update-SamePlaces, IsValid-SamePlaces,
}

module _ ⦃T : TailQueue⦄ where
  enqueue_lem :
      (w : World) (me u : ℕ) (slot : Slot) {c : KthreadContext}
      → w.kthread_cpu_map me ≡ some c
      → c.krunqueue.kthread_runqlock.locked ≡ 0
      → IsValid w.uthreads (runq_at c.krunqueue slot)
      → in_bounds (w.uthreads u) ≡ true
      → count u (
          bucket
            (runq_at c.krunqueue slot)
            (w.uthreads u).uthread_priority
            (w.uthreads u).uthread_gid)
        ≡ 0
      → (runq_at c.krunqueue slot).uthread_tot + 1 < 2 ^ 32
      → (runq' : Runqueue) × (enqueue w me slot u
          ≡ ok (
              put_krunqueue w me c (record (set_runq c.krunqueue slot runq') {
                kthread_runqlock = record { locked = 0; holder = 0x02 };
              })))
        × IsValid w.uthreads runq'
        × ((p g : ℕ)
            → bucket runq' p g ≡ (
                if belongs (w.uthreads u) p g
                then bucket (runq_at c.krunqueue slot) p g ++ u ∷ []
                else bucket (runq_at c.krunqueue slot) p g))
  unfolding enqueue Spinlock.acquire Spinlock.release
  enqueue_lem w me u slot {c} at free valid bounds new room =
      let (runq', e, valid', buckets, _) = add_lem u valid bounds new room in
      (runq', rw (at, free, e), valid', buckets)

  -- The kthread after a uthread has been queued again, with the plan that `requeue` makes.
  pub record PutBack (w : World) (c : KthreadContext) (me u : ℕ) (slot : Slot) (w' : World)
      : Type 0 where
    pub context : KthreadContext
    pub at : w'.kthread_cpu_map me ≡ some context
    pub settled : IsSettled w'.uthreads context.krunqueue
    pub same_active : context.krunqueue.active_runq ≡ c.krunqueue.active_runq
    pub same_expires : context.krunqueue.expires_runq ≡ c.krunqueue.expires_runq
    pub gains :
        (p g : ℕ)
        → bucket (runq_at context.krunqueue slot) p g ≡ (
            if belongs (w.uthreads u) p g
            then bucket (runq_at c.krunqueue slot) p g ++ u ∷ []
            else bucket (runq_at c.krunqueue slot) p g)
    pub same_runq :
        (other : Slot) → slot ≢ other → runq_at context.krunqueue other ≡ runq_at c.krunqueue other
    pub same_shared : w'.ksched_shared_info ≡ w.ksched_shared_info
    pub places : SamePlaces w.uthreads w'.uthreads
    pub uthread : w'.uthreads u ≡ (requeue w.is_credit_scheduler (w.uthreads u)).left

  abbrev pub target : World → KthreadContext → ℕ → Slot
  target w c u =
      if (requeue w.is_credit_scheduler (w.uthreads u)).to_active
      then c.krunqueue.active_runq
      else c.krunqueue.expires_runq

  refilled-IsSettled :
      {us us' : Uthreads} {k : KthreadRunqueue} {runq' : Runqueue} (to_active : Bool) (holder : ℕ)
      → IsSettled us k
      → SamePlaces us us'
      → IsValid us' runq'
      → IsSettled us'
          (record (set_runq k (if to_active then k.active_runq else k.expires_runq) runq') {
            kthread_runqlock = record { locked = 0; holder = holder };
          })
  refilled-IsSettled {k} {runq'} true holder settled same valid = record {
    lock_free = refl;
    apart = settled.apart;
    active_valid = rw (runq_at-set_self k k.active_runq runq') valid;
    expires_valid =
        rw (runq_at-set_ne k k.active_runq k.expires_runq runq' settled.apart)
          (IsValid-SamePlaces same settled.expires_valid);
  }
  refilled-IsSettled {k} {runq'} false holder settled same valid = record {
    lock_free = refl;
    apart = settled.apart;
    active_valid =
        rw (runq_at-set_ne k k.expires_runq k.active_runq runq' (λ e. settled.apart (sym e)))
          (IsValid-SamePlaces same settled.active_valid);
    expires_valid = rw (runq_at-set_self k k.expires_runq runq') valid;
  }

  target-IsValid :
      {us : Uthreads} {k : KthreadRunqueue} (to_active : Bool)
      → IsSettled us k
      → IsValid us (runq_at k (if to_active then k.active_runq else k.expires_runq))
  target-IsValid true settled = settled.active_valid
  target-IsValid false settled = settled.expires_valid

  -- A uthread that is stopped on a settled kthread, is within the arrays and is not queued in the
  -- run queue that the credits choose, which has room, goes to the end of its list there and to no
  -- other list; the kthread stays settled and the uthread is as the deduction leaves it.
  pub put_back_lem :
      (w : World) (me u : ℕ) {c : KthreadContext}
      → w.kthread_cpu_map me ≡ some c
      → IsSettled w.uthreads c.krunqueue
      → in_bounds (w.uthreads u) ≡ true
      → count u (
          bucket
            (runq_at c.krunqueue (target w c u))
            (w.uthreads u).uthread_priority
            (w.uthreads u).uthread_gid)
        ≡ 0
      → (runq_at c.krunqueue (target w c u)).uthread_tot + 1 < 2 ^ 32
      → (w' : World) × (put_back w me u ≡ ok w') × PutBack w c me u (target w c u) w'
  unfolding put_back
  put_back_lem w me u {c} at settled bounds new room =
      let plan = requeue w.is_credit_scheduler (w.uthreads u) in
      let slot = target w c u in
      let (qp, qg, lp, lg) = requeue-places w.is_credit_scheduler (w.uthreads u) in
      let w1 = put_uthread w u plan.queued in
      let own : w1.uthreads u ≡ plan.queued = ground arith in
      let queued_same = update-SamePlaces w.uthreads u plan.queued qp qg in
      let (runq', e, valid', buckets) =
        enqueue_lem w1 me u slot at settled.lock_free
          (IsValid-SamePlaces queued_same (target-IsValid plan.to_active settled))
          (rw (own, qp, qg) bounds) (rw (own, qp, qg) new) room in
      let k' = record (set_runq c.krunqueue slot runq') {
        kthread_runqlock = record { locked = 0; holder = 0x02 };
      } in
      let w2 = put_krunqueue w1 me c k' in
      let left_same : SamePlaces w.uthreads (update w1.uthreads u plan.left) = record {
        priority = λ v. ground arith;
        gid = λ v. ground arith;
      } in
      let queued_left : SamePlaces w1.uthreads (update w1.uthreads u plan.left) = record {
        priority = λ v. ground arith;
        gid = λ v. ground arith;
      } in
      (
        put_uthread w2 u plan.left,
        rw (at, e),
        record {
          context = record c { krunqueue = k' };
          at = ground arith;
          settled =
              refilled-IsSettled plan.to_active 0x02 settled left_same
                (IsValid-SamePlaces queued_left valid');
          same_active = refl;
          same_expires = refl;
          gains = λ p g. rw (runq_at-set_self c.krunqueue slot runq', buckets p g, own, qp, qg);
          same_runq = λ other ne. runq_at-set_ne c.krunqueue slot other runq' ne;
          same_shared = refl;
          places = left_same;
          uthread = ground arith;
        },
      )

  -- The same, where the run queue is known.
  pub put_back_at :
      (w : World) (me u : ℕ) (slot : Slot) {c : KthreadContext}
      → target w c u ≡ slot
      → w.kthread_cpu_map me ≡ some c
      → IsSettled w.uthreads c.krunqueue
      → in_bounds (w.uthreads u) ≡ true
      → count u (
          bucket
            (runq_at c.krunqueue slot)
            (w.uthreads u).uthread_priority
            (w.uthreads u).uthread_gid)
        ≡ 0
      → (runq_at c.krunqueue slot).uthread_tot + 1 < 2 ^ 32
      → (w' : World) × (put_back w me u ≡ ok w') × PutBack w c me u slot w'
  put_back_at w me u slot {c} e at settled bounds =
      subst
        (λ s.
          count u (
              bucket (runq_at c.krunqueue s) (w.uthreads u).uthread_priority
                (w.uthreads u).uthread_gid)
            ≡ 0
          → (runq_at c.krunqueue s).uthread_tot + 1 < 2 ^ 32
          → (w' : World) × (put_back w me u ≡ ok w') × PutBack w c me u s w')
        e (put_back_lem w me u at settled bounds)
