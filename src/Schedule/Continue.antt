-- ===== src/Schedule/Continue.antt =====
-- Assignment_1/Project1/gtthreads/src/gt_uthread.c: one call of `uthread_schedule` under the credit
-- scheduler, with credits left.
use advanced_oslab.Prelude.{
  ℕ, ◌+◌, ◌^◌, ◌<◌, ◌≡◌, ◌≢◌, ◌∙◌, refl, ap, [], ◌∷◌, ◌++◌, true, false, some, none, if◌then◌else◌,
  arith, count, count-append_one, count-le-length, ==_refl,
}
use advanced_oslab.Prelude.Outcome.{ok}
use advanced_oslab.TailQueue.{TailQueue}
use advanced_oslab.Uthread.{Uthread, Uthreads, uthread_running}
use advanced_oslab.Runqueue.{Runqueue, bucket, in_bounds}
use advanced_oslab.Runqueue.Invariant.{belongs, IsValid}
use advanced_oslab.Runqueue.Best.{IsBest, load-mask_pos}
use advanced_oslab.Kthread.{runq_at, KthreadContext, World, put_krunqueue}
use advanced_oslab.Sched.{sched_find_best_uthread}
use advanced_oslab.Sched.Settled.{IsSettled}
use advanced_oslab.Sched.Active.{sched_find_best_uthread-active}
use advanced_oslab.Schedule.{
  to_uthread, is_over, charge, requeue, put_away, put_back, uthread_schedule, put_uthread, resume,
}
use advanced_oslab.Schedule.Places.{SamePlaces, update-SamePlaces, IsSettled-SamePlaces}
use advanced_oslab.Schedule.PutBack.{PutBack, target, put_back_at}
use advanced_oslab.Schedule.Resume.{resume_lem}

charge-places :
    (now : ℕ) (t : Uthread)
    → ((charge true now t).uthread_priority ≡ t.uthread_priority)
      × ((charge true now t).uthread_gid ≡ t.uthread_gid)
      × ((charge true now t).uthread_state ≡ t.uthread_state)
unfolding charge
charge-places now t = (ground arith, ground arith, ground arith)

module _ ⦃T : TailQueue⦄ where
  abbrev charged_world : World → ℕ → KthreadContext → (now u : ℕ) → World
  charged_world w me c now u =
      put_krunqueue (put_uthread w u (charge true now (w.uthreads u))) me c
        (record c.krunqueue { cur_uthread = none })

  -- What the call comes to: uthread `u` is queued last in its list of the active run queue, and
  -- uthread `v`, the best of that run queue then, is resumed.
  pub record Continued (w : World) (me : ℕ) (c : KthreadContext) (u v : ℕ) (w' : World)
      : Type 0 where
    pub between : Runqueue
    pub gains :
        (p g : ℕ)
        → bucket between p g ≡ (
            if belongs (w.uthreads u) p g
            then bucket (runq_at c.krunqueue c.krunqueue.active_runq) p g ++ u ∷ []
            else bucket (runq_at c.krunqueue c.krunqueue.active_runq) p g)
    pub p : ℕ
    pub g : ℕ
    pub is_best : IsBest between v p g
    pub context : KthreadContext
    pub at : w'.kthread_cpu_map me ≡ some context
    pub current : context.krunqueue.cur_uthread ≡ some v
    pub running : (w'.uthreads v).uthread_state ≡ uthread_running
    pub settled : IsSettled w'.uthreads context.krunqueue
    pub same_expires :
        runq_at context.krunqueue context.krunqueue.expires_runq
        ≡ runq_at c.krunqueue c.krunqueue.expires_runq

  put_away-credit :
      (w : World) (me now u : ℕ) {c : KthreadContext}
      → w.is_credit_scheduler ≡ true
      → w.kthread_cpu_map me ≡ some c
      → c.krunqueue.cur_uthread ≡ some u
      → is_over (w.uthreads u).uthread_state ≡ false
      → put_away w me now ≡ put_back (charged_world w me c now u) me u
  unfolding put_away
  put_away-credit w me now u {c} on at is_cur alive =
      let (same_p, same_g, same_state) = charge-places now (w.uthreads u) in
      let own : (charged_world w me c now u).uthreads u ≡ charge true now (w.uthreads u) =
        ground arith in
      rw (at, is_cur, on, own, same_state, alive)

  queued-mask :
      {us : Uthreads} {runq : Runqueue} (u : ℕ)
      → IsValid us runq
      → in_bounds (us u) ≡ true
      → 0 < count u (bucket runq (us u).uthread_priority (us u).uthread_gid)
      → 0 < runq.uthread_mask
  queued-mask {us} {runq} u valid bounds here =
      load-mask_pos valid (us u).uthread_priority (us u).uthread_gid (ground arith) (ground arith)
        (omega (arith, count-le-length u (bucket runq (us u).uthread_priority (us u).uthread_gid)))

  -- From the run queue that has uthread `u` on: the search finds a uthread, which is resumed.
  resumed_after :
      (w1 : World) (me started u : ℕ) (c1 : KthreadContext) (w2 : World)
      → PutBack w1 c1 me u c1.krunqueue.active_runq w2
      → c1.krunqueue.active_runq ≢ c1.krunqueue.expires_runq
      → in_bounds (w1.uthreads u) ≡ true
      → w1.ksched_shared_info.uthread_init_lock.locked ≡ 0
      → (v : ℕ) × (w3 w4 : World) × (sched_find_best_uthread w2 me ≡ ok (some v, w3))
        × (resume w3 me v started true ≡ ok (to_uthread v, w4))
        × Continued w1 me c1 u v w4
  resumed_after w1 me started u c1 w2 put apart bounds init_free =
      let between = runq_at put.context.krunqueue put.context.krunqueue.active_runq in
      let gains : (p g : ℕ)
          → bucket between p g ≡ (
              if belongs (w1.uthreads u) p g
              then bucket (runq_at c1.krunqueue c1.krunqueue.active_runq) p g ++ u ∷ []
              else bucket (runq_at c1.krunqueue c1.krunqueue.active_runq) p g) =
        λ p g.
          ap (λ r. bucket (runq_at put.context.krunqueue r) p g) put.same_active ∙ put.gains p g in
      let P = (w1.uthreads u).uthread_priority in
      let G = (w1.uthreads u).uthread_gid in
      let here : 0 < count u (bucket between P G) = ground (
        arith,
        gains P G,
        count-append_one u u (bucket (runq_at c1.krunqueue c1.krunqueue.active_runq) P G),
      ) in
      let here2 : 0
          < count u (bucket between (w2.uthreads u).uthread_priority (w2.uthreads u).uthread_gid) =
        rw (put.places.priority u, put.places.gid u) here in
      let bounds2 : in_bounds (w2.uthreads u) ≡ true =
        rw (put.places.priority u, put.places.gid u) bounds in
      let pos = queued-mask u put.settled.active_valid bounds2 here2 in
      let (v, w3, chosen, from) =
        sched_find_best_uthread-active w2 me {c = put.context} put.at put.settled pos in
      let (w4, resumed, after) =
        resume_lem w3 me v started true {c = from.context} from.at
          (rw (from.same_shared, put.same_shared) init_free) (ground arith) in
      let kept : IsSettled w4.uthreads from.context.krunqueue =
        IsSettled-SamePlaces after.places from.settled in
      (
        v,
        w3,
        w4,
        chosen,
        resumed,
        record {
          between = between;
          gains = gains;
          p = from.taken.p;
          g = from.taken.g;
          is_best = from.taken.is_best;
          context = record from.context {
            krunqueue = record from.context.krunqueue { cur_uthread = some v };
          };
          at = after.at;
          current = refl;
          running = after.running;
          settled = record {
            lock_free = kept.lock_free;
            apart = kept.apart;
            active_valid = kept.active_valid;
            expires_valid = kept.expires_valid;
          };
          same_expires =
              from.same_expires
              ∙ ap (runq_at put.context.krunqueue) put.same_expires
              ∙ put.same_runq c1.krunqueue.expires_runq apart;
        },
      )

  -- Under the credit scheduler, on a settled kthread whose current uthread has not ended, is to go
  -- to the active run queue after the deduction, is within the arrays and is not queued there, with
  -- room there, the initialisation lock free, and system calls that succeed: `uthread_schedule`
  -- always resumes a uthread, the best of the active run queue with the current uthread at the end
  -- of its list, which is then the running and current one; the expired uthreads are as before and
  -- the kthread stays settled.
  pub uthread_schedule-continue :
      (w : World) (me stopped started u : ℕ) {c : KthreadContext}
      → w.is_credit_scheduler ≡ true
      → w.kthread_cpu_map me ≡ some c
      → c.krunqueue.cur_uthread ≡ some u
      → is_over (w.uthreads u).uthread_state ≡ false
      → (requeue true (charge true stopped (w.uthreads u))).to_active ≡ true
      → IsSettled w.uthreads c.krunqueue
      → w.ksched_shared_info.uthread_init_lock.locked ≡ 0
      → in_bounds (w.uthreads u) ≡ true
      → count u (
          bucket
            (runq_at c.krunqueue c.krunqueue.active_runq)
            (w.uthreads u).uthread_priority
            (w.uthreads u).uthread_gid)
        ≡ 0
      → (runq_at c.krunqueue c.krunqueue.active_runq).uthread_tot + 1 < 2 ^ 32
      → (v : ℕ) × (w' : World) × (uthread_schedule sched_find_best_uthread w me stopped started true
          ≡ ok (to_uthread v, w'))
        × Continued w me c u v w'
  unfolding uthread_schedule
  uthread_schedule-continue w me stopped started u {c} on at is_cur alive stays_active settled
        init_free bounds new room =
      let t = charge true stopped (w.uthreads u) in
      let w1 = charged_world w me c stopped u in
      let c1 = record c { krunqueue = record c.krunqueue { cur_uthread = none } } in
      let own : w1.uthreads u ≡ t = ground (arith, ==_refl u) in
      let (same_p, same_g, same_state) = charge-places stopped (w.uthreads u) in
      let same : SamePlaces w.uthreads w1.uthreads =
        update-SamePlaces w.uthreads u t same_p same_g in
      let at1 : w1.kthread_cpu_map me ≡ some c1 = ground (arith, ==_refl me) in
      let dest : target w1 c1 u ≡ c.krunqueue.active_runq = rw (on, own, stays_active) in
      let away = put_away-credit w me stopped u on at is_cur alive in
      let settled1 : IsSettled w1.uthreads c1.krunqueue = record {
        lock_free = settled.lock_free;
        apart = settled.apart;
        active_valid = (IsSettled-SamePlaces same settled).active_valid;
        expires_valid = (IsSettled-SamePlaces same settled).expires_valid;
      } in
      let bounds1 : in_bounds (w1.uthreads u) ≡ true = rw (own, same_p, same_g) bounds in
      let new1 : count u (
            bucket (runq_at c1.krunqueue c.krunqueue.active_runq) (w1.uthreads u).uthread_priority
              (w1.uthreads u).uthread_gid)
          ≡ 0 =
        rw (own, same_p, same_g) new in
      let (w2, back, put) =
        put_back_at w1 me u c.krunqueue.active_runq dest at1 settled1 bounds1 new1 room in
      let (v, w3, w4, chosen, resumed, after) =
        resumed_after w1 me started u c1 w2 put settled.apart bounds1 init_free in
      let places : (p g : ℕ) → belongs (w1.uthreads u) p g ≡ belongs (w.uthreads u) p g =
        λ p g. rw (own, same_p, same_g) refl in
      let active = runq_at c.krunqueue c.krunqueue.active_runq in
      (
        v,
        w4,
        rw (away, back, chosen) resumed,
        record {
          between = after.between;
          gains = λ p g.
              after.gains p g
              ∙ ap (λ b. if b then bucket active p g ++ u ∷ [] else bucket active p g) (places p g);
          p = after.p;
          g = after.g;
          is_best = after.is_best;
          context = after.context;
          at = after.at;
          current = after.current;
          running = after.running;
          settled = after.settled;
          same_expires = after.same_expires;
        },
      )
