-- ===== src/Schedule/Priority.antt =====
-- Assignment_1/Project1/gtthreads/src/gt_uthread.c: one call of `uthread_schedule` without the
-- credit scheduler.
use advanced_oslab.Prelude.{
  ℕ, ◌+◌, ◌^◌, ◌<◌, ◌≡◌, ◌≢◌, ◌∙◌, refl, sym, ap, [], ◌∷◌, ◌++◌, true, false, some, none,
  if◌then◌else◌, arith, count,
}
use mathlib.Core.Path.{subst}
use advanced_oslab.Prelude.Outcome.{ok}
use advanced_oslab.TailQueue.{TailQueue}
use advanced_oslab.Uthread.{Uthreads, uthread_running}
use advanced_oslab.Runqueue.{bucket, in_bounds}
use advanced_oslab.Runqueue.Invariant.{belongs}
use advanced_oslab.Runqueue.Best.{IsBest}
use advanced_oslab.Kthread.{Slot, runq_at, KthreadRunqueue, KthreadContext, World, put_krunqueue}
use advanced_oslab.Sched.{sched_find_best_uthread}
use advanced_oslab.Sched.Settled.{IsSettled}
use advanced_oslab.Sched.Active.{FromActive, sched_find_best_uthread-active}
use advanced_oslab.Schedule.{
  to_uthread, is_over, charge, requeue, put_away, put_back, uthread_schedule, put_uthread,
}
use advanced_oslab.Schedule.Places.{update-SamePlaces, IsSettled-SamePlaces}
use advanced_oslab.Schedule.PutBack.{PutBack, target, put_back_at}
use advanced_oslab.Schedule.Resume.{Resumed, resume_lem}

module _ ⦃T : TailQueue⦄ where
  abbrev stopped_context : KthreadContext → KthreadContext
  stopped_context c = record c { krunqueue = record c.krunqueue { cur_uthread = none } }

  abbrev stopped_world : World → ℕ → KthreadContext → ℕ → World
  stopped_world w me c u =
      put_krunqueue (put_uthread w u (w.uthreads u)) me c
        (record c.krunqueue { cur_uthread = none })

  put_away-priority :
      (w : World) (me now u : ℕ) {c : KthreadContext}
      → w.is_credit_scheduler ≡ false
      → w.kthread_cpu_map me ≡ some c
      → c.krunqueue.cur_uthread ≡ some u
      → is_over (w.uthreads u).uthread_state ≡ false
      → put_away w me now ≡ put_back (stopped_world w me c u) me u
  unfolding put_away charge
  put_away-priority w me now u {c} off at is_cur alive =
      let own : (stopped_world w me c u).uthreads u ≡ w.uthreads u = ground arith in
      rw (at, is_cur, off, own, alive)

  target-off :
      (w : World) (c : KthreadContext) (u : ℕ)
      → w.is_credit_scheduler ≡ false
      → target w c u ≡ c.krunqueue.expires_runq
  unfolding requeue
  target-off w c u off = rw (off)

  -- What the call comes to: uthread `v`, the best of the active run queue, is resumed, and the
  -- stopped uthread `u` is the last of its list among the expired ones.
  pub record Switched (w : World) (me : ℕ) (c : KthreadContext) (u v : ℕ) (w' : World)
      : Type 0 where
    pub p : ℕ
    pub g : ℕ
    pub is_best : IsBest (runq_at c.krunqueue c.krunqueue.active_runq) v p g
    pub context : KthreadContext
    pub at : w'.kthread_cpu_map me ≡ some context
    pub current : context.krunqueue.cur_uthread ≡ some v
    pub running : (w'.uthreads v).uthread_state ≡ uthread_running
    pub settled : IsSettled w'.uthreads context.krunqueue
    pub expired :
        (q h : ℕ)
        → bucket (runq_at context.krunqueue context.krunqueue.expires_runq) q h ≡ (
            if belongs (w.uthreads u) q h
            then bucket (runq_at c.krunqueue c.krunqueue.expires_runq) q h ++ u ∷ []
            else bucket (runq_at c.krunqueue c.krunqueue.expires_runq) q h)

  same_active :
      (us : Uthreads) (k k1 : KthreadRunqueue)
      → IsSettled us k
      → k1.active_runq ≡ k.active_runq
      → ((other : Slot) → k.expires_runq ≢ other → runq_at k1 other ≡ runq_at k other)
      → runq_at k1 k1.active_runq ≡ runq_at k k.active_runq
  same_active us k k1 settled e same =
      ap (runq_at k1) e ∙ same k.active_runq (λ f. settled.apart (sym f))

  switched :
      {w w2 w3 w4 : World} {me started u v : ℕ} {c : KthreadContext}
      → IsSettled w.uthreads c.krunqueue
      → (put : PutBack
          (stopped_world w me c u)
          (stopped_context c)
          me
          u
          c.krunqueue.expires_runq
          w2)
      → (from : FromActive w2 me put.context v w3) → Resumed w3 me from.context v started w4
      → Switched w me c u v w4
  switched {w} {w2} {w3} {w4} {me} {started} {u} {v} {c} settled put from after =
      let own : (stopped_world w me c u).uthreads u ≡ w.uthreads u = ground arith in
      let kept : IsSettled w4.uthreads from.context.krunqueue =
        IsSettled-SamePlaces after.places from.settled in
      let stays =
        same_active w.uthreads c.krunqueue put.context.krunqueue settled put.same_active
          put.same_runq in
      let expired : runq_at from.context.krunqueue from.context.krunqueue.expires_runq
          ≡ runq_at put.context.krunqueue c.krunqueue.expires_runq =
        from.same_expires ∙ ap (runq_at put.context.krunqueue) put.same_expires in
      record {
        p = from.taken.p;
        g = from.taken.g;
        is_best = subst (λ r. IsBest r v from.taken.p from.taken.g) stays from.taken.is_best;
        context = record from.context {
          krunqueue = record from.context.krunqueue { cur_uthread = some v };
        };
        at = after.at;
        current = refl;
        running = after.running;
        settled = record {
          lock_free = kept.lock_free;
          apart = kept.apart;
          active_valid = kept.active_valid;
          expires_valid = kept.expires_valid;
        };
        expired = λ q h. rw (expired, put.gains q h, own);
      }

  -- Under the priority scheduler, on a settled kthread whose current uthread has not ended, is
  -- within the arrays and is not queued among the expired ones, which have room, with the
  -- initialisation lock free, with a uthread in the active run queue, and with system calls that
  -- succeed: `uthread_schedule` puts the current uthread last in its list among the expired ones,
  -- and resumes the best of the active run queue, which is then the running and current one; the
  -- kthread stays settled.
  pub uthread_schedule-priority :
      (w : World) (me stopped started u : ℕ) {c : KthreadContext}
      → w.is_credit_scheduler ≡ false
      → w.kthread_cpu_map me ≡ some c
      → c.krunqueue.cur_uthread ≡ some u
      → is_over (w.uthreads u).uthread_state ≡ false
      → IsSettled w.uthreads c.krunqueue
      → w.ksched_shared_info.uthread_init_lock.locked ≡ 0
      → in_bounds (w.uthreads u) ≡ true
      → count u (
          bucket
            (runq_at c.krunqueue c.krunqueue.expires_runq)
            (w.uthreads u).uthread_priority
            (w.uthreads u).uthread_gid)
        ≡ 0
      → (runq_at c.krunqueue c.krunqueue.expires_runq).uthread_tot + 1 < 2 ^ 32
      → 0 < (runq_at c.krunqueue c.krunqueue.active_runq).uthread_mask
      → (v : ℕ) × (w' : World) × (uthread_schedule sched_find_best_uthread w me stopped started true
          ≡ ok (to_uthread v, w'))
        × Switched w me c u v w'
  unfolding uthread_schedule
  uthread_schedule-priority w me stopped started u {c} off at is_cur alive settled init_free bounds
        new room pos =
      let w1 = stopped_world w me c u in
      let own : w1.uthreads u ≡ w.uthreads u = ground arith in
      let same = update-SamePlaces w.uthreads u (w.uthreads u) refl refl in
      let at1 : w1.kthread_cpu_map me ≡ some (stopped_context c) = ground arith in
      let dest : target w1 (stopped_context c) u ≡ c.krunqueue.expires_runq =
        target-off w1 (stopped_context c) u off in
      let away = put_away-priority w me stopped u off at is_cur alive in
      let settled1 : IsSettled w1.uthreads (stopped_context c).krunqueue = record {
        lock_free = settled.lock_free;
        apart = settled.apart;
        active_valid = (IsSettled-SamePlaces same settled).active_valid;
        expires_valid = (IsSettled-SamePlaces same settled).expires_valid;
      } in
      let (w2, back, put) =
        put_back_at w1 me u c.krunqueue.expires_runq dest at1 settled1 (rw own bounds) (rw own new)
          room in
      let stays =
        same_active w.uthreads c.krunqueue put.context.krunqueue settled put.same_active
          put.same_runq in
      let (v, w3, chosen, from) =
        sched_find_best_uthread-active w2 me {c = put.context} put.at put.settled (rw stays pos) in
      let (w4, resumed, after) =
        resume_lem w3 me v started true {c = from.context} from.at
          (rw (from.same_shared, put.same_shared) init_free) (ground arith) in
      (
        v,
        w4,
        rw (away, back, chosen) resumed,
        switched {w2 = w2} {w3 = w3} {w4 = w4} {v = v} settled put from after,
      )
