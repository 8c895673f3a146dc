-- ===== src/Sched/Steal.antt =====
-- Assignment_1/Project1/gtthreads/src/gt_pq.c: `sched_find_best_uthread` with load balancing.
use advanced_oslab.Prelude.{
  ℕ, ◌<◌, ◌≡◌, refl, ◌∙◌, inl, inr, true, false, ◌||◌, some, none, ◌==◌, arith, Bool-cases,
}
use advanced_oslab.Prelude.Outcome.{ok}
use advanced_oslab.TailQueue.{TailQueue}
use advanced_oslab.Spinlock
use advanced_oslab.Runqueue
use advanced_oslab.Runqueue.{Runqueue, bucket, in_bounds}
use advanced_oslab.Runqueue.Invariant.{IsValid}
use advanced_oslab.Runqueue.Best.{mask_zero-tot}
use advanced_oslab.Kthread.{
  KthreadRunqueue, runq_at, set_runq, KthreadContext, is_kthread_done, World, put_krunqueue,
  unlock_runq,
}
use advanced_oslab.Sched.{sched_find_best_uthread, take_out}
use advanced_oslab.Sched.Settled.{
  IsSettled, Taken, lock_runq-free, unlock_runq-locked, runq_at-set_self, runq_at-set_ne,
}
use advanced_oslab.Sched.Active.{balances, freed, swapped, switch_active-empty}
use advanced_oslab.Sched.Balance.{IsIdle, steal-idle, steal-found}
use advanced_oslab.Sched.Rob.{locked, robbed, steal_from_lem}

module _ ⦃T : TailQueue⦄ where
  -- What a call for kthread `me` comes to when it takes a uthread from kthread `t`: the uthread is
  -- the best of that kthread's active run queue and is out of its list; both kthreads are settled;
  -- the caller's active run queue is as empty as before; no other kthread has changed.
  pub record Stolen (w : World) (me : ℕ) (c : KthreadContext) (t : ℕ) (other : KthreadContext)
      (u : ℕ) (w' : World) : Type 0 where
    pub context : KthreadContext
    pub at_me : w'.kthread_cpu_map me ≡ some context
    pub settled : IsSettled w'.uthreads context.krunqueue
    pub same_lists :
        (p g : ℕ)
        → bucket (runq_at context.krunqueue context.krunqueue.active_runq) p g
          ≡ bucket (runq_at c.krunqueue c.krunqueue.active_runq) p g
    pub same_expires :
        runq_at context.krunqueue context.krunqueue.expires_runq
        ≡ runq_at c.krunqueue c.krunqueue.expires_runq
    pub robbed_context : KthreadContext
    pub at_robbed : w'.kthread_cpu_map t ≡ some robbed_context
    pub robbed_settled : IsSettled w'.uthreads robbed_context.krunqueue
    pub taken :
        Taken w.uthreads
          (runq_at other.krunqueue other.krunqueue.active_runq)
          u
          (runq_at robbed_context.krunqueue robbed_context.krunqueue.active_runq)
    pub same_others :
        (j : ℕ) → (me == j) ≡ false → (t == j) ≡ false → w'.kthread_cpu_map j ≡ w.kthread_cpu_map j
    pub same_uthreads : w'.uthreads ≡ w.uthreads

  module _ (w : World) (me : ℕ) {c : KthreadContext} (at_me : w.kthread_cpu_map me ≡ some c)
      (settled : IsSettled w.uthreads c.krunqueue)
      (empty : (runq_at c.krunqueue c.krunqueue.active_runq).uthread_mask ≡ 0)
      (balancing : balances w ≡ true) where
    -- The world in which the loop runs.
    abbrev entered : World
    entered = put_krunqueue w me c (freed c.krunqueue)

    test : ((runq_at c.krunqueue c.krunqueue.active_runq).uthread_mask == 0) ≡ true
    test = ground arith

    tot : (runq_at c.krunqueue c.krunqueue.active_runq).uthread_tot ≡ 0
    tot = mask_zero-tot settled.active_valid empty

    entered-IsIdle : (j : ℕ) → IsIdle w j → IsIdle entered j
    entered-IsIdle j idle = elim (Bool-cases (me == j)) [
      | inl e ↦ record {
        context = record c { krunqueue = freed c.krunqueue };
        at = ground arith;
        passed = ground arith;
      }
      | inr ne ↦ record {
        context = idle.context;
        at = ground (arith, idle.at);
        passed = idle.passed;
      }
    ]

    -- With load balancing on and an empty active run queue on a settled kthread, if each kthread
    -- whose number is below 16 and below the caller's own is idle, `sched_find_best_uthread` returns
    -- NULL and exchanges the two run queues, whatever the kthreads from the caller's number on have
    -- queued.
    pub sched_find_best_uthread-none :
        ((j : ℕ) → j < c.cpuid → j < 16 → IsIdle w j)
        → (w' : World) × (sched_find_best_uthread w me ≡ ok (none, w'))
          × (w'.kthread_cpu_map me ≡ some (record c { krunqueue = swapped c.krunqueue }))
          × ((j : ℕ) → (me == j) ≡ false → w'.kthread_cpu_map j ≡ w.kthread_cpu_map j)
    unfolding sched_find_best_uthread Spinlock.release
    sched_find_best_uthread-none idle =
        let at' : entered.kthread_cpu_map me ≡ some (record c { krunqueue = freed c.krunqueue }) =
          ground arith in
        let tot' : ((runq_at c.krunqueue c.krunqueue.active_runq).uthread_tot == 0) ≡ true =
          ground (arith, tot) in
        (
          put_krunqueue entered me (record c { krunqueue = freed c.krunqueue })
              (swapped c.krunqueue),
          rw
              (
                at_me,
                lock_runq-free c.krunqueue settled.lock_free,
                test,
                tot',
                balancing,
                steal-idle entered me c.cpuid c.krunqueue.active_runq 16 0
                    (λ j lt below. entered-IsIdle j (idle j lt (omega arith))) (omega arith),
              )
              (switch_active-empty entered me c.krunqueue.active_runq at' empty tot),
          ground arith,
          λ j ne. ground arith,
        )

    -- The worlds before and after `find_active_obj`, when a uthread of kthread `t` has been moved.
    abbrev filled : Runqueue → KthreadRunqueue
    filled mid = set_runq (locked (freed c.krunqueue)) c.krunqueue.active_runq mid

    abbrev moved : ℕ → KthreadContext → (runq' mid : Runqueue) → World
    moved t other runq' mid =
        put_krunqueue (put_krunqueue entered t other (robbed other.krunqueue runq')) me
          (record c { krunqueue = freed c.krunqueue }) (filled mid)

    abbrev drained : (mid last : Runqueue) → KthreadRunqueue
    drained mid last = unlock_runq (set_runq (filled mid) c.krunqueue.active_runq last)

    abbrev finished : ℕ → KthreadContext → (runq' mid last : Runqueue) → World
    finished t other runq' mid last =
        put_krunqueue (moved t other runq' mid) me (record c { krunqueue = filled mid })
          (drained mid last)

    take_out-moved :
        (t u : ℕ) (other : KthreadContext) (runq' mid last : Runqueue)
        → Runqueue.rem w.uthreads mid u ≡ ok last
        → take_out (moved t other runq' mid) me c.krunqueue.active_runq u
          ≡ ok (some u, finished t other runq' mid last)
    unfolding take_out
    take_out-moved t u other runq' mid last f =
        let at' : (moved t other runq' mid).kthread_cpu_map me
            ≡ some (record c { krunqueue = filled mid }) =
          ground arith in
        rw (at', runq_at-set_self (locked (freed c.krunqueue)) c.krunqueue.active_runq mid, f)

    finished-Stolen :
        (t u : ℕ) (other : KthreadContext) (runq' mid last : Runqueue)
        → (t == me) ≡ false
        → IsSettled w.uthreads other.krunqueue
        → Taken w.uthreads (runq_at other.krunqueue other.krunqueue.active_runq) u runq'
        → IsValid w.uthreads last
        → ((p g : ℕ) → bucket last p g ≡ bucket (runq_at c.krunqueue c.krunqueue.active_runq) p g)
        → Stolen w me c t other u (finished t other runq' mid last)
    finished-Stolen t u other runq' mid last ne other_settled taken valid' same =
        let a = c.krunqueue.active_runq in
        let b = other.krunqueue.active_runq in
        let mine = runq_at-set_self (filled mid) a last in
        let expired : runq_at (drained mid last) c.krunqueue.expires_runq
            ≡ runq_at c.krunqueue c.krunqueue.expires_runq =
          runq_at-set_ne (filled mid) a c.krunqueue.expires_runq last settled.apart
          ∙ runq_at-set_ne (locked (freed c.krunqueue)) a c.krunqueue.expires_runq mid
              settled.apart in
        let theirs = runq_at-set_self (locked other.krunqueue) b runq' in
        record {
          context = record c { krunqueue = drained mid last };
          at_me = ground arith;
          settled = record {
            lock_free = unlock_runq-locked (set_runq (filled mid) a last);
            apart = settled.apart;
            active_valid = rw (mine) valid';
            expires_valid = rw (expired) settled.expires_valid;
          };
          same_lists = rw (mine) same;
          same_expires = expired;
          robbed_context = record other { krunqueue = robbed other.krunqueue runq' };
          at_robbed = ground arith;
          robbed_settled = record {
            lock_free = unlock_runq-locked (set_runq (locked other.krunqueue) b runq');
            apart = other_settled.apart;
            active_valid = rw (theirs) taken.valid;
            expires_valid =
                rw
                  (runq_at-set_ne (locked other.krunqueue) b other.krunqueue.expires_runq runq'
                    other_settled.apart)
                  other_settled.expires_valid;
          };
          taken = rw (theirs) taken;
          same_others = λ j not_me not_t. ground arith;
          same_uthreads = refl;
        }

    -- With load balancing on and an empty active run queue on a settled kthread, if kthread `t` is
    -- the first that is not idle, its number is below 16 and below the caller's own, it is not the
    -- caller and is settled, then `sched_find_best_uthread` returns the best uthread of kthread `t`,
    -- which loses it, and leaves both kthreads settled and all others as they were.
    pub sched_find_best_uthread-steal :
        (t : ℕ) {other : KthreadContext}
        → ((j : ℕ) → j < t → IsIdle w j)
        → t < 16
        → t < c.cpuid
        → w.kthread_cpu_map t ≡ some other
        → (is_kthread_done other
            || (runq_at other.krunqueue other.krunqueue.active_runq).uthread_mask == 0)
          ≡ false
        → IsSettled w.uthreads other.krunqueue
        → (t == me) ≡ false
        → (u : ℕ) × (w' : World) × (sched_find_best_uthread w me ≡ ok (some u, w'))
          × Stolen w me c t other u w'
    unfolding sched_find_best_uthread Spinlock.release
    sched_find_best_uthread-steal t {other} idle small below at_t ready other_settled ne =
        let at' : entered.kthread_cpu_map me ≡ some (record c { krunqueue = freed c.krunqueue }) =
          ground arith in
        let at_t' : entered.kthread_cpu_map t ≡ some other = ground arith in
        let tot' : ((runq_at c.krunqueue c.krunqueue.active_runq).uthread_tot == 0) ≡ true =
          ground (arith, tot) in
        let (u, runq', mid, last, moving, taken, f, valid', same) =
          steal_from_lem entered me t c.krunqueue.active_runq at' at_t' ne ready other_settled refl
            settled.active_valid empty in
        let found =
          steal-found entered me c.cpuid c.krunqueue.active_runq 16 0 t
            (λ j lt. entered-IsIdle j (idle j lt)) (omega arith) (omega arith) below at_t' moving in
        (
          u,
          finished t other runq' mid last,
          rw (at_me, lock_runq-free c.krunqueue settled.lock_free, test, tot', balancing, found)
              (take_out-moved t u other runq' mid last f),
          finished-Stolen t u other runq' mid last ne other_settled taken valid' same,
        )
