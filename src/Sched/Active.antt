-- ===== src/Sched/Active.antt =====
-- Assignment_1/Project1/gtthreads/src/gt_pq.c: `sched_find_best_uthread` without load balancing.
use advanced_oslab.Prelude.{
  ℕ, ◌<◌, ◌≡◌, refl, ◌∙◌, Bool, true, false, ◌&&◌, some, none, ◌==◌, arith,
}
use advanced_oslab.Prelude.Outcome.{ok}
use advanced_oslab.TailQueue.{TailQueue}
use advanced_oslab.Runqueue.Best.{mask_zero-tot}
use advanced_oslab.Spinlock
use advanced_oslab.Kthread.{
  Slot, KthreadRunqueue, runq_at, set_runq, KthreadContext, World, put_krunqueue, unlock_runq,
}
use advanced_oslab.Sched.{sched_find_best_uthread, switch_active, take_best}
use advanced_oslab.Sched.Settled.{
  IsSettled, Taken, take_best_lem, lock_runq-free, unlock_runq-locked, runq_at-set_self,
  runq_at-set_ne,
}

module _ ⦃T : TailQueue⦄ where
  -- What a call for kthread `me` comes to when it takes a uthread from its active run queue: the
  -- uthread is the best one, it is out of its list, the kthread is settled, the pointers and the
  -- run queue of expired uthreads are as before, and so is every other kthread.
  pub record FromActive (w : World) (me : ℕ) (c : KthreadContext) (u : ℕ) (w' : World)
      : Type 0 where
    pub context : KthreadContext
    pub at : w'.kthread_cpu_map me ≡ some context
    pub taken :
        Taken w.uthreads
          (runq_at c.krunqueue c.krunqueue.active_runq)
          u
          (runq_at context.krunqueue context.krunqueue.active_runq)
    pub settled : IsSettled w'.uthreads context.krunqueue
    pub same_active : context.krunqueue.active_runq ≡ c.krunqueue.active_runq
    pub same_expires :
        runq_at context.krunqueue context.krunqueue.expires_runq
        ≡ runq_at c.krunqueue c.krunqueue.expires_runq
    pub same_others : (j : ℕ) → (me == j) ≡ false → w'.kthread_cpu_map j ≡ w.kthread_cpu_map j
    pub same_uthreads : w'.uthreads ≡ w.uthreads
    pub same_shared : w'.ksched_shared_info ≡ w.ksched_shared_info

  abbrev pub held : KthreadRunqueue → KthreadRunqueue
  held k = record k { kthread_runqlock = record { locked = 1; holder = 0x04 } }

  -- Whether the load balancing loop runs when the active run queue is empty.
  abbrev pub balances : World → Bool
  balances w = w.is_kernel_thread_ready && (w.is_credit_scheduler && w.is_load_balancing)

  abbrev pub swapped : KthreadRunqueue → KthreadRunqueue
  swapped k = record k {
    active_runq = k.expires_runq;
    expires_runq = k.active_runq;
    kthread_runqlock = record { locked = 0; holder = 0x04 };
  }

  -- With the lock taken and given back again by the call.
  abbrev pub freed : KthreadRunqueue → KthreadRunqueue
  freed k = record k { kthread_runqlock = record { locked = 0; holder = 0x04 } }

  pub switch_active-empty :
      (w : World) (me : ℕ) (slot : Slot) {c : KthreadContext}
      → w.kthread_cpu_map me ≡ some c
      → (runq_at c.krunqueue slot).uthread_mask ≡ 0
      → (runq_at c.krunqueue slot).uthread_tot ≡ 0
      → switch_active w me slot
        ≡ ok (
          none,
          put_krunqueue w me c
              (record c.krunqueue { active_runq = c.krunqueue.expires_runq; expires_runq = slot }),
        )
  unfolding switch_active
  switch_active-empty w me slot {c} at empty tot =
      let test : ((runq_at c.krunqueue slot).uthread_mask == 0) ≡ true = ground arith in
      let tot' : ((runq_at c.krunqueue slot).uthread_tot == 0) ≡ true = ground arith in
      rw (at, test, tot')

  module _ (w : World) (me : ℕ) {c : KthreadContext} (at_me : w.kthread_cpu_map me ≡ some c)
      (settled : IsSettled w.uthreads c.krunqueue) where
    find_best-active :
        0 < (runq_at c.krunqueue c.krunqueue.active_runq).uthread_mask
        → sched_find_best_uthread w me
          ≡ take_best (put_krunqueue w me c (held c.krunqueue)) me c.krunqueue.active_runq
    unfolding sched_find_best_uthread
    find_best-active pos =
        let test : ((runq_at c.krunqueue c.krunqueue.active_runq).uthread_mask == 0) ≡ false =
          ground arith in
        rw (at_me, lock_runq-free c.krunqueue settled.lock_free, test)

    -- If the kthread is settled and the mask of its active run queue is not 0,
    -- `sched_find_best_uthread` returns a uthread: the first of the lowest group of the lowest
    -- priority, which it takes out. The kthread is settled after it, its pointers and its expired
    -- uthreads are as before, and so are the other kthreads.
    pub sched_find_best_uthread-active :
        0 < (runq_at c.krunqueue c.krunqueue.active_runq).uthread_mask
        → (u : ℕ) × (w' : World) × (sched_find_best_uthread w me ≡ ok (some u, w'))
          × FromActive w me c u w'
    sched_find_best_uthread-active pos =
        let at' : (put_krunqueue w me c (held c.krunqueue)).kthread_cpu_map me
            ≡ some (record c { krunqueue = (held c.krunqueue) }) =
          ground arith in
        let (u, runq', e, taken) =
          take_best_lem (put_krunqueue w me c (held c.krunqueue)) me c.krunqueue.active_runq at'
            settled.active_valid pos in
        let k' = unlock_runq (set_runq (held c.krunqueue) c.krunqueue.active_runq runq') in
        (
          u,
          put_krunqueue (put_krunqueue w me c (held c.krunqueue)) me
              (record c { krunqueue = (held c.krunqueue) }) k',
          find_best-active pos ∙ e,
          record {
            context = record c { krunqueue = k' };
            at = ground arith;
            taken = rw (runq_at-set_self c.krunqueue c.krunqueue.active_runq runq') taken;
            settled = record {
              lock_free =
                  unlock_runq-locked (set_runq (held c.krunqueue) c.krunqueue.active_runq runq');
              apart = settled.apart;
              active_valid =
                  rw (runq_at-set_self c.krunqueue c.krunqueue.active_runq runq') taken.valid;
              expires_valid =
                  rw
                    (runq_at-set_ne c.krunqueue c.krunqueue.active_runq c.krunqueue.expires_runq
                      runq' settled.apart)
                    settled.expires_valid;
            };
            same_active = refl;
            same_expires =
                runq_at-set_ne c.krunqueue c.krunqueue.active_runq c.krunqueue.expires_runq runq'
                  settled.apart;
            same_others = λ j ne. ground arith;
            same_uthreads = refl;
            same_shared = refl;
          },
        )

    -- On a settled kthread with an empty active run queue and no load balanced,
    -- `sched_find_best_uthread` returns NULL, whatever the run queue of expired uthreads holds, and
    -- exchanges the two run queues; the other kthreads and the uthreads are as before.
    pub sched_find_best_uthread-empty :
        (runq_at c.krunqueue c.krunqueue.active_runq).uthread_mask ≡ 0
        → balances w ≡ false
        → (w' : World) × (sched_find_best_uthread w me ≡ ok (none, w'))
          × (w'.kthread_cpu_map me ≡ some (record c { krunqueue = swapped c.krunqueue }))
          × ((j : ℕ) → (me == j) ≡ false → w'.kthread_cpu_map j ≡ w.kthread_cpu_map j)
          × (w'.uthreads ≡ w.uthreads)
    unfolding sched_find_best_uthread Spinlock.release
    sched_find_best_uthread-empty empty quiet =
        let test : ((runq_at c.krunqueue c.krunqueue.active_runq).uthread_mask == 0) ≡ true =
          ground arith in
        let no_tot = mask_zero-tot settled.active_valid empty in
        let tot : ((runq_at c.krunqueue c.krunqueue.active_runq).uthread_tot == 0) ≡ true =
          ground arith in
        let w1 = put_krunqueue w me c (freed c.krunqueue) in
        let at' : w1.kthread_cpu_map me ≡ some (record c { krunqueue = freed c.krunqueue }) =
          ground arith in
        (
          put_krunqueue w1 me (record c { krunqueue = freed c.krunqueue }) (swapped c.krunqueue),
          rw (at_me, lock_runq-free c.krunqueue settled.lock_free, test, tot, quiet)
              (switch_active-empty w1 me c.krunqueue.active_runq at' empty no_tot),
          ground arith,
          λ j ne. ground arith,
          refl,
        )
