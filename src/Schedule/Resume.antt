-- ===== src/Schedule/Resume.antt =====
-- Assignment_1/Project1/gtthreads/src/gt_uthread.c: the end of `uthread_schedule`, with a uthread
-- to run and with none.
use advanced_oslab.Prelude.{
  ℕ, ◌≡◌, refl, inl, inr, Bool, true, false, ◌&&◌, not, some, ◌==◌, arith, Bool-cases, ◌||◌,
}
use advanced_oslab.Prelude.Outcome.{ok}
use advanced_oslab.Bits.{set_bit}
use advanced_oslab.Bits.Laws.{is_bit_set-set_bit}
use advanced_oslab.TailQueue.{TailQueue}
use advanced_oslab.Uthread.{uthread_running, uthread_runnable}
use advanced_oslab.Spinlock
use advanced_oslab.Kthread.{KthreadContext, World, put_context, put_krunqueue, is_kthread_done}
use advanced_oslab.Schedule.{
  to_uthread, to_kthread, is_init, resume, uthread_init_on, quit, put_shared, put_uthread,
}
use advanced_oslab.Schedule.Places.{SamePlaces}

module _ ⦃T : TailQueue⦄ where
  -- After a resume: the uthread runs from `now` on and is the kthread's current one, and nothing
  -- else of the kthreads has changed.
  pub record Resumed (w : World) (me : ℕ) (c : KthreadContext) (u now : ℕ) (w' : World)
      : Type 0 where
    pub at :
        w'.kthread_cpu_map me
        ≡ some (record c { krunqueue = record c.krunqueue { cur_uthread = some u } })
    pub running : (w'.uthreads u).uthread_state ≡ uthread_running
    pub started : (w'.uthreads u).start_running_time_step ≡ now
    pub places : SamePlaces w.uthreads w'.uthreads
    pub same_others : (j : ℕ) → (me == j) ≡ false → w'.kthread_cpu_map j ≡ w.kthread_cpu_map j

  -- On a kthread of the map, with the initialisation lock free, a chosen uthread that has run before
  -- is resumed, and so is a new one if the system calls succeed: it is running from now on and the
  -- current one of the kthread, and nothing else of the kthreads has changed.
  pub resume_lem :
      (w : World) (me u now : ℕ) (calls_succeed : Bool) {c : KthreadContext}
      → w.kthread_cpu_map me ≡ some c
      → w.ksched_shared_info.uthread_init_lock.locked ≡ 0
      → (not (is_init (w.uthreads u).uthread_state) || calls_succeed) ≡ true
      → (w' : World) × (resume w me u now calls_succeed ≡ ok (to_uthread u, w'))
        × Resumed w me c u now w'
  unfolding resume uthread_init_on Spinlock.acquire Spinlock.release
  resume_lem w me u now calls_succeed {c} at free fine =
      elim (Bool-cases (is_init (w.uthreads u).uthread_state)) [
        | inl new ↦
            let w1 = put_krunqueue w me c (record c.krunqueue { cur_uthread = some u }) in
            let called : calls_succeed ≡ true = ground arith in
            let ready = record (w.uthreads u) { uthread_state = uthread_runnable } in
            let w2 =
              put_shared
                (put_uthread
                  (put_shared w1 (record w.ksched_shared_info {
                    uthread_init_lock = record w.ksched_shared_info.uthread_init_lock {
                      locked = 1;
                    };
                  }))
                  u ready)
                (record w.ksched_shared_info {
                  uthread_init_lock = record w.ksched_shared_info.uthread_init_lock { locked = 0 };
                }) in
            (
              put_uthread w2 u (record (w2.uthreads u) {
                uthread_state = uthread_running;
                start_running_time_step = now;
              }),
              rw (at, new, free, called),
              record {
                at = ground arith;
                running = ground arith;
                started = ground arith;
                places = record { priority = λ v. ground arith; gid = λ v. ground arith };
                same_others = λ j ne. ground arith;
              },
            )
        | inr old ↦
            let w1 = put_krunqueue w me c (record c.krunqueue { cur_uthread = some u }) in
            (
              put_uthread w1 u (record (w.uthreads u) {
                uthread_state = uthread_running;
                start_running_time_step = now;
              }),
              rw (at, old),
              record {
                at = ground arith;
                running = ground arith;
                started = ground arith;
                places = record { priority = λ v. ground arith; gid = λ v. ground arith };
                same_others = λ j ne. ground arith;
              },
            )
      ]

  -- When no uthread is found, control goes to the loop of the kthread, its run queues are as before,
  -- and a kthread that was not done is marked as done exactly if uthreads were created and none of
  -- them is alive.
  pub quit_lem :
      (w : World) (me : ℕ) {c : KthreadContext}
      → w.kthread_cpu_map me ≡ some c
      → is_kthread_done c ≡ false
      → (w' : World) × (c' : KthreadContext) × (quit w me ≡ ok (to_kthread, w'))
        × (w'.kthread_cpu_map me ≡ some c')
        × (is_kthread_done c' ≡ (
            not (w.ksched_shared_info.kthread_tot_uthreads == 0)
            && w.ksched_shared_info.kthread_cur_uthreads == 0))
        × (c'.krunqueue ≡ c.krunqueue)
  unfolding quit
  quit_lem w me {c} at not_done =
      elim (Bool-cases (
        not (w.ksched_shared_info.kthread_tot_uthreads == 0)
        && w.ksched_shared_info.kthread_cur_uthreads == 0)) [
          | inl over ↦ (
            put_context w me (record c { kthread_flags = set_bit c.kthread_flags 0 }),
            record c { kthread_flags = set_bit c.kthread_flags 0 },
            rw (at, over),
            ground arith,
            ground (arith, is_bit_set-set_bit c.kthread_flags 0 0),
            refl,
          )
          | inr alive ↦ (w, c, rw (at, alive), at, ground arith, refl)
        ]
