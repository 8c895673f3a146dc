-- ===== src/Schedule/Retire.antt =====
-- Assignment_1/Project1/gtthreads/src/gt_uthread.c: a uthread that is over.
use advanced_oslab.Prelude.{
  ℕ, ◌+◌, ◌^◌, ◌≤◌, ◌<◌, ◌≡◌, refl, [], ◌∷◌, ◌++◌, true, false, some, ltb, arith,
}
use advanced_oslab.Prelude.Arrays.{update}
use advanced_oslab.Prelude.Int.{sub_ℕ}
use advanced_oslab.Prelude.Outcome.{ok, undefined}
use advanced_oslab.TailQueue.{TailQueue}
use advanced_oslab.Spinlock
use advanced_oslab.Runqueue.{decrement}
use advanced_oslab.Kthread.{KthreadContext, UthreadTimer, World, put_krunqueue}
use advanced_oslab.Schedule.{retire, record_times, put_uthread, put_shared, max_uthread_timers}

module _ ⦃T : TailQueue⦄ where
  record_times-off : (w : World) (u : ℕ) → w.is_credit_scheduler ≡ false → record_times w u ≡ ok w
  unfolding record_times
  record_times-off w u off = rw (off)

  -- Without the credit scheduler, with both locks free and a count of living uthreads that is
  -- positive and fits 32 bits, a uthread that is over becomes the last of the zombies, the count
  -- falls by one, both locks are free again, and both run queues are as before.
  pub retire_lem :
      (w : World) (me u : ℕ) {c : KthreadContext}
      → w.is_credit_scheduler ≡ false
      → w.kthread_cpu_map me ≡ some c
      → c.krunqueue.kthread_runqlock.locked ≡ 0
      → w.ksched_shared_info.ksched_lock.locked ≡ 0
      → 0 < w.ksched_shared_info.kthread_cur_uthreads
      → w.ksched_shared_info.kthread_cur_uthreads < 2 ^ 32
      → (w' : World) × (c' : KthreadContext) × (retire w me u ≡ ok w')
        × (w'.kthread_cpu_map me ≡ some c')
        × (T.elems c'.krunqueue.zombie_uthreads ≡ T.elems c.krunqueue.zombie_uthreads ++ u ∷ [])
        × (w'.ksched_shared_info.kthread_cur_uthreads + 1
            ≡ w.ksched_shared_info.kthread_cur_uthreads)
        × (w'.ksched_shared_info.ksched_lock.locked ≡ 0)
        × (c'.krunqueue.kthread_runqlock.locked ≡ 0)
        × (c'.krunqueue.runqueue0 ≡ c.krunqueue.runqueue0)
        × (c'.krunqueue.runqueue1 ≡ c.krunqueue.runqueue1)
  unfolding retire Spinlock.acquire Spinlock.release
  retire_lem w me u {c} off at free shared_free alive small =
      let k = c.krunqueue in
      let k' = record k {
        kthread_runqlock = record { locked = 0; holder = 0x01 };
        zombie_uthreads = T.insert_tail k.zombie_uthreads u;
      } in
      let info = w.ksched_shared_info in
      let w1 = put_krunqueue w me c k' in
      (
        put_shared w1 (record info {
          kthread_cur_uthreads = decrement info.kthread_cur_uthreads;
          ksched_lock = record info.ksched_lock { locked = 0 };
        }),
        record c { krunqueue = k' },
        rw (record_times-off w u off, at, free, shared_free),
        ground arith,
        T.elems-insert_tail k.zombie_uthreads u,
        ground arith,
        refl,
        refl,
        refl,
        refl,
      )

  -- Under the credit scheduler, for a uthread whose number is below 128 and whose timer was
  -- allocated, the processor time recorded is the sum of its steps, and the running time goes from
  -- its creation to its end.
  pub record_times_lem :
      (w : World) (u : ℕ) {timer : UthreadTimer}
      → w.is_credit_scheduler ≡ true
      → (w.uthreads u).uthread_tid < 128
      → w.uthread_time (w.uthreads u).uthread_tid ≡ some timer
      → (w' : World) × (record_times w u ≡ ok w')
        × (w'.uthread_time (w.uthreads u).uthread_tid
            ≡ some (record {
              running_time =
                  sub_ℕ
                    (w.uthreads u).total_running_time_end
                    (w.uthreads u).total_running_time_start;
              cpu_time = (w.uthreads u).run_time_total;
            }))
  unfolding record_times
  record_times_lem w u on small at =
      let total =
        sub_ℕ (w.uthreads u).total_running_time_end (w.uthreads u).total_running_time_start in
      let within : ltb (w.uthreads u).uthread_tid max_uthread_timers ≡ true = ground arith in
      (
        record (put_uthread w u (record (w.uthreads u) { run_time_total = total })) {
          uthread_time =
              update w.uthread_time (w.uthreads u).uthread_tid
                (some (record { running_time = total; cpu_time = (w.uthreads u).run_time_total }));
        },
        rw (on, within, at),
        ground arith,
      )

  -- Under the credit scheduler, the times of a uthread whose number is 128 or more are written
  -- outside the array.
  pub record_times-undefined :
      (w : World) (u : ℕ)
      → w.is_credit_scheduler ≡ true
      → 128 ≤ (w.uthreads u).uthread_tid
      → record_times w u ≡ undefined
  unfolding record_times
  record_times-undefined w u on large =
      let outside : ltb (w.uthreads u).uthread_tid max_uthread_timers ≡ false = ground arith in
      rw (on, outside)
