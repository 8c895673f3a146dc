-- ===== src/Sched/Twice.antt =====
-- Assignment_1/Project1/gtthreads/src/gt_pq.c: two calls of `sched_find_best_uthread`, one after
-- the other.
use advanced_oslab.Prelude.{ℕ, ◌<◌, ◌≡◌, false, some, none, arith, sym}
use advanced_oslab.Prelude.Outcome.{ok}
use advanced_oslab.TailQueue.{TailQueue}
use advanced_oslab.Kthread.{runq_at, KthreadContext, World}
use advanced_oslab.Sched.{sched_find_best_uthread}
use advanced_oslab.Sched.Settled.{IsSettled}
use advanced_oslab.Sched.Active.{
  FromActive, balances, swapped, sched_find_best_uthread-active, sched_find_best_uthread-empty,
}

module _ ⦃T : TailQueue⦄ where
  -- On a settled kthread whose active run queue is empty while that of expired uthreads is not, with
  -- no load balanced, the first call of `sched_find_best_uthread` returns NULL, and the next one
  -- takes the best of the expired uthreads.
  pub sched_find_best_uthread-twice :
      (w : World) (me : ℕ) {c : KthreadContext}
      → w.kthread_cpu_map me ≡ some c
      → IsSettled w.uthreads c.krunqueue
      → (runq_at c.krunqueue c.krunqueue.active_runq).uthread_mask ≡ 0
      → 0 < (runq_at c.krunqueue c.krunqueue.expires_runq).uthread_mask
      → balances w ≡ false
      → (w' : World) × (sched_find_best_uthread w me ≡ ok (none, w'))
        × (u : ℕ) × (w'' : World) × (sched_find_best_uthread w' me ≡ ok (some u, w''))
        × FromActive w' me (record c { krunqueue = swapped c.krunqueue }) u w''
  sched_find_best_uthread-twice w me {c} at_me settled empty expired quiet =
      let (w', first, at', others, same) =
        sched_find_best_uthread-empty w me at_me settled empty quiet in
      let settled' : IsSettled w'.uthreads (swapped c.krunqueue) = record {
        lock_free = omega arith;
        apart = λ e. settled.apart (sym e);
        active_valid = rw (same) settled.expires_valid;
        expires_valid = rw (same) settled.active_valid;
      } in
      let (u, w'', second, from) = sched_find_best_uthread-active w' me at' settled' expired in
      (w', first, u, w'', second, from)
