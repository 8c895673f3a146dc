-- ===== src/Schedule/Places.antt =====
-- Assignment_1/Project1/gtthreads/src/gt_uthread.c: changes of uthreads that keep their priorities
-- and groups.
use advanced_oslab.Prelude.{ℕ, ◌≡◌, Bool, arith}
use advanced_oslab.Prelude.Arrays.{update}
use advanced_oslab.TailQueue.{TailQueue}
use advanced_oslab.Uthread.{Uthread, Uthreads}
use advanced_oslab.Runqueue.{Runqueue}
use advanced_oslab.Runqueue.Invariant.{IsValid}
use advanced_oslab.Kthread.{KthreadRunqueue}
use advanced_oslab.Sched.Settled.{IsSettled}
use advanced_oslab.Schedule.{requeue}

-- Each uthread keeps its priority and group.
pub record SamePlaces (us us' : Uthreads) : Type 0 where
  pub priority : (u : ℕ) → (us' u).uthread_priority ≡ (us u).uthread_priority
  pub gid : (u : ℕ) → (us' u).uthread_gid ≡ (us u).uthread_gid

pub requeue-places :
    (credit : Bool) (t : Uthread)
    → ((requeue credit t).queued.uthread_priority ≡ t.uthread_priority)
      × ((requeue credit t).queued.uthread_gid ≡ t.uthread_gid)
      × ((requeue credit t).left.uthread_priority ≡ t.uthread_priority)
      × ((requeue credit t).left.uthread_gid ≡ t.uthread_gid)
unfolding requeue
requeue-places credit t = (ground arith, ground arith, ground arith, ground arith)

pub update-SamePlaces :
    (us : Uthreads) (u : ℕ) (t : Uthread)
    → t.uthread_priority ≡ (us u).uthread_priority
    → t.uthread_gid ≡ (us u).uthread_gid
    → SamePlaces us (update us u t)
update-SamePlaces us u t is_p is_g = record {
  priority = λ v. ground arith;
  gid = λ v. ground arith;
}

module _ ⦃T : TailQueue⦄ where
  pub IsValid-SamePlaces :
      {us us' : Uthreads} {runq : Runqueue} → SamePlaces us us' → IsValid us runq → IsValid us' runq
  IsValid-SamePlaces {runq} same valid = record {
    tot_fits = valid.tot_fits;
    tot_counted = valid.tot_counted;
    prio_counted = valid.prio_counted;
    group_counted = valid.group_counted;
    mask_fits = valid.mask_fits;
    mask_marks = valid.mask_marks;
    prio_mask_fits = valid.prio_mask_fits;
    prio_mask_marks = valid.prio_mask_marks;
    group_mask_fits = valid.group_mask_fits;
    group_mask_marks = valid.group_mask_marks;
    placed = λ u p g p_lt g_lt.
        ground (arith, valid.placed u p g p_lt g_lt, same.priority u, same.gid u);
  }

  pub IsSettled-SamePlaces :
      {us us' : Uthreads} {k : KthreadRunqueue}
      → SamePlaces us us'
      → IsSettled us k
      → IsSettled us' k
  IsSettled-SamePlaces same settled = record {
    lock_free = settled.lock_free;
    apart = settled.apart;
    active_valid = IsValid-SamePlaces same settled.active_valid;
    expires_valid = IsValid-SamePlaces same settled.expires_valid;
  }
