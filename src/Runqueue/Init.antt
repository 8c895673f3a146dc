-- ===== src/Runqueue/Init.antt =====
-- Assignment_1/Project1/gtthreads/src/gt_pq.c: `init_runqueue` on memory that is zero but for the
-- lists.
use advanced_oslab.Prelude.{ℕ, ◌<◌, ◌≡◌, [], count-le-length, arith}
use advanced_oslab.Prelude.Arrays.{sum_below-zero}
use advanced_oslab.Bits.Laws.{is_bit_set-zero}
use advanced_oslab.TailQueue.{TailQueue}
use advanced_oslab.Uthread.{Uthreads}
use advanced_oslab.Runqueue.{Runqueue, bucket, load, init_runqueue}
use advanced_oslab.Runqueue.Invariant.{IsValid}

module _ ⦃T : TailQueue⦄ where
  -- Static memory, which the C code relies on being 0; the lists may hold anything.
  pub record IsZeroed (runq : Runqueue) : Type 0 where
    pub mask : runq.uthread_mask ≡ 0
    pub tot : runq.uthread_tot ≡ 0
    pub prio_tot : (p : ℕ) → runq.uthread_prio_tot p ≡ 0
    pub group_mask : (g : ℕ) → runq.uthread_group_mask g ≡ 0
    pub group_tot : (g : ℕ) → runq.uthread_group_tot g ≡ 0
    pub prio_mask : (p : ℕ) → (runq.prio_array p).group_mask ≡ 0

  module _ {runq : Runqueue} (zeroed : IsZeroed runq) where
    abbrev fresh : Runqueue
    fresh = init_runqueue runq

    bucket-init : (p g : ℕ) → p < 32 → g < 32 → bucket fresh p g ≡ []
    unfolding init_runqueue
    bucket-init p g p_lt g_lt = ground (arith, T.elems-init)

    load-init : (p g : ℕ) → p < 32 → g < 32 → load fresh p g ≡ 0
    load-init p g p_lt g_lt = ground (arith, bucket-init p g p_lt g_lt)

    -- `init_runqueue`, on memory whose counters and masks are 0, makes every list empty and the run
    -- queue valid.
    pub init_runqueue_lem :
        (us : Uthreads) → IsValid us fresh × ((p g : ℕ) → p < 32 → g < 32 → bucket fresh p g ≡ [])
    unfolding init_runqueue
    init_runqueue_lem us = (
      record {
        tot_fits = ground (arith, zeroed.tot);
        tot_counted = ground (
          arith,
          zeroed.tot,
          sum_below-zero 32 runq.uthread_prio_tot (λ p lt. zeroed.prio_tot p),
        );
        prio_counted = λ p lt.
            ground
              (arith, zeroed.prio_tot p, sum_below-zero 32 (load fresh p) (λ g. load-init p g lt));
        group_counted = λ g lt. ground (
          arith,
          zeroed.group_tot g,
          sum_below-zero 32 (λ p. load fresh p g) (λ p q. load-init p g q lt),
        );
        mask_fits = ground (arith, zeroed.mask);
        mask_marks = λ p lt. ground (arith, zeroed.mask, zeroed.prio_tot p, is_bit_set-zero p);
        prio_mask_fits = λ p lt. ground (arith, zeroed.prio_mask p);
        prio_mask_marks = λ p g p_lt g_lt.
            ground (arith, zeroed.prio_mask p, is_bit_set-zero g, load-init p g p_lt g_lt);
        group_mask_fits = λ g lt. ground (arith, zeroed.group_mask g);
        group_mask_marks = λ p g p_lt g_lt pos. absurd (omega (arith, load-init p g p_lt g_lt));
        placed = λ u p g p_lt g_lt.
            omega (arith, load-init p g p_lt g_lt, count-le-length u (bucket fresh p g));
      },
      bucket-init,
    )
