-- ===== src/Runqueue/Invariant.antt =====
-- Assignment_1/Project1/gtthreads/src/gt_pq.h: what the counters and masks of a run queue say of
-- its lists.
use advanced_oslab.Prelude.{
  ℕ, ◌^◌, ◌≤◌, ◌<◌, ◌≡◌, Bool, true, ◌&&◌, ltb, ◌==◌, if◌then◌else◌, count, arith,
}
use advanced_oslab.Prelude.Arrays.{sum_below, le-sum_below, sum_below_mono}
use advanced_oslab.Bits.{is_bit_set}
use advanced_oslab.TailQueue.{TailQueue}
use advanced_oslab.Uthread.{Uthread, Uthreads}
use advanced_oslab.Runqueue.{Runqueue, bucket, load}

-- Whether a uthread belongs in the list of this priority and group.
abbrev pub belongs : Uthread → ℕ → ℕ → Bool
belongs t uprio ugroup = t.uthread_priority == uprio && t.uthread_gid == ugroup

module _ ⦃T : TailQueue⦄ where
  -- Counters: of each priority, of each group, of all. Masks: a priority or a group is marked
  -- exactly if it has a uthread, but for `uthread_group_mask`, where a mark may outlive the
  -- uthreads. Each uthread stands once, in the list of its own priority and group.
  pub record IsValid (us : Uthreads) (runq : Runqueue) : Type 0 where
    pub tot_fits : runq.uthread_tot < 2 ^ 32
    pub tot_counted : runq.uthread_tot ≡ sum_below 32 runq.uthread_prio_tot
    pub prio_counted : (p : ℕ) → p < 32 → runq.uthread_prio_tot p ≡ sum_below 32 (load runq p)
    pub group_counted :
        (g : ℕ) → g < 32 → runq.uthread_group_tot g ≡ sum_below 32 (λ p. load runq p g)
    pub mask_fits : runq.uthread_mask < 2 ^ 32
    pub mask_marks :
        (p : ℕ) → p < 32 → is_bit_set runq.uthread_mask p ≡ ltb 0 (runq.uthread_prio_tot p)
    pub prio_mask_fits : (p : ℕ) → p < 32 → (runq.prio_array p).group_mask < 2 ^ 32
    pub prio_mask_marks :
        (p g : ℕ)
        → p < 32
        → g < 32
        → is_bit_set (runq.prio_array p).group_mask g ≡ ltb 0 (load runq p g)
    pub group_mask_fits : (g : ℕ) → g < 32 → runq.uthread_group_mask g < 2 ^ 32
    pub group_mask_marks :
        (p g : ℕ)
        → p < 32
        → g < 32
        → 0 < load runq p g
        → is_bit_set (runq.uthread_group_mask g) p ≡ true
    pub placed :
        (u p g : ℕ)
        → p < 32
        → g < 32
        → count u (bucket runq p g) ≤ (if belongs (us u) p g then 1 else 0)

  module _ {us : Uthreads} {runq : Runqueue} (valid : IsValid us runq) where
    pub prio_tot-le : (p : ℕ) → p < 32 → runq.uthread_prio_tot p ≤ runq.uthread_tot
    prio_tot-le p lt = omega (arith, valid.tot_counted, le-sum_below 32 runq.uthread_prio_tot p lt)

    pub load-le : (p g : ℕ) → p < 32 → g < 32 → load runq p g ≤ runq.uthread_prio_tot p
    load-le p g p_lt g_lt =
        omega (arith, valid.prio_counted p p_lt, le-sum_below 32 (load runq p) g g_lt)

    pub load-le_group : (p g : ℕ) → p < 32 → g < 32 → load runq p g ≤ runq.uthread_group_tot g
    load-le_group p g p_lt g_lt =
        omega (arith, valid.group_counted g g_lt, le-sum_below 32 (λ p. load runq p g) p p_lt)

    pub group_tot-le : (g : ℕ) → g < 32 → runq.uthread_group_tot g ≤ runq.uthread_tot
    group_tot-le g lt = omega (
      arith,
      valid.group_counted g lt,
      valid.tot_counted,
      sum_below_mono 32 (λ p. load runq p g) runq.uthread_prio_tot (λ p q. load-le p g q lt),
    )
