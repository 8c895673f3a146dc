-- ===== src/Runqueue/Best.antt =====
-- Assignment_1/Project1/gtthreads/src/gt_pq.c: the search for the best uthread, through the masks.
use advanced_oslab.Prelude.{
  ℕ, ◌<◌, ◌≡◌, true, false, ltb, count, some, head?, head?-some, count_of_head, arith,
}
use native.Mathlib.Decide.{dec_lt}
use advanced_oslab.Prelude.Arrays.{sum_below-zero}
use advanced_oslab.Prelude.Outcome.{ok}
use advanced_oslab.Bits.{is_bit_set}
use advanced_oslab.Bits.Laws.{is_bit_set-zero, lowest_bit_set_lem}
use advanced_oslab.TailQueue.{TailQueue}
use advanced_oslab.Uthread.{Uthreads}
use advanced_oslab.Runqueue.{Runqueue, bucket, bucket_head, load, best}
use advanced_oslab.Runqueue.Invariant.{IsValid, load-le}

module _ ⦃T : TailQueue⦄ where
  -- `u` stands first in the list of priority `p` and group `g`, and every list before that one,
  -- by priority and then by group, is empty.
  pub record IsBest (runq : Runqueue) (u p g : ℕ) : Type 0 where
    pub p_lt : p < 32
    pub g_lt : g < 32
    pub is_first : head? (bucket runq p g) ≡ some u
    pub no_better_prio : (p' g' : ℕ) → p' < p → g' < 32 → load runq p' g' ≡ 0
    pub no_better_group : (g' : ℕ) → g' < g → load runq p g' ≡ 0

  module _ {us : Uthreads} {runq : Runqueue} (valid : IsValid us runq) where
    pub unmarked-empty :
        (p g : ℕ) → p < 32 → g < 32 → is_bit_set runq.uthread_mask p ≡ false → load runq p g ≡ 0
    unmarked-empty p g p_lt g_lt clear =
        ground (arith, valid.mask_marks p p_lt, load-le valid p g p_lt g_lt)

    -- An empty mask means an empty run queue, as the assertions beside the tests of it say.
    pub mask_zero-tot : runq.uthread_mask ≡ 0 → runq.uthread_tot ≡ 0
    mask_zero-tot e = omega (
      arith,
      valid.tot_counted,
      sum_below-zero 32 runq.uthread_prio_tot
          (λ p lt. ground (arith, valid.mask_marks p lt, is_bit_set-zero p)),
    )

    pub mask_zero-load : runq.uthread_mask ≡ 0 → (p g : ℕ) → p < 32 → g < 32 → load runq p g ≡ 0
    mask_zero-load e p g p_lt g_lt = unmarked-empty p g p_lt g_lt (rw (e) (is_bit_set-zero p))

    pub load-mask_pos : (p g : ℕ) → p < 32 → g < 32 → 0 < load runq p g → 0 < runq.uthread_mask
    load-mask_pos p g p_lt g_lt some_load =
        ground (arith, load-le valid p g p_lt g_lt, valid.mask_marks p p_lt, is_bit_set-zero p)

    prio_mask_pos :
        (p : ℕ) → p < 32 → 0 < runq.uthread_prio_tot p → 0 < (runq.prio_array p).group_mask
    prio_mask_pos p lt pos = elim (dec_lt 0 (runq.prio_array p).group_mask) [
      | yes q ↦ q
      | no q ↦ absurd (
          omega (
            arith,
            valid.prio_counted p lt,
            sum_below-zero 32 (load runq p)
                (λ g g_lt. ground (arith, valid.prio_mask_marks p g lt g_lt, is_bit_set-zero g)),
          ))
    ]

    -- On a valid run queue whose mask is not 0, the search through the masks returns the first
    -- uthread of the lowest group of the lowest priority: every list before that one is empty.
    pub best_lem : 0 < runq.uthread_mask → (u p g : ℕ) × (best runq ≡ ok u) × IsBest runq u p g
    unfolding best
    best_lem pos =
        let (p, found_p, p_lt, p_set, p_low) =
          lowest_bit_set_lem runq.uthread_mask valid.mask_fits pos in
        let marked = prio_mask_pos p p_lt (ground (arith, valid.mask_marks p p_lt)) in
        let (g, found_g, g_lt, g_set, g_low) =
          lowest_bit_set_lem (runq.prio_array p).group_mask (valid.prio_mask_fits p p_lt) marked in
        let (u, is_head) =
          head?-some (bucket runq p g) (ground (arith, valid.prio_mask_marks p g p_lt g_lt)) in
        let test : ltb 0 (runq.prio_array p).group_mask ≡ true = ground arith in
        (
          u,
          p,
          g,
          rw (found_p, test, found_g, T.first-elems (bucket_head runq p g), is_head),
          record {
            p_lt = p_lt;
            g_lt = g_lt;
            is_first = is_head;
            no_better_prio =
                λ p' g' lt g'_lt. unmarked-empty p' g' (omega arith) g'_lt (p_low p' lt);
            no_better_group =
                λ g' lt. ground (arith, valid.prio_mask_marks p g' p_lt (omega arith), g_low g' lt);
          },
        )

    -- The best uthread has the priority and the group of its list.
    pub best-belongs :
        {u p g : ℕ}
        → IsBest runq u p g
        → ((us u).uthread_priority ≡ p) × ((us u).uthread_gid ≡ g) × (0 < count u (bucket runq p g))
    best-belongs {u} {p} {g} is =
        let here = count_of_head u (bucket runq p g) is.is_first in
        (
          ground (arith, valid.placed u p g is.p_lt is.g_lt),
          ground (arith, valid.placed u p g is.p_lt is.g_lt),
          here,
        )
