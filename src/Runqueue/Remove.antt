-- ===== src/Runqueue/Remove.antt =====
-- Assignment_1/Project1/gtthreads/src/gt_pq.c: `__rem_from_runqueue` on a run queue that is valid.
use advanced_oslab.Prelude.{
  ℕ, ◌+◌, ◌<◌, ◌≡◌, [], true, ◌&&◌, ltb, ◌==◌, if◌then◌else◌, count, erase, is_nil-length,
  length-erase, count-le-length, count-erase-le, arith,
}
use advanced_oslab.Prelude.Arrays.{sum_below, sum_below-change}
use advanced_oslab.Prelude.Outcome.{ok}
use advanced_oslab.Bits.{is_bit_set}
use advanced_oslab.Bits.Laws.{is_bit_set-reset_bit, reset_bit-le}
use advanced_oslab.TailQueue.{TailQueue}
use advanced_oslab.Uthread.{Uthreads}
use advanced_oslab.Runqueue.{Runqueue, bucket, bucket_head, load, in_bounds, removed, rem}
use advanced_oslab.Runqueue.Invariant.{
  IsValid, belongs, prio_tot-le, load-le, load-le_group, group_tot-le,
}

module _ ⦃T : TailQueue⦄ {us : Uthreads} {runq : Runqueue} (valid : IsValid us runq) (u P G : ℕ)
    (P_lt : P < 32) (G_lt : G < 32) (here : 0 < count u (bucket runq P G)) where
  abbrev next : Runqueue
  next = removed runq P G u

  bucket-removed :
      (p g : ℕ)
      → bucket next p g ≡ (if P == p && G == g then erase u (bucket runq p g) else bucket runq p g)
  unfolding removed
  bucket-removed p g = ground (arith, T.elems-remove ((runq.prio_array P).group G) u here)

  load-removed : (p g : ℕ) → load next p g + (if P == p && G == g then 1 else 0) ≡ load runq p g
  load-removed p g = ground (arith, bucket-removed p g, length-erase u (bucket runq P G) here)

  loaded : 0 < load runq P G
  loaded = omega (arith, count-le-length u (bucket runq P G), here)

  prio_counted : (p : ℕ) → p < 32 → next.uthread_prio_tot p ≡ sum_below 32 (load next p)
  unfolding removed
  prio_counted p lt = ground (
    arith,
    valid.prio_counted p lt,
    valid.tot_fits,
    prio_tot-le valid p lt,
    load-le valid P G P_lt G_lt,
    loaded,
    load-removed p G,
    sum_below-change 32 (load next p) (load runq p) G G_lt
        (λ j q. ground (arith, load-removed p j)),
  )

  group_counted : (g : ℕ) → g < 32 → next.uthread_group_tot g ≡ sum_below 32 (λ p. load next p g)
  unfolding removed
  group_counted g lt = ground (
    arith,
    valid.group_counted g lt,
    valid.tot_fits,
    group_tot-le valid g lt,
    load-le_group valid P G P_lt G_lt,
    loaded,
    load-removed P g,
    sum_below-change 32 (λ p. load next p g) (λ p. load runq p g) P P_lt
        (λ j q. ground (arith, load-removed j g)),
  )

  tot_counted : next.uthread_tot ≡ sum_below 32 next.uthread_prio_tot
  unfolding removed
  tot_counted = ground (
    arith,
    valid.tot_counted,
    valid.tot_fits,
    prio_tot-le valid P P_lt,
    load-le valid P G P_lt G_lt,
    loaded,
    sum_below-change 32 next.uthread_prio_tot runq.uthread_prio_tot P P_lt (λ j q. ground arith),
  )

  mask_marks : (p : ℕ) → p < 32 → is_bit_set next.uthread_mask p ≡ ltb 0 (next.uthread_prio_tot p)
  unfolding removed
  mask_marks p lt = ground (
    arith,
    is_bit_set-reset_bit runq.uthread_mask P p,
    valid.mask_marks p lt,
    valid.tot_fits,
    prio_tot-le valid p lt,
    load-le valid P G P_lt G_lt,
    loaded,
  )

  prio_mask_marks :
      (p g : ℕ)
      → p < 32
      → g < 32
      → is_bit_set (next.prio_array p).group_mask g ≡ ltb 0 (load next p g)
  unfolding removed
  prio_mask_marks p g p_lt g_lt = ground (
    arith,
    is_bit_set-reset_bit (runq.prio_array p).group_mask G g,
    valid.prio_mask_marks p g p_lt g_lt,
    load-removed p g,
    T.is_empty-elems (T.remove (bucket_head runq P G) u),
    is_nil-length (bucket next P G),
  )

  group_mask_marks :
      (p g : ℕ)
      → p < 32
      → g < 32
      → 0 < load next p g
      → is_bit_set (next.uthread_group_mask g) p ≡ true
  unfolding removed
  group_mask_marks p g p_lt g_lt some_load = ground (
    arith,
    is_bit_set-reset_bit (runq.uthread_group_mask g) P p,
    valid.group_mask_marks p g p_lt g_lt,
    valid.tot_fits,
    group_tot-le valid g g_lt,
    load-le_group valid p g p_lt g_lt,
    load-le_group valid P G P_lt G_lt,
    loaded,
    load-removed p g,
  )

  removed-IsValid : IsValid us next
  unfolding removed
  removed-IsValid = record {
    tot_fits = ground (arith, valid.tot_fits);
    tot_counted = tot_counted;
    prio_counted = prio_counted;
    group_counted = group_counted;
    mask_fits = ground (arith, valid.mask_fits, reset_bit-le runq.uthread_mask P);
    mask_marks = mask_marks;
    prio_mask_fits = λ p lt.
        ground (arith, valid.prio_mask_fits p lt, reset_bit-le (runq.prio_array p).group_mask G);
    prio_mask_marks = prio_mask_marks;
    group_mask_fits = λ g lt.
        ground (arith, valid.group_mask_fits g lt, reset_bit-le (runq.uthread_group_mask g) P);
    group_mask_marks = group_mask_marks;
    placed = λ v p g p_lt g_lt. ground (
      arith,
      bucket-removed p g,
      valid.placed v p g p_lt g_lt,
      count-erase-le v u (bucket runq p g),
    );
  }

  -- The assertion holds: the last uthread of its group leaves an empty list behind.
  asserted :
      (if next.uthread_group_tot G == 0 then T.is_empty (bucket_head next P G) else true) ≡ true
  unfolding removed
  asserted = ground (
    arith,
    valid.tot_fits,
    group_tot-le valid G G_lt,
    load-le_group valid P G P_lt G_lt,
    loaded,
    load-removed P G,
    T.is_empty-elems (bucket_head next P G),
    is_nil-length (bucket next P G),
  )

module _ ⦃T : TailQueue⦄ {us : Uthreads} {runq : Runqueue} where
  -- `__rem_from_runqueue`, on a valid run queue and a queued uthread of a priority and a group
  -- within the arrays, returns: its assertion holds, the run queue stays valid, the uthread's list
  -- loses it, the other lists are as before, and the total falls by one.
  pub rem_lem :
      (u : ℕ)
      → IsValid us runq
      → in_bounds (us u) ≡ true
      → 0 < count u (bucket runq (us u).uthread_priority (us u).uthread_gid)
      → (runq' : Runqueue) × (rem us runq u ≡ ok runq')
        × IsValid us runq'
        × ((p g : ℕ)
            → bucket runq' p g
              ≡ (if belongs (us u) p g then erase u (bucket runq p g) else bucket runq p g))
        × (runq'.uthread_tot + 1 ≡ runq.uthread_tot)
  unfolding rem
  rem_lem u valid bounds here =
      let P_lt : (us u).uthread_priority < 32 = ground arith in
      let G_lt : (us u).uthread_gid < 32 = ground arith in
      (
        removed runq (us u).uthread_priority (us u).uthread_gid u,
        rw (bounds, asserted valid u _ _ P_lt G_lt here),
        removed-IsValid valid u _ _ P_lt G_lt here,
        bucket-removed valid u _ _ P_lt G_lt here,
        ground (
          arith,
          valid.tot_fits,
          prio_tot-le valid (us u).uthread_priority P_lt,
          load-le valid (us u).uthread_priority (us u).uthread_gid P_lt G_lt,
          loaded valid u _ _ P_lt G_lt here,
        ),
      )

  -- When the only uthread of a priority and a group leaves a valid run queue while the group has
  -- others, `uthread_group_mask` of the group keeps the mark of that priority, though the list is
  -- empty.
  pub removed-stale_mark :
      (u P G : ℕ)
      → IsValid us runq
      → P < 32
      → G < 32
      → 0 < count u (bucket runq P G)
      → load runq P G ≡ 1
      → 1 < runq.uthread_group_tot G
      → (is_bit_set ((removed runq P G u).uthread_group_mask G) P ≡ true)
        × (bucket (removed runq P G u) P G ≡ [])
  unfolding removed
  removed-stale_mark u P G valid P_lt G_lt here single others = (
    ground (arith, valid.tot_fits, group_tot-le valid G G_lt, valid.group_mask_marks P G P_lt G_lt),
    ground (arith, load-removed valid u P G P_lt G_lt here P G),
  )
