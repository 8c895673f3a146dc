-- ===== src/Runqueue/Add.antt =====
-- Assignment_1/Project1/gtthreads/src/gt_pq.c: `__add_to_runqueue` on a run queue that is valid.
use advanced_oslab.Prelude.{
  ℕ, ◌+◌, ◌^◌, ◌≤◌, ◌<◌, ◌≡◌, refl, [], ◌∷◌, ◌++◌, true, false, ◌&&◌, ltb, ◌==◌, if◌then◌else◌,
  count, length-append, count-append_one, arith,
}
use advanced_oslab.Prelude.Arrays.{sum_below, sum_below-change}
use advanced_oslab.Prelude.Outcome.{ok, undefined}
use advanced_oslab.Bits.{is_bit_set}
use advanced_oslab.Bits.Laws.{is_bit_set-set_bit, set_bit-lt}
use advanced_oslab.TailQueue.{TailQueue}
use advanced_oslab.Uthread.{Uthreads}
use advanced_oslab.Runqueue.{Runqueue, bucket, load, in_bounds, mark, added, add}
use advanced_oslab.Runqueue.Invariant.{IsValid, belongs, prio_tot-le, group_tot-le}

mark-lt : ⦃T : TailQueue⦄ (m i : ℕ) → m < 2 ^ 32 → i < 32 → mark m i < 2 ^ 32
mark-lt m i h lt = ground (arith, set_bit-lt 32 m i h lt)

is_bit_set-mark :
    ⦃T : TailQueue⦄ (m i j : ℕ)
    → is_bit_set (mark m i) j ≡ (if i == j then true else is_bit_set m j)
is_bit_set-mark m i j = ground (arith, is_bit_set-set_bit m i j)

module _ ⦃T : TailQueue⦄ {us : Uthreads} {runq : Runqueue} (valid : IsValid us runq) (u P G : ℕ)
    (P_lt : P < 32) (G_lt : G < 32) (room : runq.uthread_tot + 1 < 2 ^ 32) where
  abbrev next : Runqueue
  next = added runq P G u

  bucket-added :
      (p g : ℕ)
      → bucket next p g ≡ (if P == p && G == g then bucket runq p g ++ u ∷ [] else bucket runq p g)
  unfolding added
  bucket-added p g = ground (arith, T.elems-insert_tail ((runq.prio_array P).group G) u)

  load-added : (p g : ℕ) → load next p g ≡ load runq p g + (if P == p && G == g then 1 else 0)
  load-added p g = ground (arith, bucket-added p g, length-append (bucket runq p g) (u ∷ []))

  prio_counted : (p : ℕ) → p < 32 → next.uthread_prio_tot p ≡ sum_below 32 (load next p)
  unfolding added
  prio_counted p lt = ground (
    arith,
    valid.prio_counted p lt,
    prio_tot-le valid p lt,
    load-added p G,
    sum_below-change 32 (load runq p) (load next p) G G_lt (λ j q. ground (arith, load-added p j)),
  )

  group_counted : (g : ℕ) → g < 32 → next.uthread_group_tot g ≡ sum_below 32 (λ p. load next p g)
  unfolding added
  group_counted g lt = ground (
    arith,
    valid.group_counted g lt,
    group_tot-le valid g lt,
    load-added P g,
    sum_below-change 32 (λ p. load runq p g) (λ p. load next p g) P P_lt
        (λ j q. ground (arith, load-added j g)),
  )

  tot_counted : next.uthread_tot ≡ sum_below 32 next.uthread_prio_tot
  unfolding added
  tot_counted = ground (
    arith,
    valid.tot_counted,
    prio_tot-le valid P P_lt,
    sum_below-change 32 runq.uthread_prio_tot next.uthread_prio_tot P P_lt (λ j q. ground arith),
  )

  mask_marks : (p : ℕ) → p < 32 → is_bit_set next.uthread_mask p ≡ ltb 0 (next.uthread_prio_tot p)
  unfolding added
  mask_marks p lt =
      ground (
        arith,
        is_bit_set-mark runq.uthread_mask P p,
        valid.mask_marks p lt,
        prio_tot-le valid p lt,
      )

  prio_mask_marks :
      (p g : ℕ)
      → p < 32
      → g < 32
      → is_bit_set (next.prio_array p).group_mask g ≡ ltb 0 (load next p g)
  unfolding added
  prio_mask_marks p g p_lt g_lt = ground (
    arith,
    is_bit_set-mark (runq.prio_array p).group_mask G g,
    valid.prio_mask_marks p g p_lt g_lt,
    load-added p g,
  )

  group_mask_marks :
      (p g : ℕ)
      → p < 32
      → g < 32
      → 0 < load next p g
      → is_bit_set (next.uthread_group_mask g) p ≡ true
  unfolding added
  group_mask_marks p g p_lt g_lt some_load = ground (
    arith,
    is_bit_set-mark (runq.uthread_group_mask g) P p,
    valid.group_mask_marks p g p_lt g_lt,
    load-added p g,
  )

  placed :
      ((us u).uthread_priority ≡ P)
      → ((us u).uthread_gid ≡ G)
      → count u (bucket runq P G) ≡ 0
      → (v p g : ℕ) → p < 32
      → g < 32
      → count v (bucket next p g) ≤ (if belongs (us v) p g then 1 else 0)
  placed is_P is_G new v p g p_lt g_lt = ground (
    arith,
    bucket-added p g,
    valid.placed v p g p_lt g_lt,
    count-append_one v u (bucket runq p g),
  )

  pub added-IsValid :
      ((us u).uthread_priority ≡ P)
      → ((us u).uthread_gid ≡ G)
      → count u (bucket runq P G) ≡ 0
      → IsValid us next
  unfolding added
  added-IsValid is_P is_G new = record {
    tot_fits = ground arith;
    tot_counted = tot_counted;
    prio_counted = prio_counted;
    group_counted = group_counted;
    mask_fits = mark-lt runq.uthread_mask P valid.mask_fits P_lt;
    mask_marks = mask_marks;
    prio_mask_fits = λ p lt. ground (
      arith,
      mark-lt (runq.prio_array P).group_mask G (valid.prio_mask_fits P P_lt) G_lt,
      valid.prio_mask_fits p lt,
    );
    prio_mask_marks = prio_mask_marks;
    group_mask_fits = λ g lt. ground (
      arith,
      mark-lt (runq.uthread_group_mask G) P (valid.group_mask_fits G G_lt) P_lt,
      valid.group_mask_fits g lt,
    );
    group_mask_marks = group_mask_marks;
    placed = placed is_P is_G new;
  }

module _ ⦃T : TailQueue⦄ {us : Uthreads} {runq : Runqueue} where
  -- `__add_to_runqueue`, on a valid run queue with room in its counter and a uthread within the
  -- arrays that is not queued, returns: the run queue stays valid, the uthread's list gains it at
  -- the end, the other lists are as before, and the total grows by one.
  pub add_lem :
      (u : ℕ)
      → IsValid us runq
      → in_bounds (us u) ≡ true
      → count u (bucket runq (us u).uthread_priority (us u).uthread_gid) ≡ 0
      → runq.uthread_tot + 1 < 2 ^ 32
      → (runq' : Runqueue) × (add us runq u ≡ ok runq')
        × IsValid us runq'
        × ((p g : ℕ)
            → bucket runq' p g
              ≡ (if belongs (us u) p g then bucket runq p g ++ u ∷ [] else bucket runq p g))
        × (runq'.uthread_tot ≡ runq.uthread_tot + 1)
  unfolding add
  add_lem u valid bounds new room =
      let P_lt : (us u).uthread_priority < 32 = ground arith in
      let G_lt : (us u).uthread_gid < 32 = ground arith in
      (
        added runq (us u).uthread_priority (us u).uthread_gid u,
        rw bounds,
        added-IsValid valid u _ _ P_lt G_lt room refl refl new,
        bucket-added valid u _ _ P_lt G_lt room,
        ground arith,
      )

module _ ⦃T : TailQueue⦄ where
  -- Out of bounds, the arrays are not written.
  pub add-undefined :
      (us : Uthreads) (runq : Runqueue) (u : ℕ)
      → in_bounds (us u) ≡ false
      → add us runq u ≡ undefined
  unfolding add
  add-undefined us runq u out = rw out
