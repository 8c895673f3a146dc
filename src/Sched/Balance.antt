-- ===== src/Sched/Balance.antt =====
-- Assignment_1/Project1/gtthreads/src/gt_pq.c: which kthreads the load balancing loop looks at.
use advanced_oslab.Prelude.{
  ℕ, zero, suc, ◌+◌, ◌≤◌, ◌<◌, ◌≡◌, refl, inl, inr, Bool-cases, true, false, ◌||◌, some, none, ◌==◌,
  arith,
}
use advanced_oslab.Prelude.Outcome.{ok}
use advanced_oslab.TailQueue.{TailQueue}
use advanced_oslab.Kthread.{Slot, runq_at, KthreadContext, is_kthread_done, World}
use advanced_oslab.Sched.{steal, steal_from}

module _ ⦃T : TailQueue⦄ where
  -- A kthread that the loop passes by: it is done, or its active run queue is empty.
  pub record IsIdle (w : World) (i : ℕ) : Type 0 where
    pub context : KthreadContext
    pub at : w.kthread_cpu_map i ≡ some context
    pub passed :
        (is_kthread_done context
          || (runq_at context.krunqueue context.krunqueue.active_runq).uthread_mask == 0)
        ≡ true

  steal_from-idle :
      (w : World) (me i : ℕ) (slot : Slot) (idle : IsIdle w i)
      → steal_from w me slot i idle.context ≡ ok none
  unfolding steal_from
  steal_from-idle w me i slot idle = rw (idle.passed)

  -- The loop goes over idle kthreads, up to the caller's own number at most.
  pub steal-idle :
      (w : World) (me cpuid : ℕ) (slot : Slot) (rounds i : ℕ)
      → ((j : ℕ) → j < cpuid → j < i + rounds → IsIdle w j)
      → i < suc cpuid
      → steal w me slot cpuid rounds i ≡ ok none
  unfolding steal
  steal-idle w me cpuid slot zero i idle le = refl
  steal-idle w me cpuid slot (suc rounds) i idle le = elim (Bool-cases (i == cpuid)) [
    | inl e ↦ rw (e, steal)
    | inr ne ↦
        let here = idle i (ground arith) (omega arith) in
        rw (ne, steal, here.at, steal_from-idle w me i slot here)
          (steal-idle w me cpuid slot rounds (i + 1) (λ j lt below. idle j lt (omega arith))
            (ground arith))
  ]

  -- It stops at the first kthread that is not idle, if that comes before the caller's number.
  pub steal-found :
      (w : World) (me cpuid : ℕ) (slot : Slot) (rounds i t : ℕ) {other : KthreadContext}
      {r : ℕ × World}
      → ((j : ℕ) → j < t → IsIdle w j)
      → i ≤ t
      → t < i + rounds
      → t < cpuid
      → w.kthread_cpu_map t ≡ some other
      → steal_from w me slot t other ≡ ok (some r)
      → steal w me slot cpuid rounds i ≡ ok (some r)
  unfolding steal
  steal-found w me cpuid slot zero i t idle le fuel lt at found = absurd (omega arith)
  steal-found w me cpuid slot (suc rounds) i t {other} {r} idle le fuel lt at found =
      let ne : (i == cpuid) ≡ false = ground arith in
      elim (Bool-cases (i == t)) [
        | inl e ↦
            let is : i ≡ t = ground arith in
            let at' : w.kthread_cpu_map i ≡ some other = rw (is) at in
            let found' : steal_from w me slot i other ≡ ok (some r) = rw (is) found in
            rw (ne, steal, at', found')
        | inr later ↦
            let here = idle i (ground arith) in
            rw (ne, steal, here.at, steal_from-idle w me i slot here)
              (steal-found w me cpuid slot rounds (i + 1) t idle (ground arith) (omega arith) lt at
                found)
      ]
