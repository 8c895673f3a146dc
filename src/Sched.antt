-- ===== src/Sched.antt =====
-- Assignment_1/Project1/gtthreads/src/gt_pq.c: the exported operations on run queues, which take
-- the lock, and the choice of the next uthread. No other kthread runs in between.
pub mod Settled
pub mod Active
pub mod Twice
pub mod Balance
pub mod Rob
pub mod Steal
use advanced_oslab.Prelude.{
  ℕ, zero, suc, ◌+◌, Bool, true, false, ◌&&◌, ◌||◌, Option, none, some, ltb, ◌==◌, if◌then◌else◌,
}
use advanced_oslab.Prelude.Outcome.{Outcome, ok, ◌>>=◌, ◌>>◌, assert, deref}
use advanced_oslab.TailQueue.{TailQueue}
use advanced_oslab.Uthread.{Uthreads}
use advanced_oslab.Runqueue
use advanced_oslab.Runqueue.{Runqueue}
use advanced_oslab.Spinlock
use advanced_oslab.Spinlock.{Spinlock}
use advanced_oslab.Kthread.{
  Slot, slot0, slot1, KthreadRunqueue, runq_at, set_runq, KthreadContext, is_kthread_done, World,
  put_krunqueue, lock_runq, unlock_runq, gt_max_cores,
}

module _ ⦃T : TailQueue⦄ where
  unfoldable pub add_to_runqueue :
      Uthreads → Runqueue → Spinlock → ℕ → Outcome (Runqueue × Spinlock)
  add_to_runqueue us runq runq_lock u_elem = do
    lock ← Spinlock.acquire runq_lock
    runq' ← Runqueue.add us runq u_elem
    ok (runq', Spinlock.release (record lock { holder = 0x02 }))

  unfoldable pub rem_from_runqueue :
      Uthreads → Runqueue → Spinlock → ℕ → Outcome (Runqueue × Spinlock)
  rem_from_runqueue us runq runq_lock u_elem = do
    lock ← Spinlock.acquire runq_lock
    runq' ← Runqueue.rem us runq u_elem
    ok (runq', Spinlock.release (record lock { holder = 0x03 }))

  -- The two run queues, and their locks, are not the same.
  unfoldable pub switch_runqueue :
      Uthreads
      → Runqueue × Spinlock
      → Runqueue × Spinlock
      → ℕ
      → Outcome ((Runqueue × Spinlock) × (Runqueue × Spinlock))
  unfolding add_to_runqueue rem_from_runqueue
  switch_runqueue us (from_runq, from_lock) (to_runq, to_lock) u_elem = do
    from ← rem_from_runqueue us from_runq from_lock u_elem
    to ← add_to_runqueue us to_runq to_lock u_elem
    ok (from, to)

  unfoldable pub kthread_init_runqueue : KthreadRunqueue → KthreadRunqueue
  kthread_init_runqueue k = record {
    active_runq = slot0;
    expires_runq = slot1;
    kthread_runqlock = Spinlock.init k.kthread_runqlock;
    cur_uthread = k.cur_uthread;
    zombie_uthreads = T.init;
    runqueue0 = Runqueue.init_runqueue k.runqueue0;
    runqueue1 = Runqueue.init_runqueue k.runqueue1;
  }

  -- From `find_active_obj` on: kthread `me` takes `u_obj` out of its run queue and unlocks.
  unfoldable pub take_out : World → ℕ → Slot → ℕ → Outcome (Option ℕ × World)
  take_out w me slot u_obj = do
    c ← deref (w.kthread_cpu_map me)
    runq ← Runqueue.rem w.uthreads (runq_at c.krunqueue slot) u_obj
    ok (some u_obj, put_krunqueue w me c (unlock_runq (set_runq c.krunqueue slot runq)))

  -- The search for the best uthread, and then `find_active_obj`.
  unfoldable pub take_best : World → ℕ → Slot → Outcome (Option ℕ × World)
  unfolding take_out
  take_best w me slot = do
    c ← deref (w.kthread_cpu_map me)
    u_obj ← Runqueue.best (runq_at c.krunqueue slot)
    take_out w me slot u_obj

  -- One round of the load balancing loop, at kthread `i` with context `other`: a uthread that is
  -- moved to run queue `slot` of kthread `me`, whose lock is then held; or nothing. Since no other
  -- kthread runs, the second look at the mask, under the lock, sees what the first saw.
  unfoldable pub steal_from : World → ℕ → Slot → ℕ → KthreadContext → Outcome (Option (ℕ × World))
  steal_from w me slot i other =
      let k = other.krunqueue in
      if is_kthread_done other || (runq_at k k.active_runq).uthread_mask == 0 then ok none else do
        locked ← lock_runq k
        u_obj ← Runqueue.best (runq_at locked locked.active_runq)
        runq ← Runqueue.rem w.uthreads (runq_at locked locked.active_runq) u_obj
        let left = unlock_runq (set_runq locked locked.active_runq runq)
        let w1 = put_krunqueue w i other left
        c ← deref (w1.kthread_cpu_map me)
        mine ← lock_runq c.krunqueue
        runq' ← Runqueue.add w1.uthreads (runq_at mine slot) u_obj
        ok (some (u_obj, put_krunqueue w1 me c (set_runq mine slot runq')))

  -- `for (int i = 0; i < 16 && i != current_k_ctx->cpuid; i++)`, with `rounds` to go.
  unfoldable pub steal : World → ℕ → Slot → ℕ → (rounds i : ℕ) → Outcome (Option (ℕ × World))
  unfolding steal_from
  steal w me slot cpuid zero i = ok none
  steal w me slot cpuid (suc rounds) i = elim (i == cpuid) [
    | true ↦ ok none
    | false ↦ do
      other ← deref (w.kthread_cpu_map i)
      found ← steal_from w me slot i other
      elim found [ none ↦ steal w me slot cpuid rounds (i + 1) | some r ↦ ok (some r) ]
  ]

  -- The run queues are exchanged, and the search goes on in `expires_runq`.
  unfoldable pub switch_active : World → ℕ → Slot → Outcome (Option ℕ × World)
  unfolding take_best
  switch_active w me slot = do
    c ← deref (w.kthread_cpu_map me)
    let k = record c.krunqueue { active_runq = c.krunqueue.expires_runq; expires_runq = slot }
    let w' = put_krunqueue w me c k
    let runq = runq_at k k.expires_runq
    if runq.uthread_mask == 0
        then (do assert (runq.uthread_tot == 0); ok (none, w'))
        else take_best w' me k.expires_runq

  -- For the kthread `me`, which runs it.
  unfoldable pub sched_find_best_uthread : World → ℕ → Outcome (Option ℕ × World)
  unfolding take_best take_out steal switch_active
  sched_find_best_uthread w me = do
    c ← deref (w.kthread_cpu_map me)
    locked ← lock_runq c.krunqueue
    let slot = locked.active_runq
    let runq = runq_at locked slot
    let k = record locked { kthread_runqlock = record locked.kthread_runqlock { holder = 0x04 } }
    if runq.uthread_mask == 0
        then (do
          assert (runq.uthread_tot == 0)
          let w' = put_krunqueue w me c (unlock_runq k)
          found ←
              if w.is_kernel_thread_ready && (w.is_credit_scheduler && w.is_load_balancing)
              then steal w' me slot c.cpuid gt_max_cores 0
              else ok none
          elim found [
            | none ↦ switch_active w' me slot
            | some (u_obj, w'') ↦ take_out w'' me slot u_obj
          ])
        else take_best (put_krunqueue w me c k) me slot
