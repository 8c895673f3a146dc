-- ===== src/Create.antt =====
-- Assignment_1/Project1/gtthreads/src/gt_uthread.c and gt_kthread.c: the creation of a uthread, the
-- choice of its kthread, and the relay of the timer signal.
pub mod Target
pub mod Relay
use advanced_oslab.Prelude.{
  ℕ, zero, suc, ◌+◌, ◌%◌, ◌^◌, Bool, true, false, ◌||◌, not, Option, none, some, List, [], ◌∷◌, ltb,
  ◌==◌, if◌then◌else◌,
}
use advanced_oslab.Prelude.Arrays.{update}
use advanced_oslab.Prelude.Int.{ℤ, pos, negsuc}
use advanced_oslab.Prelude.Outcome.{Outcome, ok, exited, ◌>>=◌, ◌>>◌, defined, deref}
use advanced_oslab.TailQueue.{TailQueue}
use advanced_oslab.Uthread.{Uthread, uthread_init}
use advanced_oslab.Runqueue.{increment, default_uthread_priority, max_uthread_groups}
use advanced_oslab.Spinlock
use advanced_oslab.Spinlock.{Spinlock}
use advanced_oslab.Kthread.{
  KthreadContext, UthreadTimer, World, SharedInfo, gt_max_cores, is_kthread_done,
}
use advanced_oslab.Schedule.{put_uthread, put_shared, enqueue, max_uthread_timers}

-- The loop of `ksched_find_target`: the next entry of the map, round robin, that is not NULL. It
-- goes on for ever if there is none; `none` means that the rounds ran out.
unfoldable pub find_cpu {ℓ} : {A : Type ℓ} → (ℕ → Option A) → (rounds target_cpu : ℕ) → Option ℕ
find_cpu kthread_cpu_map zero target_cpu = none
find_cpu kthread_cpu_map (suc rounds) target_cpu =
    let next = (target_cpu + 1) % gt_max_cores in
    elim (kthread_cpu_map next) [ some c ↦ some next | none ↦ find_cpu kthread_cpu_map rounds next ]

module _ ⦃T : TailQueue⦄ where
  -- `MALLOC_SAFE` and `MALLOCZ_SAFE` around the call of the allocator.
  unfoldable pub malloc_safe : World → Outcome World
  malloc_safe w = do
    lock ← Spinlock.acquire w.ksched_shared_info.malloc_lock
    ok (put_shared w (record w.ksched_shared_info { malloc_lock = Spinlock.release lock }))

  -- Returns the index of the kthread whose run queue is the target.
  unfoldable pub ksched_find_target : World → ℕ → Outcome (ℕ × World)
  unfolding find_cpu
  ksched_find_target w u_obj = do
    let u_gid = (w.uthreads u_obj).uthread_gid
    defined (ltb u_gid max_uthread_groups)
    let info = w.ksched_shared_info
    target_cpu ← deref (find_cpu w.kthread_cpu_map gt_max_cores (info.last_ugroup_kthread u_gid))
    lock ← Spinlock.acquire info.ksched_lock
    let w1 = put_shared w (record info {
      last_ugroup_kthread = update info.last_ugroup_kthread u_gid (target_cpu % 2 ^ 16);
      ksched_lock = Spinlock.release lock;
    })
    c ← deref (w1.kthread_cpu_map target_cpu)
    ok (
      target_cpu,
      put_uthread w1 u_obj (record (w1.uthreads u_obj) { cpu_id = c.cpuid; last_cpu_id = c.cpuid }),
    )

  abbrev pub new_uthread : Uthread → ℕ → ℕ → ℤ → Uthread
  new_uthread zeroed now u_gid credits = record zeroed {
    total_running_time_start = now;
    uthread_state = uthread_init;
    uthread_priority = default_uthread_priority;
    uthread_gid = u_gid;
    initial_credits = credits;
    credits = credits;
    is_yield_valid = false;
  }

  -- `u_new` is what `calloc` returns, `stack` whether the stack is allocated, `timer` whether the
  -- timer is, and `zeroed` is a uthread of zeroes. The second part is `*u_tid`, if it is written.
  unfoldable pub uthread_create :
      World
      → (u_new : Option ℕ) → (zeroed : Uthread) → (stack timer : Bool) → (now u_gid : ℕ)
      → (credits : ℤ) → Outcome (ℤ × Option ℕ × World)
  unfolding malloc_safe
  uthread_create w none zeroed stack timer now u_gid credits = exited
  uthread_create w (some u_new) zeroed stack timer now u_gid credits = do
    w1 ← malloc_safe w
    let w2 = put_uthread w1 u_new (new_uthread zeroed now u_gid credits)
    w3 ← malloc_safe w2
    if not stack then ok (negsuc 0, none, w3) else (do
      let info = w3.ksched_shared_info
      lock ← Spinlock.acquire info.ksched_lock
      let tid = info.kthread_tot_uthreads
      let w4 =
          put_shared (put_uthread w3 u_new (record (w3.uthreads u_new) { uthread_tid = tid }))
            (record info {
              kthread_tot_uthreads = increment info.kthread_tot_uthreads;
              kthread_cur_uthreads = increment info.kthread_cur_uthreads;
              ksched_lock = Spinlock.release lock;
            })
      (target_cpu, w5) ← ksched_find_target w4 u_new
      w6 ← malloc_safe w5
      defined (ltb tid max_uthread_timers)
      let fresh : Option UthreadTimer =
          if timer then some (record { running_time = pos 0; cpu_time = pos 0 }) else none
      let w7 = record w6 { uthread_time = update w6.uthread_time tid fresh }
      c ← deref (w7.kthread_cpu_map target_cpu)
      w8 ← enqueue w7 target_cpu c.krunqueue.active_runq u_new
      ok (pos 0, some tid, w8))

  -- The kthreads to which `ksched_priority` of kthread `me` sends SIGUSR1, `rounds` of them from
  -- index `inx` on.
  unfoldable pub relay : World → ℕ → (rounds inx : ℕ) → List ℕ
  relay w me zero inx = []
  relay w me (suc rounds) inx =
      let rest = relay w me rounds (inx + 1) in
      elim (w.kthread_cpu_map inx) [
        | none ↦ rest
        | some c ↦ if inx == me || is_kthread_done c then rest else inx ∷ rest
      ]
