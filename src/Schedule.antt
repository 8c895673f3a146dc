-- ===== src/Schedule.antt =====
-- Assignment_1/Project1/gtthreads/src/gt_uthread.c: `uthread_schedule`, which puts the running
-- uthread away and resumes the next one. No other kthread runs in between.
pub mod Credits
pub mod Turns
pub mod Places
pub mod PutBack
pub mod Resume
pub mod Retire
pub mod Priority
pub mod Continue
use advanced_oslab.Prelude.{
  ℕ, ◌+◌, ◌*◌, ◌/◌, Bool, true, false, ◌&&◌, ◌||◌, not, Option, none, some, ltb, ◌==◌,
  if◌then◌else◌,
}
use advanced_oslab.Prelude.Arrays.{update}
use advanced_oslab.Prelude.Int.{ℤ, pos, negsuc, pos_part, sub_ℕ, ltb_ℤ, ◌+ℤ◌, ◌-ℤ◌}
use advanced_oslab.Prelude.Outcome.{Outcome, ok, exited, ◌>>=◌, ◌>>◌, assert, defined, deref}
use advanced_oslab.Bits.{set_bit}
use advanced_oslab.TailQueue.{TailQueue}
use advanced_oslab.Uthread.{
  UthreadState, uthread_init, uthread_runnable, uthread_running, uthread_cancelled, uthread_done,
  Uthread,
}
use advanced_oslab.Runqueue.{Runqueue, decrement}
use advanced_oslab.Spinlock
use advanced_oslab.Kthread.{
  Slot, KthreadRunqueue, KthreadContext, UthreadTimer, SharedInfo, World, runq_at, set_runq,
  put_context, put_krunqueue, hold, lock_runq, unlock_runq,
}
use advanced_oslab.Sched.{add_to_runqueue, sched_find_best_uthread}

-- The entries of `uthread_time`.
abbrev pub max_uthread_timers : ℕ
max_uthread_timers = 128

-- Where control goes: to the saved context of a uthread, or of the kthread.
pub data Jump : Type 0 where
  to_uthread : ℕ → Jump
  to_kthread : Jump

-- `uthread_state & (UTHREAD_DONE | UTHREAD_CANCELLED)`
abbrev pub is_over : UthreadState → Bool
is_over uthread_done = true
is_over uthread_cancelled = true
is_over _ = false

abbrev pub is_running : UthreadState → Bool
is_running uthread_running = true
is_running _ = false

abbrev pub is_init : UthreadState → Bool
is_init uthread_init = true
is_init _ = false

-- The credits that a step of so many microseconds costs. The C code divides by 1000 as a `float`,
-- and cuts off when it subtracts; the credits are positive here, and below 16000, where the
-- `float` is exact enough for both tests.
unfoldable pub cycles_used : ℤ → ℤ → ℤ
cycles_used (pos step) credits =
    if ltb (1000 * pos_part credits) step then pos (pos_part credits + 1) else pos (step / 1000)
cycles_used (negsuc step) credits = sub_ℕ 0 ((step + 1) / 1000)

-- The deduction of credits for the step that ends `now`.
unfoldable pub charge : Bool → ℕ → Uthread → Uthread
unfolding cycles_used
charge is_credit_scheduler now u =
    if is_credit_scheduler && ltb_ℤ (pos 0) u.credits
    then (let step = sub_ℕ now u.start_running_time_step in
        record u {
          end_running_time_step = now;
          run_time_step = step;
          run_time_total = u.run_time_total +ℤ step;
          credits = u.credits -ℤ cycles_used step u.credits;
        })
    else u

-- What becomes of a uthread that is not over: whether it goes to the active run queue, what it is
-- when it is queued, and what it is afterwards.
pub record Requeue : Type 0 where
  pub to_active : Bool
  pub queued : Uthread
  pub left : Uthread

unfoldable pub requeue : Bool → Uthread → Requeue
requeue is_credit_scheduler u =
    let ready = record u { uthread_state = uthread_runnable } in
    if not is_credit_scheduler
    then record { to_active = false; queued = ready; left = ready }
    else (if ltb_ℤ (pos 0) u.credits
        then (if u.is_yield_valid
            then record {
              to_active = false;
              queued = ready;
              left = record ready { is_yield_valid = false };
            }
            else (let poorer = record ready { credits = u.credits -ℤ pos 25 } in
                record { to_active = true; queued = poorer; left = poorer }))
        else (let rich = record ready { credits = u.initial_credits; is_yield_valid = false } in
            record { to_active = false; queued = rich; left = rich }))

module _ ⦃T : TailQueue⦄ where
  open T use {insert_tail}

  abbrev pub put_uthread : World → ℕ → Uthread → World
  put_uthread w u t = record w { uthreads = update w.uthreads u t }

  abbrev pub put_shared : World → SharedInfo → World
  put_shared w info = record w { ksched_shared_info = info }

  -- `add_to_runqueue` on one of a kthread's run queues.
  unfoldable pub enqueue : World → ℕ → Slot → ℕ → Outcome World
  unfolding add_to_runqueue
  enqueue w me slot u = do
    c ← deref (w.kthread_cpu_map me)
    (runq, lock) ←
        add_to_runqueue w.uthreads (runq_at c.krunqueue slot) c.krunqueue.kthread_runqlock u
    ok (put_krunqueue w me c (record (set_runq c.krunqueue slot runq) { kthread_runqlock = lock }))

  -- The times of a uthread that is over, for `write_to_csv`.
  unfoldable pub record_times : World → ℕ → Outcome World
  record_times w u =
      let t = w.uthreads u in
      if w.is_credit_scheduler
      then (do
        defined (ltb t.uthread_tid max_uthread_timers)
        timer ← deref (w.uthread_time t.uthread_tid)
        let total = sub_ℕ t.total_running_time_end t.total_running_time_start
        ok (record (put_uthread w u (record t { run_time_total = total })) {
          uthread_time =
              update w.uthread_time t.uthread_tid
                (some (record { running_time = total; cpu_time = t.run_time_total }));
        }))
      else ok w

  -- A uthread that is over goes to the zombies, and is no longer counted.
  unfoldable pub retire : World → ℕ → ℕ → Outcome World
  retire w me u = do
    w1 ← record_times w u
    c ← deref (w1.kthread_cpu_map me)
    k ← lock_runq c.krunqueue
    let held = hold k k.kthread_runqlock 0x01
    let k' = unlock_runq (record held { zombie_uthreads = insert_tail held.zombie_uthreads u })
    let w2 = put_krunqueue w1 me c k'
    let info = w2.ksched_shared_info
    lock ← Spinlock.acquire info.ksched_lock
    ok (
        put_shared w2 (record info {
          kthread_cur_uthreads = decrement info.kthread_cur_uthreads;
          ksched_lock = Spinlock.release lock;
        }))

  -- A uthread that is not over is queued again.
  unfoldable pub put_back : World → ℕ → ℕ → Outcome World
  put_back w me u = do
    let plan = requeue w.is_credit_scheduler (w.uthreads u)
    c ← deref (w.kthread_cpu_map me)
    let slot = if plan.to_active then c.krunqueue.active_runq else c.krunqueue.expires_runq
    w' ← enqueue (put_uthread w u plan.queued) me slot u
    ok (put_uthread w' u plan.left)

  -- The running uthread, if any, is charged and put away.
  unfoldable pub put_away : World → ℕ → ℕ → Outcome World
  put_away w me now = do
    c ← deref (w.kthread_cpu_map me)
    elim c.krunqueue.cur_uthread [
      | none ↦ ok w
      | some u ↦
          let w1 = put_uthread w u (charge w.is_credit_scheduler now (w.uthreads u)) in
          let w2 = put_krunqueue w1 me c (record c.krunqueue { cur_uthread = none }) in
          if is_over (w2.uthreads u).uthread_state then retire w2 me u else put_back w2 me u
    ]

  -- `uthread_init`: `calls_succeed` says whether the system calls do. The signal that it sends runs
  -- `uthread_context_func` up to the saving of the context. A failure leaves the lock taken.
  unfoldable pub uthread_init_on : World → ℕ → (calls_succeed : Bool) → Outcome (Bool × World)
  uthread_init_on w u calls_succeed = do
    let info = w.ksched_shared_info
    lock ← Spinlock.acquire info.uthread_init_lock
    let w1 = put_shared w (record info { uthread_init_lock = lock })
    if not calls_succeed then ok (false, w1) else (do
      assert (is_init (w1.uthreads u).uthread_state)
      let w2 = put_uthread w1 u (record (w1.uthreads u) { uthread_state = uthread_runnable })
      ok (true, put_shared w2 (record info { uthread_init_lock = Spinlock.release lock })))

  -- No uthread is left: the kthread is done if uthreads were created and none is alive.
  unfoldable pub quit : World → ℕ → Outcome (Jump × World)
  quit w me = do
    c ← deref (w.kthread_cpu_map me)
    let info = w.ksched_shared_info
    let all_over = not (info.kthread_tot_uthreads == 0) && info.kthread_cur_uthreads == 0
    ok (
      to_kthread,
      (if all_over
          then put_context w me (record c { kthread_flags = set_bit c.kthread_flags 0 })
          else w),
    )

  -- The chosen uthread is made the running one; on its first run it is initialised.
  unfoldable pub resume : World → ℕ → ℕ → ℕ → (calls_succeed : Bool) → Outcome (Jump × World)
  resume w me u now calls_succeed = do
    c ← deref (w.kthread_cpu_map me)
    let w1 = put_krunqueue w me c (record c.krunqueue { cur_uthread = some u })
    (done, w2) ←
        if is_init (w1.uthreads u).uthread_state
        then uthread_init_on w1 u calls_succeed
        else ok (true, w1)
    if done
        then ok (
          to_uthread u,
          put_uthread w2 u (record (w2.uthreads u) {
            uthread_state = uthread_running;
            start_running_time_step = now;
          }),
        )
        else exited

  -- `stopped` and `started` are what the clock says at the two readings.
  unfoldable pub uthread_schedule :
      (World → ℕ → Outcome (Option ℕ × World))
      → World
      → ℕ
      → (stopped started : ℕ) → (calls_succeed : Bool) → Outcome (Jump × World)
  uthread_schedule kthread_best_sched_uthread w me stopped started calls_succeed = do
    w1 ← put_away w me stopped
    (chosen, w2) ← kthread_best_sched_uthread w1 me
    elim chosen [ none ↦ quit w2 me | some u ↦ resume w2 me u started calls_succeed ]

  unfoldable pub gt_yield :
      World → ℕ → (stopped started : ℕ) → (calls_succeed : Bool) → Outcome (Jump × World)
  unfolding uthread_schedule
  gt_yield w me stopped started calls_succeed = do
    c ← deref (w.kthread_cpu_map me)
    u ← deref c.krunqueue.cur_uthread
    uthread_schedule sched_find_best_uthread
        (put_uthread w u (record (w.uthreads u) { is_yield_valid = true })) me stopped started
        calls_succeed

  -- `uthread_context_func` at the first jump to the saved context, before the uthread's function is
  -- called: the current uthread, which runs.
  unfoldable pub begin_task : World → ℕ → Outcome ℕ
  begin_task w me = do
    c ← deref (w.kthread_cpu_map me)
    u ← deref c.krunqueue.cur_uthread
    assert (is_running (w.uthreads u).uthread_state)
    ok u

  -- The end of `uthread_context_func`: the uthread's function has returned, at `ended`.
  unfoldable pub finish :
      World → ℕ → (ended stopped started : ℕ) → (calls_succeed : Bool) → Outcome (Jump × World)
  unfolding uthread_schedule
  finish w me ended stopped started calls_succeed = do
    c ← deref (w.kthread_cpu_map me)
    u ← deref c.krunqueue.cur_uthread
    uthread_schedule sched_find_best_uthread
        (put_uthread w u
          (record (w.uthreads u) { uthread_state = uthread_done; total_running_time_end = ended }))
        me stopped started calls_succeed
