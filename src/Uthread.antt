-- ===== src/Uthread.antt =====
-- Assignment_1/Project1/gtthreads/src/gt_uthread.h: `uthread_struct`, and the memory that holds
-- one for each pointer.
use advanced_oslab.Prelude.{ℕ, Bool}
use advanced_oslab.Prelude.Int.{ℤ}

pub data UthreadState : Type 0 where
  uthread_init : UthreadState
  uthread_runnable : UthreadState
  uthread_running : UthreadState
  uthread_cancelled : UthreadState
  uthread_done : UthreadState

-- Times are microseconds, `tv_sec * 1000000 + tv_usec`. The function, its argument, the saved
-- context and the stack are not modelled.
pub record Uthread : Type 0 where
  pub uthread_state : UthreadState
  pub uthread_priority : ℕ
  pub cpu_id : ℕ
  pub last_cpu_id : ℕ
  pub uthread_tid : ℕ
  pub uthread_gid : ℕ
  pub initial_credits : ℤ
  pub credits : ℤ
  pub run_time_total : ℤ
  pub run_time_step : ℤ
  pub start_running_time_step : ℕ
  pub end_running_time_step : ℕ
  pub total_running_time_start : ℕ
  pub total_running_time_end : ℕ
  pub is_yield_valid : Bool

abbrev pub Uthreads : Type 0
Uthreads = ℕ → Uthread
