-- ===== src/Tests/Fixtures.antt =====
-- Run queues and kthreads with a few uthreads, all of priority 16 and of group 1.
use advanced_oslab.Prelude.{
  ℕ, ◌+◌, ◌≤◌, ◌<◌, ◌≡◌, ◌≢◌, refl, Bool, true, false, Option, none, some, [], ◌==◌, if◌then◌else◌,
  arith,
}
use advanced_oslab.Prelude.Int.{ℤ, pos}
use advanced_oslab.TailQueue.{TailQueue, list_queue}
use advanced_oslab.Uthread.{Uthread, Uthreads, UthreadState, uthread_runnable, uthread_running}
use advanced_oslab.Runqueue.{Runqueue, init_runqueue, added}
use advanced_oslab.Runqueue.Invariant.{IsValid}
use advanced_oslab.Runqueue.Init.{IsZeroed, init_runqueue_lem}
use advanced_oslab.Runqueue.Add.{added-IsValid}
use advanced_oslab.Kthread.{slot0, slot1, KthreadRunqueue, KthreadContext, World}
use advanced_oslab.Sched.Settled.{IsSettled}

instance abbrev pub queue : TailQueue
queue = list_queue

abbrev pub thread : UthreadState → ℤ → Uthread
thread state credits = record {
  uthread_state = state;
  uthread_priority = 16;
  cpu_id = 0;
  last_cpu_id = 0;
  uthread_tid = 0;
  uthread_gid = 1;
  initial_credits = pos 75;
  credits = credits;
  run_time_total = pos 0;
  run_time_step = pos 0;
  start_running_time_step = 1000;
  end_running_time_step = 0;
  total_running_time_start = 500;
  total_running_time_end = 0;
  is_yield_valid = false;
}

-- Uthread 3 runs, the others wait.
abbrev pub threads : Uthreads
threads u = if u == 3 then thread uthread_running (pos 50) else thread uthread_runnable (pos 75)

abbrev pub zeros : Runqueue
zeros = record {
  uthread_mask = 0;
  uthread_tot = 0;
  uthread_prio_tot = λ p. 0;
  uthread_group_mask = λ g. 0;
  uthread_group_tot = λ g. 0;
  prio_array = λ p. record { group_mask = 0; group = λ g. [] };
}

pub zeros-IsZeroed : IsZeroed zeros
zeros-IsZeroed = record {
  mask = refl;
  tot = refl;
  prio_tot = λ p. refl;
  group_mask = λ g. refl;
  group_tot = λ g. refl;
  prio_mask = λ p. refl;
}

abbrev pub empty : Runqueue
empty = init_runqueue zeros

pub empty-IsValid : IsValid threads empty
empty-IsValid = let (valid, lists) = init_runqueue_lem zeros-IsZeroed threads in valid

abbrev pub one : Runqueue
one = added empty 16 1 1

pub one-IsValid : IsValid threads one
unfolding init_runqueue advanced_oslab.Prelude.count added
one-IsValid =
    added-IsValid empty-IsValid 1 16 1 (omega arith) (omega arith) (omega arith) refl refl refl

abbrev pub krunqueue : (runqueue0 runqueue1 : Runqueue) → KthreadRunqueue
krunqueue runqueue0 runqueue1 = record {
  active_runq = slot0;
  expires_runq = slot1;
  kthread_runqlock = record { locked = 0; holder = 0 };
  cur_uthread = some 3;
  zombie_uthreads = [];
  runqueue0 = runqueue0;
  runqueue1 = runqueue1;
}

slots_apart : slot0 ≢ slot1
slots_apart e = ground arith

pub krunqueue-IsSettled :
    (runqueue0 runqueue1 : Runqueue)
    → IsValid threads runqueue0
    → IsValid threads runqueue1
    → IsSettled threads (krunqueue runqueue0 runqueue1)
krunqueue-IsSettled runqueue0 runqueue1 valid0 valid1 = record {
  lock_free = refl;
  apart = slots_apart;
  active_valid = valid0;
  expires_valid = valid1;
}

abbrev pub context : ℕ → KthreadRunqueue → KthreadContext
context i k = record {
  cpuid = i;
  cpu_apic_id = i;
  pid = 7;
  tid = i;
  kthread_flags = 0;
  krunqueue = k;
}

-- One kthread for each run queue given, numbered 0 and 1.
abbrev pub world : (credit balancing : Bool) → (k0 k1 : KthreadRunqueue) → World
world credit balancing k0 k1 = record {
  uthreads = threads;
  kthread_cpu_map =
      λ i. if i == 0 then some (context 0 k0) else (if i == 1 then some (context 1 k1) else none);
  ksched_shared_info = record {
    kthread_tot_uthreads = 4;
    kthread_cur_uthreads = 4;
    last_ugroup_kthread = λ g. 0;
    ksched_lock = record { locked = 0; holder = 0 };
    uthread_init_lock = record { locked = 0; holder = 0 };
    malloc_lock = record { locked = 0; holder = 0 };
  };
  uthread_time = λ i. some (record { running_time = pos 0; cpu_time = pos 0 });
  is_kernel_thread_ready = true;
  is_credit_scheduler = credit;
  is_load_balancing = balancing;
}
