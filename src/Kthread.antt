-- ===== src/Kthread.antt =====
-- Assignment_1/Project1/gtthreads/src/gt_kthread.h and gt_pq.h: what a kthread keeps, what all of
-- them share, and the memory in which the scheduler works.
use advanced_oslab.Prelude.{ℕ, Bool, Option, some}
use advanced_oslab.Prelude.Arrays.{update}
use advanced_oslab.Prelude.Int.{ℤ}
use advanced_oslab.Prelude.Outcome.{Outcome, ok, ◌>>=◌}
use advanced_oslab.Bits.{is_bit_set}
use advanced_oslab.TailQueue.{TailQueue}
use advanced_oslab.Uthread.{Uthreads}
use advanced_oslab.Runqueue.{Runqueue}
use advanced_oslab.Spinlock
use advanced_oslab.Spinlock.{Spinlock}

abbrev pub gt_max_cores : ℕ
gt_max_cores = 16

-- Which of `runqueues[2]` a pointer of a kthread's run queue names.
pub data Slot : Type 0 where
  slot0 : Slot
  slot1 : Slot

-- `uthread_timer_t`, in microseconds.
pub record UthreadTimer : Type 0 where
  pub running_time : ℤ
  pub cpu_time : ℤ

pub record SharedInfo : Type 0 where
  pub kthread_tot_uthreads : ℕ
  pub kthread_cur_uthreads : ℕ
  pub last_ugroup_kthread : ℕ → ℕ
  pub ksched_lock : Spinlock
  pub uthread_init_lock : Spinlock
  pub malloc_lock : Spinlock

module _ ⦃T : TailQueue⦄ where
  open T use {Head}

  pub record KthreadRunqueue : Type 0 where
    pub active_runq : Slot
    pub expires_runq : Slot
    pub kthread_runqlock : Spinlock
    pub cur_uthread : Option ℕ
    pub zombie_uthreads : Head
    pub runqueue0 : Runqueue
    pub runqueue1 : Runqueue

  -- `*p` and `*p = runq` for a pointer to one of the two run queues.
  abbrev pub runq_at : KthreadRunqueue → Slot → Runqueue
  runq_at k slot = elim slot [ slot0 ↦ k.runqueue0 | slot1 ↦ k.runqueue1 ]

  abbrev pub set_runq : KthreadRunqueue → Slot → Runqueue → KthreadRunqueue
  set_runq k slot runq = record k {
    runqueue0 = elim slot [ slot0 ↦ runq | slot1 ↦ k.runqueue0 ];
    runqueue1 = elim slot [ slot0 ↦ k.runqueue1 | slot1 ↦ runq ];
  }

  -- The handlers and the saved context are not modelled.
  pub record KthreadContext : Type 0 where
    pub cpuid : ℕ
    pub cpu_apic_id : ℕ
    pub pid : ℕ
    pub tid : ℕ
    pub kthread_flags : ℕ
    pub krunqueue : KthreadRunqueue

  -- `kthread_flags & KTHREAD_DONE`
  abbrev pub is_kthread_done : KthreadContext → Bool
  is_kthread_done c = is_bit_set c.kthread_flags 0

  pub record World : Type 0 where
    pub uthreads : Uthreads
    pub kthread_cpu_map : ℕ → Option KthreadContext
    pub ksched_shared_info : SharedInfo
    pub uthread_time : ℕ → Option UthreadTimer
    pub is_kernel_thread_ready : Bool
    pub is_credit_scheduler : Bool
    pub is_load_balancing : Bool

  -- The kthread's context and run queue, written back to the map.
  abbrev pub put_context : World → ℕ → KthreadContext → World
  put_context w i c = record w { kthread_cpu_map = update w.kthread_cpu_map i (some c) }

  abbrev pub put_krunqueue : World → ℕ → KthreadContext → KthreadRunqueue → World
  put_krunqueue w i c k = put_context w i (record c { krunqueue = k })

  abbrev pub hold : KthreadRunqueue → Spinlock → ℕ → KthreadRunqueue
  hold k lock holder = record k { kthread_runqlock = record lock { holder = holder } }

  -- `gt_spin_lock` and `gt_spin_unlock` on the lock of a run queue.
  abbrev pub lock_runq : KthreadRunqueue → Outcome KthreadRunqueue
  lock_runq k = do
    lock ← Spinlock.acquire k.kthread_runqlock
    ok (record k { kthread_runqlock = lock })

  abbrev pub unlock_runq : KthreadRunqueue → KthreadRunqueue
  unlock_runq k = record k { kthread_runqlock = Spinlock.release k.kthread_runqlock }
