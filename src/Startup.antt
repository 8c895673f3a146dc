-- ===== src/Startup.antt =====
-- Assignment_1/Project1/gtthreads/src/gt_kthread.c: the kthreads at the start of the program, from
-- kthread_init to the loop of gtthread_app_init that waits for all of them.
pub mod Ready
use advanced_oslab.Prelude.{
  ℕ, ◌||◌, Bool, true, false, Option, none, some, List, [], ◌∷◌, ltb, leb, is_some, length,
  if◌then◌else◌,
}
use advanced_oslab.Prelude.Arrays.{sum_below}
use advanced_oslab.Prelude.Outcome.{Outcome, ok, exited, ◌>>=◌, ◌>>◌, assert, defined}
use advanced_oslab.TailQueue.{TailQueue}
use advanced_oslab.Runqueue.{init_runqueue}
use advanced_oslab.Spinlock
use advanced_oslab.Sched.{kthread_init_runqueue}
use advanced_oslab.Kthread.{
  slot0, slot1, KthreadRunqueue, KthreadContext, SharedInfo, World, put_context, gt_max_cores,
}

-- What the system and the processor answer to a kthread; `apic_id` is `kthread_apic_id`.
pub record Answers : Type 0 where
  pub cpuid : ℕ
  pub pid : ℕ
  pub tid : ℕ
  pub apic_id : ℕ

unfoldable pub ksched_info_init : SharedInfo → SharedInfo
unfolding Spinlock.init
ksched_info_init info = record info {
  ksched_lock = Spinlock.init info.ksched_lock;
  uthread_init_lock = Spinlock.init info.uthread_init_lock;
  malloc_lock = Spinlock.init info.malloc_lock;
}

module _ ⦃T : TailQueue⦄ where
  abbrev pub started : KthreadContext → Answers → KthreadContext
  started k_ctx a = record k_ctx {
    cpuid = a.cpuid;
    pid = a.pid;
    tid = a.tid;
    krunqueue = kthread_init_runqueue k_ctx.krunqueue;
    cpu_apic_id = a.apic_id;
  }

  -- On a context from `calloc`, whose `cpuid` the creator has written. The map has GT_MAX_KTHREADS
  -- entries.
  unfoldable pub kthread_init : World → KthreadContext → Answers → Outcome World
  unfolding kthread_init_runqueue
  kthread_init w k_ctx a = do
    defined (ltb a.apic_id gt_max_cores)
    ok (put_context w a.apic_id (started k_ctx a))

  -- The kthreads, in the order in which they come to `kthread_init`.
  unfoldable pub init_kthreads : World → (zeroed : KthreadContext) → List Answers → Outcome World
  unfolding kthread_init
  init_kthreads w zeroed [] = ok w
  init_kthreads w zeroed (a ∷ answers) =
      kthread_init w zeroed a >>= λ w'. init_kthreads w' zeroed answers

  abbrev pub busy : World → ℕ → ℕ
  busy w inx = if is_some (w.kthread_cpu_map inx) then 1 else 0

  -- The loop that counts the entries of the map.
  unfoldable pub init_done : World → ℕ
  init_done w = sum_below gt_max_cores (busy w)

  -- One round of `yield_again`: whether the wait is over, and the world then.
  unfoldable pub yield_again : World → (num_cpus : ℕ) → Outcome (Bool × World)
  unfolding init_done
  yield_again w num_cpus = do
    assert (leb (init_done w) num_cpus)
    (if ltb (init_done w) num_cpus
        then ok (false, w)
        else ok (true, record w { is_kernel_thread_ready = true }))

  -- `creates` says whether `clone` succeeds for the kthreads but the first, which is the main thread. The
  -- result is that of a round of `yield_again` after all of them have come to `kthread_init`.
  unfoldable pub gtthread_app_init :
      World → (zeroed : KthreadContext) → (creates : Bool) → List Answers → Outcome (Bool × World)
  unfolding ksched_info_init init_kthreads yield_again
  gtthread_app_init w zeroed creates answers = do
    let w1 = record w { ksched_shared_info = ksched_info_init w.ksched_shared_info }
    if creates || ltb (length answers) 2 then ok tt else exited
    w2 ← init_kthreads w1 zeroed answers
    yield_again w2 (length answers)
