-- ===== src/Tests/Started.antt =====
-- Two kthreads, on the processors with the numbers 4 and 0, at the start of the program.
use advanced_oslab.Prelude.{ℕ, ◌<◌, ◌≤◌, ◌≡◌, refl, true, false, none, List, [], ◌∷◌, count, arith}
use advanced_oslab.Prelude.Outcome.{ok}
use advanced_oslab.Kthread.{KthreadContext, World}
use advanced_oslab.Startup.{Answers, gtthread_app_init}
use advanced_oslab.Startup.Ready.{apic_ids, IsZeroedContext, AllReady, gtthread_app_init_lem}
use advanced_oslab.Tests.Fixtures.{queue, zeros, zeros-IsZeroed, empty, krunqueue, context, world}

abbrev zeroed : KthreadContext
zeroed = context 0 (krunqueue zeros zeros)

zeroed-IsZeroedContext : IsZeroedContext zeroed
zeroed-IsZeroedContext = record { first = zeros-IsZeroed; second = zeros-IsZeroed }

abbrev blank : World
blank = record (world true true (krunqueue empty empty) (krunqueue empty empty)) {
  kthread_cpu_map = λ i. none;
  is_kernel_thread_ready = false;
}

abbrev answers : List Answers
answers =
    record { cpuid = 0; pid = 7; tid = 7; apic_id = 4 }
    ∷ record { cpuid = 1; pid = 7; tid = 8; apic_id = 0 }
    ∷ []

answers_small : (i : ℕ) → 0 < count i (apic_ids answers) → i < 16
unfolding count
answers_small i h = ground arith

answers_apart : (i : ℕ) → count i (apic_ids answers) ≤ 1
unfolding count
answers_apart i = ground arith

started_example :
    (w' : World) × (gtthread_app_init blank zeroed true answers ≡ ok (true, w'))
    × (w'.is_kernel_thread_ready ≡ true)
    × AllReady w'
    × (w'.ksched_shared_info.ksched_lock.locked ≡ 0)
    × (w'.ksched_shared_info.uthread_init_lock.locked ≡ 0)
    × (w'.ksched_shared_info.malloc_lock.locked ≡ 0)
started_example =
    gtthread_app_init_lem zeroed zeroed-IsZeroedContext blank (λ i. refl) answers answers_small
      answers_apart
