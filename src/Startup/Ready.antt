-- ===== src/Startup/Ready.antt =====
-- Assignment_1/Project1/gtthreads/src/gt_kthread.c: when all kthreads are in the map.
use advanced_oslab.Prelude.{
  ℕ, ◌+◌, ◌≤◌, ◌<◌, ◌≡◌, ◌≢◌, refl, sym, ap, ◌∙◌, true, none, some, List, [], ◌∷◌, ◌==◌, ==_refl,
  length, count, arith, Bool-cases, inl, inr, if◌then◌else◌,
}
use advanced_oslab.Prelude.Arrays.{sum_below-zero, sum_below-change}
use advanced_oslab.Prelude.Outcome.{ok, ◌>>=◌}
use advanced_oslab.TailQueue.{TailQueue}
use advanced_oslab.Uthread.{Uthreads}
use advanced_oslab.Runqueue.Init.{IsZeroed, init_runqueue_lem}
use advanced_oslab.Spinlock
use advanced_oslab.Kthread.{slot0, slot1, KthreadContext, World, put_context}
use mathlib.Core.Path.{subst}
use advanced_oslab.Clients.Neighbours.{some_injective}
use advanced_oslab.Sched.{kthread_init_runqueue}
use advanced_oslab.Sched.Settled.{IsSettled}
use advanced_oslab.Startup.{
  Answers, started, kthread_init, init_kthreads, busy, init_done, yield_again, ksched_info_init,
  gtthread_app_init,
}

abbrev pub apic_ids : List Answers → List ℕ
apic_ids [] = []
apic_ids (a ∷ answers) = a.apic_id ∷ apic_ids answers

module _ ⦃T : TailQueue⦄ where
  slots_apart : slot0 ≢ slot1
  slots_apart e = absurd (cc e)

  -- The memory that `calloc` returns.
  pub record IsZeroedContext (c : KthreadContext) : Type 0 where
    pub first : IsZeroed c.krunqueue.runqueue0
    pub second : IsZeroed c.krunqueue.runqueue1

  init-IsSettled :
      (us : Uthreads) (c : KthreadContext)
      → IsZeroedContext c
      → IsSettled us (kthread_init_runqueue c.krunqueue)
  unfolding kthread_init_runqueue Spinlock.init
  init-IsSettled us c zeroed = record {
    lock_free = refl;
    apart = slots_apart;
    active_valid = (init_runqueue_lem zeroed.first us).0;
    expires_valid = (init_runqueue_lem zeroed.second us).0;
  }

  -- Each entry of the map holds the kthread that runs there, ready for the scheduler.
  pub AllReady : World → Type 0
  AllReady w =
      (i : ℕ) (c : KthreadContext)
      → w.kthread_cpu_map i ≡ some c
      → (c.cpu_apic_id ≡ i) × IsSettled w.uthreads c.krunqueue

  put-busy :
      (w : World) (i : ℕ) (c : KthreadContext) (j : ℕ)
      → busy (put_context w i c) j ≡ (if i == j then 1 else busy w j)
  put-busy w i c j = elim (Bool-cases (i == j)) [ inl same ↦ rw same | inr apart ↦ rw apart ]

  put-AllReady :
      (w : World) (c : KthreadContext)
      → AllReady w
      → IsSettled w.uthreads c.krunqueue
      → AllReady (put_context w c.cpu_apic_id c)
  unfolding AllReady
  put-AllReady w c ready settled i d is = elim (Bool-cases (c.cpu_apic_id == i)) [
    | inl same ↦
        let e : c ≡ d = some_injective (rw same at is) in
        let own : c.cpu_apic_id ≡ i = ground (arith, same) in
        (
          ap (λ x. x.cpu_apic_id) (sym e) ∙ own,
          subst (λ x. IsSettled w.uthreads x.krunqueue) e settled,
        )
    | inr apart ↦ ready i d (rw apart at is)
  ]

  put-init_done :
      (w : World) (i : ℕ) (c : KthreadContext)
      → i < 16
      → busy w i ≡ 0
      → init_done (put_context w i c) ≡ init_done w + 1
  unfolding init_done
  put-init_done w i c small free = omega (
    arith,
    sum_below-change 16 (busy w) (busy (put_context w i c)) i small (λ j apart. rw apart),
    free,
    own,
  )
    where
      own : busy (put_context w i c) i ≡ 1
      own = rw (==_refl i)

  count_own : (i : ℕ) (xs : List ℕ) → count i (i ∷ xs) ≡ 1 + count i xs
  unfolding count
  count_own i xs = ground (arith, ==_refl i)

  count_more : (i j : ℕ) (xs : List ℕ) → count i xs ≤ count i (j ∷ xs)
  unfolding count
  count_more i j xs = ground arith

  still_apart :
      (zeroed : KthreadContext) (w : World) (a : Answers) (answers : List Answers) (i : ℕ)
      → count i (apic_ids (a ∷ answers)) + busy w i ≤ 1
      → count i (apic_ids answers) + busy (put_context w a.apic_id (started zeroed a)) i ≤ 1
  unfolding count
  still_apart zeroed w a answers i h = ground (arith, put-busy w a.apic_id (started zeroed a) i)

  kthread_init_runs :
      (w : World) (c : KthreadContext) (a : Answers)
      → a.apic_id < 16
      → kthread_init w c a ≡ ok (put_context w a.apic_id (started c a))
  unfolding kthread_init
  kthread_init_runs w c a lt = ground arith

  init_kthreads_lem :
      (zeroed : KthreadContext)
      → IsZeroedContext zeroed
      → (w : World) (answers : List Answers) → AllReady w
      → ((i : ℕ) → 0 < count i (apic_ids answers) → i < 16)
      → ((i : ℕ) → count i (apic_ids answers) + busy w i ≤ 1)
      → (w' : World) × (init_kthreads w zeroed answers ≡ ok w')
        × (init_done w' ≡ init_done w + length answers)
        × AllReady w'
        × (w'.ksched_shared_info ≡ w.ksched_shared_info)
  unfolding init_kthreads
  init_kthreads_lem zeroed is w [] ready small apart = (w, refl, omega arith, ready, refl)
  init_kthreads_lem zeroed is w (a ∷ answers) ready small apart =
      let more = count_own a.apic_id (apic_ids answers) in
      let lt : a.apic_id < 16 = small a.apic_id (omega (arith, more)) in
      let free : busy w a.apic_id ≡ 0 = omega (arith, apart a.apic_id, more) in
      let next = put_context w a.apic_id (started zeroed a) in
      let (w', runs, counts, ready', shared) =
        init_kthreads_lem zeroed is next answers
          (put-AllReady w (started zeroed a) ready (init-IsSettled w.uthreads zeroed is))
          (λ i h. small i (omega (arith, h, count_more i a.apic_id (apic_ids answers))))
          (λ i. still_apart zeroed w a answers i (apart i)) in
      (
        w',
        ap (λ m. m >>= λ w''. init_kthreads w'' zeroed answers) (kthread_init_runs w zeroed a lt)
            ∙ runs,
        omega (arith, counts, put-init_done w a.apic_id (started zeroed a) lt free),
        ready',
        shared,
      )

  -- On an empty map, with contexts as `calloc` returns them, kthreads that can be created and whose
  -- APIC ids are different and below 16, the wait of `gtthread_app_init` is over once all of them
  -- have come to `kthread_init`, in whatever order, and its assertion holds: each entry of the map
  -- holds the kthread with that APIC id, whose run queues are valid and whose lock is free, as the
  -- scheduler needs it, and the three shared locks are free: of the scheduler, of the start of
  -- uthreads and of the allocator.
  pub gtthread_app_init_lem :
      (zeroed : KthreadContext)
      → IsZeroedContext zeroed
      → (w : World) → ((i : ℕ) → w.kthread_cpu_map i ≡ none)
      → (answers : List Answers) → ((i : ℕ) → 0 < count i (apic_ids answers) → i < 16)
      → ((i : ℕ) → count i (apic_ids answers) ≤ 1)
      → (w' : World) × (gtthread_app_init w zeroed true answers ≡ ok (true, w'))
        × (w'.is_kernel_thread_ready ≡ true)
        × AllReady w'
        × (w'.ksched_shared_info.ksched_lock.locked ≡ 0)
        × (w'.ksched_shared_info.uthread_init_lock.locked ≡ 0)
        × (w'.ksched_shared_info.malloc_lock.locked ≡ 0)
  unfolding AllReady gtthread_app_init init_done yield_again ksched_info_init Spinlock.init
  gtthread_app_init_lem zeroed is w empty answers small apart =
      let none_busy : (i : ℕ) → busy w i ≡ 0 = λ i. rw (empty i) in
      let w1 = record w { ksched_shared_info = ksched_info_init w.ksched_shared_info } in
      let (w', runs, counts, ready, shared) =
        init_kthreads_lem zeroed is w1 answers (λ i c is_some. absurd (cc (empty i, is_some))) small
          (λ i. omega (arith, apart i, none_busy i)) in
      let total : init_done w' ≡ length answers =
        omega (arith, counts, sum_below-zero 16 (busy w) (λ i lt. none_busy i)) in
      let ends : yield_again w' (length answers)
          ≡ ok (true, record w' { is_kernel_thread_ready = true }) =
        ground (arith, total) in
      (
        record w' { is_kernel_thread_ready = true },
        rw (gtthread_app_init, runs) ends,
        refl,
        ready,
        ap (λ s. s.ksched_lock.locked) shared,
        ap (λ s. s.uthread_init_lock.locked) shared,
        ap (λ s. s.malloc_lock.locked) shared,
      )
