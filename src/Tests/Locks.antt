-- ===== src/Tests/Locks.antt =====
-- The spinlock, the choice of a kthread, and the example program at work.
use advanced_oslab.Prelude.{
  ℕ, ◌+◌, ◌*◌, ◌≤◌, ◌≡◌, ◌⊎◌, refl, Option, none, some, true, ◌||◌, ◌==◌, if◌then◌else◌, tabulate,
  arith,
}
use advanced_oslab.Prelude.Arrays.{update}
use advanced_oslab.Prelude.Int.{pos}
use advanced_oslab.Prelude.Outcome.{ok}
use advanced_oslab.Spinlock.Threads.{
  idle, reading, exchanging, critical, call, see_free, win, State, pick, start, Reach, here, next,
  owns,
}
use advanced_oslab.Spinlock.Exclusion.{mutual_exclusion}
use advanced_oslab.Spinlock.Progress.{Alone, no_deadlock}
use advanced_oslab.Kthread.{UthreadTimer}
use advanced_oslab.Create.{find_cpu}
use advanced_oslab.Create.Target.{after, IsNext, find_cpu_lem}
use advanced_oslab.Matrix.{Matrix, generate_matrix}
use advanced_oslab.Csv.{write_to_csv}
use advanced_oslab.Csv.Labels.{detailed_line, cumulative_line, write_to_csv_lem}
use advanced_oslab.Tests.Fixtures.{queue}

-- Thread 5 has taken the lock, and thread 6 waits for it.
abbrev contended : State
contended = record {
  locked = 1;
  pc = update (update (update (update (λ _. idle) 5 reading) 5 exchanging) 5 critical) 6 reading;
}

contended-Reach : Reach start contended
contended-Reach =
    next (next (next (next here (pick 5 call)) (pick 5 (see_free refl))) (pick 5 (win refl)))
      (pick 6 call)

abbrev owner : ℕ
owner = 5

exclusion_example : owner ≡ 5
exclusion_example = mutual_exclusion contended-Reach owner 5 refl refl

deadlock_example :
    ((j : ℕ) × (owns (contended.pc j) ≡ true))
    ⊎ ((t : State) × Alone 6 contended t × (t.locked ≡ 1) × (t.pc 6 ≡ critical))
deadlock_example = let (waiting, owning) = no_deadlock contended-Reach 6 in waiting refl

abbrev kthread_cpus : ℕ → Option ℕ
kthread_cpus i = if i == 2 || i == 9 then some i else none

find_cpu_example :
    (steps : ℕ) × (find_cpu kthread_cpus 16 2 ≡ some (after 2 steps))
    × IsNext kthread_cpus 2 steps
    × (steps ≤ 16)
find_cpu_example = find_cpu_lem kthread_cpus 2 9 (omega arith) (omega arith) refl

abbrev ones : Matrix
ones = generate_matrix (record { m = λ i j. 0; rows = 0; cols = 0 }) 1 64

abbrev timers : ℕ → UthreadTimer
timers i = record { running_time = pos (10 * i + 5); cpu_time = pos 3 }

csv_example :
    write_to_csv true (λ i. some (timers i))
    ≡ ok (tabulate (detailed_line timers) 128, tabulate (cumulative_line timers) 16)
csv_example = write_to_csv_lem timers (λ i. some (timers i)) (λ i small. refl)
