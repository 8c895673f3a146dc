-- ===== src/Spinlock.antt =====
-- Assignment_1/Project1/gtthreads/src/gt_spinlock.h and gt_spinlock.c: a lock in one word, as the
-- calls see it. `Spinlock.Threads` has the same code one memory access at a time.
pub mod Threads
pub mod Exclusion
pub mod Progress
use advanced_oslab.Prelude.{ℕ, Option, none, some, ◌==◌, if◌then◌else◌}
use advanced_oslab.Prelude.Int.{ℤ, pos, negsuc}
use advanced_oslab.Prelude.Outcome.{Outcome, ok, spins, ◌>>=◌}

pub record Spinlock : Type 0 where
  pub locked : ℕ
  pub holder : ℕ

-- The calls' results for a pointer that is not NULL. Nothing else runs, so a lock that is taken is
-- waited for without end.
unfoldable pub init : Spinlock → Spinlock
init spinlock = record spinlock { locked = 0 }

unfoldable pub acquire : Spinlock → Outcome Spinlock
acquire spinlock = if spinlock.locked == 0 then ok (record spinlock { locked = 1 }) else spins

unfoldable pub release : Spinlock → Spinlock
release spinlock = if spinlock.locked == 0 then spinlock else record spinlock { locked = 0 }

-- The three calls, with their test of the pointer: the value returned, and what is at the pointer.
unfoldable pub gt_spinlock_init : Option Spinlock → ℤ × Option Spinlock
unfolding init
gt_spinlock_init none = (negsuc 0, none)
gt_spinlock_init (some spinlock) = (pos 0, some (init spinlock))

unfoldable pub gt_spin_lock : Option Spinlock → Outcome (ℤ × Option Spinlock)
unfolding acquire
gt_spin_lock none = ok (negsuc 0, none)
gt_spin_lock (some spinlock) = do taken ← acquire spinlock; ok (pos 0, some taken)

unfoldable pub gt_spin_unlock : Option Spinlock → ℤ × Option Spinlock
unfolding release
gt_spin_unlock none = (negsuc 0, none)
gt_spin_unlock (some spinlock) = (pos 0, some (release spinlock))
