-- ===== src/Spinlock/Threads.antt =====
-- `gt_actual_spinlock` and `gt_spin_unlock` one access to the lock word at a time, run by any
-- number of threads in any order.
use advanced_oslab.Prelude.{ℕ, ◌≡◌, ◌≢◌, Bool, true, false}
use advanced_oslab.Prelude.Arrays.{update}

-- Where a thread stands.
pub data Pc : Type 0 where
  idle : Pc  -- outside
  reading : Pc  -- before the read of `*spinlock`
  exchanging : Pc  -- before the `xchg`
  critical : Pc  -- `gt_spin_lock` has returned
  checking : Pc  -- before `if (spinlock->locked)`
  clearing : Pc  -- before `spinlock->locked = 0`

-- One step of a thread: the lock word and its place before, and after. A thread calls
-- `gt_spin_unlock` only when `gt_spin_lock` has returned.
pub data Move (locked : ℕ) : Pc → ℕ → Pc → Type 0 where
  call : Move locked idle locked reading
  see_held : locked ≢ 0 → Move locked reading locked reading
  see_free : locked ≡ 0 → Move locked reading locked exchanging
  win : locked ≡ 0 → Move locked exchanging 1 critical
  lose : locked ≢ 0 → Move locked exchanging 1 reading
  unlock : Move locked critical locked checking
  find_set : locked ≢ 0 → Move locked checking locked clearing
  find_clear : locked ≡ 0 → Move locked checking locked idle
  clear : Move locked clearing 0 idle

pub record State : Type 0 where
  pub locked : ℕ
  pub pc : ℕ → Pc

pub data Step (s : State) : State → Type 0 where
  pick :
      (i : ℕ) {locked : ℕ} {p : Pc}
      → Move s.locked (s.pc i) locked p
      → Step s (record { locked = locked; pc = update s.pc i p })

-- After `gt_spinlock_init`, with no thread at the lock.
abbrev pub start : State
start = record { locked = 0; pc = λ _. idle }

pub data Reach (s : State) : State → Type 0 where
  here : Reach s s
  next : {t u : State} → Reach s t → Step t u → Reach s u

-- Between the exchange that took the lock and the write that gives it back.
abbrev pub owns : Pc → Bool
owns critical = true
owns checking = true
owns clearing = true
owns _ = false

-- In a call of `gt_spin_lock` that has not returned.
abbrev pub waits : Pc → Bool
waits reading = true
waits exchanging = true
waits _ = false
