-- ===== src/Spinlock/Progress.antt =====
-- Assignment_1/Project1/gtthreads/src/gt_spinlock.c: a thread at the lock that runs alone.
use advanced_oslab.Prelude.{ℕ, ◌≡◌, ◌≢◌, ◌⊎◌, inl, inr, refl, true, arith, ==_refl}
use advanced_oslab.Prelude.Arrays.{update}
use advanced_oslab.Spinlock.Threads.{
  Pc, idle, reading, exchanging, critical, checking, clearing, Move, see_free, win, unlock,
  find_set, clear, State, start, Reach, owns, waits,
}
use advanced_oslab.Spinlock.Exclusion.{word-owns, owns-word}

-- Moves of thread `i` only.
pub data Alone (i : ℕ) (s : State) : State → Type 0 where
  stay : Alone i s s
  go :
      {t : State} {locked : ℕ} {p : Pc}
      → Alone i s t
      → Move t.locked (t.pc i) locked p
      → Alone i s (record { locked = locked; pc = update t.pc i p })

abbrev at : State → ℕ → ℕ → Pc → State
at s i locked p = record { locked = locked; pc = update s.pc i p }

-- One more move, from a place that an equation gives.
move :
    {i : ℕ} {s t : State} {locked : ℕ} {p p' : Pc}
    → Alone i s t
    → t.pc i ≡ p
    → Move t.locked p locked p'
    → Alone i s (at t i locked p')
move r e mv = go r (rw e mv)

at_self : (s : State) (i l : ℕ) (p : Pc) → (at s i l p).pc i ≡ p
at_self s i l p = rw (==_refl i)

module _ (i : ℕ) (s : State) where
  take_from_exchange :
      {t : State}
      → Alone i s t
      → t.pc i ≡ exchanging
      → t.locked ≡ 0
      → (u : State) × Alone i s u × (u.locked ≡ 1) × (u.pc i ≡ critical)
  take_from_exchange {t} r e free =
      (at t i 1 critical, move r e (win free), refl, at_self t i 1 critical)

  take_from_read :
      {t : State}
      → Alone i s t
      → t.pc i ≡ reading
      → t.locked ≡ 0
      → (u : State) × Alone i s u × (u.locked ≡ 1) × (u.pc i ≡ critical)
  take_from_read {t} r e free =
      take_from_exchange (move r e (see_free free)) (at_self t i t.locked exchanging) free

  take :
      waits (s.pc i) ≡ true
      → s.locked ≡ 0
      → (u : State) × Alone i s u × (u.locked ≡ 1) × (u.pc i ≡ critical)
  take w free = go_on (s.pc i) refl w
    where
      go_on :
          (p : Pc)
          → s.pc i ≡ p
          → waits p ≡ true
          → (u : State) × Alone i s u × (u.locked ≡ 1) × (u.pc i ≡ critical)
      go_on idle e w = cc
      go_on reading e w = take_from_read stay e free
      go_on exchanging e w = take_from_exchange stay e free
      go_on critical e w = cc
      go_on checking e w = cc
      go_on clearing e w = cc

  give_from_clear :
      {t : State}
      → Alone i s t
      → t.pc i ≡ clearing
      → (u : State) × Alone i s u × (u.locked ≡ 0) × (u.pc i ≡ idle)
  give_from_clear {t} r e = (at t i 0 idle, move r e clear, refl, at_self t i 0 idle)

  give_from_check :
      {t : State}
      → Alone i s t
      → t.pc i ≡ checking
      → t.locked ≢ 0
      → (u : State) × Alone i s u × (u.locked ≡ 0) × (u.pc i ≡ idle)
  give_from_check {t} r e held =
      give_from_clear (move r e (find_set held)) (at_self t i t.locked clearing)

  give :
      owns (s.pc i) ≡ true
      → s.locked ≢ 0
      → (u : State) × Alone i s u × (u.locked ≡ 0) × (u.pc i ≡ idle)
  give o held = go_on (s.pc i) refl o
    where
      go_on :
          (p : Pc)
          → s.pc i ≡ p
          → owns p ≡ true
          → (u : State) × Alone i s u × (u.locked ≡ 0) × (u.pc i ≡ idle)
      go_on idle e w = cc
      go_on reading e w = cc
      go_on exchanging e w = cc
      go_on critical e w = give_from_check (move stay e unlock) (at_self s i s.locked checking) held
      go_on checking e w = give_from_check stay e held
      go_on clearing e w = give_from_clear stay e

-- In every reachable state, a thread that waits in `gt_spin_lock` finds an owner, or takes the lock
-- when it runs alone; and an owner gives the lock back when it runs alone.
pub no_deadlock :
    {s : State}
    → Reach start s
    → (i : ℕ)
    → (waits (s.pc i) ≡ true
        → ((j : ℕ) × (owns (s.pc j) ≡ true))
          ⊎ ((t : State) × Alone i s t × (t.locked ≡ 1) × (t.pc i ≡ critical)))
      × (owns (s.pc i) ≡ true → (t : State) × Alone i s t × (t.locked ≡ 0) × (t.pc i ≡ idle))
no_deadlock {s} r i = (
  λ w. elim (word-owns r) [ inl free ↦ inr (take i s w free.0) | inr held ↦ inl held.1 ],
  λ o. give i s o (ground (arith, owns-word r i o)),
)
