-- ===== src/Spinlock/Exclusion.antt =====
-- Assignment_1/Project1/gtthreads/src/gt_spinlock.c: the owners of the lock in the states that
-- threads reach.
use advanced_oslab.Prelude.{ℕ, ◌≤◌, ◌≡◌, ◌⊎◌, inl, inr, refl, true, false, arith, ◌==◌, Bool-cases}
use advanced_oslab.Prelude.Arrays.{update}
use advanced_oslab.Spinlock.Threads.{
  Pc, idle, Move, call, see_held, see_free, win, lose, unlock, find_set, find_clear, clear, State,
  pick, start, Reach, here, next, owns,
}

record Inv (locked : ℕ) (pc : ℕ → Pc) : Type 0 where
  word : locked ≤ 1
  taken : (i : ℕ) → owns (pc i) ≡ true → locked ≡ 1
  single : (i j : ℕ) → owns (pc i) ≡ true → owns (pc j) ≡ true → i ≡ j
  owned : locked ≡ 1 → (i : ℕ) × (owns (pc i) ≡ true)

Inv-start : Inv 0 (λ _. idle)
Inv-start = record {
  word = omega arith;
  taken = λ i. cc;
  single = λ i j. cc;
  owned = λ e. absurd (omega arith);
}

module _ {locked : ℕ} {pc : ℕ → Pc} (inv : Inv locked pc) (i : ℕ) where
  Move-word : {l : ℕ} {p p' : Pc} → Move locked p l p' → l ≤ 1
  Move-word call = inv.word
  Move-word (see_held h) = inv.word
  Move-word (see_free h) = inv.word
  Move-word (win h) = omega arith
  Move-word (lose h) = omega arith
  Move-word unlock = inv.word
  Move-word (find_set h) = inv.word
  Move-word (find_clear h) = inv.word
  Move-word clear = omega arith

  Move-taken :
      {l : ℕ} {p p' : Pc}
      → Move locked p l p'
      → pc i ≡ p
      → (j : ℕ) → owns (update pc i p' j) ≡ true
      → l ≡ 1
  Move-taken (win h) e j o = refl
  Move-taken (lose h) e j o = refl
  Move-taken mv e j o = ground (arith, inv.taken j, inv.taken i, inv.single i j)

  Move-single :
      {l : ℕ} {p p' : Pc}
      → Move locked p l p'
      → pc i ≡ p
      → (j k : ℕ) → owns (update pc i p' j) ≡ true
      → owns (update pc i p' k) ≡ true
      → j ≡ k
  Move-single (win h) e j k oj ok = ground (arith, inv.taken j, inv.taken k)
  Move-single mv e j k oj ok = ground (arith, inv.single j k, inv.single i k, inv.single j i)

  Move-owned :
      {l : ℕ} {p p' : Pc}
      → Move locked p l p'
      → pc i ≡ p
      → l ≡ 1
      → (j : ℕ) × (owns (update pc i p' j) ≡ true)
  Move-owned (win h) e is = (i, ground arith)
  Move-owned unlock e is = (i, ground arith)
  Move-owned (find_set h) e is = (i, ground arith)
  Move-owned (find_clear h) e is = absurd (omega arith)
  Move-owned clear e is = absurd (omega arith)
  Move-owned (lose h) e is = let (j, o) = inv.owned (omega (arith, inv.word)) in (j, ground arith)
  Move-owned mv e is = let (j, o) = inv.owned is in (j, ground arith)

  Move-Inv : {l : ℕ} {p' : Pc} → Move locked (pc i) l p' → Inv l (update pc i p')
  Move-Inv mv = record {
    word = Move-word mv;
    taken = Move-taken mv refl;
    single = Move-single mv refl;
    owned = Move-owned mv refl;
  }

Reach-Inv : {s : State} → Reach start s → Inv s.locked s.pc
Reach-Inv here = Inv-start
Reach-Inv (next r (pick i mv)) = Move-Inv (Reach-Inv r) i mv

-- In every state that interleavings of threads reach from `gt_spinlock_init`, at most one thread is
-- between the exchange in `gt_spin_lock` that took the lock and the write in `gt_spin_unlock` that
-- gives it back.
pub mutual_exclusion :
    {s : State} → Reach start s → (i j : ℕ) → owns (s.pc i) ≡ true → owns (s.pc j) ≡ true → i ≡ j
mutual_exclusion r = (Reach-Inv r).single

-- In every reachable state the lock word is 0 and no thread owns the lock, or it is 1 and a thread
-- owns it.
pub word-owns :
    {s : State}
    → Reach start s
    → ((s.locked ≡ 0) × ((i : ℕ) → owns (s.pc i) ≡ false))
      ⊎ ((s.locked ≡ 1) × ((i : ℕ) × (owns (s.pc i) ≡ true)))
word-owns {s} r = elim (Bool-cases (s.locked == 0)) [
  | inl free ↦ inl (ground arith, λ i. ground (arith, (Reach-Inv r).taken i))
  | inr held ↦
      let is : s.locked ≡ 1 = ground (arith, (Reach-Inv r).word) in inr (is, (Reach-Inv r).owned is)
]

pub owns-word : {s : State} → Reach start s → (i : ℕ) → owns (s.pc i) ≡ true → s.locked ≡ 1
owns-word r i o = (Reach-Inv r).taken i o
