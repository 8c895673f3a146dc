-- ===== src/Create/Target.antt =====
-- Assignment_1/Project1/gtthreads/src/gt_kthread.c: the loop of `ksched_find_target`.
use advanced_oslab.Prelude.{
  ℕ, zero, suc, ◌+◌, ◌-◌, ◌%◌, ◌≤◌, ◌<◌, ◌≡◌, ap, sym, ◌∙◌, true, false, Option, none, some, arith,
  ◌==◌, inl, inr, Option-cases, Bool-cases, is_some,
}
use mathlib.Core.Path.{subst}
use advanced_oslab.Create.{find_cpu}

-- `steps` rounds after `target`, modulo 16.
abbrev pub after : ℕ → ℕ → ℕ
after target steps = (target + steps) % 16

after-after : (t e : ℕ) → after (after t 1) e ≡ after t (e + 1)
after-after t e = omega arith

module _ {ℓ} {A : Type ℓ} (kthread_cpu_map : ℕ → Option A) where
  -- The first round at which an entry is not NULL.
  pub record IsNext (target steps : ℕ) : Type ℓ where
    pub steps_pos : 0 < steps
    pub found : is_some (kthread_cpu_map (after target steps)) ≡ true
    pub passed : (e : ℕ) → 0 < e → e < steps → kthread_cpu_map (after target e) ≡ none

  not_first :
      (target d : ℕ)
      → is_some (kthread_cpu_map (after target d)) ≡ true
      → kthread_cpu_map (after target 1) ≡ none
      → (d == 1) ≡ false
  not_first target d here missing = elim (Bool-cases (d == 1)) [
    | inl e ↦
        let is : d ≡ 1 = ground arith in
        let here' : is_some (kthread_cpu_map (after target 1)) ≡ true =
          subst (λ k. is_some (kthread_cpu_map (after target k)) ≡ true) is here in
        absurd (ground arith)
    | inr ne ↦ ne
  ]

  IsNext-later :
      (target steps : ℕ)
      → kthread_cpu_map (after target 1) ≡ none
      → IsNext (after target 1) steps
      → IsNext target (steps + 1)
  IsNext-later target steps missing is = record {
    steps_pos = omega arith;
    found = subst (λ i. is_some (kthread_cpu_map i) ≡ true) (after-after target steps) is.found;
    passed = passed_later;
  }
    where
      passed_later : (e : ℕ) → 0 < e → e < steps + 1 → kthread_cpu_map (after target e) ≡ none
      passed_later zero p q = absurd (omega arith)
      passed_later (suc zero) p q = missing
      passed_later (suc (suc e)) p q =
          subst (λ i. kthread_cpu_map i ≡ none)
            (after-after target (suc e) ∙ ap (after target) (omega arith))
            (is.passed (suc e) (omega arith) (omega arith))

  find_cpu-IsNext :
      (rounds target d : ℕ)
      → target < 16
      → 0 < d
      → d ≤ rounds
      → is_some (kthread_cpu_map (after target d)) ≡ true
      → (steps : ℕ) × (find_cpu kthread_cpu_map rounds target ≡ some (after target steps))
        × IsNext target steps
        × (steps ≤ rounds)
  unfolding find_cpu
  find_cpu-IsNext zero target d small pos le here = absurd (omega arith)
  find_cpu-IsNext (suc rounds) target d small pos le here =
      elim (Option-cases (kthread_cpu_map ((target + 1) % 16))) [
        | inl missing ↦
            let d_ne : (d == 1) ≡ false = not_first target d here missing in
            let back : d - 1 + 1 ≡ d = omega arith in
            let there : is_some (kthread_cpu_map (after (after target 1) (d - 1))) ≡ true =
              rw (after-after target (d - 1), back) here in
            let (steps, e, is, below) =
              find_cpu-IsNext rounds (after target 1) (d - 1) (omega arith) (ground arith)
                (omega arith) there in
            (
              steps + 1,
              rw (missing, find_cpu, ← after-after target steps) e,
              IsNext-later target steps missing is,
              omega arith,
            )
        | inr (c, e) ↦ (
          1,
          rw (e, find_cpu),
          record {
            steps_pos = omega arith;
            found = rw (e);
            passed = λ e p q. absurd (omega arith);
          },
          omega arith,
        )
      ]

  -- If some entry of the map is not NULL, sixteen rounds are enough for the loop of
  -- `ksched_find_target`, and it ends at the first entry after the last target, round robin, that is
  -- not NULL.
  pub find_cpu_lem :
      (target t : ℕ)
      → target < 16
      → t < 16
      → is_some (kthread_cpu_map t) ≡ true
      → (steps : ℕ) × (find_cpu kthread_cpu_map 16 target ≡ some (after target steps))
        × IsNext target steps
        × (steps ≤ 16)
  find_cpu_lem target t small t_small here =
      let d : ℕ = (t + 16 - target - 1) % 16 + 1 in
      let same : after target d ≡ t = omega arith in
      find_cpu-IsNext 16 target d small (omega arith) (omega arith)
        (subst (λ i. is_some (kthread_cpu_map i) ≡ true) (sym same) here)
