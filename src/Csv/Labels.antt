-- ===== src/Csv/Labels.antt =====
-- Assignment_1/Project1/gtthreads/src/gt_matrix.c: the lines of `write_to_csv` in closed form.
use advanced_oslab.Prelude.{
  ℕ, zero, suc, ◌+◌, ◌-◌, ◌*◌, ◌/◌, ◌%◌, ◌^◌, ◌<◌, ◌≤◌, ◌≡◌, inl, inr, true, false, Option, some,
  List, [], ◌∷◌, ◌++◌, ◌==◌, ltb, ◌&&◌, if◌then◌else◌, ap, refl, sym, ◌∙◌, arith, Bool-cases,
  tabulate, tabulate-next,
}
use advanced_oslab.Prelude.Outcome.{ok}
use advanced_oslab.Kthread.{UthreadTimer}
use advanced_oslab.Csv.{
  Columns, DetailedLine, CumulativeLine, Writer, m_values, c_values, cell, columns, no_time, plus,
  mean, close_group, next_size, put_line, write_line, write_lines, write_to_csv,
}

c_cell : (i : ℕ) → i < 4 → cell c_values i ≡ ok (25 * (i + 1))
c_cell zero small = refl
c_cell (suc zero) small = refl
c_cell (suc (suc zero)) small = refl
c_cell (suc (suc (suc zero))) small = refl
c_cell (suc (suc (suc (suc i)))) small = absurd (omega (arith, small))

m_cell : (i : ℕ) → i < 4 → cell m_values i ≡ ok (32 * 2 ^ i)
m_cell zero small = refl
m_cell (suc zero) small = refl
m_cell (suc (suc zero)) small = refl
m_cell (suc (suc (suc zero))) small = refl
m_cell (suc (suc (suc (suc i)))) small = absurd (omega (arith, small))

close_group-open : (i c m : ℕ) (s : Writer) → ((i + 1) % 8 == 0) ≡ false → close_group i c m s ≡ s
unfolding close_group
close_group-open i c m s e = rw (e)

close_group-full :
    (i c m : ℕ) (s : Writer)
    → ((i + 1) % 8 == 0) ≡ true
    → close_group i c m s ≡ record s {
      cumulative_file =
          s.cumulative_file ++ (record { c_value = c; m_value = m; means = mean s.totals } ∷ []);
      totals = no_time;
      c_index = if s.c_index + 1 == 4 then 0 else s.c_index + 1;
    }
unfolding close_group
close_group-full i c m s e = rw (e)

abbrev writer : ℕ → ℕ → Columns → List DetailedLine → List CumulativeLine → Writer
writer m c t d k = record {
  m_index = m;
  c_index = c;
  totals = t;
  detailed_file = d;
  cumulative_file = k;
}

writer_eq :
    (d d' : List DetailedLine) (k k' : List CumulativeLine) (t t' : Columns) (c c' m m' : ℕ)
    → d ≡ d'
    → k ≡ k'
    → t ≡ t'
    → c ≡ c'
    → m ≡ m'
    → writer m c t d k ≡ writer m' c' t' d' k'
writer_eq d d' k k' t t' c c' m m' p q r v w = λ i. record {
  m_index = w i;
  c_index = v i;
  totals = r i;
  detailed_file = p i;
  cumulative_file = q i;
}

m_index-next :
    (i : ℕ) → (if i % 32 == 0 && ltb 0 i then (i - 1) / 32 + 1 else (i - 1) / 32) ≡ (i + 1 - 1) / 32
m_index-next i = ground arith

c_index-full :
    (i : ℕ)
    → ((i + 1) % 8 == 0) ≡ true
    → (if i / 8 % 4 + 1 == 4 then 0 else i / 8 % 4 + 1) ≡ (i + 1) / 8 % 4
c_index-full i e = ground arith

size-full : (i : ℕ) → ((i + 1) % 8 == 0) ≡ true → (i - 1) / 32 ≡ (8 * (i / 8) + 6) / 32
size-full i e = ground arith

group-full : (i : ℕ) → ((i + 1) % 8 == 0) ≡ true → i / 8 + 1 ≡ (i + 1) / 8
group-full i e = ground arith

rest-full : (i : ℕ) → ((i + 1) % 8 == 0) ≡ true → (i + 1) % 8 ≡ 0
rest-full i e = ground arith

abbrev cumulative : ℕ → ℕ → Columns → CumulativeLine
cumulative c m t = record { c_value = c; m_value = m; means = t }

c_index-open : (i : ℕ) → ((i + 1) % 8 == 0) ≡ false → (i + 1) / 8 ≡ i / 8
c_index-open i e = ground arith

module _ (times : ℕ → UthreadTimer) where
  -- What so many uthreads from `first` on add up to.
  unfoldable pub total_from : (first n : ℕ) → Columns
  total_from first zero = no_time
  total_from first (suc n) = plus (total_from first n) (columns (times (first + n)))

  abbrev pub detailed_line : ℕ → DetailedLine
  detailed_line i = record {
    c_value = 25 * (i / 8 % 4 + 1);
    m_value = 32 * 2 ^ ((i - 1) / 32);
    thread_number = i;
    times = columns (times i);
  }

  abbrev pub cumulative_line : ℕ → CumulativeLine
  cumulative_line g = record {
    c_value = 25 * (g % 4 + 1);
    m_value = 32 * 2 ^ ((8 * g + 6) / 32);
    means = mean (total_from (8 * g) 8);
  }

  -- The loop when it has written the lines of the uthreads below `i`.
  abbrev pub writer_at : ℕ → Writer
  writer_at i = record {
    m_index = (i - 1) / 32;
    c_index = i / 8 % 4;
    totals = total_from (8 * (i / 8)) (i % 8);
    detailed_file = tabulate detailed_line i;
    cumulative_file = tabulate cumulative_line (i / 8);
  }

  total_from-next :
      (first n : ℕ)
      → plus (total_from first n) (columns (times (first + n))) ≡ total_from first (n + 1)
  unfolding total_from
  total_from-next first n = ground arith

  total-next :
      (i : ℕ)
      → ((i + 1) % 8 == 0) ≡ false
      → plus (total_from (8 * (i / 8)) (i % 8)) (columns (times i))
        ≡ total_from (8 * ((i + 1) / 8)) ((i + 1) % 8)
  total-next i e = ground (arith, total_from-next (8 * (i / 8)) (i % 8))

  total-full :
      (i : ℕ)
      → ((i + 1) % 8 == 0) ≡ true
      → plus (total_from (8 * (i / 8)) (i % 8)) (columns (times i)) ≡ total_from (8 * (i / 8)) 8
  total-full i e = ground (arith, total_from-next (8 * (i / 8)) (i % 8))

  abbrev added : ℕ → Writer
  added i = record (writer_at i) {
    totals = plus (writer_at i).totals (columns (times i));
    detailed_file = (writer_at i).detailed_file ++ (detailed_line i ∷ []);
  }

  line-full :
      (i : ℕ)
      → ((i + 1) % 8 == 0) ≡ true
      → cumulative (detailed_line i).c_value (detailed_line i).m_value (mean (added i).totals)
        ≡ cumulative_line (i / 8)
  line-full i e =
      λ j. cumulative (25 * (i / 8 % 4 + 1)) (32 * 2 ^ size-full i e j) (mean (total-full i e j))

  total-done :
      (i : ℕ) → ((i + 1) % 8 == 0) ≡ true → no_time ≡ total_from (8 * ((i + 1) / 8)) ((i + 1) % 8)
  unfolding total_from
  total-done i e = sym (ap (total_from (8 * ((i + 1) / 8))) (rest-full i e))

  cumulative-full :
      (i : ℕ)
      → ((i + 1) % 8 == 0) ≡ true
      → tabulate cumulative_line (i / 8)
          ++ (record {
            c_value = (detailed_line i).c_value;
            m_value = (detailed_line i).m_value;
            means = mean (added i).totals;
          }
              ∷ [])
        ≡ tabulate cumulative_line ((i + 1) / 8)
  cumulative-full i e =
      ap (λ l. tabulate cumulative_line (i / 8) ++ (l ∷ [])) (line-full i e)
      ∙ tabulate-next cumulative_line (i / 8)
      ∙ ap (tabulate cumulative_line) (group-full i e)

  put_line_lem : (i : ℕ) → put_line i (detailed_line i) (writer_at i) ≡ writer_at (i + 1)
  unfolding put_line
  put_line_lem i = elim (Bool-cases ((i + 1) % 8 == 0)) [
    | inl e ↦
        ap (next_size i)
          (close_group-full i (detailed_line i).c_value (detailed_line i).m_value (added i) e)
        ∙ writer_eq _ _ _ _ _ _ _ _ _ _ (tabulate-next detailed_line i) (cumulative-full i e)
            (total-done i e) (c_index-full i e) (m_index-next i)
    | inr e ↦
        ap (next_size i)
          (close_group-open i (detailed_line i).c_value (detailed_line i).m_value (added i) e)
        ∙ writer_eq _ _ _ _ _ _ _ _ _ _ (tabulate-next detailed_line i)
            (ap (tabulate cumulative_line) (sym (c_index-open i e))) (total-next i e)
            (ap (λ x. x % 4) (sym (c_index-open i e))) (m_index-next i)
  ]

  module _ (data_list : ℕ → Option UthreadTimer)
      (filled : (i : ℕ) → i < 128 → data_list i ≡ some (times i)) where
    write_line_lem :
        (i : ℕ) → i < 128 → write_line data_list i (writer_at i) ≡ ok (writer_at (i + 1))
    unfolding write_line
    write_line_lem i small = rw (
      filled i small,
      c_cell (i / 8 % 4) (omega arith),
      m_cell ((i - 1) / 32) (omega arith),
      put_line_lem i,
    )

    write_lines_lem :
        (rounds i : ℕ)
        → i + rounds ≤ 128
        → write_lines data_list rounds i (writer_at i) ≡ ok (writer_at (i + rounds))
    unfolding write_lines
    write_lines_lem zero i small = ap (λ x. ok (writer_at x)) (omega arith)
    write_lines_lem (suc rounds) i small =
        rw (write_line_lem i (omega arith), write_lines_lem rounds (i + 1) (omega arith))
          (ap (λ x. ok (writer_at x)) (omega arith))

    -- When both files are open and the times of all 128 uthreads are there, `write_to_csv` writes
    -- one detailed line for each uthread and one line of means for every eight of them; line `i` is
    -- labelled with the credit 25 * ((i / 8) mod 4 + 1) and the size 32 * 2 ^ ((i - 1) / 32), where
    -- 0 - 1 is 0, and its waiting time is the running time less the processor time.
    pub write_to_csv_lem :
        write_to_csv true data_list ≡ ok (tabulate detailed_line 128, tabulate cumulative_line 16)
    unfolding write_to_csv tabulate total_from
    write_to_csv_lem = rw (write_lines_lem 128 0 (omega arith))
