-- ===== src/Csv.antt =====
-- Assignment_1/Project1/gtthreads/src/gt_matrix.c: `write_to_csv`, the lines behind the headers.
pub mod Labels
use advanced_oslab.Prelude.{
  ℕ, zero, suc, ◌+◌, ◌/◌, ◌%◌, Bool, Option, List, [], ◌∷◌, ◌++◌, ◌==◌, ltb, ◌&&◌, head?,
  if◌then◌else◌,
}
use advanced_oslab.Prelude.Int.{ℤ, pos, sub_ℕ, pos_part, neg_part, ◌-ℤ◌, ◌+ℤ◌}
use advanced_oslab.Prelude.Outcome.{Outcome, ok, ◌>>=◌, ◌>>◌, deref}
use advanced_oslab.Kthread.{UthreadTimer}

-- Division of a `long` towards zero.
abbrev pub quotient : ℤ → ℕ → ℤ
quotient z n = sub_ℕ (pos_part z / n) (neg_part z / n)

-- The three columns of times of a line.
pub record Columns : Type 0 where
  pub cpu_time_us : ℤ
  pub wait_time_us : ℤ
  pub exec_time_us : ℤ

-- A line of the detailed file.
pub record DetailedLine : Type 0 where
  pub c_value : ℕ
  pub m_value : ℕ
  pub thread_number : ℕ
  pub times : Columns

-- A line of the cumulative file.
pub record CumulativeLine : Type 0 where
  pub c_value : ℕ
  pub m_value : ℕ
  pub means : Columns

-- The variables of the loop, and what the two files hold.
pub record Writer : Type 0 where
  pub m_index : ℕ
  pub c_index : ℕ
  pub totals : Columns
  pub detailed_file : List DetailedLine
  pub cumulative_file : List CumulativeLine

abbrev pub m_values : List ℕ
m_values = 32 ∷ 64 ∷ 128 ∷ 256 ∷ []

abbrev pub c_values : List ℕ
c_values = 25 ∷ 50 ∷ 75 ∷ 100 ∷ []

-- An array read, which is undefined out of bounds.
abbrev pub cell : List ℕ → ℕ → Outcome ℕ
cell xs zero = deref (head? xs)
cell [] (suc i) = deref (head? [])
cell (x ∷ xs) (suc i) = cell xs i

abbrev pub columns : UthreadTimer → Columns
columns t = record {
  cpu_time_us = t.cpu_time;
  wait_time_us = t.running_time -ℤ t.cpu_time;
  exec_time_us = t.running_time;
}

abbrev pub no_time : Columns
no_time = record { cpu_time_us = pos 0; wait_time_us = pos 0; exec_time_us = pos 0 }

abbrev pub plus : Columns → Columns → Columns
plus a b = record {
  cpu_time_us = a.cpu_time_us +ℤ b.cpu_time_us;
  wait_time_us = a.wait_time_us +ℤ b.wait_time_us;
  exec_time_us = a.exec_time_us +ℤ b.exec_time_us;
}

abbrev pub mean : Columns → Columns
mean t = record {
  cpu_time_us = quotient t.cpu_time_us 8;
  wait_time_us = quotient t.wait_time_us 8;
  exec_time_us = quotient t.exec_time_us 8;
}

-- `if ((i+1) % 8 == 0)`: the line of means behind every eighth uthread.
unfoldable pub close_group : ℕ → (c m : ℕ) → Writer → Writer
close_group i c m s =
    if (i + 1) % 8 == 0
    then record s {
      cumulative_file =
          s.cumulative_file ++ (record { c_value = c; m_value = m; means = mean s.totals } ∷ []);
      totals = no_time;
      c_index = if s.c_index + 1 == 4 then 0 else s.c_index + 1;
    }
    else s

-- `if (i % 32 == 0 && i > 0)`
abbrev pub next_size : ℕ → Writer → Writer
next_size i s = record s { m_index = if i % 32 == 0 && ltb 0 i then s.m_index + 1 else s.m_index }

-- The round of the loop that writes this line.
unfoldable pub put_line : ℕ → DetailedLine → Writer → Writer
unfolding close_group
put_line i line s = next_size i (
    close_group i line.c_value line.m_value (record s {
      totals = plus s.totals line.times;
      detailed_file = s.detailed_file ++ (line ∷ []);
    }))

unfoldable pub write_line : (ℕ → Option UthreadTimer) → ℕ → Writer → Outcome Writer
unfolding put_line
write_line data_list i s = do
  t ← deref (data_list i)
  c ← cell c_values s.c_index
  m ← cell m_values s.m_index
  ok (put_line i (record { c_value = c; m_value = m; thread_number = i; times = columns t }) s)

-- The loop from uthread `i` on, with so many rounds to go.
unfoldable pub write_lines : (ℕ → Option UthreadTimer) → (rounds i : ℕ) → Writer → Outcome Writer
unfolding write_line
write_lines data_list zero i s = ok s
write_lines data_list (suc rounds) i s =
    write_line data_list i s >>= λ next. write_lines data_list rounds (i + 1) next

-- `write_to_csv`, where `files_open` says whether both calls of `fopen` succeed.
unfoldable pub write_to_csv :
    Bool → (ℕ → Option UthreadTimer) → Outcome (List DetailedLine × List CumulativeLine)
unfolding write_lines
write_to_csv files_open data_list =
    let written = write_lines data_list 128 0 (record {
      m_index = 0;
      c_index = 0;
      totals = no_time;
      detailed_file = [];
      cumulative_file = [];
    }) in
    if files_open then written >>= (λ s. ok (s.detailed_file, s.cumulative_file)) else ok ([], [])
