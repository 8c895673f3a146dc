-- ===== src/Gtfs/Limit.antt =====
-- Assignment_3/Project3/gtfs/src/gtfs.cpp: the limit of MAX_NUM_FILES_PER_DIR names in a directory.
use advanced_oslab.Prelude.{
  ℕ, ◌+◌, List, ◌∙◌, ◌≡◌, refl, ap, true, none, some, [], ◌∷◌, ltb, length, length-append, arith,
  Bool-cases, inl, inr,
}
use advanced_oslab.Prelude.Arrays.{update}
use advanced_oslab.Prelude.Outcome.{ok}
use advanced_oslab.Text.{Bytes}
use advanced_oslab.Disk.{Os}
use advanced_oslab.Log.{log_path}
use advanced_oslab.Gtfs.{Gtfs, State, gtfs_open_file, max_filename_len, max_num_files_per_dir}
use advanced_oslab.Gtfs.Open.{CanOpen, open_new_lem}

open_full :
    (os : Os) (s : State) (g : Gtfs) (filename : Bytes) (file_length : ℕ)
    → length (s.directory_files_mapping g.dirname) ≡ max_num_files_per_dir + 1
    → (s' : State) × (gtfs_open_file os s (some g) filename file_length ≡ ok (none, s'))
      × (s'.filename_file_t_mapping ≡ s.filename_file_t_mapping)
      × (s'.directory_files_mapping ≡ s.directory_files_mapping)
unfolding gtfs_open_file
open_full os s g filename file_length full =
    let over : ltb max_num_files_per_dir (length (s.directory_files_mapping g.dirname)) ≡ true =
      ground (arith, full) in
    let s' = record s {
      next_file = s.next_file + 1;
      files = update s.files s.next_file (record { filename = []; file_length = 0; is_open = 0 });
    } in
    elim (Bool-cases (ltb max_filename_len (length filename))) [
      | inl long ↦ (s', rw long refl, refl, refl)
      | inr short ↦ (s', rw (short, over) refl, refl, refl)
    ]

-- Calls of `gtfs_open_file` for a directory, one after the other, each of which returns NULL and records
-- nothing.
abbrev pub AreRefused : Os → Gtfs → State → List (Bytes × ℕ) → Type 0
AreRefused os g s [] = Unit
AreRefused os g s ((filename, file_length) ∷ calls) =
    (s' : State) × (gtfs_open_file os s (some g) filename file_length ≡ ok (none, s'))
    × (s'.filename_file_t_mapping ≡ s.filename_file_t_mapping)
    × (s'.directory_files_mapping ≡ s.directory_files_mapping)
    × AreRefused os g s' calls

full-AreRefused :
    (os : Os) (g : Gtfs) (s : State) (calls : List (Bytes × ℕ))
    → length (s.directory_files_mapping g.dirname) ≡ max_num_files_per_dir + 1
    → AreRefused os g s calls
full-AreRefused os g s [] full = tt
full-AreRefused os g s ((filename, file_length) ∷ calls) full =
    let (s', refused, mapped, names) = open_full os s g filename file_length full in
    (
      s',
      refused,
      mapped,
      names,
      full-AreRefused os g s' calls (ap (λ m. length (m g.dirname)) names ∙ full),
    )

-- In a directory with exactly 1024 recorded names, `gtfs_open_file` of a new name of at most 255
-- bytes without a log, with system calls that succeed, returns a file: the directory then has 1025
-- names, and each of any number of calls of `gtfs_open_file` for that directory that follow one
-- after the other, with no other call in between, returns NULL and records nothing.
pub open-last :
    (os : Os) (s : State) (g : Gtfs) (filename : Bytes) (file_length : ℕ)
    → CanOpen os s g.dirname filename
    → length (s.directory_files_mapping g.dirname) ≡ max_num_files_per_dir
    → s.filename_file_t_mapping filename ≡ none
    → s.disk (log_path g.dirname filename) ≡ none
    → os.opens (log_path g.dirname filename) ≡ true
    → (s' : State) × (gtfs_open_file os s (some g) filename file_length ≡ ok (some s.next_file, s'))
      × (length (s'.directory_files_mapping g.dirname) ≡ max_num_files_per_dir + 1)
      × ((calls : List (Bytes × ℕ)) → AreRefused os g s' calls)
open-last os s g filename file_length can limit unmapped no_log opens_log =
    let (s', opened, file, mapped, names, log, rest) =
      open_new_lem os s g filename file_length can unmapped no_log opens_log in
    let over : length (s'.directory_files_mapping g.dirname) ≡ max_num_files_per_dir + 1 = omega (
      arith,
      limit,
      ap length names,
      length-append (s.directory_files_mapping g.dirname) (filename ∷ []),
    ) in
    (s', opened, over, λ calls. full-AreRefused os g s' calls over)
