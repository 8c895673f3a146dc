-- ===== src/Gtfs.antt =====
-- Assignment_3/Project3/gtfs/src/gtfs.hpp and gtfs.cpp: the maps of the file layer, and the calls on
-- its directories.
pub mod Calls
pub mod Pending
pub mod Sync
pub mod Recovery
pub mod Invariant
pub mod Kept
pub mod Reached
pub mod Open
pub mod Remove
pub mod Limit
use advanced_oslab.Prelude.{
  ℕ, zero, suc, ◌+◌, Bool, true, false, ◌&&◌, ◌||◌, not, Option, none, some, List, [], ◌∷◌, ◌++◌,
  ◌==◌, ltb, leb, length, is_some, if◌then◌else◌,
}
use advanced_oslab.Prelude.Int.{ℤ, pos, negsuc}
use advanced_oslab.Prelude.Arrays.{update}
use advanced_oslab.Prelude.Outcome.{Outcome, ok, undefined, ◌>>=◌, ◌>>◌, defined, deref}
use advanced_oslab.Text.{Bytes, same, put, c_string}
use advanced_oslab.Disk.{Disk, Os, take, write_at, slice, create, truncate}
use advanced_oslab.Entries.{split}
use advanced_oslab.Log.{Write, full_path, log_path, log_line, sync_log_to_file}

abbrev pub max_filename_len : ℕ
max_filename_len = 255

abbrev pub max_num_files_per_dir : ℕ
max_num_files_per_dir = 1024

pub record Gtfs : Type 0 where
  pub dirname : Bytes

-- `file_t`
pub record File : Type 0 where
  pub filename : Bytes
  pub file_length : ℕ
  pub is_open : ℕ

-- The disk, the memory of `file_t`s with the next free address, and the four global maps.
pub record State : Type 0 where
  pub disk : Disk
  pub files : ℕ → File
  pub next_file : ℕ
  pub directory_gtfs_mapping : Bytes → Option Gtfs
  pub file_log_updates_mapping : Bytes → Option (List Write)
  pub filename_file_t_mapping : Bytes → Option ℕ
  pub directory_files_mapping : Bytes → List Bytes

-- The 0 and the -1 of the calls.
abbrev pub success : ℤ
success = pos 0

abbrev pub failure : ℤ
failure = negsuc 0

unfoldable pub gtfs_init : Os → State → (directory : Bytes) → Option Gtfs × State
gtfs_init os s directory =
    let gtfs : Gtfs = record { dirname = directory } in
    if os.is_dir directory
    then elim (s.directory_gtfs_mapping directory) [
      | some old ↦ (some old, s)
      | none ↦ (
        some gtfs,
        record s { directory_gtfs_mapping = put s.directory_gtfs_mapping directory (some gtfs) },
      )
    ]
    else (none, s)

-- ".txt" and ".log"
abbrev pub is_data_file : Bytes → Bool
is_data_file filename =
    is_some (split (46 ∷ 116 ∷ 120 ∷ 116 ∷ []) filename)
    && not (is_some (split (46 ∷ 108 ∷ 111 ∷ 103 ∷ []) filename))

-- The loop over the directory; `false` where the function returns -1.
unfoldable pub clean_entries : Os → (dirname : Bytes) → Disk → List Bytes → Outcome (Bool × Disk)
clean_entries os dirname disk [] = ok (true, disk)
clean_entries os dirname disk (filename ∷ entries) = elim (is_data_file filename) [
  | false ↦ clean_entries os dirname disk entries
  | true ↦
      sync_log_to_file os disk dirname (full_path dirname filename) (log_path dirname filename)
      >>= λ (synced, next). elim synced [
        | false ↦ ok (false, next)
        | true ↦ clean_entries os dirname (truncate os next (log_path dirname filename)) entries
      ]
]

unfoldable pub gtfs_clean : Os → State → Option Gtfs → Outcome (ℤ × State)
unfolding clean_entries
gtfs_clean os s none = ok (failure, s)
gtfs_clean os s (some gtfs) = elim (os.entries gtfs.dirname) [
  | none ↦ ok (failure, s)
  | some entries ↦ do
    (cleaned, disk) ← clean_entries os gtfs.dirname s.disk entries
    ok (
        if cleaned
        then (
          (if os.closes gtfs.dirname then success else failure),
          record s { disk = disk; file_log_updates_mapping = λ filename. none },
        )
        else (failure, record s { disk = disk }))
]

-- The branch of `gtfs_open_file` for a name that is mapped.
unfoldable pub reopen : State → (fl file_length : ℕ) → Option ℕ × State
reopen s fl file_length = if ltb file_length (s.files fl).file_length then (none, s) else (
  some fl,
  record s {
    files = update s.files fl (record (s.files fl) { file_length = file_length; is_open = 1 });
  },
)

-- The new `file_t` in the maps.
abbrev pub recorded : State → (dirname filename : Bytes) → (fl file_length : ℕ) → State
recorded s dirname filename fl file_length = record s {
  files =
      update s.files fl (record { filename = filename; file_length = file_length; is_open = 1 });
  filename_file_t_mapping = put s.filename_file_t_mapping filename (some fl);
  directory_files_mapping =
      put s.directory_files_mapping dirname (s.directory_files_mapping dirname ++ filename ∷ []);
}

-- The branch for a name that is not mapped, on a file that `open` has created. The replay is given the
-- bare name as the path of the file.
unfoldable pub open_new :
    Os → State → (dirname filename : Bytes) → (fl file_length : ℕ) → Outcome (Option ℕ × State)
open_new os s dirname filename fl file_length =
    let s1 = recorded s dirname filename fl file_length in
    let log = log_path dirname filename in
    let cleared : Disk → State = λ disk. record s1 {
      disk = truncate os disk log;
      file_log_updates_mapping = put s1.file_log_updates_mapping filename none;
    } in
    elim (s1.disk log) [
      | none ↦ ok (some fl, cleared s1.disk)
      | some _ ↦ sync_log_to_file os s1.disk dirname filename log >>= λ (synced, disk).
          ok (if synced then (some fl, cleared disk) else (none, record s1 { disk = disk }))
    ]

unfoldable pub gtfs_open_file :
    Os → State → Option Gtfs → (filename : Bytes) → (file_length : ℕ) → Outcome (Option ℕ × State)
unfolding reopen open_new
gtfs_open_file os s gtfs filename file_length =
    let fl = s.next_file in
    let s1 = record s {
      next_file = s.next_file + 1;
      files = update s.files fl (record { filename = []; file_length = 0; is_open = 0 });
    } in
    elim gtfs [
      | none ↦ ok (none, s1)
      | some g ↦
          let path = full_path g.dirname filename in
          if ltb max_filename_len (length filename)
          then ok (none, s1)
          else if ltb max_num_files_per_dir (length (s1.directory_files_mapping g.dirname))
          then ok (none, s1)
          else if not (os.opens path)
          then ok (none, s1)
          else (let s2 = record s1 { disk = create s1.disk path } in
              if not (os.locks path)
              then ok (none, s2)
              else elim (s2.filename_file_t_mapping filename) [
                | some old ↦ ok (reopen s2 old file_length)
                | none ↦ open_new os s2 g.dirname filename fl file_length
              ])
    ]
