-- ===== src/Gtfs/Open.antt =====
-- Assignment_3/Project3/gtfs/src/gtfs.cpp: `gtfs_open_file` on a name that is new to the program, with and
-- without a log on disk, and on one that it knows.
use advanced_oslab.Prelude.{
  ℕ, ◌+◌, ◌≤◌, ◌<◌, ◌≡◌, refl, ap, ◌∙◌, true, false, none, some, [], ◌∷◌, ◌++◌, ==_refl, ltb,
  length, length-append, is_some, arith, Bool-cases, inl, inr,
}
use advanced_oslab.Prelude.Arrays.{update}
use advanced_oslab.Prelude.Outcome.{ok}
use advanced_oslab.Text.{Bytes, same, same_iff, put, put_self}
use advanced_oslab.Disk.{Disk, Os, create, truncate}
use advanced_oslab.Log.{full_path, log_path, sync_log_to_file}
use advanced_oslab.Gtfs.{
  Gtfs, State, reopen, recorded, open_new, gtfs_open_file, max_num_files_per_dir, max_filename_len,
}

-- No limit is reached, and the file can be opened and locked.
pub record CanOpen (os : Os) (s : State) (dirname filename : Bytes) : Type 0 where
  pub short : length filename ≤ max_filename_len
  pub room : length (s.directory_files_mapping dirname) ≤ max_num_files_per_dir
  pub opens : os.opens (full_path dirname filename) ≡ true
  pub locks : os.locks (full_path dirname filename) ≡ true

-- The state once the file is opened: a new `file_t`, and the file is there.
abbrev pub entered : State → (dirname filename : Bytes) → State
entered s dirname filename = record s {
  next_file = s.next_file + 1;
  files = update s.files s.next_file (record { filename = []; file_length = 0; is_open = 0 });
  disk = create s.disk (full_path dirname filename);
}

open_unmapped :
    (os : Os) (s : State) (g : Gtfs) (filename : Bytes) (file_length : ℕ)
    → CanOpen os s g.dirname filename
    → s.filename_file_t_mapping filename ≡ none
    → gtfs_open_file os s (some g) filename file_length
      ≡ open_new os (entered s g.dirname filename) g.dirname filename s.next_file file_length
unfolding gtfs_open_file
open_unmapped os s g filename file_length can unmapped =
    let short : ltb max_filename_len (length filename) ≡ false = ground (arith, can.short) in
    let room : ltb max_num_files_per_dir (length (s.directory_files_mapping g.dirname)) ≡ false =
      ground (arith, can.room) in
    rw (short, room, can.opens, can.locks, unmapped) refl

pub open_mapped :
    (os : Os) (s : State) (g : Gtfs) (filename : Bytes) (file_length old : ℕ)
    → CanOpen os s g.dirname filename
    → s.filename_file_t_mapping filename ≡ some old
    → gtfs_open_file os s (some g) filename file_length
      ≡ ok (reopen (entered s g.dirname filename) old file_length)
unfolding gtfs_open_file
open_mapped os s g filename file_length old can mapped =
    let short : ltb max_filename_len (length filename) ≡ false = ground (arith, can.short) in
    let room : ltb max_num_files_per_dir (length (s.directory_files_mapping g.dirname)) ≡ false =
      ground (arith, can.room) in
    rw (short, room, can.opens, can.locks, mapped) refl

pub apart_by_length : (a b : Bytes) → length a < length b → (same a b ≡ false) × (same b a ≡ false)
apart_by_length a b h = (
  elim (Bool-cases (same a b)) [
    | inl equal ↦ absurd (omega (arith, h, ap length ((same_iff a b).0 equal)))
    | inr apart ↦ apart
  ],
  elim (Bool-cases (same b a)) [
    | inl equal ↦ absurd (omega (arith, h, ap length ((same_iff b a).0 equal)))
    | inr apart ↦ apart
  ],
)

-- Creating the file leaves the log and the path that is the bare name as they are.
create_apart :
    (disk : Disk) (path other : Bytes)
    → same path other ≡ false
    → create disk path other ≡ disk other
create_apart disk path other apart = elim (Bool-cases (is_some (disk path))) [
  | inl there ↦ rw there refl
  | inr missing ↦ rw (missing, apart) refl
]

create_log :
    (disk : Disk) (dirname filename : Bytes)
    → create disk (full_path dirname filename) (log_path dirname filename)
      ≡ disk (log_path dirname filename)
create_log disk dirname filename =
    let path = full_path dirname filename in
    let shorter : length path < length (log_path dirname filename) =
      omega (arith, length-append path (46 ∷ 108 ∷ 111 ∷ 103 ∷ [])) in
    create_apart disk path (log_path dirname filename) (apart_by_length path _ shorter).0

create_bare :
    (disk : Disk) (dirname filename : Bytes)
    → create disk (full_path dirname filename) filename ≡ disk filename
create_bare disk dirname filename =
    let longer : length filename < length (full_path dirname filename) =
      omega (arith, length-append dirname (47 ∷ filename)) in
    create_apart disk (full_path dirname filename) filename
      (apart_by_length filename (full_path dirname filename) longer).1

create_there :
    (disk : Disk) (path file : Bytes) → disk path ≡ some file → create disk path path ≡ some file
create_there disk path file there = rw (there, there) refl

reopen_lem :
    (s : State) (fl file_length : ℕ)
    → (s.files fl).file_length ≤ file_length
    → reopen s fl file_length ≡ (
      some fl,
      record s {
        files = update s.files fl (record (s.files fl) { file_length = file_length; is_open = 1 });
      },
    )
unfolding reopen
reopen_lem s fl file_length enough =
    let kept : ltb file_length (s.files fl).file_length ≡ false = ground (arith, enough) in
    rw (kept, reopen) refl

abbrev opened : Os → State → (dirname filename : Bytes) → (fl file_length : ℕ) → State
opened os s dirname filename fl file_length = record (recorded s dirname filename fl file_length) {
  disk = truncate os s.disk (log_path dirname filename);
  file_log_updates_mapping = put s.file_log_updates_mapping filename none;
}

open_new_without_log :
    (os : Os) (s : State) (dirname filename : Bytes) (fl file_length : ℕ)
    → s.disk (log_path dirname filename) ≡ none
    → open_new os s dirname filename fl file_length
      ≡ ok (some fl, opened os s dirname filename fl file_length)
unfolding open_new
open_new_without_log os s dirname filename fl file_length no_log = rw (no_log, open_new) refl

sync_missing :
    (os : Os) (disk : Disk) (dirname file_path logfile_path : Bytes)
    → disk file_path ≡ none
    → sync_log_to_file os disk dirname file_path logfile_path ≡ ok (false, disk)
unfolding sync_log_to_file
sync_missing os disk dirname file_path logfile_path missing = rw (missing, sync_log_to_file) refl

open_new_unsynced :
    (os : Os) (s : State) (dirname filename log : Bytes) (fl file_length : ℕ)
    → s.disk (log_path dirname filename) ≡ some log
    → s.disk filename ≡ none
    → open_new os s dirname filename fl file_length
      ≡ ok (none, recorded s dirname filename fl file_length)
unfolding open_new
open_new_unsynced os s dirname filename log fl file_length with_log no_bare =
    rw
      (
        with_log,
        sync_missing os s.disk dirname filename (log_path dirname filename) no_bare,
        open_new,
      )
      refl

pub open_new_lem :
    (os : Os) (s : State) (g : Gtfs) (filename : Bytes) (file_length : ℕ)
    → CanOpen os s g.dirname filename
    → s.filename_file_t_mapping filename ≡ none
    → s.disk (log_path g.dirname filename) ≡ none
    → os.opens (log_path g.dirname filename) ≡ true
    → (s' : State) × (gtfs_open_file os s (some g) filename file_length ≡ ok (some s.next_file, s'))
      × (s'.files s.next_file
          ≡ record { filename = filename; file_length = file_length; is_open = 1 })
      × (s'.filename_file_t_mapping filename ≡ some s.next_file)
      × (s'.directory_files_mapping g.dirname
          ≡ s.directory_files_mapping g.dirname ++ filename ∷ [])
      × (s'.disk (log_path g.dirname filename) ≡ some [])
      × (s'.file_log_updates_mapping filename ≡ none)
open_new_lem os s g filename file_length can unmapped no_log opens_log =
    let e = entered s g.dirname filename in
    (
      opened os e g.dirname filename s.next_file file_length,
      open_unmapped os s g filename file_length can unmapped
          ∙ open_new_without_log os e g.dirname filename s.next_file file_length
              (create_log s.disk g.dirname filename ∙ no_log),
      rw (==_refl s.next_file) refl,
      put_self s.filename_file_t_mapping filename (some s.next_file),
      put_self s.directory_files_mapping g.dirname _,
      rw opens_log (put_self e.disk (log_path g.dirname filename) (some [])),
      put_self s.file_log_updates_mapping filename none,
    )

-- If a name of at most 255 bytes that is not mapped has a file and a log in the directory, but no
-- file under the bare name, fewer than 1024 names are recorded and the system calls succeed:
-- `gtfs_open_file` returns NULL, and a second call with a length not smaller returns a file; its log
-- and its content are as before both calls.
pub open-unsynced :
    (os : Os) (s : State) (g : Gtfs) (filename log file : Bytes) (file_length again : ℕ)
    → CanOpen os s g.dirname filename
    → length (s.directory_files_mapping g.dirname) < max_num_files_per_dir
    → s.filename_file_t_mapping filename ≡ none
    → s.disk (log_path g.dirname filename) ≡ some log
    → s.disk (full_path g.dirname filename) ≡ some file
    → s.disk filename ≡ none
    → file_length ≤ again
    → (s1 s2 : State) × (gtfs_open_file os s (some g) filename file_length ≡ ok (none, s1))
      × (gtfs_open_file os s1 (some g) filename again ≡ ok (some s.next_file, s2))
      × (s2.disk (log_path g.dirname filename) ≡ some log)
      × (s2.disk (full_path g.dirname filename) ≡ some file)
open-unsynced os s g filename log file file_length again can room unmapped with_log there no_bare
      enough =
    let path = full_path g.dirname filename in
    let e = entered s g.dirname filename in
    let s1 = recorded e g.dirname filename s.next_file file_length in
    let e1 = entered s1 g.dirname filename in
    let names = s.directory_files_mapping g.dirname in
    let pushed : s1.directory_files_mapping g.dirname ≡ names ++ filename ∷ [] =
      put_self s.directory_files_mapping g.dirname _ in
    let can_again : CanOpen os s1 g.dirname filename = record {
      short = can.short;
      room = omega (arith, room, ap length pushed, length-append names (filename ∷ []));
      opens = can.opens;
      locks = can.locks;
    } in
    (
      s1,
      record e1 {
        files =
            update e1.files s.next_file
              (record (e1.files s.next_file) { file_length = again; is_open = 1 });
      },
      open_unmapped os s g filename file_length can unmapped
          ∙ open_new_unsynced os e g.dirname filename log s.next_file file_length
              (create_log s.disk g.dirname filename ∙ with_log)
              (create_bare s.disk g.dirname filename ∙ no_bare),
      open_mapped os s1 g filename again s.next_file can_again
            (put_self s.filename_file_t_mapping filename (some s.next_file))
          ∙ ap ok (reopen_lem e1 s.next_file again (ground (arith, enough, ==_refl s.next_file))),
      create_log s1.disk g.dirname filename ∙ create_log s.disk g.dirname filename ∙ with_log,
      create_there s1.disk path file (create_there s.disk path file there),
    )
