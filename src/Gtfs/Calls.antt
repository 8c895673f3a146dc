-- ===== src/Gtfs/Calls.antt =====
-- Assignment_3/Project3/gtfs/src/gtfs.cpp: the calls on an open file and on a write.
use advanced_oslab.Prelude.{
  ℕ, ◌+◌, Bool, ◌&&◌, not, Option, none, some, List, [], ◌∷◌, ◌++◌, ◌==◌, ltb, leb, length, is_some,
  if◌then◌else◌,
}
use advanced_oslab.Prelude.Int.{ℤ, pos}
use advanced_oslab.Prelude.Arrays.{update}
use advanced_oslab.Prelude.Outcome.{Outcome, ok, ◌>>=◌, ◌>>◌, defined, deref}
use advanced_oslab.Text.{Bytes, same, put, c_string}
use advanced_oslab.Disk.{Disk, Os, take, write_at, slice, create}
use advanced_oslab.Log.{Write, full_path, log_path, log_line}
use advanced_oslab.Gtfs.{Gtfs, State, success, failure}

unfoldable pub gtfs_close_file : State → Option Gtfs → Option ℕ → ℤ × State
gtfs_close_file s none fl = (failure, s)
gtfs_close_file s (some g) none = (failure, s)
gtfs_close_file s (some g) (some fl) =
    if (s.files fl).is_open == 0
    then (failure, s)
    else (success, record s { files = update s.files fl (record (s.files fl) { is_open = 0 }) })

-- The loop over `directory_files_mapping[dirname]`: the first place of the name goes.
unfoldable pub erase_name : Bytes → List Bytes → List Bytes
erase_name filename [] = []
erase_name filename (f ∷ files) = if same f filename then files else f ∷ erase_name filename files

abbrev pub forgotten : State → (dirname filename : Bytes) → State
forgotten s dirname filename = record s {
  filename_file_t_mapping = put s.filename_file_t_mapping filename none;
  file_log_updates_mapping = put s.file_log_updates_mapping filename none;
  directory_files_mapping =
      put s.directory_files_mapping dirname
        (erase_name filename (s.directory_files_mapping dirname));
}

unfoldable pub gtfs_remove_file : Os → State → Option Gtfs → Option ℕ → ℤ × State
unfolding erase_name
gtfs_remove_file os s none fl = (failure, s)
gtfs_remove_file os s (some g) none = (failure, s)
gtfs_remove_file os s (some g) (some fl) =
    let filename = (s.files fl).filename in
    let path = full_path g.dirname filename in
    let log = log_path g.dirname filename in
    if (s.files fl).is_open == 1
    then (failure, s)
    else if not (is_some (s.disk path) && os.opens path && os.locks path && os.removes path)
    then (failure, s)
    else (let s1 = record s { disk = put s.disk path none } in
        if not (is_some (s1.disk log) && os.removes log)
        then (failure, s1)
        else (success, forgotten (record s1 { disk = put s1.disk log none }) g.dirname filename))

-- What `gtfs_read_file` returns: the pointer of a write, an empty string, or a new buffer with its size
-- and what is written to it.
pub data Found : Type 0 where
  stored : ℕ → Found
  empty : Found
  fresh : (allocated : ℕ) → Bytes → Found

-- The loop over the pending writes.
unfoldable pub find_write : (offset length : ℕ) → List Write → Option Write
find_write offset length [] = none
find_write offset length (log ∷ logs) =
    if (log.offset == offset) && (log.length == length)
    then some log
    else find_write offset length logs

unfoldable pub read_disk : Disk → (path : Bytes) → (offset n : ℕ) → Option Found
unfolding slice
read_disk disk path offset n = elim (disk path) [
  | none ↦ none
  | some file ↦
      if ltb (length file) offset
      then some empty
      else if ltb (length file) (offset + n)
      then some empty
      else some (fresh n (slice offset n file ++ 0 ∷ []))
]

-- What is pending for a name; a name without an entry has nothing pending.
abbrev pub pending : Option (List Write) → List Write
pending none = []
pending (some logs) = logs

unfoldable pub gtfs_read_file : State → Option Gtfs → Option ℕ → (offset n : ℕ) → Option Found
unfolding find_write read_disk
gtfs_read_file s none fl offset n = none
gtfs_read_file s (some g) none offset n = none
gtfs_read_file s (some g) (some fl) offset n =
    let filename = (s.files fl).filename in
    elim (find_write offset n (pending (s.file_log_updates_mapping filename))) [
      | some log ↦ some (stored log.buffer)
      | none ↦ read_disk s.disk (full_path g.dirname filename) offset n
    ]

abbrev pub new_write : (dirname filename : Bytes) → (offset length buffer : ℕ) → Write
new_write dirname filename offset length buffer = record {
  filename = filename;
  offset = offset;
  length = length;
  buffer = buffer;
  full_file_path = full_path dirname filename;
  full_log_path = log_path dirname filename;
}

unfoldable pub gtfs_write_file :
    State → Option Gtfs → Option ℕ → (offset n buffer : ℕ) → Option Write × State
gtfs_write_file s none fl offset n buffer = (none, s)
gtfs_write_file s (some g) none offset n buffer = (none, s)
gtfs_write_file s (some g) (some fl) offset n buffer =
    let filename = (s.files fl).filename in
    let write = new_write g.dirname filename offset n buffer in
    let logs = pending (s.file_log_updates_mapping filename) ++ write ∷ [] in
    (
      some write,
      record s { file_log_updates_mapping = put s.file_log_updates_mapping filename (some logs) },
    )

-- The line goes to the end of the log, which is created if it is not there.
abbrev pub append_log : Disk → Write → (content : Bytes) → Disk
append_log disk w content =
    let created = create disk w.full_log_path in
    let old : Bytes = elim (created w.full_log_path) [ none ↦ [] | some log ↦ log ] in
    put created w.full_log_path
      (some (old ++ (log_line w.filename w.offset w.length content ++ 10 ∷ [])))

-- The second half of `gtfs_sync_write_file`: the bytes go to the file, as many as `write` takes.
unfoldable pub write_data : Os → Disk → Write → (bytes : Bytes) → Outcome (ℤ × Disk)
unfolding take write_at
write_data os disk w bytes = elim (disk w.full_file_path) [
  | none ↦ ok (failure, disk)
  | some file ↦
      if not (os.opens w.full_file_path && os.locks w.full_file_path)
      then ok (failure, disk)
      else (do
        defined (leb w.length (length bytes))
        elim (os.writes w.full_file_path w.length) [
          | none ↦ ok (failure, disk)
          | some count ↦ ok (
            pos count,
            put disk w.full_file_path (some (write_at w.offset (take count bytes) file)),
          )
        ])
]

-- `memory` has the bytes at a pointer of the caller's, up to the end of its array.
unfoldable pub gtfs_sync_write_file :
    Os → (memory : ℕ → Bytes) → State → Option Write → Outcome (ℤ × State)
unfolding write_data
gtfs_sync_write_file os memory s none = ok (failure, s)
gtfs_sync_write_file os memory s (some w) =
    let log = w.full_log_path in
    if not (os.opens log)
    then ok (failure, s)
    else if not (os.locks log)
    then ok (failure, record s { disk = create s.disk log })
    else (do
      content ← deref (c_string (memory w.buffer))
      (ret, disk) ← write_data os (append_log s.disk w content) w (memory w.buffer)
      ok (ret, record s { disk = disk }))

abbrev pub same_write : Write → Write → Bool
same_write log w = (log.offset == w.offset) && (log.length == w.length) && (log.buffer == w.buffer)

unfoldable pub erase_write : Write → List Write → List Write
erase_write w [] = []
erase_write w (log ∷ logs) = if same_write log w then logs else log ∷ erase_write w logs

unfoldable pub gtfs_abort_write_file : State → Option Write → ℤ × State
unfolding erase_write
gtfs_abort_write_file s none = (failure, s)
gtfs_abort_write_file s (some w) = elim (s.file_log_updates_mapping w.filename) [
  | none ↦ (failure, s)
  | some logs ↦ (
    success,
    record s {
      file_log_updates_mapping =
          put s.file_log_updates_mapping w.filename (some (erase_write w logs));
    },
  )
]

-- The two calls that are left to be done.
abbrev pub gtfs_clean_n_bytes : Option Gtfs → (bytes : ℕ) → ℤ
gtfs_clean_n_bytes gtfs bytes = failure

abbrev pub gtfs_sync_write_file_n_bytes : Option Write → (bytes : ℕ) → ℤ
gtfs_sync_write_file_n_bytes write_id bytes = failure
