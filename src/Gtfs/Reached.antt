-- ===== src/Gtfs/Reached.antt =====
-- Assignment_3/Project3/gtfs/src/gtfs.cpp: the states that sequences of calls reach.
use advanced_oslab.Prelude.{
  ℕ, ◌+◌, ◌≤◌, ◌<◌, ◌≡◌, refl, true, false, not, Option, none, some, [], ◌∷◌, ◌++◌, ◌==◌, ltb,
  length, length-append, arith,
}
use advanced_oslab.Prelude.Int.{ℤ}
use advanced_oslab.Prelude.Arrays.{update}
use advanced_oslab.Prelude.Outcome.{Outcome, ok}
use advanced_oslab.Clients.Neighbours.{some_injective}
use advanced_oslab.Text.{Bytes, put}
use advanced_oslab.Disk.{Disk, Os, create, truncate}
use advanced_oslab.Log.{Write, full_path, log_path, sync_log_to_file}
use advanced_oslab.Gtfs.{
  Gtfs, File, State, gtfs_init, gtfs_clean, recorded, open_new, gtfs_open_file,
  max_num_files_per_dir, max_filename_len,
}
use advanced_oslab.Gtfs.Calls.{
  pending, gtfs_close_file, gtfs_remove_file, gtfs_write_file, gtfs_sync_write_file,
  gtfs_abort_write_file,
}
use advanced_oslab.Gtfs.Invariant.{
  AreNamed, IsValid, IsKept, put_keeps, disk-IsValid, gtfs_init-IsValid, gtfs_clean-IsValid,
}
use advanced_oslab.Prelude.Branches.{IfOk, bind-IfOk, if_keeps, if_known, elim_keeps}
use advanced_oslab.Gtfs.Kept.{
  reopen-IsValid, gtfs_close_file-IsValid, gtfs_remove_file-IsValid, gtfs_write_file-IsValid,
  gtfs_abort_write_file-IsValid, gtfs_sync_write_file-IsValid,
}

-- A new `file_t` that no name is mapped to.
allocated-IsValid :
    (s : State) (f : File)
    → IsValid s
    → IsValid (record s { next_file = s.next_file + 1; files = update s.files s.next_file f })
allocated-IsValid s f h = record {
  allocated = λ filename p e. omega (arith, h.allocated filename p e);
  named = λ filename p e.
      let apart : (s.next_file == p) ≡ false = ground (arith, h.allocated filename p e) in
      rw apart (h.named filename p e);
  logs = h.logs;
  dirs = h.dirs;
  few = h.few;
}

-- The new `file_t` comes into the maps; no other name is mapped to it.
recorded-IsValid :
    (s : State) (dirname filename : Bytes) (fl file_length : ℕ)
    → fl < s.next_file
    → ((f : Bytes) (p : ℕ) → s.filename_file_t_mapping f ≡ some p → p < fl)
    → length (s.directory_files_mapping dirname) ≤ max_num_files_per_dir
    → IsValid s
    → IsValid (recorded s dirname filename fl file_length)
recorded-IsValid s dirname filename fl file_length there fresh room h =
    let file : File = record { filename = filename; file_length = file_length; is_open = 1 } in
    record {
      allocated =
          put_keeps (λ f o. (p : ℕ) → o ≡ some p → p < s.next_file) s.filename_file_t_mapping
            filename (some fl) h.allocated (λ p e. rw (some_injective e) at there);
      named =
          put_keeps (λ f o. (p : ℕ) → o ≡ some p → (update s.files fl file p).filename ≡ f)
            s.filename_file_t_mapping filename (some fl)
            (λ f p e.
              let apart : (fl == p) ≡ false = ground (arith, fresh f p e) in
              rw apart (h.named f p e))
            (λ p e.
              let equal : (fl == p) ≡ true = ground (arith, some_injective e) in rw equal refl);
      logs = h.logs;
      dirs = h.dirs;
      few =
          put_keeps (λ d files. length files ≤ max_num_files_per_dir + 1) s.directory_files_mapping
            dirname (s.directory_files_mapping dirname ++ filename ∷ []) h.few
            (omega
              (arith, room, length-append (s.directory_files_mapping dirname) (filename ∷ [])));
    }

cleared-IsValid :
    (s : State) (disk : Disk) (filename : Bytes)
    → IsValid s
    → IsValid (record s {
      disk = disk;
      file_log_updates_mapping = put s.file_log_updates_mapping filename none;
    })
cleared-IsValid s disk filename h = record {
  allocated = h.allocated;
  named = h.named;
  logs =
      put_keeps (λ f o. AreNamed f (pending o)) s.file_log_updates_mapping filename none h.logs tt;
  dirs = h.dirs;
  few = h.few;
}

open_new-IsValid :
    (os : Os) (s : State) (dirname filename : Bytes) (fl file_length : ℕ)
    → IsValid (recorded s dirname filename fl file_length)
    → IfOk IsKept (open_new os s dirname filename fl file_length)
unfolding open_new
open_new-IsValid os s dirname filename fl file_length h =
    let s1 = recorded s dirname filename fl file_length in
    let log = log_path dirname filename in
    elim_keeps (IfOk IsKept) (s1.disk log) (cleared-IsValid s1 (truncate os s1.disk log) filename h)
      (λ _. bind-IfOk IsKept (sync_log_to_file os s1.disk dirname filename log) _ (λ (synced, disk).
        if_keeps (IsKept {A = Option ℕ}) synced
          (cleared-IsValid s1 (truncate os disk log) filename h) (disk-IsValid s1 disk h)))

pub gtfs_open_file-IsValid :
    (os : Os) (s : State) (g : Option Gtfs) (filename : Bytes) (file_length : ℕ)
    → IsValid s
    → IfOk IsKept (gtfs_open_file os s g filename file_length)
unfolding gtfs_open_file
gtfs_open_file-IsValid os s none filename file_length h = allocated-IsValid s _ h
gtfs_open_file-IsValid os s (some g) filename file_length h =
    let P : Outcome (Option ℕ × State) → Type 0 = IfOk IsKept in
    let fl = s.next_file in
    let empty : File = record { filename = []; file_length = 0; is_open = 0 } in
    let s1 = record s { next_file = fl + 1; files = update s.files fl empty } in
    let v1 = allocated-IsValid s empty h in
    let path = full_path g.dirname filename in
    let v2 = disk-IsValid s1 (create s.disk path) v1 in
    let names = length (s.directory_files_mapping g.dirname) in
    if_keeps P (ltb max_filename_len (length filename)) v1 (
      if_known P (ltb max_num_files_per_dir names) (λ full. v1)
        (λ room. if_keeps P (not (os.opens path)) v1 (
          if_keeps P (not (os.locks path)) v2 (
            elim_keeps P (s.filename_file_t_mapping filename)
              (open_new-IsValid os (record s1 { disk = create s.disk path }) g.dirname filename fl
                file_length
                (recorded-IsValid (record s1 { disk = create s.disk path }) g.dirname filename fl
                  file_length (omega arith) h.allocated (ground (arith, room)) v2))
              (λ old.
                reopen-IsValid (record s1 { disk = create s.disk path }) old file_length v2)))))

-- One call, whatever it returns.
pub data Step (os : Os) (memory : ℕ → Bytes) : State → State → Type 0 where
  initialised : (s : State) (directory : Bytes) → Step os memory s (gtfs_init os s directory).1
  cleaned :
      (s s' : State) (g : Option Gtfs) (ret : ℤ)
      → gtfs_clean os s g ≡ ok (ret, s')
      → Step os memory s s'
  opened :
      (s s' : State) (g : Option Gtfs) (filename : Bytes) (file_length : ℕ) (fl : Option ℕ)
      → gtfs_open_file os s g filename file_length ≡ ok (fl, s')
      → Step os memory s s'
  closed :
      (s : State) (g : Option Gtfs) (fl : Option ℕ) → Step os memory s (gtfs_close_file s g fl).1
  removed :
      (s : State) (g : Option Gtfs) (fl : Option ℕ)
      → Step os memory s (gtfs_remove_file os s g fl).1
  wrote :
      (s : State) (g : Option Gtfs) (fl : Option ℕ) (offset n buffer : ℕ)
      → Step os memory s (gtfs_write_file s g fl offset n buffer).1
  synced :
      (s s' : State) (w : Option Write) (ret : ℤ)
      → gtfs_sync_write_file os memory s w ≡ ok (ret, s')
      → Step os memory s s'
  aborted : (s : State) (w : Option Write) → Step os memory s (gtfs_abort_write_file s w).1

-- Where the program starts: no file is known.
pub record IsStart (s : State) : Type 0 where
  pub no_gtfs : (dirname : Bytes) → s.directory_gtfs_mapping dirname ≡ none
  pub no_logs : (filename : Bytes) → s.file_log_updates_mapping filename ≡ none
  pub no_files : (filename : Bytes) → s.filename_file_t_mapping filename ≡ none
  pub no_names : (dirname : Bytes) → s.directory_files_mapping dirname ≡ []

-- Calls may find another disk, other answers of the system and other contents of memory each time.
pub data Reached : State → Type 0 where
  start : (s : State) → IsStart s → Reached s
  changed : (s : State) (disk : Disk) → Reached s → Reached (record s { disk = disk })
  step :
      (os : Os) (memory : ℕ → Bytes) (s s' : State) → Reached s → Step os memory s s' → Reached s'

start-IsValid : (s : State) → IsStart s → IsValid s
start-IsValid s h = record {
  allocated = λ filename fl e. absurd (cc (e, h.no_files filename));
  named = λ filename fl e. absurd (cc (e, h.no_files filename));
  logs = λ filename. rw (h.no_logs filename) tt;
  dirs = λ dirname g e. absurd (cc (e, h.no_gtfs dirname));
  few = λ dirname. rw (h.no_names dirname) (omega arith);
}

Step-IsValid :
    (os : Os) (memory : ℕ → Bytes) (s s' : State) → Step os memory s s' → IsValid s → IsValid s'
Step-IsValid os memory s s' (initialised _ d) h = gtfs_init-IsValid os s d h
Step-IsValid os memory s s' (cleaned _ _ g ret e) h = rw e at (gtfs_clean-IsValid os s g h)
Step-IsValid os memory s s' (opened _ _ g f n fl e) h =
    rw e at (gtfs_open_file-IsValid os s g f n h)
Step-IsValid os memory s s' (closed _ g fl) h = gtfs_close_file-IsValid s g fl h
Step-IsValid os memory s s' (removed _ g fl) h = gtfs_remove_file-IsValid os s g fl h
Step-IsValid os memory s s' (wrote _ g fl o n b) h = gtfs_write_file-IsValid s g fl o n b h
Step-IsValid os memory s s' (synced _ _ w ret e) h =
    rw e at (gtfs_sync_write_file-IsValid os memory s w h)
Step-IsValid os memory s s' (aborted _ w) h = gtfs_abort_write_file-IsValid s w h

-- In every state that calls reach from the start, whatever the disk, the system and the memory hold
-- in between: a mapped name has an allocated `file_t` of that name, pending writes have the name
-- that they are kept under, a directory is mapped to its own gtfs, and no directory has more than
-- 1025 names.
pub Reached-IsValid : (s : State) → Reached s → IsValid s
Reached-IsValid s (start _ h) = start-IsValid s h
Reached-IsValid s' (changed s disk r) = disk-IsValid s disk (Reached-IsValid s r)
Reached-IsValid s' (step os memory s _ r m) = Step-IsValid os memory s s' m (Reached-IsValid s r)
