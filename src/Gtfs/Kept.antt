-- ===== src/Gtfs/Kept.antt =====
-- Assignment_3/Project3/gtfs/src/gtfs.cpp: the calls on files and writes, and what the maps tell of each
-- other.
use advanced_oslab.Prelude.{
  ℕ, ◌+◌, ◌≤◌, ◌<◌, ◌≡◌, refl, ap, ◌∙◌, not, ◌&&◌, Option, none, some, List, [], ◌∷◌, ◌++◌, ◌==◌,
  ltb, length, is_some, arith, Bool-cases, Option-cases, inl, inr,
}
use advanced_oslab.Prelude.Int.{ℤ}
use advanced_oslab.Prelude.Arrays.{update}
use advanced_oslab.Prelude.Outcome.{deref}
use advanced_oslab.Clients.Neighbours.{some_injective}
use advanced_oslab.Text.{Bytes, put, c_string}
use advanced_oslab.Disk.{Disk, Os}
use advanced_oslab.Log.{Write, full_path, log_path}
use advanced_oslab.Gtfs.{Gtfs, File, State, reopen, max_num_files_per_dir}
use advanced_oslab.Gtfs.Calls.{
  pending, new_write, gtfs_close_file, erase_name, forgotten, gtfs_remove_file, gtfs_write_file,
  erase_write, same_write, gtfs_sync_write_file, write_data, append_log, gtfs_abort_write_file,
}
use advanced_oslab.Gtfs.Pending.{pending_of}
use advanced_oslab.Gtfs.Invariant.{AreNamed, IsValid, IsKept, put_keeps, disk-IsValid}
use advanced_oslab.Prelude.Branches.{IfOk, bind-IfOk, if_keeps}

-- A `file_t` that keeps its name.
files-IsValid :
    (s : State) (fl : ℕ) (f : File)
    → f.filename ≡ (s.files fl).filename
    → IsValid s
    → IsValid (record s { files = update s.files fl f })
files-IsValid s fl f same_name h = record {
  allocated = h.allocated;
  named = λ filename p e. elim (Bool-cases (fl == p)) [
    | inl equal ↦
        let is : fl ≡ p = ground (arith, equal) in
        rw equal (same_name ∙ ap (λ q. (s.files q).filename) is ∙ h.named filename p e)
    | inr apart ↦ rw apart (h.named filename p e)
  ];
  logs = h.logs;
  dirs = h.dirs;
  few = h.few;
}

pub reopen-IsValid : (s : State) (fl file_length : ℕ) → IsValid s → IsKept (reopen s fl file_length)
unfolding reopen
reopen-IsValid s fl file_length h =
    if_keeps IsKept (ltb file_length (s.files fl).file_length) h (files-IsValid s fl _ refl h)

pub gtfs_close_file-IsValid :
    (s : State) (g : Option Gtfs) (fl : Option ℕ) → IsValid s → IsKept (gtfs_close_file s g fl)
unfolding gtfs_close_file
gtfs_close_file-IsValid s none fl h = h
gtfs_close_file-IsValid s (some g) none h = h
gtfs_close_file-IsValid s (some g) (some fl) h =
    if_keeps IsKept ((s.files fl).is_open == 0) h (files-IsValid s fl _ refl h)

length-erase_name : (f : Bytes) (files : List Bytes) → length (erase_name f files) ≤ length files
unfolding erase_name
length-erase_name f [] = omega arith
length-erase_name f (x ∷ files) = ground (arith, length-erase_name f files)

-- An entry of the two maps from names that goes, and a name of the directory.
forgotten-IsValid :
    (s : State) (dirname filename : Bytes) → IsValid s → IsValid (forgotten s dirname filename)
forgotten-IsValid s dirname filename h = record {
  allocated =
      put_keeps (λ f o. (p : ℕ) → o ≡ some p → p < s.next_file) s.filename_file_t_mapping filename
        none h.allocated (λ p e. absurd (cc));
  named =
      put_keeps (λ f o. (p : ℕ) → o ≡ some p → (s.files p).filename ≡ f) s.filename_file_t_mapping
        filename none h.named (λ p e. absurd (cc));
  logs =
      put_keeps (λ f o. AreNamed f (pending o)) s.file_log_updates_mapping filename none h.logs tt;
  dirs = h.dirs;
  few =
      put_keeps (λ d files. length files ≤ max_num_files_per_dir + 1) s.directory_files_mapping
        dirname (erase_name filename (s.directory_files_mapping dirname)) h.few
        (omega
          (arith, length-erase_name filename (s.directory_files_mapping dirname), h.few dirname));
}

pub gtfs_remove_file-IsValid :
    (os : Os) (s : State) (g : Option Gtfs) (fl : Option ℕ)
    → IsValid s
    → IsKept (gtfs_remove_file os s g fl)
unfolding gtfs_remove_file
gtfs_remove_file-IsValid os s none fl h = h
gtfs_remove_file-IsValid os s (some g) none h = h
gtfs_remove_file-IsValid os s (some g) (some fl) h =
    let filename = (s.files fl).filename in
    let path = full_path g.dirname filename in
    let log = log_path g.dirname filename in
    let removed : Disk = put s.disk path none in
    let both : Disk = put removed log none in
    let kept = disk-IsValid s both h in
    if_keeps (IsKept {A = ℤ}) ((s.files fl).is_open == 1) h (
      if_keeps (IsKept {A = ℤ})
        (not (is_some (s.disk path) && os.opens path && os.locks path && os.removes path)) h
        (if_keeps (IsKept {A = ℤ}) (not (is_some (removed log) && os.removes log))
          (disk-IsValid s removed h)
          (forgotten-IsValid (record s { disk = both }) g.dirname filename kept)))

AreNamed-append :
    (f : Bytes) (logs : List Write) (w : Write)
    → AreNamed f logs
    → w.filename ≡ f
    → AreNamed f (logs ++ w ∷ [])
AreNamed-append f [] w h e = (e, tt)
AreNamed-append f (x ∷ logs) w (named, rest) e = (named, AreNamed-append f logs w rest e)

erase_write-AreNamed :
    (f : Bytes) (logs : List Write) (w : Write) → AreNamed f logs → AreNamed f (erase_write w logs)
unfolding erase_write
erase_write-AreNamed f [] w h = h
erase_write-AreNamed f (x ∷ logs) w (named, rest) =
    if_keeps (AreNamed f) (same_write x w) rest (named, erase_write-AreNamed f logs w rest)

logs-IsValid :
    (s : State) (filename : Bytes) (logs : List Write)
    → AreNamed filename logs
    → IsValid s
    → IsValid (record s {
      file_log_updates_mapping = put s.file_log_updates_mapping filename (some logs);
    })
logs-IsValid s filename logs are h = record {
  allocated = h.allocated;
  named = h.named;
  logs =
      put_keeps (λ f o. AreNamed f (pending o)) s.file_log_updates_mapping filename (some logs)
        h.logs are;
  dirs = h.dirs;
  few = h.few;
}

pub gtfs_write_file-IsValid :
    (s : State) (g : Option Gtfs) (fl : Option ℕ) (offset n buffer : ℕ)
    → IsValid s
    → IsKept (gtfs_write_file s g fl offset n buffer)
unfolding gtfs_write_file
gtfs_write_file-IsValid s none fl offset n buffer h = h
gtfs_write_file-IsValid s (some g) none offset n buffer h = h
gtfs_write_file-IsValid s (some g) (some fl) offset n buffer h =
    let filename = (s.files fl).filename in
    logs-IsValid s filename _
      (AreNamed-append filename (pending_of s filename)
        (new_write g.dirname filename offset n buffer) (h.logs filename) refl)
      h

AreNamed-some :
    (f : Bytes) (o : Option (List Write)) (logs : List Write)
    → o ≡ some logs
    → AreNamed f (pending o)
    → AreNamed f logs
AreNamed-some f none logs e h = absurd (cc)
AreNamed-some f (some logs') logs e h = rw (some_injective e) at h

pub gtfs_abort_write_file-IsValid :
    (s : State) (w : Option Write) → IsValid s → IsKept (gtfs_abort_write_file s w)
unfolding gtfs_abort_write_file
gtfs_abort_write_file-IsValid s none h = h
gtfs_abort_write_file-IsValid s (some w) h =
    elim (Option-cases (s.file_log_updates_mapping w.filename)) [
      | inl e ↦ rw (e, gtfs_abort_write_file) h
      | inr (logs, e) ↦
          rw (e, gtfs_abort_write_file)
            (logs-IsValid s w.filename (erase_write w logs)
              (erase_write-AreNamed w.filename logs w (
                AreNamed-some w.filename (s.file_log_updates_mapping w.filename) logs e
                  (h.logs w.filename)))
              h)
    ]

pub gtfs_sync_write_file-IsValid :
    (os : Os) (memory : ℕ → Bytes) (s : State) (w : Option Write)
    → IsValid s
    → IfOk IsKept (gtfs_sync_write_file os memory s w)
unfolding gtfs_sync_write_file
gtfs_sync_write_file-IsValid os memory s none h = h
gtfs_sync_write_file-IsValid os memory s (some w) h =
    if_keeps (IfOk IsKept) (not (os.opens w.full_log_path)) h (
      if_keeps (IfOk IsKept) (not (os.locks w.full_log_path)) (disk-IsValid s _ h) (
        bind-IfOk IsKept (deref (c_string (memory w.buffer))) _ (λ content.
          bind-IfOk IsKept (write_data os (append_log s.disk w content) w (memory w.buffer)) _
            (λ (ret, disk). disk-IsValid s disk h))))
