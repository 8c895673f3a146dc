-- ===== src/Gtfs/Remove.antt =====
-- Assignment_3/Project3/gtfs/src/gtfs.cpp: `gtfs_close_file` and `gtfs_remove_file`, with a log and
-- without.
use advanced_oslab.Prelude.{
  ℕ, ◌+◌, ◌-◌, List, if◌then◌else◌, sym, ◌∙◌, ap, ◌<◌, ◌≡◌, refl, true, false, Option, none, some,
  [], ◌∷◌, ◌==◌, ==_refl, length, length-append, is_some, arith, Bool-cases, inl, inr,
}
use advanced_oslab.Prelude.Arrays.{update}
use advanced_oslab.Text.{Bytes, same, same_iff, put, put_self}
use advanced_oslab.Disk.{Disk, Os}
use advanced_oslab.Log.{full_path, log_path}
use advanced_oslab.Gtfs.{Gtfs, File, State, success, failure}
use advanced_oslab.Gtfs.Calls.{gtfs_close_file, erase_name, forgotten, gtfs_remove_file}
use advanced_oslab.Gtfs.Open.{apart_by_length}

pub record CanRemove (os : Os) (s : State) (dirname filename : Bytes) : Type 0 where
  pub there : is_some (s.disk (full_path dirname filename)) ≡ true
  pub opens : os.opens (full_path dirname filename) ≡ true
  pub locks : os.locks (full_path dirname filename) ≡ true
  pub removes : os.removes (full_path dirname filename) ≡ true
  pub removes_log : os.removes (log_path dirname filename) ≡ true

log_kept :
    (disk : Disk) (dirname filename : Bytes) (o : Option Bytes)
    → put disk (full_path dirname filename) o (log_path dirname filename)
      ≡ disk (log_path dirname filename)
log_kept disk dirname filename o =
    let path = full_path dirname filename in
    let shorter : length path < length (log_path dirname filename) =
      omega (arith, length-append path (46 ∷ 108 ∷ 111 ∷ 103 ∷ [])) in
    rw ((apart_by_length path (log_path dirname filename) shorter).0) refl

remove_with_log :
    (os : Os) (s : State) (g : Gtfs) (fl : ℕ) (file : File)
    → s.files fl ≡ file
    → CanRemove os s g.dirname file.filename
    → (file.is_open == 1) ≡ false
    → is_some (s.disk (log_path g.dirname file.filename)) ≡ true
    → gtfs_remove_file os s (some g) (some fl) ≡ (
      success,
      forgotten
          (record s {
            disk =
                put
                  (put s.disk (full_path g.dirname file.filename) none)
                  (log_path g.dirname file.filename)
                  none;
          })
          g.dirname
          file.filename,
    )
unfolding gtfs_remove_file
remove_with_log os s g fl file here can closed with_log =
    rw
      (
        here,
        closed,
        can.there,
        can.opens,
        can.locks,
        can.removes,
        log_kept s.disk g.dirname file.filename none,
        with_log,
        can.removes_log,
      )
      refl

pub remove-no_log :
    (os : Os) (s : State) (g : Gtfs) (fl : ℕ)
    → CanRemove os s g.dirname (s.files fl).filename
    → ((s.files fl).is_open == 1) ≡ false
    → s.disk (log_path g.dirname (s.files fl).filename) ≡ none
    → gtfs_remove_file os s (some g) (some fl)
      ≡ (failure, record s { disk = put s.disk (full_path g.dirname (s.files fl).filename) none })
unfolding gtfs_remove_file
remove-no_log os s g fl can closed no_log =
    rw
      (
        closed,
        can.there,
        can.opens,
        can.locks,
        can.removes,
        log_kept s.disk g.dirname (s.files fl).filename none,
        no_log,
      )
      refl

close_lem :
    (s : State) (g : Gtfs) (fl : ℕ)
    → (s.files fl).is_open ≡ 1
    → gtfs_close_file s (some g) (some fl)
      ≡ (success, record s { files = update s.files fl (record (s.files fl) { is_open = 0 }) })
unfolding gtfs_close_file
close_lem s g fl is_open = rw is_open refl

path_gone : (disk : Disk) (path log : Bytes) → put (put disk path none) log none path ≡ none
path_gone disk path log = elim (Bool-cases (same log path)) [
  | inl equal ↦ rw equal refl
  | inr apart ↦ rw apart (put_self disk path none)
]

-- How often a name is recorded.
abbrev pub occurrences : Bytes → List Bytes → ℕ
occurrences name [] = 0
occurrences name (f ∷ files) = (if same f name then 1 else 0) + occurrences name files

same_one :
    (f filename other : Bytes)
    → same f filename ≡ false
    → same f other ≡ true
    → same filename other ≡ false
same_one f filename other apart first = elim (Bool-cases (same filename other)) [
  | inl second ↦
      let alike = (same_iff f other).0 first ∙ sym ((same_iff filename other).0 second) in
      absurd (cc (sym apart ∙ (same_iff f filename).1 alike))
  | inr apart_too ↦ apart_too
]

occurrences-erase_name :
    (filename other : Bytes) (files : List Bytes)
    → occurrences other (erase_name filename files)
      ≡ occurrences other files - (if same filename other then 1 else 0)
unfolding erase_name
occurrences-erase_name filename other [] = ground arith
occurrences-erase_name filename other (f ∷ files) = elim (Bool-cases (same f filename)) [
  | inl here ↦
      let alike : same f other ≡ same filename other =
        ap (λ x. same x other) ((same_iff f filename).0 here) in
      rw here (ground (arith, alike))
  | inr apart ↦
      rw apart (
        ground
          (arith, occurrences-erase_name filename other files, same_one f filename other apart))
]

-- An open file with a log, with system calls that succeed: `gtfs_remove_file` refuses it,
-- `gtfs_close_file` closes it once and not again, and then `gtfs_remove_file` returns 0; the file
-- and its log are gone from the disk, and its name from the maps of open files and of pending
-- writes; in the list of the directory it stands once less, if it stood there, the other names stand
-- as often as before, and the lists of other directories are as before.
pub close-remove :
    (os : Os) (s : State) (g : Gtfs) (fl : ℕ)
    → CanRemove os s g.dirname (s.files fl).filename
    → (s.files fl).is_open ≡ 1
    → is_some (s.disk (log_path g.dirname (s.files fl).filename)) ≡ true
    → let filename = (s.files fl).filename in
      (s1 s2 : State) × (gtfs_remove_file os s (some g) (some fl) ≡ (failure, s))
      × (gtfs_close_file s (some g) (some fl) ≡ (success, s1))
      × (gtfs_close_file s1 (some g) (some fl) ≡ (failure, s1))
      × (gtfs_remove_file os s1 (some g) (some fl) ≡ (success, s2))
      × (s2.disk (full_path g.dirname filename) ≡ none)
      × (s2.disk (log_path g.dirname filename) ≡ none)
      × (s2.filename_file_t_mapping filename ≡ none)
      × (s2.file_log_updates_mapping filename ≡ none)
      × ((other : Bytes)
          → occurrences other (s2.directory_files_mapping g.dirname)
            ≡ occurrences other (s.directory_files_mapping g.dirname)
              - (if same filename other then 1 else 0))
      × ((directory : Bytes)
          → same g.dirname directory ≡ false
          → s2.directory_files_mapping directory ≡ s.directory_files_mapping directory)
unfolding gtfs_remove_file gtfs_close_file
close-remove os s g fl can is_open with_log =
    let filename = (s.files fl).filename in
    let path = full_path g.dirname filename in
    let log = log_path g.dirname filename in
    let file : File = record (s.files fl) { is_open = 0 } in
    let s1 = record s { files = update s.files fl file } in
    let here : s1.files fl ≡ file = rw (==_refl fl) refl in
    let both = put (put s.disk path none) log none in
    let s2 = forgotten (record s1 { disk = both }) g.dirname filename in
    (
      s1,
      s2,
      rw is_open refl,
      close_lem s g fl is_open,
      rw here refl,
      remove_with_log os s1 g fl file here
          (record {
            there = can.there;
            opens = can.opens;
            locks = can.locks;
            removes = can.removes;
            removes_log = can.removes_log;
          })
          refl with_log,
      path_gone s.disk path log,
      put_self (put s.disk path none) log none,
      put_self s.filename_file_t_mapping filename none,
      put_self s.file_log_updates_mapping filename none,
      λ other.
          ap (occurrences other) (
            put_self s.directory_files_mapping g.dirname
              (erase_name filename (s.directory_files_mapping g.dirname)))
          ∙ occurrences-erase_name filename other (s.directory_files_mapping g.dirname),
      λ directory apart. rw apart refl,
    )
