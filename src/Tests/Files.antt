-- ===== src/Tests/Files.antt =====
-- The file layer at work: one directory "d" with the file "a", and a system that refuses nothing.
use advanced_oslab.Prelude.{
  ℕ, zero, suc, ◌≡◌, refl, ap, ◌∙◌, true, none, some, List, [], ◌∷◌, ◌++◌, arith, length,
}
use advanced_oslab.Prelude.Outcome.{ok}
use advanced_oslab.Text.{Bytes, same, put, has}
use advanced_oslab.Disk.{Disk, Os, take}
use advanced_oslab.Log.{full_path, log_path, sync_log_to_file}
use advanced_oslab.Log.Line.{Entry, IsPlain, content}
use advanced_oslab.Log.Replay.{log_text, replayed, sync_log_to_file-refines}
use advanced_oslab.Gtfs.{Gtfs, File, State, success, gtfs_open_file}
use advanced_oslab.Gtfs.Calls.{
  stored, fresh, find_write, gtfs_read_file, gtfs_write_file, gtfs_abort_write_file,
  gtfs_close_file, gtfs_remove_file,
}
use advanced_oslab.Gtfs.Pending.{read-write, abort-write}
use advanced_oslab.Gtfs.Sync.{IsReady, crashed}
use advanced_oslab.Gtfs.Recovery.{recovery, read-sync}
use advanced_oslab.Gtfs.Invariant.{IsValid}
use advanced_oslab.Gtfs.Reached.{wrote, IsStart, start, step, Reached-IsValid}
use advanced_oslab.Gtfs.Open.{CanOpen, open_new_lem, open-unsynced}
use advanced_oslab.Gtfs.Remove.{close-remove}
use advanced_oslab.Gtfs.Limit.{open-last}

abbrev os : Os
os = record {
  is_dir = λ path. true;
  entries = λ path. none;
  closes = λ path. true;
  opens = λ path. true;
  locks = λ path. true;
  removes = λ path. true;
  writes = λ path n. some n;
}

abbrev dirname : Bytes
dirname = 100 ∷ []

abbrev filename : Bytes
filename = 97 ∷ []

abbrev gtfs : Gtfs
gtfs = record { dirname = dirname }

-- "hi" and a line feed, at offset 1
abbrev entry : Entry
entry = record {
  filename = filename;
  offset = 1;
  count = 3;
  first = 104;
  rest = 105 ∷ [];
  is_line = true;
}

entry-IsPlain : IsPlain entry
unfolding has
entry-IsPlain = record {
  no_bar_name = refl;
  no_feed_name = refl;
  no_bar = refl;
  no_feed = refl;
  offset_fits = omega arith;
  count_fits = omega arith;
  enough = omega arith;
}

abbrev memory : ℕ → Bytes
memory pointer = content entry ++ 0 ∷ []

abbrev file : File
file = record { filename = filename; file_length = 9; is_open = 1 }

abbrev blank : State
blank = record {
  disk = λ path. none;
  files = λ fl. file;
  next_file = 0;
  directory_gtfs_mapping = λ directory. none;
  file_log_updates_mapping = λ name. none;
  filename_file_t_mapping = λ name. none;
  directory_files_mapping = λ directory. [];
}

-- The file "a" holds "xy", and its log has a text.
abbrev with_log : Bytes → State
with_log log = record blank {
  disk =
      put (put blank.disk (full_path dirname filename) (some (120 ∷ 121 ∷ [])))
        (log_path dirname filename) (some log);
}

blank-IsStart : IsStart blank
blank-IsStart = record {
  no_gtfs = λ d. refl;
  no_logs = λ f. refl;
  no_files = λ f. refl;
  no_names = λ d. refl;
}

entry-IsReady : IsReady os memory (with_log []).disk dirname entry 7 (120 ∷ 121 ∷ []) []
unfolding has same
entry-IsReady = record {
  opens_log = refl;
  locks_log = refl;
  opens_file = refl;
  locks_file = refl;
  writes = refl;
  no_zero = refl;
  bytes = refl;
  enough = omega arith;
  there = refl;
  log = refl;
}

refines_example :
    sync_log_to_file os
      (with_log (log_text (entry ∷ entry ∷ []))).disk
      dirname
      (full_path dirname filename)
      (log_path dirname filename)
    ≡ ok (
      true,
      replayed os dirname (with_log (log_text (entry ∷ entry ∷ []))).disk (entry ∷ entry ∷ []),
    )
unfolding same
refines_example =
    sync_log_to_file-refines os (with_log (log_text (entry ∷ entry ∷ []))).disk dirname
      (full_path dirname filename) (log_path dirname filename) (120 ∷ 121 ∷ []) (entry ∷ entry ∷ [])
      (entry-IsPlain, (entry-IsPlain, tt)) refl refl refl

recovery_example :
    (disk : Disk) × (sync_log_to_file os
        (crashed (with_log []).disk dirname entry [])
        dirname
        (full_path dirname filename)
        (log_path dirname filename)
      ≡ ok (true, disk))
recovery_example =
    let (disk, synced, lost, again) =
      recovery os memory (with_log []) dirname entry 7 (120 ∷ 121 ∷ []) entry-IsReady
        entry-IsPlain in
    (disk, lost)

read-sync_example :
    (s' : State) × (gtfs_read_file s' (some gtfs) (some 0) 1 3
      ≡ some (fresh 3 (104 ∷ 105 ∷ 10 ∷ 0 ∷ [])))
unfolding find_write take
read-sync_example =
    let (s', bytes, synced, found, are, over) =
      read-sync os memory (with_log []) dirname entry 7 (120 ∷ 121 ∷ []) [] 0 entry-IsReady
        (omega arith) refl refl in
    (s', found ∙ ap (λ b. some (fresh 3 b)) are)

-- The second write of the same place is not the one that is read.
abbrev written_once : State
written_once = (gtfs_write_file blank (some gtfs) (some 0) 4 2 7).1

read-write_example :
    gtfs_read_file
      (gtfs_write_file written_once (some gtfs) (some 0) 4 2 8).1
      (some gtfs)
      (some 0)
      4
      2
    ≡ some (stored 7)
unfolding gtfs_write_file find_write same
read-write_example = (read-write written_once gtfs 0 4 2 8).0

abort-write_example :
    let (write_id, s') = gtfs_write_file written_once (some gtfs) (some 0) 4 2 8 in
    (gtfs_abort_write_file s' write_id).0 ≡ success
unfolding gtfs_write_file same
abort-write_example = (abort-write written_once gtfs 0 4 2 8 refl).0

Reached-IsValid_example : IsValid written_once
Reached-IsValid_example = Reached-IsValid written_once (
    step os memory blank written_once (start blank blank-IsStart)
      (wrote blank (some gtfs) (some 0) 4 2 7))

blank-CanOpen : CanOpen os blank dirname filename
blank-CanOpen = record { short = omega arith; room = omega arith; opens = refl; locks = refl }

open_new_example :
    (s' : State) × (gtfs_open_file os blank (some gtfs) filename 5 ≡ ok (some 0, s'))
    × (s'.directory_files_mapping dirname ≡ filename ∷ [])
open_new_example =
    let (s', opened, file_is, mapped, names, log, rest) =
      open_new_lem os blank gtfs filename 5 blank-CanOpen refl refl refl in
    (s', opened, names)

open-unsynced_example :
    (s1 s2 : State) × (gtfs_open_file os (with_log (log_text (entry ∷ []))) (some gtfs) filename 5
      ≡ ok (none, s1))
    × (gtfs_open_file os s1 (some gtfs) filename 5 ≡ ok (some 0, s2))
unfolding same
open-unsynced_example =
    let (s1, s2, fails, opens, log, rest) =
      open-unsynced os (with_log (log_text (entry ∷ []))) gtfs filename (log_text (entry ∷ []))
        (120 ∷ 121 ∷ []) 5 5
        (record { short = omega arith; room = omega arith; opens = refl; locks = refl })
        (omega arith) refl refl refl refl (omega arith) in
    (s1, s2, fails, opens)

close-remove_example :
    (s1 s2 : State) × (gtfs_close_file (with_log []) (some gtfs) (some 0) ≡ (success, s1))
    × (gtfs_remove_file os s1 (some gtfs) (some 0) ≡ (success, s2))
unfolding same
close-remove_example =
    let (s1, s2, early, closed, twice, removed, path, log, mapped, pending, names, others) =
      close-remove os (with_log []) gtfs 0
        (record { there = refl; opens = refl; locks = refl; removes = refl; removes_log = refl })
        refl refl in
    (s1, s2, closed, removed)

abbrev names : ℕ → List Bytes
names zero = []
names (suc n) = (98 ∷ []) ∷ names n

length-names : (n : ℕ) → length (names n) ≡ n
length-names zero = refl
length-names (suc n) = omega (arith, length-names n)

abbrev full : State
full = record blank { directory_files_mapping = λ directory. names 1024 }

open-last_example :
    (s' : State) × (gtfs_open_file os full (some gtfs) filename 5 ≡ ok (some 0, s'))
    × (length (s'.directory_files_mapping dirname) ≡ 1025)
open-last_example =
    let (s', opened, over, refused) =
      open-last os full gtfs filename 5
        (record {
          short = omega arith;
          room = omega (arith, length-names 1024);
          opens = refl;
          locks = refl;
        })
        (length-names 1024) refl refl refl in
    (s', opened, over)
