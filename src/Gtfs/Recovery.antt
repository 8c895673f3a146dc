-- ===== src/Gtfs/Recovery.antt =====
-- Assignment_3/Project3/gtfs/src/gtfs.cpp: a write that is synced, lost in a crash and replayed, or read
-- back.
use advanced_oslab.Prelude.{
  append_nil, ℕ, zero, suc, ◌+◌, ◌≤◌, ◌<◌, ◌≡◌, refl, sym, ap, ◌∙◌, true, false, none, some, [],
  ◌∷◌, ◌++◌, ltb, length, length-append, arith,
}
use advanced_oslab.Prelude.Int.{pos}
use advanced_oslab.Prelude.Outcome.{ok}
use advanced_oslab.Text.{Bytes, put_self}
use advanced_oslab.Disk.{Disk, Os, take, write_at}
use advanced_oslab.Disk.Laws.{slice-write_at, length-write_at_le}
use advanced_oslab.Log.{full_path, log_path, sync_log_to_file}
use advanced_oslab.Log.Line.{Entry, IsPlain, content, written}
use advanced_oslab.Log.Replay.{
  logged, sync_log_to_file-refines, open_stream_there, written-written, written_there,
}
use advanced_oslab.Gtfs.{Gtfs, State}
use advanced_oslab.Gtfs.Calls.{fresh, find_write, read_disk, gtfs_read_file, gtfs_sync_write_file}
use advanced_oslab.Gtfs.Pending.{pending_of}
use advanced_oslab.Gtfs.Sync.{
  IsReady, write_of, crashed, still_there, log_there, gtfs_sync_write_file_lem,
}

-- For a write as `gtfs_write_file` makes it, whose name and content the log can carry, with system
-- calls that succeed, its file there and its log there and empty: `gtfs_sync_write_file` returns the
-- number of bytes; if the program stops before it writes to the file, the replay of the log leaves
-- the same files; and a replay after the write leaves every file as it is.
pub recovery :
    (os : Os) (memory : ℕ → Bytes) (s : State) (dirname : Bytes) (e : Entry) (buffer : ℕ)
    (file : Bytes)
    → IsReady os memory s.disk dirname e buffer file []
    → IsPlain e
    → let own = full_path dirname e.filename in
      let log = log_path dirname e.filename in
      let logged_only = crashed s.disk dirname e [] in
      (disk : Disk) × (gtfs_sync_write_file os memory s (some (write_of dirname e buffer))
        ≡ ok (pos e.count, record s { disk = disk }))
      × (sync_log_to_file os logged_only dirname own log ≡ ok (true, disk))
      × ((again : Disk) × (sync_log_to_file os disk dirname own log ≡ ok (true, again))
          × ((path : Bytes) → again path ≡ disk path))
recovery os memory s dirname e buffer file ready plain =
    let own = full_path dirname e.filename in
    let log = log_path dirname e.filename in
    let c = crashed s.disk dirname e [] in
    let d = written os dirname c e in
    let here = still_there os memory s dirname e buffer file [] ready in
    let there =
      written_there os dirname c e file (open_stream_there os c own file ready.opens_file here) in
    let text = ap some (sym (append_nil (logged e))) in
    let bytes = write_at e.offset (take e.count (content e)) file in
    (
      d,
      gtfs_sync_write_file_lem os memory s dirname e buffer file [] ready,
      sync_log_to_file-refines os c dirname own log file (e ∷ []) (plain, tt) here
          (put_self s.disk log (some (logged e)) ∙ text) ready.opens_log,
      (
        written os dirname d e,
        sync_log_to_file-refines os d dirname own log bytes (e ∷ []) (plain, tt)
            (ap (λ x. x own) there ∙ put_self c own (some bytes))
            (ap (λ x. x log) there
              ∙ log_there os memory s dirname e buffer file [] ready (some bytes)
              ∙ text)
            ready.opens_log,
        written-written os dirname c e,
      ),
    )

length-take : (n : ℕ) (xs : Bytes) → n ≤ length xs → length (take n xs) ≡ n
unfolding take
length-take zero xs h = refl
length-take (suc n) [] h = absurd (omega arith)
length-take (suc n) (x ∷ xs) h = omega (arith, length-take n xs (omega (arith, h)))

read_disk-write_at :
    (disk : Disk) (path : Bytes) (offset : ℕ) (b : ℕ) (bytes file : Bytes)
    → disk path ≡ some (write_at offset (b ∷ bytes) file)
    → read_disk disk path offset (length (b ∷ bytes))
      ≡ some (fresh (length (b ∷ bytes)) ((b ∷ bytes) ++ 0 ∷ []))
unfolding read_disk
read_disk-write_at disk path offset b bytes file there =
    let fits = length-write_at_le offset b bytes file in
    let first : ltb (length (write_at offset (b ∷ bytes) file)) offset ≡ false =
      ground (arith, fits) in
    let all : ltb (length (write_at offset (b ∷ bytes) file)) (offset + length (b ∷ bytes))
        ≡ false =
      ground (arith, fits) in
    rw (there, first, all, slice-write_at offset (b ∷ bytes) file, read_disk) refl

read_written :
    (disk : Disk) (path : Bytes) (offset n : ℕ) (bytes file : Bytes)
    → length bytes ≡ n
    → 0 < n
    → disk path ≡ some (write_at offset bytes file)
    → read_disk disk path offset n ≡ some (fresh n (bytes ++ 0 ∷ []))
read_written disk path offset n [] file count positive there = absurd (omega (arith, count))
read_written disk path offset n (b ∷ bytes) file count positive there =
    ap (read_disk disk path offset) (sym count)
    ∙ read_disk-write_at disk path offset b bytes file there
    ∙ ap (λ m. some (fresh m ((b ∷ bytes) ++ 0 ∷ []))) count

read_fresh :
    (s : State) (g : Gtfs) (fl offset n : ℕ)
    → find_write offset n (pending_of s (s.files fl).filename) ≡ none
    → gtfs_read_file s (some g) (some fl) offset n
      ≡ read_disk s.disk (full_path g.dirname (s.files fl).filename) offset n
unfolding gtfs_read_file
read_fresh s g fl offset n e = rw (e, gtfs_read_file) refl

-- A write of at least one byte, with system calls that succeed, its file and its log there, is
-- synced: `gtfs_sync_write_file` returns the number of bytes. With no write of the same place
-- pending for the name, `gtfs_read_file` of the place then returns a new buffer of that many bytes,
-- to which it writes these bytes and a zero, one byte more than the buffer has.
pub read-sync :
    (os : Os) (memory : ℕ → Bytes) (s : State) (dirname : Bytes) (e : Entry) (buffer : ℕ)
    (file text : Bytes) (fl : ℕ)
    → IsReady os memory s.disk dirname e buffer file text
    → 0 < e.count
    → (s.files fl).filename ≡ e.filename
    → find_write e.offset e.count (pending_of s (s.files fl).filename) ≡ none
    → (s' : State) × (bytes : Bytes) × (gtfs_sync_write_file os memory s
          (some (write_of dirname e buffer))
        ≡ ok (pos e.count, s'))
      × (gtfs_read_file s' (some (record { dirname = dirname })) (some fl) e.offset e.count
          ≡ some (fresh e.count bytes))
      × (bytes ≡ take e.count (content e) ++ 0 ∷ [])
      × (length bytes ≡ e.count + 1)
read-sync os memory s dirname e buffer file text fl ready positive named nothing =
    let own = full_path dirname e.filename in
    let c = crashed s.disk dirname e text in
    let d = written os dirname c e in
    let here = still_there os memory s dirname e buffer file text ready in
    let count : length (take e.count (content e)) ≡ e.count =
      length-take e.count (content e) ready.enough in
    (
      record s { disk = d },
      take e.count (content e) ++ 0 ∷ [],
      gtfs_sync_write_file_lem os memory s dirname e buffer file text ready,
      read_fresh (record s { disk = d }) (record { dirname = dirname }) fl e.offset e.count nothing
          ∙ ap (λ f. read_disk d (full_path dirname f) e.offset e.count) named
          ∙ read_written d own e.offset e.count (take e.count (content e)) file count positive (
              ap (λ x. x own)
                (written_there os dirname c e file
                  (open_stream_there os c own file ready.opens_file here))
              ∙ put_self c own (some (write_at e.offset (take e.count (content e)) file))),
      refl,
      omega (arith, count, length-append (take e.count (content e)) (0 ∷ [])),
    )
