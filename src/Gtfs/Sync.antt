-- ===== src/Gtfs/Sync.antt =====
-- Assignment_3/Project3/gtfs/src/gtfs.cpp: `gtfs_sync_write_file`, and what the log that it writes is
-- good for.
use advanced_oslab.Prelude.{
  ℕ, ◌≤◌, ◌≡◌, refl, sym, ap, ◌∙◌, true, false, Option, some, [], ◌∷◌, ◌++◌, leb, length,
  length-append, arith, Bool-cases, inl, inr,
}
use advanced_oslab.Prelude.Int.{pos}
use advanced_oslab.Prelude.Outcome.{ok}
use advanced_oslab.Text.{Bytes, has, same, same_iff, put, put_self, c_string}
use advanced_oslab.Disk.{Disk, Os, take, write_at}
use advanced_oslab.Log.{Write, full_path, log_path}
use advanced_oslab.Log.Line.{Entry, content, written, take-append}
use advanced_oslab.Log.Replay.{logged, open_stream_there, written_there}
use advanced_oslab.Gtfs.{State}
use advanced_oslab.Gtfs.Calls.{new_write, append_log, write_data, gtfs_sync_write_file}

longer_apart : (path : Bytes) (c : ℕ) (s : Bytes) → same (path ++ c ∷ s) path ≡ false
longer_apart path c s = elim (Bool-cases (same (path ++ c ∷ s) path)) [
  | inl equal ↦ absurd (
      omega
        (arith, ap length ((same_iff (path ++ c ∷ s) path).0 equal), length-append path (c ∷ s)))
  | inr apart ↦ apart
]

path_apart : (path : Bytes) (c : ℕ) (s : Bytes) → same path (path ++ c ∷ s) ≡ false
path_apart path c s = elim (Bool-cases (same path (path ++ c ∷ s))) [
  | inl equal ↦ absurd (
      omega
        (arith, ap length ((same_iff path (path ++ c ∷ s)).0 equal), length-append path (c ∷ s)))
  | inr apart ↦ apart
]

c_string-append : (s t : Bytes) → has 0 s ≡ false → c_string (s ++ 0 ∷ t) ≡ some s
unfolding has c_string
c_string-append [] t h = refl
c_string-append (c ∷ s) t h = ground (arith, c_string-append s t)

-- The write that `gtfs_write_file` makes of an entry.
abbrev pub write_of : (dirname : Bytes) → Entry → (buffer : ℕ) → Write
write_of dirname e buffer = new_write dirname e.filename e.offset e.count buffer

-- The system calls for one write succeed, its file is there, its log has some text, and its content is
-- a C string at the pointer.
pub record IsReady (os : Os) (memory : ℕ → Bytes) (disk : Disk) (dirname : Bytes) (e : Entry)
    (buffer : ℕ) (file text : Bytes) : Type 0 where
  pub opens_log : os.opens (log_path dirname e.filename) ≡ true
  pub locks_log : os.locks (log_path dirname e.filename) ≡ true
  pub opens_file : os.opens (full_path dirname e.filename) ≡ true
  pub locks_file : os.locks (full_path dirname e.filename) ≡ true
  pub writes : os.writes (full_path dirname e.filename) e.count ≡ some e.count
  pub no_zero : has 0 (content e) ≡ false
  pub bytes : memory buffer ≡ content e ++ 0 ∷ []
  pub enough : e.count ≤ length (content e)
  pub there : disk (full_path dirname e.filename) ≡ some file
  pub log : disk (log_path dirname e.filename) ≡ some text

-- The disk with the entry in the log and not yet in the file.
abbrev pub crashed : Disk → (dirname : Bytes) → Entry → (text : Bytes) → Disk
crashed disk dirname e text = put disk (log_path dirname e.filename) (some (text ++ logged e))

write_data_at :
    (os : Os) (disk : Disk) (w : Write) (bytes file : Bytes)
    → disk w.full_file_path ≡ some file
    → os.opens w.full_file_path ≡ true
    → os.locks w.full_file_path ≡ true
    → os.writes w.full_file_path w.length ≡ some w.length
    → w.length ≤ length bytes
    → write_data os disk w bytes
      ≡ ok (
        pos w.length,
        put disk w.full_file_path (some (write_at w.offset (take w.length bytes) file)),
      )
unfolding write_data
write_data_at os disk w bytes file there opens locks writes enough =
    let fits : leb w.length (length bytes) ≡ true = ground (arith, enough) in
    rw (there, opens, locks, fits, writes, write_data) refl

module _ (os : Os) (memory : ℕ → Bytes) (s : State) (dirname : Bytes) (e : Entry) (buffer : ℕ)
    (file text : Bytes) (ready : IsReady os memory s.disk dirname e buffer file text) where
  append_log_lem :
      append_log s.disk (write_of dirname e buffer) (content e) ≡ crashed s.disk dirname e text
  append_log_lem = rw (ready.log, ready.log) refl

  pub still_there : crashed s.disk dirname e text (full_path dirname e.filename) ≡ some file
  still_there = rw (longer_apart (full_path dirname e.filename) 46 _) ready.there

  pub log_there :
      (bytes : Option Bytes)
      → put
          (crashed s.disk dirname e text)
          (full_path dirname e.filename)
          bytes
          (log_path dirname e.filename)
        ≡ some (text ++ logged e)
  log_there bytes =
      rw (path_apart (full_path dirname e.filename) 46 _)
        (put_self s.disk (log_path dirname e.filename) (some (text ++ logged e)))

  write_data_lem :
      write_data os
        (crashed s.disk dirname e text)
        (write_of dirname e buffer)
        (content e ++ 0 ∷ [])
      ≡ ok (pos e.count, written os dirname (crashed s.disk dirname e text) e)
  write_data_lem =
      let disk = crashed s.disk dirname e text in
      let fits : e.count ≤ length (content e ++ 0 ∷ []) =
        omega (arith, ready.enough, length-append (content e) (0 ∷ [])) in
      write_data_at os disk (write_of dirname e buffer) (content e ++ 0 ∷ []) file still_there
        ready.opens_file ready.locks_file ready.writes fits
      ∙ ap
          (λ t. ok (
            pos e.count,
            put disk (full_path dirname e.filename) (some (write_at e.offset t file)),
          ))
          (take-append e.count (content e) (0 ∷ []) ready.enough)
      ∙ ap (λ d. ok (pos e.count, d))
          (sym (
            written_there os dirname disk e file (
              open_stream_there os disk (full_path dirname e.filename) file ready.opens_file
                still_there)))

  pub gtfs_sync_write_file_lem :
      gtfs_sync_write_file os memory s (some (write_of dirname e buffer))
      ≡ ok (pos e.count, record s { disk = written os dirname (crashed s.disk dirname e text) e })
  unfolding gtfs_sync_write_file
  gtfs_sync_write_file_lem =
      rw
        (
          ready.opens_log,
          ready.locks_log,
          ready.bytes,
          c_string-append (content e) [] ready.no_zero,
          append_log_lem,
          write_data_lem,
        )
        refl
