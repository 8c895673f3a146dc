-- ===== src/Log/Replay.antt =====
-- The replay of a whole log file, against the writes that it records.
use advanced_oslab.Prelude.{
  append_assoc, append_nil, ℕ, ◌≡◌, refl, sym, ap, ◌∙◌, Bool, true, false, none, some, List, [],
  ◌∷◌, ◌++◌, arith, Bool-cases, Option-cases, inl, inr,
}
use advanced_oslab.Prelude.Outcome.{ok}
use advanced_oslab.Text.{Bytes, pieces, put, put_self, has}
use advanced_oslab.Text.Pieces.{pieces-append}
use advanced_oslab.Disk.{Disk, Os, take, write_at}
use advanced_oslab.Disk.Laws.{write_at-write_at}
use advanced_oslab.Log.{open_stream, full_path, log_line, apply_line, apply_lines, sync_log_to_file}
use advanced_oslab.Log.Line.{
  Entry, IsPlain, content, ending, written, core, has_feed-core, apply_line-core,
}

-- The line that `gtfs_sync_write_file` appends to the log, with the line feed of `endl`.
abbrev pub logged : Entry → Bytes
logged e = log_line e.filename e.offset e.count (content e) ++ 10 ∷ []

abbrev pub log_text : List Entry → Bytes
log_text [] = []
log_text (e ∷ es) = logged e ++ log_text es

abbrev pub ArePlain : List Entry → Type 0
ArePlain [] = Unit
ArePlain (e ∷ es) = IsPlain e × ArePlain es

-- The writes one after the other.
abbrev pub replayed : Os → (dirname : Bytes) → Disk → List Entry → Disk
replayed os dirname disk [] = disk
replayed os dirname disk (e ∷ es) = replayed os dirname (written os dirname disk e) es

log_line-append :
    (f : Bytes) (o n : ℕ) (a b : Bytes) → log_line f o n (a ++ b) ≡ log_line f o n a ++ b
unfolding log_line
log_line-append f o n a b = grind (arith, append_assoc)

logged_lem : (e : Entry) → logged e ≡ (core e ++ ending e.is_line) ++ 10 ∷ []
logged_lem e =
    ap (λ t. t ++ 10 ∷ [])
      (log_line-append e.filename e.offset e.count (e.first ∷ e.rest) (ending e.is_line))

-- The first lines of the text are the entry, and an empty line if its content ends in a line feed.
abbrev lines_of : Bool → Bytes → List Bytes
lines_of true line = line ∷ [] ∷ []
lines_of false line = line ∷ []

pieces-lines :
    (is_line : Bool) (line s : Bytes)
    → has 10 line ≡ false
    → pieces 10 (((line ++ ending is_line) ++ 10 ∷ []) ++ s) ≡ lines_of is_line line ++ pieces 10 s
unfolding pieces
pieces-lines true line s h =
    ap (pieces 10)
      (append_assoc (line ++ 10 ∷ []) (10 ∷ []) s ∙ append_assoc line (10 ∷ []) (10 ∷ s))
    ∙ pieces-append 10 line (10 ∷ s) h
pieces-lines false line s h =
    ap (pieces 10) (append_assoc (line ++ []) (10 ∷ []) s ∙ ap (λ t. t ++ 10 ∷ s) (append_nil line))
    ∙ pieces-append 10 line s h

apply_lines-lines :
    (os : Os) (dirname : Bytes) (disk : Disk) (is_line : Bool) (line : Bytes) (lines : List Bytes)
    (next : Disk)
    → apply_line os dirname disk line ≡ ok next
    → apply_lines os dirname disk (lines_of is_line line ++ lines)
      ≡ apply_lines os dirname next lines
unfolding apply_lines apply_line
apply_lines-lines os dirname disk true line lines next e = rw (apply_lines, e) refl
apply_lines-lines os dirname disk false line lines next e = rw (apply_lines, e) refl

-- A log that records plain writes replays to these writes, one after the other.
pub apply_lines-log_text :
    (os : Os) (dirname : Bytes) (disk : Disk) (es : List Entry)
    → ArePlain es
    → apply_lines os dirname disk (pieces 10 (log_text es)) ≡ ok (replayed os dirname disk es)
unfolding apply_lines pieces
apply_lines-log_text os dirname disk [] h = refl
apply_lines-log_text os dirname disk (e ∷ es) (plain, rest) =
    ap (λ t. apply_lines os dirname disk (pieces 10 (t ++ log_text es))) (logged_lem e)
    ∙ ap (apply_lines os dirname disk)
        (pieces-lines e.is_line (core e) (log_text es) (has_feed-core e plain))
    ∙ apply_lines-lines os dirname disk e.is_line (core e) (pieces 10 (log_text es))
        (written os dirname disk e) (apply_line-core os dirname disk e plain)
    ∙ apply_lines-log_text os dirname (written os dirname disk e) es rest

-- If the file and its log are there, the log can be opened, and its text is the lines of some
-- writes, whose names have neither "|" nor a line feed, whose contents are not empty, have no "|"
-- and no line feed but one at the end and are as long as the write, and whose numbers fit an `int`:
-- `sync_log_to_file` returns 0 and the files are as after these writes in their order, less those
-- whose file is not there or cannot be opened.
pub sync_log_to_file-refines :
    (os : Os) (disk : Disk) (dirname file_path logfile_path file : Bytes) (es : List Entry)
    → ArePlain es
    → disk file_path ≡ some file
    → disk logfile_path ≡ some (log_text es)
    → os.opens logfile_path ≡ true
    → sync_log_to_file os disk dirname file_path logfile_path
      ≡ ok (true, replayed os dirname disk es)
unfolding sync_log_to_file
sync_log_to_file-refines os disk dirname file_path logfile_path file es plain there log opens =
    ground (arith, there, log, opens, apply_lines-log_text os dirname disk es plain)

put_again :
    (disk : Disk) (k path : Bytes) (a b : Bytes)
    → a ≡ b
    → put (put disk k (some b)) k (some a) path ≡ put disk k (some b) path
put_again disk k path a b e = ground (arith, e)

pub open_stream_there :
    (os : Os) (disk : Disk) (path file : Bytes)
    → os.opens path ≡ true
    → disk path ≡ some file
    → open_stream os disk path ≡ some file
open_stream_there os disk path file opens there = rw opens there

open_stream-put :
    (os : Os) (disk : Disk) (path a b : Bytes)
    → open_stream os disk path ≡ some a
    → open_stream os (put disk path (some b)) path ≡ some b
open_stream-put os disk path a b was = elim (Bool-cases (os.opens path)) [
  | inl opens ↦ rw opens (put_self disk path (some b))
  | inr shut ↦ absurd (cc (rw shut at was))
]

pub written_there :
    (os : Os) (dirname : Bytes) (disk : Disk) (e : Entry) (file : Bytes)
    → open_stream os disk (full_path dirname e.filename) ≡ some file
    → written os dirname disk e
      ≡ put disk
          (full_path dirname e.filename)
          (some (write_at e.offset (take e.count (content e)) file))
written_there os dirname disk e file there = rw (written, there) refl

written_missing :
    (os : Os) (dirname : Bytes) (disk : Disk) (e : Entry)
    → open_stream os disk (full_path dirname e.filename) ≡ none
    → written os dirname disk e ≡ disk
written_missing os dirname disk e missing = rw (written, missing) refl

-- A write that has reached the file changes nothing when it is replayed.
pub written-written :
    (os : Os) (dirname : Bytes) (disk : Disk) (e : Entry) (path : Bytes)
    → written os dirname (written os dirname disk e) e path ≡ written os dirname disk e path
written-written os dirname disk e path =
    let own = full_path dirname e.filename in
    elim (Option-cases (open_stream os disk own)) [
      | inl missing ↦
          ap (λ d. written os dirname d e path) (written_missing os dirname disk e missing)
      | inr (file, there) ↦
          let bytes = take e.count (content e) in
          let once = written_there os dirname disk e file there in
          let again =
            written_there os dirname (put disk own (some (write_at e.offset bytes file))) e
              (write_at e.offset bytes file)
              (open_stream-put os disk own file (write_at e.offset bytes file) there) in
          ap (λ d. written os dirname d e path) once
          ∙ ap (λ d. d path) again
          ∙ put_again disk own path (write_at e.offset bytes (write_at e.offset bytes file))
              (write_at e.offset bytes file) (write_at-write_at e.offset bytes file)
          ∙ ap (λ d. d path) (sym once)
    ]
