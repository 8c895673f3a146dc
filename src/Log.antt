-- ===== src/Log.antt =====
-- Assignment_3/Project3/gtfs/src/gtfs.cpp: the lines of a log file, and their replay by
-- sync_log_to_file.
pub mod Line
pub mod Replay
use advanced_oslab.Prelude.{
  ℕ, zero, suc, ◌+◌, Bool, true, false, ◌&&◌, Option, none, some, List, [], ◌∷◌, ◌++◌, length, leb,
  is_some, if◌then◌else◌, not,
}
use advanced_oslab.Prelude.Int.{ℤ, pos, negsuc}
use advanced_oslab.Prelude.Outcome.{Outcome, ok, undefined, aborted, ◌>>=◌, ◌>>◌, defined}
use advanced_oslab.Text.{Bytes, put, pieces, to_string, stoi}
use advanced_oslab.Disk.{Disk, Os, take, write_at}

-- `write_t`; `buffer` is its field `data`, a pointer of the caller's.
pub record Write : Type 0 where
  pub filename : Bytes
  pub offset : ℕ
  pub length : ℕ
  pub buffer : ℕ
  pub full_file_path : Bytes
  pub full_log_path : Bytes

-- dirname + "/" + filename, and that + ".log".
abbrev pub full_path : (dirname filename : Bytes) → Bytes
full_path dirname filename = dirname ++ 47 ∷ filename

abbrev pub log_path : (dirname filename : Bytes) → Bytes
log_path dirname filename = full_path dirname filename ++ 46 ∷ 108 ∷ 111 ∷ 103 ∷ []

-- filename|offset|length|data
unfoldable pub log_line : (filename : Bytes) (offset length : ℕ) (content : Bytes) → Bytes
log_line filename offset length content =
    filename ++ 124 ∷ (to_string offset ++ 124 ∷ (to_string length ++ 124 ∷ content))

-- `log_data[i]`; a number that `stoi` throws on ends the program.
abbrev pub nth : List Bytes → ℕ → Outcome Bytes
nth [] i = undefined
nth (p ∷ ps) zero = ok p
nth (p ∷ ps) (suc i) = nth ps i

abbrev pub number : Option ℤ → Outcome ℤ
number none = aborted
number (some n) = ok n

-- `fstream fs(path)`: the bytes of a file that is there and can be open_stream.
abbrev pub open_stream : Os → Disk → (path : Bytes) → Option Bytes
open_stream os disk path = if os.opens path then disk path else none

-- `seekp` and `write` on an `fstream`: nothing is written if the file is not there or cannot be open_stream, or
-- where a number is negative. The string has a zero behind it; what is behind that is out of bounds.
unfoldable pub write_stream :
    Os → Disk → (path : Bytes) (offset n : ℤ) (content : Bytes) → Outcome Disk
write_stream os disk path offset n content = elim (open_stream os disk path) [
  | none ↦ ok disk
  | some file ↦ elim offset [
    | negsuc _ ↦ ok disk
    | pos at ↦ elim n [
      | negsuc _ ↦ ok disk
      | pos count ↦
          defined (leb count (length content + 1))
          >> ok (put disk path (some (write_at at (take count (content ++ 0 ∷ [])) file)))
    ]
  ]
]

-- The body of the loop of `sync_log_to_file`, behind the split of a line into its fields.
unfoldable pub apply_fields : Os → (dirname : Bytes) → Disk → (log_data : List Bytes) → Outcome Disk
unfolding write_stream
apply_fields os dirname disk log_data = do
  filename ← nth log_data 0
  offset_text ← nth log_data 1
  offset ← number (stoi offset_text)
  length_text ← nth log_data 2
  n ← number (stoi length_text)
  content ← nth log_data 3
  write_stream os disk (full_path dirname filename) offset n (content ++ 10 ∷ [])

unfoldable pub apply_line : Os → (dirname : Bytes) → Disk → (line : Bytes) → Outcome Disk
unfolding apply_fields
apply_line os dirname disk [] = ok disk
apply_line os dirname disk (c ∷ line) = apply_fields os dirname disk (pieces 124 (c ∷ line))

unfoldable pub apply_lines : Os → (dirname : Bytes) → Disk → List Bytes → Outcome Disk
unfolding apply_line
apply_lines os dirname disk [] = ok disk
apply_lines os dirname disk (line ∷ lines) =
    apply_line os dirname disk line >>= λ next. apply_lines os dirname next lines

-- `true` for 0, `false` for -1.
unfoldable pub sync_log_to_file :
    Os → Disk → (dirname file_path logfile_path : Bytes) → Outcome (Bool × Disk)
unfolding apply_lines
sync_log_to_file os disk dirname file_path logfile_path = elim (disk file_path) [
  | none ↦ ok (false, disk)
  | some _ ↦ elim (disk logfile_path) [
    | none ↦ ok (false, disk)
    | some log ↦
        if os.opens logfile_path
        then (do next ← apply_lines os dirname disk (pieces 10 log); ok (true, next))
        else ok (false, disk)
  ]
]
