-- ===== src/Compress.antt =====
-- Assignment_2/Project2/src/server/server.c: compress_file and handle_message. The library snappy-c,
-- a git submodule, is the parameter Snappy.
pub mod Cut
use advanced_oslab.Prelude.{
  ℕ, Bool, true, false, Option, none, some, List, [], ◌∷◌, ◌++◌, if◌then◌else◌,
}
use advanced_oslab.Prelude.Outcome.{Outcome, ok, exited, ◌>>=◌, ◌>>◌, defined}
use advanced_oslab.Text.{Bytes, put, has, before}
use advanced_oslab.Disk.{Disk}
use advanced_oslab.Entries.{Memory, finish_entry}

-- `snappy_compress`: the bytes that it counts for a text; and what the buffer, which malloc gave for
-- `snappy_max_compressed_length` bytes, holds behind them.
pub record Snappy : Type 0 where
  pub compress : Bytes → Bytes
  pub rest : Bytes → Bytes

-- Which files can be opened to read and to write, and which calls on the input succeed.
pub record System : Type 0 where
  pub opens_input : Bytes → Bool
  pub opens_output : Bytes → Bool
  pub seeks : Bool
  pub tells : Bool
  pub allocates : Bool
  pub reads : Bool

-- A call whose failure ends the server.
abbrev pub or_exit : Bool → Outcome (Unit {0})
or_exit b = if b then ok tt else exited

-- `fprintf(fp_out, "%s", …)`: the bytes before the first zero; without one it reads out of bounds.
abbrev pub printed : Bytes → Outcome Bytes
printed buffer = do defined (has 0 buffer); ok (before 0 buffer)

-- The second half of `compress_file`, on what the first half has read; false stands for -1.
unfoldable pub write_compressed :
    Snappy → System → Disk → (source : Bytes) (output_file : Bytes) → Outcome (Bool × Disk)
write_compressed snappy system disk source output_file =
    if system.opens_output output_file
    then (do
      text ← printed (snappy.compress source ++ snappy.rest source)
      ok (true, put disk output_file (some text)))
    else ok (false, disk)

unfoldable pub compress_file :
    Snappy → System → Disk → (input_file output_file : Bytes) → Outcome (Bool × Disk)
unfolding write_compressed
compress_file snappy system disk input_file output_file = elim (disk input_file) [
  | none ↦ ok (false, disk)
  | some source ↦
      if system.opens_input input_file
      then (do
        or_exit system.seeks
        or_exit system.tells
        or_exit system.allocates
        or_exit system.reads
        write_compressed snappy system disk source output_file)
      else ok (false, disk)
]

-- `client_service_request`, and a number that is none of them.
pub data Request : Type 0 where
  compress : Request
  unknown : Request

unfoldable pub handle_message :
    Snappy
    → System
    → Request
    → (shared_memory_entry_index : ℕ) → Memory
    → Disk
    → Outcome (Memory × Disk)
unfolding compress_file finish_entry
handle_message snappy system unknown i memory disk = ok (memory, disk)
handle_message snappy system compress i memory disk = do
  (done, disk') ←
      compress_file snappy system disk (memory i).original_file_path (memory i).compressed_file_path
  memory' ← finish_entry memory i
  ok (memory', disk')
