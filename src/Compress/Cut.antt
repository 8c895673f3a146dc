-- ===== src/Compress/Cut.antt =====
-- Assignment_2/Project2/src/server/server.c: what handle_message leaves in the file and in the entry.
use advanced_oslab.Prelude.{
  ℕ, ◌≡◌, ap, ◌∙◌, Bool, true, false, Option, none, some, ◌∷◌, ◌++◌, append_assoc,
}
use advanced_oslab.Prelude.Arrays.{update}
use advanced_oslab.Prelude.Outcome.{ok}
use advanced_oslab.Text.{Bytes, put, has, same_refl}
use advanced_oslab.Text.Cut.{before-append, has_sep}
use advanced_oslab.Disk.{Disk}
use advanced_oslab.Entries.{Memory, finish_entry}
use advanced_oslab.Compress.{
  Snappy, System, write_compressed, compress_file, compress, handle_message,
}

-- The file is there and can be opened, and every call succeeds.
pub record IsReadable (system : System) (disk : Disk) (input_file source : Bytes) : Type 0 where
  pub there : disk input_file ≡ some source
  pub opens : system.opens_input input_file ≡ true
  pub seeks : system.seeks ≡ true
  pub tells : system.tells ≡ true
  pub allocates : system.allocates ≡ true
  pub reads : system.reads ≡ true

abbrev pub done : Memory → ℕ → Memory
done memory i = update memory i (record (memory i) { is_done = true })

module _ (snappy : Snappy) (system : System) (disk : Disk) where
  compress_file-writes :
      (input_file output_file source text tail : Bytes)
      → IsReadable system disk input_file source
      → system.opens_output output_file ≡ true
      → snappy.compress source ++ snappy.rest source ≡ text ++ 0 ∷ tail
      → has 0 text ≡ false
      → compress_file snappy system disk input_file output_file
        ≡ ok (true, put disk output_file (some text))
  unfolding compress_file write_compressed
  compress_file-writes input_file output_file source text tail is opens buffer no_zero = rw (
    compress_file,
    write_compressed,
    is.there,
    is.opens,
    is.seeks,
    is.tells,
    is.allocates,
    is.reads,
    opens,
    buffer,
    has_sep 0 text tail,
    before-append 0 text tail no_zero,
  )

  compress_file-missing :
      (input_file output_file : Bytes)
      → disk input_file ≡ none
      → compress_file snappy system disk input_file output_file ≡ ok (false, disk)
  unfolding compress_file
  compress_file-missing input_file output_file missing = rw (compress_file, missing)

  module _ (memory : Memory) (i : ℕ) (unlocked : (memory i).is_locked ≡ false) where
    handle_message-finishes :
        (b : Bool) (disk' : Disk)
        → compress_file snappy system disk
            (memory i).original_file_path
            (memory i).compressed_file_path
          ≡ ok (b, disk')
        → handle_message snappy system compress i memory disk ≡ ok (done memory i, disk')
    unfolding handle_message finish_entry
    handle_message-finishes b disk' e = rw (e, unlocked)

    -- If a zero byte stands in what snappy makes of a file, and the calls succeed and the mutex is
    -- free, `handle_message` writes only the bytes before the first zero, and marks the entry as
    -- done as if all had been written.
    pub handle_message-cut :
        (source text tail : Bytes)
        → IsReadable system disk (memory i).original_file_path source
        → system.opens_output (memory i).compressed_file_path ≡ true
        → snappy.compress source ≡ text ++ 0 ∷ tail
        → has 0 text ≡ false
        → handle_message snappy system compress i memory disk
          ≡ ok (done memory i, put disk (memory i).compressed_file_path (some text))
    handle_message-cut source text tail is opens compressed no_zero =
        handle_message-finishes true _ (
          compress_file-writes (memory i).original_file_path (memory i).compressed_file_path source
            text (tail ++ snappy.rest source) is opens
            (ap (λ c. c ++ snappy.rest source) compressed
              ∙ append_assoc text (0 ∷ tail) (snappy.rest source))
            no_zero)

    pub handle_message-missing :
        disk (memory i).original_file_path ≡ none
        → handle_message snappy system compress i memory disk ≡ ok (done memory i, disk)
    handle_message-missing missing = handle_message-finishes false disk (
        compress_file-missing (memory i).original_file_path (memory i).compressed_file_path missing)

    -- If the bytes that snappy makes of a file hold no zero, a zero follows them in the buffer, the
    -- calls succeed and the mutex is free, `handle_message` marks the entry as done and writes a
    -- file that every inverse of the compression on it turns back into the source.
    pub handle_message-restores :
        (decompress : Bytes → Option Bytes) (source tail : Bytes)
        → decompress (snappy.compress source) ≡ some source
        → IsReadable system disk (memory i).original_file_path source
        → system.opens_output (memory i).compressed_file_path ≡ true
        → has 0 (snappy.compress source) ≡ false
        → snappy.rest source ≡ 0 ∷ tail
        → (disk' : Disk) × (file : Bytes) × (handle_message snappy system compress i memory disk
            ≡ ok (done memory i, disk'))
          × (disk' (memory i).compressed_file_path ≡ some file)
          × (decompress file ≡ some source)
    handle_message-restores decompress source tail inverse is opens no_zero rest = (
      put disk (memory i).compressed_file_path (some (snappy.compress source)),
      snappy.compress source,
      handle_message-finishes true _ (
          compress_file-writes (memory i).original_file_path (memory i).compressed_file_path source
            (snappy.compress source) tail is opens (ap (λ r. snappy.compress source ++ r) rest)
            no_zero),
      rw (same_refl (memory i).compressed_file_path),
      inverse,
    )
