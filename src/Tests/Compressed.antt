-- ===== src/Tests/Compressed.antt =====
-- A worker at work: files of one and of three bytes, compressed the way snappy does with literals.
use advanced_oslab.Prelude.{◌≡◌, refl, ◌-◌, ◌*◌, true, false, Option, none, some, [], ◌∷◌, length}
use advanced_oslab.Prelude.Outcome.{ok}
use advanced_oslab.Text.{Bytes, put, has, codes}
use advanced_oslab.Disk.{Disk}
use advanced_oslab.Entries.{Memory}
use advanced_oslab.Compress.{Snappy, System, compress, handle_message}
use advanced_oslab.Compress.Cut.{done, handle_message-cut, handle_message-restores}

abbrev memory : Memory
memory i = record {
  original_file_path = codes "in";
  compressed_file_path = codes "out";
  is_locked = false;
  is_used = true;
  is_done = false;
}

-- The length, the tag of one literal, and the literal.
abbrev snappy : Snappy
snappy = record { compress = λ s. length s ∷ 4 * (length s - 1) ∷ s; rest = λ s. 0 ∷ [] }

abbrev decompress : Bytes → Option Bytes
decompress [] = none
decompress (n ∷ []) = none
decompress (n ∷ tag ∷ s) = some s

abbrev system : System
system = record {
  opens_input = λ path. true;
  opens_output = λ path. true;
  seeks = true;
  tells = true;
  allocates = true;
  reads = true;
}

abbrev disk : Bytes → Disk
disk source path = some source

cut_example :
    handle_message snappy system compress 0 memory (disk (codes "a"))
    ≡ ok (done memory 0, put (disk (codes "a")) (codes "out") (some (1 ∷ [])))
unfolding has
cut_example =
    handle_message-cut snappy system (disk (codes "a")) memory 0 refl (codes "a") (1 ∷ []) (97 ∷ [])
      (record {
        there = refl;
        opens = refl;
        seeks = refl;
        tells = refl;
        allocates = refl;
        reads = refl;
      })
      refl refl refl

restores_example :
    (disk' : Disk) × (file : Bytes) × (handle_message snappy system compress 0 memory
        (disk (codes "abc"))
      ≡ ok (done memory 0, disk'))
    × (disk' (codes "out") ≡ some file)
    × (decompress file ≡ some (codes "abc"))
unfolding has
restores_example =
    handle_message-restores snappy system (disk (codes "abc")) memory 0 refl decompress
      (codes "abc") [] refl
      (record {
        there = refl;
        opens = refl;
        seeks = refl;
        tells = refl;
        allocates = refl;
        reads = refl;
      })
      refl refl refl
