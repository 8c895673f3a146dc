-- ===== src/Entries.antt =====
-- Assignment_2/Project2/src/client/client.c and src/server/server.c: the entries of shared memory
-- between a client and its workers.
pub mod Split
pub mod Claim
pub mod Exchange
pub mod Protocol
pub mod Results
pub mod Counts
pub mod Requests
pub mod Answered
pub mod Calls
pub mod Served
pub mod Waited
pub mod Elapsed
use advanced_oslab.Prelude.{
  ℕ, zero, suc, ◌+◌, Bool, true, false, not, ◌&&◌, Option, none, some, List, [], ◌∷◌, ◌++◌, ◌==◌,
  ltb, length, if◌then◌else◌,
}
use advanced_oslab.Prelude.Arrays.{update}
use advanced_oslab.Prelude.Outcome.{Outcome, ok, spins, ◌>>=◌, ◌>>◌, defined}

-- Bytes of a string, without the zero at its end.
abbrev pub FilePath : Type 0
FilePath = List ℕ

-- `shared_memory_entry_t`; `is_locked` is its mutex.
pub record Entry : Type 0 where
  pub original_file_path : FilePath
  pub compressed_file_path : FilePath
  pub is_locked : Bool
  pub is_used : Bool
  pub is_done : Bool

abbrev pub Memory : Type 0
Memory = ℕ → Entry

-- "/input/", "/output/" and "_compressed".
abbrev pub input_dir : FilePath
input_dir = 47 ∷ 105 ∷ 110 ∷ 112 ∷ 117 ∷ 116 ∷ 47 ∷ []

abbrev pub output_dir : FilePath
output_dir = 47 ∷ 111 ∷ 117 ∷ 116 ∷ 112 ∷ 117 ∷ 116 ∷ 47 ∷ []

abbrev pub suffix : FilePath
suffix = 95 ∷ 99 ∷ 111 ∷ 109 ∷ 112 ∷ 114 ∷ 101 ∷ 115 ∷ 115 ∷ 101 ∷ 100 ∷ []

-- What follows the word, if the string begins with it.
unfoldable pub strip : (word s : FilePath) → Option FilePath
strip [] s = some s
strip (p ∷ word) [] = none
strip (p ∷ word) (c ∷ s) = let rest = strip word s in if p == c then rest else none

-- `strstr`: what comes before the first place of the word, and what comes behind it.
unfoldable pub split : (word s : FilePath) → Option (FilePath × FilePath)
unfolding strip
split word [] = elim (strip word []) [ none ↦ none | some rest ↦ some ([], rest) ]
split word (c ∷ s) =
    let later : Option (FilePath × FilePath) = elim (split word s) [
      | none ↦ none
      | some (base, rest) ↦ some (c ∷ base, rest)
    ] in
    elim (strip word (c ∷ s)) [ none ↦ later | some rest ↦ some ([], rest) ]

-- The paths of an entry are arrays of 100 bytes.
abbrev pub fits : FilePath → Bool
fits s = ltb (length s) 100

abbrev pub claimed : Entry → FilePath → Entry
claimed e file_path = record e {
  is_used = true;
  is_done = false;
  original_file_path = file_path;
  is_locked = true;
}

abbrev pub compressed : (base file_name : FilePath) → FilePath
compressed base file_name = base ++ output_dir ++ file_name ++ suffix

-- The body of `if(!entry->is_used)`; `dir_ready` says of a directory that it is there or can be made.
unfoldable pub claim : (FilePath → Bool) → Memory → ℕ → FilePath → Outcome (Option ℕ × Memory)
unfolding split
claim dir_ready memory i file_path = do
  defined (fits file_path)
  let e = claimed (memory i) file_path
  elim (split input_dir file_path) [
    | none ↦ ok (none, update memory i e)
    | some (base, file_name) ↦
        if dir_ready (base ++ output_dir)
        then (do
          defined (fits (compressed base file_name))
          ok (
            some i,
            update memory i
                (record e { compressed_file_path = compressed base file_name; is_locked = false }),
          ))
        else ok (none, update memory i e)
  ]

-- The loop of `find_and_set_shared_memory_entry_index` from entry `i` on, with so many entries to go.
-- The caller is the only one to run: a mutex that is taken is waited for in vain.
unfoldable pub find_and_set_shared_memory_entry_index :
    (FilePath → Bool) → Memory → (entries i : ℕ) → FilePath → Outcome (Option ℕ × Memory)
unfolding claim
find_and_set_shared_memory_entry_index dir_ready memory zero i file_path = ok (none, memory)
find_and_set_shared_memory_entry_index dir_ready memory (suc entries) i file_path =
    elim (memory i).is_locked [
      | true ↦ spins
      | false ↦ elim (memory i).is_used [
        | true ↦ find_and_set_shared_memory_entry_index dir_ready memory entries (i + 1) file_path
        | false ↦ claim dir_ready memory i file_path
      ]
    ]

-- The end of `handle_message`, for a request to compress: the entry is done.
unfoldable pub finish_entry : Memory → ℕ → Outcome Memory
finish_entry memory i =
    if (memory i).is_locked
    then spins
    else ok (update memory i (record (memory i) { is_done = true }))

-- `wait_response_from_server`: an entry that is not done is waited for.
unfoldable pub wait_response_from_server : Memory → ℕ → Outcome Memory
wait_response_from_server memory i =
    if (memory i).is_locked
    then spins
    else (if (memory i).is_done
        then ok (update memory i (record (memory i) { is_used = false; is_done = false }))
        else spins)
