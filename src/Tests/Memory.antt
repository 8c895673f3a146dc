-- ===== src/Tests/Memory.antt =====
-- The entries of shared memory at work: two entries, the first of them in use.
use advanced_oslab.Prelude.{◌≡◌, refl, none, [], ◌∷◌, Bool, true, false, ◌==◌, arith}
use advanced_oslab.Prelude.Outcome.{ok, spins}
use advanced_oslab.Entries.{
  FilePath, Entry, Memory, strip, split, find_and_set_shared_memory_entry_index,
}
use advanced_oslab.Entries.Claim.{IsFirstFree, IsTarget, find_and_set-leaks}

abbrev pub entry : Bool → Entry
entry is_used = record {
  original_file_path = [];
  compressed_file_path = [];
  is_locked = false;
  is_used = is_used;
  is_done = false;
}

abbrev memory : Memory
memory i = entry (i == 0)

-- "./input/a"
abbrev pub file_path : FilePath
file_path = 46 ∷ 47 ∷ 105 ∷ 110 ∷ 112 ∷ 117 ∷ 116 ∷ 47 ∷ 97 ∷ []

abbrev pub dir_ready : FilePath → Bool
dir_ready path = true

memory-IsFirstFree : IsFirstFree memory 0 1
memory-IsFirstFree = record {
  passed_used = λ j a b. ground arith;
  passed_unlocked = λ j a b. refl;
  free = refl;
  unlocked = refl;
}

pub file_path-IsTarget : IsTarget dir_ready file_path (46 ∷ []) (97 ∷ [])
unfolding split strip
file_path-IsTarget = record { parts = refl; ready = refl; path_fits = refl; compressed_fits = refl }

leaks_example :
    (memory' : Memory) × (find_and_set_shared_memory_entry_index dir_ready memory 2 0 (97 ∷ [])
      ≡ ok (none, memory'))
    × (find_and_set_shared_memory_entry_index dir_ready memory' 2 0 file_path ≡ spins)
unfolding split strip
leaks_example =
    let (memory', returns, used, locked, stuck, still_stuck) =
      find_and_set-leaks dir_ready memory 2 1 memory-IsFirstFree (omega arith) (97 ∷ []) refl
        refl in
    (memory', returns, stuck file_path)
