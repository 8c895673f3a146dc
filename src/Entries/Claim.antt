-- ===== src/Entries/Claim.antt =====
-- Assignment_2/Project2/src/client/client.c: which entry `find_and_set_shared_memory_entry_index`
-- takes.
use advanced_oslab.Prelude.{
  ℕ, zero, suc, ◌+◌, ◌≤◌, ◌<◌, ◌≡◌, ap, ◌∙◌, inl, inr, Bool, true, false, none, some, ◌++◌, ◌==◌,
  arith, Bool-cases, ==_refl,
}
use advanced_oslab.Prelude.Arrays.{update}
use advanced_oslab.Prelude.Outcome.{ok, spins}
use advanced_oslab.Entries.{
  FilePath, Memory, input_dir, output_dir, split, fits, claimed, compressed, claim,
  find_and_set_shared_memory_entry_index,
}

-- The entries below `i` are in use, none of them is locked, and entry `i` is free.
pub record IsFirstFree (memory : Memory) (start i : ℕ) : Type 0 where
  pub passed_used : (j : ℕ) → start ≤ j → j < i → (memory j).is_used ≡ true
  pub passed_unlocked : (j : ℕ) → start ≤ j → j < i → (memory j).is_locked ≡ false
  pub free : (memory i).is_used ≡ false
  pub unlocked : (memory i).is_locked ≡ false

module _ (dir_ready : FilePath → Bool) (memory : Memory) (file_path : FilePath) where
  find-claim :
      (entries start i : ℕ)
      → IsFirstFree memory start i
      → start ≤ i
      → i < start + entries
      → find_and_set_shared_memory_entry_index dir_ready memory entries start file_path
        ≡ claim dir_ready memory i file_path
  unfolding find_and_set_shared_memory_entry_index
  find-claim zero start i is le lt = absurd (omega arith)
  find-claim (suc entries) start i is le lt = elim (Bool-cases (start == i)) [
    | inl e ↦
        let same : start ≡ i = ground arith in
        let unlocked : (memory start).is_locked ≡ false =
          ap (λ k. (memory k).is_locked) same ∙ is.unlocked in
        let free : (memory start).is_used ≡ false = ap (λ k. (memory k).is_used) same ∙ is.free in
        rw (unlocked, free, find_and_set_shared_memory_entry_index)
          (ap (λ k. claim dir_ready memory k file_path) same)
    | inr ne ↦
        rw
          (
            is.passed_unlocked start (omega arith) (ground arith),
            is.passed_used start (omega arith) (ground arith),
            find_and_set_shared_memory_entry_index,
          )
          (find-claim entries (start + 1) i
            (record {
              passed_used = λ j a b. is.passed_used j (omega arith) b;
              passed_unlocked = λ j a b. is.passed_unlocked j (omega arith) b;
              free = is.free;
              unlocked = is.unlocked;
            })
            (ground arith) (omega arith))
  ]

  find-locked :
      (entries start i : ℕ) (path : FilePath)
      → ((j : ℕ) → start ≤ j → j < i → (memory j).is_used ≡ true)
      → ((j : ℕ) → start ≤ j → j < i → (memory j).is_locked ≡ false)
      → (memory i).is_locked ≡ true
      → start ≤ i
      → i < start + entries
      → find_and_set_shared_memory_entry_index dir_ready memory entries start path ≡ spins
  unfolding find_and_set_shared_memory_entry_index
  find-locked zero start i path used unlocked locked le lt = absurd (omega arith)
  find-locked (suc entries) start i path used unlocked locked le lt =
      elim (Bool-cases (start == i)) [
        | inl e ↦
            let same : start ≡ i = ground arith in
            let locked' : (memory start).is_locked ≡ true =
              ap (λ k. (memory k).is_locked) same ∙ locked in
            rw (locked', find_and_set_shared_memory_entry_index)
        | inr ne ↦
            rw
              (
                unlocked start (omega arith) (ground arith),
                used start (omega arith) (ground arith),
                find_and_set_shared_memory_entry_index,
              )
              (find-locked entries (start + 1) i path (λ j a b. used j (omega arith) b)
                (λ j a b. unlocked j (omega arith) b) locked (ground arith) (omega arith))
      ]

-- What a path with "/input/" and an output directory comes to.
pub record IsTarget (dir_ready : FilePath → Bool) (file_path base file_name : FilePath)
    : Type 0 where
  pub parts : split input_dir file_path ≡ some (base, file_name)
  pub ready : dir_ready (base ++ output_dir) ≡ true
  pub path_fits : fits file_path ≡ true
  pub compressed_fits : fits (compressed base file_name) ≡ true

module _ (dir_ready : FilePath → Bool) (memory : Memory) (entries i : ℕ)
    (is : IsFirstFree memory 0 i) (small : i < entries) where
  -- If entry `i` is the first that is not in use, no entry up to it is locked, and the path and what
  -- is made of it fit 100 bytes, with "/input/" in it and an output directory that is there or can
  -- be made, `find_and_set_shared_memory_entry_index` returns `i`; that entry holds the path and the
  -- path of the compressed file, is in use, not done and not locked, and the others are as before.
  pub find_and_set_lem :
      (file_path base file_name : FilePath)
      → IsTarget dir_ready file_path base file_name
      → (memory' : Memory) × (find_and_set_shared_memory_entry_index dir_ready memory entries 0
            file_path
          ≡ ok (some i, memory'))
        × (memory' i ≡ record {
          original_file_path = file_path;
          compressed_file_path = compressed base file_name;
          is_locked = false;
          is_used = true;
          is_done = false;
        })
        × ((j : ℕ) → (i == j) ≡ false → memory' j ≡ memory j)
  unfolding claim
  find_and_set_lem file_path base file_name target = (
    update memory i (record (claimed (memory i) file_path) {
      compressed_file_path = compressed base file_name;
      is_locked = false;
    }),
    find-claim dir_ready memory file_path entries 0 i is (omega arith) (omega arith)
        ∙ rw (target.path_fits, target.parts, target.ready, target.compressed_fits),
    rw (==_refl i),
    λ j ne. rw (ne),
  )

  -- If entry `i` is the first that is not in use, no entry up to it is locked, and the path fits but
  -- has no "/input/", `find_and_set_shared_memory_entry_index` returns -1 and leaves entry `i` in
  -- use and locked: the next call waits for its mutex without end, and so does a later one that
  -- finds the entry so and the entries below it in use and not locked.
  pub find_and_set-leaks :
      (file_path : FilePath)
      → split input_dir file_path ≡ none
      → fits file_path ≡ true
      → (memory' : Memory) × (find_and_set_shared_memory_entry_index dir_ready memory entries 0
            file_path
          ≡ ok (none, memory'))
        × ((memory' i).is_used ≡ true)
        × ((memory' i).is_locked ≡ true)
        × ((next : FilePath)
            → find_and_set_shared_memory_entry_index dir_ready memory' entries 0 next ≡ spins)
        × ((later : Memory) (next : FilePath)
            → ((j : ℕ) → j < i → (later j).is_used ≡ true)
            → ((j : ℕ) → j < i → (later j).is_locked ≡ false)
            → later i ≡ memory' i
            → find_and_set_shared_memory_entry_index dir_ready later entries 0 next ≡ spins)
  unfolding claim
  find_and_set-leaks file_path no_input path_fits =
      let memory' = update memory i (claimed (memory i) file_path) in
      let own : memory' i ≡ claimed (memory i) file_path = rw (==_refl i) in
      (
        memory',
        find-claim dir_ready memory file_path entries 0 i is (omega arith) (omega arith)
            ∙ rw (path_fits, no_input),
        ap (λ e. e.is_used) own,
        ap (λ e. e.is_locked) own,
        λ next.
            find-locked dir_ready memory' file_path entries 0 i next
              (λ j a b. ap (λ e. e.is_used) (other j b) ∙ is.passed_used j a b)
              (λ j a b. ap (λ e. e.is_locked) (other j b) ∙ is.passed_unlocked j a b)
              (ap (λ e. e.is_locked) own) (omega arith) (omega arith),
        λ later next used unlocked same.
            find-locked dir_ready later file_path entries 0 i next (λ j a b. used j b)
              (λ j a b. unlocked j b) (ap (λ e. e.is_locked) (same ∙ own)) (omega arith)
              (omega arith),
      )
    where
      other : (j : ℕ) → j < i → update memory i (claimed (memory i) file_path) j ≡ memory j
      other j b = ground arith
