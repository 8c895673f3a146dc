-- ===== src/Entries/Waited.antt =====
-- Assignment_2/Project2/src/client/client.c: communicate_file_async waits for an entry and sends.
use advanced_oslab.Prelude.{ℕ, zero, suc, ◌+◌, ◌<◌, ◌≡◌, refl, Bool, true, false, none, arith}
use advanced_oslab.Prelude.Outcome.{ok}
use advanced_oslab.Entries.{FilePath, Memory, find_and_set_shared_memory_entry_index}
use advanced_oslab.Entries.Claim.{IsFirstFree, IsTarget, find_and_set_lem}
use advanced_oslab.Entries.Protocol.{State, Reach, here, Inv}
use advanced_oslab.Entries.Calls.{queued, find_repeatedly, communicate_file_async}
use advanced_oslab.Entries.Served.{Claimed, find-FindOk, queued-Reach, join, Reach-keeps}

-- The state after so many rounds of the other threads.
abbrev pub waited : (meanwhile : State → State) → ℕ → State → State
waited meanwhile zero s = s
waited meanwhile (suc k) s = waited meanwhile k (meanwhile s)

abbrev pub IsFull : (entries : ℕ) → State → Type 0
IsFull entries s = (j : ℕ) → j < entries → (s.memory j).is_used ≡ true

module _ (dir_ready : FilePath → Bool) where
  find-full :
      (memory : Memory) (entries start : ℕ) (file_path : FilePath)
      → ((j : ℕ) → (memory j).is_locked ≡ false)
      → ((j : ℕ) → j < start + entries → (memory j).is_used ≡ true)
      → find_and_set_shared_memory_entry_index dir_ready memory entries start file_path
        ≡ ok (none, memory)
  unfolding find_and_set_shared_memory_entry_index
  find-full memory zero start file_path unlocked used = refl
  find-full memory (suc entries) start file_path unlocked used =
      rw (find_and_set_shared_memory_entry_index, unlocked start, used start (omega arith))
        (find-full memory entries (start + 1) file_path unlocked (λ j h. used j (omega arith)))

  module _ (sends : Bool) (entries : ℕ) (meanwhile : State → State)
      (others : (t : State) → Reach dir_ready t (meanwhile t)) (file_path base file_name : FilePath)
      (target : IsTarget dir_ready file_path base file_name) where
    waited-Reach : (k : ℕ) (s : State) → Reach dir_ready s (waited meanwhile k s)
    waited-Reach zero s = here
    waited-Reach (suc k) s = join dir_ready (others s) (waited-Reach k (meanwhile s))

    find_repeatedly_lem :
        (rounds k i : ℕ) (s : State)
        → k < rounds
        → Inv s
        → ((j : ℕ) → j < k → IsFull entries (waited meanwhile j s))
        → IsFirstFree (waited meanwhile k s).memory 0 i
        → i < entries
        → (memory : Memory) × (find_repeatedly dir_ready sends entries rounds meanwhile s file_path
            ≡ ok (waited meanwhile k s, i, memory))
          × Claimed dir_ready (waited meanwhile k s).memory file_path i memory
    unfolding find_repeatedly
    find_repeatedly_lem zero k i s more inv full first small = absurd (omega arith)
    find_repeatedly_lem (suc rounds) zero i s more inv full first small =
        let (memory, finds, _, _) =
          find_and_set_lem dir_ready s.memory entries i first small file_path base file_name
            target in
        (
          memory,
          rw (find_repeatedly, finds),
          rw finds at (find-FindOk dir_ready s.memory entries 0 file_path),
        )
    find_repeatedly_lem (suc rounds) (suc k) i s more inv full first small =
        let later = meanwhile s in
        let (memory, finds, claims) =
          find_repeatedly_lem rounds k i later (omega arith) (Reach-keeps dir_ready inv (others s))
            (λ j h. full (suc j) (omega arith)) first small in
        let none_free =
          find-full s.memory entries 0 file_path (λ j. (inv j).unlocked)
            (λ j h. full 0 (omega arith) j (omega arith)) in
        (memory, rw (find_repeatedly, none_free) finds, claims)

    -- In a state with the invariant of the protocol, which every reachable state has: if all entries
    -- are in use for the first `k` searches and one is free at the next, the path fits, its
    -- directory is there or can be made and the message can be sent, any number of rounds above `k`
    -- is enough for `communicate_file_async` to return: the message stands in the queue behind the
    -- others, and what the call and the other threads do is a run of the protocol, if the others
    -- take steps of it only.
    pub async_lem :
        sends ≡ true
        → (rounds k i : ℕ) (s : State) → k < rounds
        → Inv s
        → ((j : ℕ) → j < k → IsFull entries (waited meanwhile j s))
        → IsFirstFree (waited meanwhile k s).memory 0 i
        → i < entries
        → (memory : Memory) × (communicate_file_async dir_ready sends entries rounds meanwhile s
              file_path
            ≡ ok (queued (waited meanwhile k s) i memory, i))
          × Reach dir_ready s (queued (waited meanwhile k s) i memory)
    unfolding communicate_file_async
    async_lem sent rounds k i s more inv full first small =
        let (memory, finds, claims) = find_repeatedly_lem rounds k i s more inv full first small in
        (
          memory,
          rw (communicate_file_async, finds, sent),
          join dir_ready (waited-Reach k s)
              (queued-Reach dir_ready (waited meanwhile k s) i memory file_path claims),
        )
