-- ===== src/Entries/Calls.antt =====
-- Assignment_2/Project2/src/client/client.c: communicate_file_sync, communicate_file_async and
-- the measured time.
use advanced_oslab.Prelude.{
  ℕ, zero, suc, ◌+◌, ◌-◌, Bool, none, some, [], ◌∷◌, ◌++◌, ltb, erase, if◌then◌else◌,
}
use advanced_oslab.Prelude.Outcome.{Outcome, ok, spins, exited, ◌>>=◌}
use advanced_oslab.Entries.{
  FilePath, Memory, find_and_set_shared_memory_entry_index, wait_response_from_server,
}
use advanced_oslab.Entries.Protocol.{State}

-- A request in the queue: the entry is in use and waited for.
abbrev pub queued : State → ℕ → Memory → State
queued s i memory = record s {
  memory = memory;
  send_q = s.send_q ++ i ∷ [];
  waiting = i ∷ s.waiting;
}

abbrev pub collected : State → ℕ → Memory → State
collected s i memory = record s { memory = memory; waiting = erase i s.waiting }

-- `mq_send` on the queue of the client.
abbrev pub mq_send : (sends : Bool) → State → ℕ → Memory → Outcome State
mq_send sends s i memory = if sends then ok (queued s i memory) else exited

module _ (dir_ready : FilePath → Bool) (sends : Bool) (entries : ℕ) where
  -- `meanwhile` is what the other threads do before the thread looks at its entry.
  unfoldable pub communicate_file_sync :
      (meanwhile : State → State) → State → FilePath → Outcome State
  unfolding find_and_set_shared_memory_entry_index
  communicate_file_sync meanwhile s file_path = do
    (index, memory) ← find_and_set_shared_memory_entry_index dir_ready s.memory entries 0 file_path
    elim index [
      | none ↦ exited
      | some i ↦ do
        sent ← mq_send sends s i memory
        let later = meanwhile sent
        memory' ← wait_response_from_server later.memory i
        ok (collected later i memory')
    ]

  -- The search of `communicate_file_async`, repeated until it finds an entry: `meanwhile` is what the
  -- other threads do between two searches, and the rounds are as many as are looked at.
  unfoldable pub find_repeatedly :
      (rounds : ℕ) (meanwhile : State → State) → State → FilePath → Outcome (State × ℕ × Memory)
  find_repeatedly zero meanwhile s file_path = spins
  find_repeatedly (suc rounds) meanwhile s file_path = do
    (index, memory) ← find_and_set_shared_memory_entry_index dir_ready s.memory entries 0 file_path
    elim index [
      | none ↦ find_repeatedly rounds meanwhile (meanwhile (record s { memory = memory })) file_path
      | some i ↦ ok (s, i, memory)
    ]

  unfoldable pub communicate_file_async :
      (rounds : ℕ) (meanwhile : State → State) → State → FilePath → Outcome (State × ℕ)
  unfolding find_repeatedly
  communicate_file_async rounds meanwhile s file_path = do
    (found, i, memory) ← find_repeatedly rounds meanwhile s file_path
    sent ← mq_send sends found i memory
    ok (sent, i)

-- `struct timespec`.
pub record Timespec : Type 0 where
  pub tv_sec : ℕ
  pub tv_nsec : ℕ

-- The seconds and nanoseconds that `main` writes. The clock is monotonic, so that the seconds do not go
-- below 0; the nanoseconds do only until the second that is borrowed is added.
unfoldable pub elapsed : (start end : Timespec) → Timespec
elapsed start end =
    let seconds = end.tv_sec - start.tv_sec in
    if ltb end.tv_nsec start.tv_nsec
    then record { tv_sec = seconds - 1; tv_nsec = end.tv_nsec + 1000000000 - start.tv_nsec }
    else record { tv_sec = seconds; tv_nsec = end.tv_nsec - start.tv_nsec }
