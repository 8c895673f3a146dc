-- ===== src/Entries/Protocol.antt =====
-- Assignment_2/Project2/src/client/client.c and server/server.c: communicate_file_sync,
-- communicate_file_async and the workers of a client, one access to shared memory or the queue at a time,
-- run by any number of threads in any order.
use advanced_oslab.Prelude.{
  ℕ, ◌+◌, ◌<◌, ◌≡◌, Bool, true, false, some, List, [], ◌∷◌, ◌++◌, count, erase,
}
use advanced_oslab.Prelude.Outcome.{ok}
use advanced_oslab.Entries.{FilePath, Entry, Memory, claim, finish_entry, wait_response_from_server}

-- The entries; those that a thread of the client has claimed and not yet sent; the messages in the queue;
-- the messages that workers have received; and the entries whose end a thread of the client waits for.
pub record State : Type 0 where
  pub memory : Memory
  pub claimed_by : List ℕ
  pub send_q : List ℕ
  pub working : List ℕ
  pub waiting : List ℕ

pub data Step (dir_ready : FilePath → Bool) (s : State) : State → Type 0 where
  find :
      (i : ℕ) (file_path : FilePath) (memory : Memory)
      → (s.memory i).is_used ≡ false
      → claim dir_ready s.memory i file_path ≡ ok (some i, memory)
      → Step dir_ready s (record s { memory = memory; claimed_by = i ∷ s.claimed_by })
  send :
      (i : ℕ)
      → 0 < count i s.claimed_by
      → Step dir_ready s (record s {
        claimed_by = erase i s.claimed_by;
        send_q = s.send_q ++ i ∷ [];
        waiting = i ∷ s.waiting;
      })
  receive :
      (i : ℕ) (send_q : List ℕ)
      → s.send_q ≡ i ∷ send_q
      → Step dir_ready s (record s { send_q = send_q; working = i ∷ s.working })
  finish :
      (i : ℕ) (memory : Memory)
      → 0 < count i s.working
      → finish_entry s.memory i ≡ ok memory
      → Step dir_ready s (record s { memory = memory; working = erase i s.working })
  collect :
      (i : ℕ) (memory : Memory)
      → 0 < count i s.waiting
      → wait_response_from_server s.memory i ≡ ok memory
      → Step dir_ready s (record s { memory = memory; waiting = erase i s.waiting })

pub data Reach (dir_ready : FilePath → Bool) (s : State) : State → Type 0 where
  here : Reach dir_ready s s
  next : {t u : State} → Reach dir_ready s t → Step dir_ready t u → Reach dir_ready s u

-- As `open_shared_memory` leaves the entries, with no message under way.
pub record IsStart (s : State) : Type 0 where
  pub unused : (i : ℕ) → (s.memory i).is_used ≡ false
  pub not_done : (i : ℕ) → (s.memory i).is_done ≡ false
  pub unlocked : (i : ℕ) → (s.memory i).is_locked ≡ false
  pub none_claimed : s.claimed_by ≡ []
  pub none_sent : s.send_q ≡ []
  pub none_working : s.working ≡ []
  pub none_waiting : s.waiting ≡ []

abbrev pub bit : Bool → ℕ
bit true = 1
bit false = 0

-- An entry and how often it is claimed, queued, worked on and waited for: in use, it belongs to one
-- request, which is about to be sent or is waited for; one that is waited for is in the queue, at a worker
-- or done.
pub record IsOrdered (e : Entry) (held queued working waiting : ℕ) : Type 0 where
  pub unlocked : e.is_locked ≡ false
  pub one_request : held + waiting ≡ bit e.is_used
  pub one_place : queued + working + bit e.is_done ≡ waiting

abbrev pub Inv : State → Type 0
Inv s =
    (j : ℕ)
    → IsOrdered (s.memory j) (count j s.claimed_by) (count j s.send_q) (count j s.working)
        (count j s.waiting)
