-- ===== src/Entries/Exchange.antt =====
-- Assignment_2/Project2/src/client/client.c and server/server.c: an entry from the client to the
-- server and back.
use advanced_oslab.Prelude.{ℕ, ◌≡◌, true, false, ◌==◌, ==_refl}
use advanced_oslab.Prelude.Arrays.{update}
use advanced_oslab.Prelude.Outcome.{ok, ◌>>=◌}
use advanced_oslab.Entries.{Memory, finish_entry, wait_response_from_server}

-- When the server marks an entry that is not locked as done, `wait_response_from_server` returns:
-- the entry is neither in use nor done nor locked, and the others are as before.
pub exchange_lem :
    (memory : Memory) (i : ℕ)
    → (memory i).is_locked ≡ false
    → (memory' : Memory) × ((finish_entry memory i >>= λ m. wait_response_from_server m i)
        ≡ ok memory')
      × ((memory' i).is_used ≡ false)
      × ((memory' i).is_done ≡ false)
      × ((memory' i).is_locked ≡ false)
      × ((j : ℕ) → (i == j) ≡ false → memory' j ≡ memory j)
unfolding finish_entry wait_response_from_server
exchange_lem memory i free = (
  update (update memory i (record (memory i) { is_done = true })) i
      (record (memory i) { is_used = false; is_done = false }),
  rw (free, ==_refl i),
  rw (==_refl i),
  rw (==_refl i),
  rw (==_refl i) free,
  λ j ne. rw (ne),
)
