-- ===== src/Gtfs/Pending.antt =====
-- Assignment_3/Project3/gtfs/src/gtfs.cpp: what `gtfs_read_file` finds of writes that are not yet on disk.
use advanced_oslab.Prelude.{
  ℕ, ◌≡◌, refl, ap, ◌∙◌, Bool, false, ◌||◌, Option, none, some, List, [], ◌∷◌, ◌++◌, ==_refl, arith,
  Bool-cases, inl, inr,
}
use advanced_oslab.Text.{Bytes, same, put, same_iff, put_self}
use advanced_oslab.Log.{Write}
use advanced_oslab.Gtfs.{Gtfs, State, success}
use advanced_oslab.Gtfs.Calls.{
  stored, find_write, pending, new_write, gtfs_read_file, gtfs_write_file, same_write, erase_write,
  gtfs_abort_write_file,
}

abbrev pub or_else : Option Write → Write → Write
or_else none w = w
or_else (some old) w = old

find_write-append :
    (w : Write) (logs : List Write)
    → find_write w.offset w.length (logs ++ w ∷ [])
      ≡ some (or_else (find_write w.offset w.length logs) w)
unfolding find_write
find_write-append w [] = ground (arith, ==_refl w.offset, ==_refl w.length)
find_write-append w (log ∷ logs) = ground (arith, find_write-append w logs)

-- The pending writes of a name.
abbrev pub pending_of : State → Bytes → List Write
pending_of s filename = pending (s.file_log_updates_mapping filename)

pub read_stored :
    (s : State) (g : Gtfs) (fl offset n : ℕ) (w : Write)
    → find_write offset n (pending_of s (s.files fl).filename) ≡ some w
    → gtfs_read_file s (some g) (some fl) offset n ≡ some (stored w.buffer)
unfolding gtfs_read_file
read_stored s g fl offset n w e = rw (e, gtfs_read_file) refl

-- A read looks at the pending writes of its own name only.
pub read_same :
    (s : State) (m : Bytes → Option (List Write)) (g : Gtfs) (fl offset n : ℕ)
    → pending (m (s.files fl).filename) ≡ pending_of s (s.files fl).filename
    → gtfs_read_file (record s { file_log_updates_mapping = m }) (some g) (some fl) offset n
      ≡ gtfs_read_file s (some g) (some fl) offset n
unfolding gtfs_read_file
read_same s m g fl offset n e = rw (e, gtfs_read_file) refl

-- After `gtfs_write_file`, `gtfs_read_file` of the same place returns the data of the first pending
-- write of that place, which is the new one only if none was pending before; what it returns for
-- files of other names is as before.
pub read-write :
    (s : State) (g : Gtfs) (fl offset n buffer : ℕ)
    → let (_, s') = gtfs_write_file s (some g) (some fl) offset n buffer in
      let filename = (s.files fl).filename in
      let w = new_write g.dirname filename offset n buffer in
      (gtfs_read_file s' (some g) (some fl) offset n
        ≡ some (stored (or_else (find_write offset n (pending_of s filename)) w).buffer))
      × ((fl' offset' n' : ℕ)
          → same filename (s.files fl').filename ≡ false
          → gtfs_read_file s' (some g) (some fl') offset' n'
            ≡ gtfs_read_file s (some g) (some fl') offset' n')
unfolding gtfs_write_file
read-write s g fl offset n buffer =
    let filename = (s.files fl).filename in
    let w = new_write g.dirname filename offset n buffer in
    let logs = some (pending_of s filename ++ w ∷ []) in
    let m = put s.file_log_updates_mapping filename logs in
    let here : m filename ≡ logs = put_self s.file_log_updates_mapping filename logs in
    (
      read_stored (record s { file_log_updates_mapping = m }) g fl offset n _
          (ap (λ o. find_write offset n (pending o)) here
            ∙ find_write-append w (pending_of s filename)),
      λ fl' offset' n' apart. read_same s m g fl' offset' n' (rw apart refl),
    )

-- Whether a write of the same place and buffer is pending.
abbrev pub has_write : Write → List Write → Bool
has_write w [] = false
has_write w (log ∷ logs) = same_write log w || has_write w logs

erase_write-append :
    (w : Write) (logs : List Write)
    → has_write w logs ≡ false
    → erase_write w (logs ++ w ∷ []) ≡ logs
unfolding erase_write
erase_write-append w [] h = ground (arith, ==_refl w.offset, ==_refl w.length, ==_refl w.buffer)
erase_write-append w (log ∷ logs) h = ground (arith, erase_write-append w logs)

pub abort_some :
    (s : State) (w : Write) (logs : List Write)
    → s.file_log_updates_mapping w.filename ≡ some logs
    → gtfs_abort_write_file s (some w) ≡ (
      success,
      record s {
        file_log_updates_mapping =
            put s.file_log_updates_mapping w.filename (some (erase_write w logs));
      },
    )
unfolding gtfs_abort_write_file
abort_some s w logs e = rw (e, gtfs_abort_write_file) refl

pending-put :
    (m m' : Bytes → Option (List Write)) (filename other : Bytes) (logs : List Write)
    → logs ≡ pending (m filename)
    → ((j : Bytes) → same filename j ≡ false → m' j ≡ m j)
    → pending (put m' filename (some logs) other) ≡ pending (m other)
pending-put m m' filename other logs e apart = elim (Bool-cases (same filename other)) [
  | inl equal ↦
      let is : filename ≡ other = (same_iff filename other).0 equal in
      rw equal (e ∙ ap (λ j. pending (m j)) is)
  | inr distinct ↦ rw (distinct, apart other distinct) refl
]

-- If no write of the same place and data is pending for the name, `gtfs_abort_write_file` just after
-- `gtfs_write_file` returns 0, and every read returns what it did before the write.
pub abort-write :
    (s : State) (g : Gtfs) (fl offset n buffer : ℕ)
    → has_write
        (new_write g.dirname (s.files fl).filename offset n buffer)
        (pending_of s (s.files fl).filename)
      ≡ false
    → let (write_id, s') = gtfs_write_file s (some g) (some fl) offset n buffer in
      let (ret, s2) = gtfs_abort_write_file s' write_id in
      (ret ≡ success)
      × ((fl' offset' n' : ℕ)
          → gtfs_read_file s2 (some g) (some fl') offset' n'
            ≡ gtfs_read_file s (some g) (some fl') offset' n')
unfolding gtfs_write_file
abort-write s g fl offset n buffer h =
    let filename = (s.files fl).filename in
    let w = new_write g.dirname filename offset n buffer in
    let logs = pending_of s filename ++ w ∷ [] in
    let m = put s.file_log_updates_mapping filename (some logs) in
    let here : m filename ≡ some logs = put_self s.file_log_updates_mapping filename (some logs) in
    let aborted = abort_some (record s { file_log_updates_mapping = m }) w logs here in
    (
      ap (λ p. p.0) aborted,
      λ fl' offset' n'.
          ap (λ p. gtfs_read_file p.1 (some g) (some fl') offset' n') aborted
          ∙ read_same s (put m filename (some (erase_write w logs))) g fl' offset' n' (
              pending-put s.file_log_updates_mapping m filename (s.files fl').filename
                (erase_write w logs) (erase_write-append w (pending_of s filename) h)
                (λ j apart. rw apart refl)),
    )
