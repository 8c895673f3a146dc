-- ===== src/Gtfs/Invariant.antt =====
-- Assignment_3/Project3/gtfs/src/gtfs.cpp: what the global maps tell of each other.
use advanced_oslab.Prelude.{
  ℕ, ◌+◌, ◌≤◌, ◌<◌, ◌≡◌, sym, ap, Option, none, some, List, [], ◌∷◌, length, Bool-cases, inl, inr,
}
use advanced_oslab.Prelude.Branches.{IfOk, bind-IfOk, if_keeps, elim_keeps}
use advanced_oslab.Clients.Neighbours.{some_injective}
use advanced_oslab.Text.{Bytes, same, same_iff, put}
use advanced_oslab.Disk.{Disk, Os}
use advanced_oslab.Log.{Write}
use advanced_oslab.Gtfs.{Gtfs, State, gtfs_init, gtfs_clean, clean_entries, max_num_files_per_dir}
use advanced_oslab.Gtfs.Pending.{pending_of}

abbrev pub AreNamed : Bytes → List Write → Type 0
AreNamed filename [] = Unit
AreNamed filename (w ∷ logs) = (w.filename ≡ filename) × AreNamed filename logs

-- A name is mapped to a `file_t` of that name, its pending writes have that name, a directory is mapped
-- to its own gtfs, and no directory has more than 1025 names.
pub record IsValid (s : State) : Type 0 where
  pub allocated :
      (filename : Bytes) (fl : ℕ) → s.filename_file_t_mapping filename ≡ some fl → fl < s.next_file
  pub named :
      (filename : Bytes) (fl : ℕ)
      → s.filename_file_t_mapping filename ≡ some fl
      → (s.files fl).filename ≡ filename
  pub logs : (filename : Bytes) → AreNamed filename (pending_of s filename)
  pub dirs :
      (dirname : Bytes) (g : Gtfs) → s.directory_gtfs_mapping dirname ≡ some g → g.dirname ≡ dirname
  pub few :
      (dirname : Bytes) → length (s.directory_files_mapping dirname) ≤ max_num_files_per_dir + 1

abbrev pub IsKept {ℓ} : {A : Type ℓ} → A × State → Type 0
IsKept (a, s) = IsValid s

pub put_keeps {ℓ} :
    {A : Type ℓ} (P : Bytes → A → Type 0) (m : Bytes → A) (k : Bytes) (v : A)
    → ((j : Bytes) → P j (m j))
    → P k v
    → (j : Bytes) → P j (put m k v j)
put_keeps P m k v old new j = elim (Bool-cases (same k j)) [
  | inl equal ↦ rw (equal) (rw (sym ((same_iff k j).0 equal)) new)
  | inr distinct ↦ rw (distinct) (old j)
]

pub disk-IsValid : (s : State) (disk : Disk) → IsValid s → IsValid (record s { disk = disk })
disk-IsValid s disk h = record {
  allocated = h.allocated;
  named = h.named;
  logs = h.logs;
  dirs = h.dirs;
  few = h.few;
}

pub gtfs_init-IsValid :
    (os : Os) (s : State) (directory : Bytes) → IsValid s → IsKept (gtfs_init os s directory)
unfolding gtfs_init
gtfs_init-IsValid os s directory h =
    if_keeps IsKept (os.is_dir directory)
      (elim_keeps IsKept (s.directory_gtfs_mapping directory)
        (record {
          allocated = h.allocated;
          named = h.named;
          logs = h.logs;
          dirs =
              put_keeps (λ d o. (g : Gtfs) → o ≡ some g → g.dirname ≡ d) s.directory_gtfs_mapping
                directory (some (record { dirname = directory })) h.dirs
                (λ g e. ap (λ x. x.dirname) (sym (some_injective e)));
          few = h.few;
        })
        (λ old. h))
      h

pub gtfs_clean-IsValid :
    (os : Os) (s : State) (g : Option Gtfs) → IsValid s → IfOk IsKept (gtfs_clean os s g)
unfolding gtfs_clean
gtfs_clean-IsValid os s none h = h
gtfs_clean-IsValid os s (some g) h = elim_keeps (IfOk IsKept) (os.entries g.dirname) h (λ entries.
    bind-IfOk IsKept (clean_entries os g.dirname s.disk entries) _ (λ (cleaned, disk).
      if_keeps IsKept cleaned
        (record {
          allocated = h.allocated;
          named = h.named;
          logs = λ filename. tt;
          dirs = h.dirs;
          few = h.few;
        })
        (disk-IsValid s disk h)))
