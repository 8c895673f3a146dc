-- ===== src/Disk.antt =====
-- The files under Assignment_3/Project3/gtfs/src/gtfs.cpp: what `open`, `write`, `seekp` and `read`
-- do to them.
pub mod Laws
use advanced_oslab.Prelude.{
  ℕ, zero, suc, ◌-◌, Bool, Option, none, some, List, [], ◌∷◌, ◌++◌, if◌then◌else◌, is_some,
}
use advanced_oslab.Text.{Bytes, same, put}

-- The regular files, by the path that the program writes.
abbrev pub Disk : Type 0
Disk = Bytes → Option Bytes

unfoldable pub take {ℓ} : {A : Type ℓ} → ℕ → List A → List A
take zero xs = []
take (suc n) [] = []
take (suc n) (x ∷ xs) = x ∷ take n xs

unfoldable pub drop {ℓ} : {A : Type ℓ} → ℕ → List A → List A
drop zero xs = xs
drop (suc n) [] = []
drop (suc n) (x ∷ xs) = drop n xs

unfoldable pub overwrite : (bytes file : Bytes) → Bytes
overwrite [] file = file
overwrite (b ∷ bytes) [] = b ∷ overwrite bytes []
overwrite (b ∷ bytes) (c ∷ file) = b ∷ overwrite bytes file

unfoldable pub seek_write : (offset : ℕ) (bytes file : Bytes) → Bytes
unfolding overwrite
seek_write zero bytes file = overwrite bytes file
seek_write (suc offset) bytes [] = 0 ∷ seek_write offset bytes []
seek_write (suc offset) bytes (c ∷ file) = c ∷ seek_write offset bytes file

-- Bytes written at an offset; a gap before it is filled with zeros, unless nothing is written.
unfoldable pub write_at : (offset : ℕ) (bytes file : Bytes) → Bytes
write_at offset [] file = file
write_at offset (b ∷ bytes) file = seek_write offset (b ∷ bytes) file

unfoldable pub slice : (offset length : ℕ) → Bytes → Bytes
unfolding take drop
slice offset length file = take length (drop offset file)

-- What the file system answers: whether a path is a directory, its entries if it can be opened, whether
-- it can be closed; whether a file can be opened, locked and removed; and how many bytes `write` writes
-- of those that it is given, or `none` for -1.
pub record Os : Type 0 where
  pub is_dir : Bytes → Bool
  pub entries : Bytes → Option (List Bytes)
  pub closes : Bytes → Bool
  pub opens : Bytes → Bool
  pub locks : Bytes → Bool
  pub removes : Bytes → Bool
  pub writes : Bytes → ℕ → Option ℕ

-- `open` with O_CREAT; and an `ofstream` opened to truncate, then closed.
abbrev pub create : Disk → Bytes → Disk
create disk path = if is_some (disk path) then disk else put disk path (some [])

abbrev pub truncate : Os → Disk → Bytes → Disk
truncate os disk path = if os.opens path then put disk path (some []) else disk
