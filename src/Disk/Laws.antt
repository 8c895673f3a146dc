-- ===== src/Disk/Laws.antt =====
-- Reading what was written, the length of a file after it, and writing twice.
use advanced_oslab.Prelude.{ℕ, zero, suc, ◌+◌, ◌≤◌, ◌≡◌, refl, [], ◌∷◌, length, arith}
use advanced_oslab.Text.{Bytes}
use advanced_oslab.Disk.{take, drop, overwrite, seek_write, write_at, slice}

take-overwrite : (bytes file : Bytes) → take (length bytes) (overwrite bytes file) ≡ bytes
unfolding take overwrite
take-overwrite [] file = ground arith
take-overwrite (b ∷ bytes) [] = ground (arith, take-overwrite bytes [])
take-overwrite (b ∷ bytes) (c ∷ file) = ground (arith, take-overwrite bytes file)

slice-seek_write :
    (offset : ℕ) (bytes file : Bytes)
    → slice offset (length bytes) (seek_write offset bytes file) ≡ bytes
unfolding slice drop seek_write
slice-seek_write zero bytes file = take-overwrite bytes file
slice-seek_write (suc offset) bytes [] = slice-seek_write offset bytes []
slice-seek_write (suc offset) bytes (c ∷ file) = slice-seek_write offset bytes file

pub slice-write_at :
    (offset : ℕ) (bytes file : Bytes)
    → slice offset (length bytes) (write_at offset bytes file) ≡ bytes
unfolding write_at slice take
slice-write_at offset [] file = refl
slice-write_at offset (b ∷ bytes) file = slice-seek_write offset (b ∷ bytes) file

length-overwrite_le : (bytes file : Bytes) → length bytes ≤ length (overwrite bytes file)
unfolding overwrite
length-overwrite_le [] file = omega arith
length-overwrite_le (b ∷ bytes) [] = omega (arith, length-overwrite_le bytes [])
length-overwrite_le (b ∷ bytes) (c ∷ file) = omega (arith, length-overwrite_le bytes file)

length-seek_write_le :
    (offset : ℕ) (bytes file : Bytes)
    → offset + length bytes ≤ length (seek_write offset bytes file)
unfolding seek_write
length-seek_write_le zero bytes file = omega (arith, length-overwrite_le bytes file)
length-seek_write_le (suc offset) bytes [] = omega (arith, length-seek_write_le offset bytes [])
length-seek_write_le (suc offset) bytes (c ∷ file) =
    omega (arith, length-seek_write_le offset bytes file)

pub length-write_at_le :
    (offset : ℕ) (b : ℕ) (bytes file : Bytes)
    → offset + length (b ∷ bytes) ≤ length (write_at offset (b ∷ bytes) file)
unfolding write_at
length-write_at_le offset b bytes file = length-seek_write_le offset (b ∷ bytes) file

overwrite-overwrite :
    (bytes file : Bytes) → overwrite bytes (overwrite bytes file) ≡ overwrite bytes file
unfolding overwrite
overwrite-overwrite [] file = refl
overwrite-overwrite (b ∷ bytes) [] = ground (arith, overwrite-overwrite bytes [])
overwrite-overwrite (b ∷ bytes) (c ∷ file) = ground (arith, overwrite-overwrite bytes file)

seek_write-seek_write :
    (offset : ℕ) (bytes file : Bytes)
    → seek_write offset bytes (seek_write offset bytes file) ≡ seek_write offset bytes file
unfolding seek_write
seek_write-seek_write zero bytes file = overwrite-overwrite bytes file
seek_write-seek_write (suc offset) bytes [] = ground (arith, seek_write-seek_write offset bytes [])
seek_write-seek_write (suc offset) bytes (c ∷ file) =
    ground (arith, seek_write-seek_write offset bytes file)

-- The same bytes written a second time change nothing.
pub write_at-write_at :
    (offset : ℕ) (bytes file : Bytes)
    → write_at offset bytes (write_at offset bytes file) ≡ write_at offset bytes file
unfolding write_at
write_at-write_at offset [] file = refl
write_at-write_at offset (b ∷ bytes) file = seek_write-seek_write offset (b ∷ bytes) file
