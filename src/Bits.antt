-- ===== src/Bits.antt =====
-- Assignment_1/Project1/gtthreads/src/gt_bitops.h: the bit operations on 32-bit masks.
pub mod Laws
use advanced_oslab.Prelude.{
  ℕ, zero, suc, ◌+◌, ◌*◌, ◌/◌, ◌%◌, Bool, Option, none, some, ◌==◌, if◌then◌else◌,
}

-- `mask & (1 << off)`, as the digit that it tests.
unfoldable pub is_bit_set : ℕ → ℕ → Bool
is_bit_set mask zero = mask % 2 == 1
is_bit_set mask (suc off) = is_bit_set (mask / 2) off

-- `btsl`: the digit at `off` becomes 1.
unfoldable pub set_bit : ℕ → ℕ → ℕ
set_bit mask zero = mask / 2 * 2 + 1
set_bit mask (suc off) = mask % 2 + 2 * set_bit (mask / 2) off

-- `btrl`: the digit at `off` becomes 0.
unfoldable pub reset_bit : ℕ → ℕ → ℕ
reset_bit mask zero = mask / 2 * 2
reset_bit mask (suc off) = mask % 2 + 2 * reset_bit (mask / 2) off

-- `bsfl` looks at the digits from the lowest on; at 0 its result is undefined.
unfoldable pub scan_forward : ℕ → ℕ → Option ℕ
scan_forward zero mask = none
scan_forward (suc width) mask =
    let rest = scan_forward width (mask / 2) in
    if mask % 2 == 1 then some 0 else elim rest [ none ↦ none | some i ↦ some (suc i) ]

unfoldable pub lowest_bit_set : ℕ → Option ℕ
unfolding scan_forward
lowest_bit_set mask = scan_forward 32 mask
