-- ===== src/Gtstore.antt =====
-- Assignment_4/Project4/gtstore/src/gtstore.hpp: what the manager, the storage nodes and the clients of
-- the key-value store share.
pub mod Storage
pub mod Manager
pub mod Client
pub mod Ring
pub mod Messages
pub mod Delivery
pub mod Cluster
pub mod Reports
pub mod Pairs
pub mod Startup
pub mod Told
use advanced_oslab.Prelude.{
  ℕ, zero, suc, ◌+◌, ◌-◌, ◌%◌, ◌^◌, Bool, Option, none, some, List, [], ◌∷◌, ◌++◌, is_some,
}
use advanced_oslab.Prelude.Int.{ℤ, pos}
use advanced_oslab.Text.{Bytes, codes, stoi, to_string}
use advanced_oslab.Entries.{split}

-- `val_t`
abbrev pub Values : Type 0
Values = List Bytes

abbrev pub node_node_prefix : Bytes
node_node_prefix = codes "/tmp/gtstore_node_node_socket_"

-- `s.find(word) != npos`
abbrev pub holds : (word s : Bytes) → Bool
holds word s = is_some (split word s)

-- `atoi`: 0 where `stoi` throws.
abbrev pub atoi : Bytes → ℤ
atoi s = elim (stoi s) [ none ↦ pos 0 | some n ↦ n ]
