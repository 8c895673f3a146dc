-- ===== src/Gtstore/Client.antt =====
-- Assignment_4/Project4/gtstore/src/client.cpp: how a client chooses a node, and what it sends and reads.
use advanced_oslab.Prelude.{
  ℕ, zero, suc, ◌+◌, ◌-◌, ◌%◌, ◌^◌, Bool, true, false, not, Option, none, some, List, [], ◌∷◌, ◌++◌,
  ◌==◌, ltb, leb, length, is_nil, is_some, if◌then◌else◌,
}
use advanced_oslab.Prelude.Int.{ℤ, pos, negsuc}
use advanced_oslab.Prelude.Outcome.{Outcome, ok, undefined, aborted, ◌>>=◌}
use advanced_oslab.Text.{Bytes, codes, same, pieces, before, behind, to_string, stoi}
use advanced_oslab.Disk.{take, drop}
use advanced_oslab.Entries.{split}
use advanced_oslab.Gtstore.{Values}
use advanced_oslab.Gtstore.Storage.{value_text}
use advanced_oslab.Gtstore.Manager.{comma_text, drop_last}

-- The globals.
pub record Client : Type 0 where
  pub num_replicas : ℤ
  pub hash_function : Bytes
  pub node_address_map : List Bytes
  pub dead_node_ids : List ℤ

-- `node_address_map[i] = address`, behind `resize`.
unfoldable pub set_address : List Bytes → (i : ℕ) → Bytes → List Bytes
set_address [] zero address = address ∷ []
set_address [] (suc i) address = [] ∷ set_address [] i address
set_address (a ∷ map) zero address = address ∷ map
set_address (a ∷ map) (suc i) address = a ∷ set_address map i address

-- One node pair; a pair without a colon is passed over. A negative number is out of bounds.
unfoldable pub read_pair : Client → Bytes → Outcome Client
unfolding set_address
read_pair c node_pair = elim (behind 58 node_pair) [
  | none ↦ ok c
  | some node_info ↦ elim (stoi (before 58 node_pair)) [
    | none ↦ aborted
    | some id ↦
        if same node_info (codes "DEAD")
        then ok (record c { dead_node_ids = c.dead_node_ids ++ id ∷ [] })
        else elim id [
          | negsuc _ ↦ undefined
          | pos i ↦ ok (record c { node_address_map = set_address c.node_address_map i node_info })
        ]
  ]
]

unfoldable pub read_pairs : Client → List Bytes → Outcome Client
unfolding read_pair
read_pairs c [] = ok c
read_pairs c (p ∷ ps) = read_pair c p >>= λ next. read_pairs next ps

-- `response.substr(start, stop - start)`, where `rest` begins at `start`; the count wraps around if it
-- is negative.
abbrev pub part : (start stop : ℕ) → (rest : Bytes) → Bytes
part start stop rest = if leb start stop then take (stop - start) rest else rest

-- The part of `init` that reads the answer of the manager.
unfoldable pub read_response : Client → (response : Bytes) → Outcome Client
unfolding read_pairs split take
read_response c response = elim (split (codes "NUM_REPLICAS:") response) [
  | none ↦ ok c
  | some (front, number) ↦ elim (split (codes ";HASH_FUNCTION:") response) [
    | none ↦ ok c
    | some (to_hash, named) ↦ elim (split (codes ";NODES:") response) [
      | none ↦ ok c
      | some (to_nodes, nodes_data) ↦
          elim (stoi (part (length front + 13) (length to_hash) number)) [
            | none ↦ aborted
            | some n ↦
                read_pairs
                  (record {
                    num_replicas = n;
                    hash_function = part (length to_hash + 15) (length to_nodes) named;
                    node_address_map = [];
                    dead_node_ids = [];
                  })
                  (pieces 44 nodes_data)
          ]
    ]
  ]
]

-- A `char` is signed, and the sum is taken as a `size_t`.
unfoldable pub char_sum : Bytes → ℕ
char_sum [] = 0
char_sum (b ∷ key) = ((if ltb b 128 then b else 2 ^ 64 - 256 + b) + char_sum key) % 2 ^ 64

-- The node of a key.
unfoldable pub hash : (size : ℕ) → (key : Bytes) → Outcome ℕ
unfolding char_sum
hash zero key = undefined
hash (suc n) key = ok (char_sum key % suc n)

abbrev pub is_listed : ℕ → List ℤ → Bool
is_listed node_id [] = false
is_listed node_id (pos n ∷ ids) = if n == node_id then true else is_listed node_id ids
is_listed node_id (negsuc n ∷ ids) = is_listed node_id ids

-- The loop over the dead nodes: it ends with its first round, since nothing sets `is_dead` back.
abbrev pub skip_dead : Client → (node_id : ℕ) → (current_num_replicas : ℕ) → ℕ × ℕ
skip_dead c node_id zero = (node_id, 0)
skip_dead c node_id (suc replicas) =
    if is_listed node_id c.dead_node_ids
    then ((node_id + 1) % length c.node_address_map, replicas)
    else (node_id, suc replicas)

-- The loop over the attempts, with so many to go. `answers` says what a node answers to the message, or
-- `none` if one of the calls to reach it fails. With the answer come the nodes found dead.
unfoldable pub attempts :
    (size : ℕ)
    → (answers : ℕ → Option Bytes) → (rounds node_id : ℕ) → (dead : List ℕ) → Option Bytes × List ℕ
attempts size answers zero node_id dead = (none, dead)
attempts size answers (suc rounds) node_id dead = elim (answers node_id) [
  | some answer ↦ (some answer, dead)
  | none ↦ attempts size answers rounds ((node_id + 1) % size) (dead ++ node_id ∷ [])
]

unfoldable pub nonempty : List Bytes → List Bytes
nonempty [] = []
nonempty (p ∷ ps) = let rest = nonempty ps in if is_nil p then rest else p ∷ rest

abbrev pub error_values : Values
error_values = codes "ERROR" ∷ []

-- `substr(first + 2, second - first - 2)`, where `rest` is what follows the first comma: if the second
-- follows at once, the count wraps around.
abbrev pub value_part : (rest : Bytes) → Bytes
value_part rest = elim (before 44 rest) [ [] ↦ drop 1 rest | _ ∷ s ↦ s ]

unfoldable pub parse_values : (received_msg : Bytes) → Option Values
unfolding nonempty drop
parse_values received_msg = elim (behind 44 received_msg) [
  | none ↦ none
  | some rest ↦ elim (behind 44 rest) [
    | none ↦ none
    | some _ ↦ some (nonempty (pieces 32 (value_part rest)))
  ]
]

abbrev pub put_message : (key : Bytes) → Values → Bytes
put_message key values = codes "PUT:" ++ (key ++ 32 ∷ value_text values)

abbrev pub get_message : Bytes → Bytes
get_message key = codes "GET:" ++ key

-- `num_replicas` as the bound of a loop.
abbrev pub rounds_of : ℤ → ℕ
rounds_of (pos n) = n
rounds_of (negsuc n) = 0

-- Where an operation goes: the answer to its message, and the nodes that it reports to the manager.
-- `none` at the first if the hash function is not known or no replica is left.
unfoldable pub ask :
    Client → (answers : ℕ → Option Bytes) → (key : Bytes) → Outcome (Option Bytes × List ℕ)
unfolding hash attempts
ask c answers key = if not (same c.hash_function (codes "ADD-ASCII")) then ok (none, []) else (do
  node_id ← hash (length c.node_address_map) key
  let (target, rounds) = skip_dead c node_id (rounds_of c.num_replicas)
  ok (attempts (length c.node_address_map) answers rounds target []))

-- `answers` is given the message and the node. No dead node is reported with an answer that has no value.
unfoldable pub get :
    Client → (answers : Bytes → ℕ → Option Bytes) → (key : Bytes) → Outcome (Values × List ℕ)
unfolding ask parse_values
get c answers key = do
  (answer, dead) ← ask c (answers (get_message key)) key
  ok (elim answer [
    | none ↦ (error_values, dead)
    | some received_msg ↦
        if same received_msg (codes "KEY_NOT_FOUND")
        then (error_values, [])
        else elim (parse_values received_msg) [
          | none ↦ (error_values, [])
          | some values ↦ (values, dead)
        ]
  ])

unfoldable pub put :
    Client → (answers : Bytes → ℕ → Option Bytes) → (key : Bytes) → Values → Outcome (Bool × List ℕ)
unfolding ask
put c answers key values = do
  (answer, dead) ← ask c (answers (put_message key values)) key
  ok (is_some answer, dead)

-- The message of `notify_manager_of_dead_nodes`.
abbrev pub number_texts : List ℕ → List Bytes
number_texts [] = []
number_texts (n ∷ ns) = to_string n ∷ number_texts ns

unfoldable pub dead_message : List ℕ → Bytes
unfolding drop_last
dead_message dead_nodes = codes "DEAD_NODES:" ++ drop_last (comma_text (number_texts dead_nodes))
