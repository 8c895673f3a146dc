-- ===== src/Gtstore/Storage.antt =====
-- Assignment_4/Project4/gtstore/src/storage.cpp: the map of a storage node, and its messages.
use advanced_oslab.Prelude.{Bool, false, Option, none, some, List, [], ◌∷◌, ◌++◌, if◌then◌else◌}
use advanced_oslab.Prelude.Int.{ℤ}
use advanced_oslab.Text.{Bytes, codes, put, pieces, before, after}
use advanced_oslab.Entries.{split}
use advanced_oslab.Gtstore.{Values, holds, atoi}

-- `node_id`, `num_rep`, `replica_node_addresses` and `storage_key_value_map`
pub record Node : Type 0 where
  pub node_id : Bytes
  pub num_rep : ℤ
  pub replica_node_addresses : List Bytes
  pub storage_key_value_map : Bytes → Option Values

-- The values are the pieces between the spaces.
unfoldable pub store_key_value : Node → (key value_list : Bytes) → Node
store_key_value node key value_list = record node {
  storage_key_value_map = put node.storage_key_value_map key (some (pieces 32 value_list));
}

unfoldable pub parse_node_connection_msg : Node → (buffer : Bytes) → Node
unfolding split
parse_node_connection_msg node buffer = elim (split (codes "NUM_REPLICAS:") buffer) [
  | none ↦ node
  | some (_, number) ↦ elim (split (codes "REPLICA_PATHS:") buffer) [
    | none ↦ node
    | some (_, paths) ↦ record node {
      num_rep = atoi (before 59 number);
      replica_node_addresses = node.replica_node_addresses ++ pieces 44 paths;
    }
  ]
]

-- What a message from a client comes to: the messages to replicas with their addresses, the answer if
-- there is one, and whether the node goes on to the next client.
pub record Served : Type 0 where
  pub node : Node
  pub sent : List (Bytes × Bytes)
  pub answer : Option Bytes
  pub is_closed : Bool

abbrev pub replication_msg : (key value : Bytes) → Bytes
replication_msg key value = codes "REPLICATE:" ++ (key ++ 32 ∷ value)

-- The loop over the replicas: `connects` says to which addresses `socket` and `connect` succeed, and the
-- others are passed over.
unfoldable pub replications :
    (connects : Bytes → Bool)
    → (replication_msg : Bytes) → (replica_node_addresses : List Bytes) → List (Bytes × Bytes)
replications connects msg [] = []
replications connects msg (address ∷ addresses) =
    let rest = replications connects msg addresses in
    if connects address then (address, msg) ∷ rest else rest

abbrev pub serve_put : (connects : Bytes → Bool) → Node → Bytes → Served
serve_put connects node received_msg =
    let key_value = after 58 received_msg in
    let key = before 32 key_value in
    let value = after 32 key_value in
    record {
      node = store_key_value node key value;
      sent = replications connects (replication_msg key value) node.replica_node_addresses;
      answer = some (codes "OK, SERVER_" ++ node.node_id);
      is_closed = false;
    }

-- Each value with a space behind it.
unfoldable pub value_text : Values → Bytes
value_text [] = []
value_text (v ∷ values) = v ++ 32 ∷ value_text values

abbrev pub serve_get : Node → Bytes → Served
serve_get node received_msg =
    let key = after 58 received_msg in
    record {
      node = node;
      sent = [];
      answer = some (elim (node.storage_key_value_map key) [
        | none ↦ codes "KEY_NOT_FOUND"
        | some values ↦
            key ++ (codes ", " ++ (value_text values ++ (codes ", SERVER_" ++ node.node_id)))
      ]);
      is_closed = false;
    }

-- One message of the inner loop of `run` over a client.
unfoldable pub serve_client : (connects : Bytes → Bool) → Node → Bytes → Served
unfolding store_key_value value_text
serve_client connects node received_msg =
    if holds (codes "PUT:") received_msg
    then serve_put connects node received_msg
    else if holds (codes "GET:") received_msg
    then serve_get node received_msg
    else record {
      node = node;
      sent = [];
      answer = none;
      is_closed = holds (codes "CLIENT_CLOSE") received_msg;
    }

-- One message of the loop over another node, and whether it was the last.
unfoldable pub serve_node : Node → Bytes → Node × Bool
unfolding store_key_value
serve_node node received_msg =
    if holds (codes "REPLICATE:") received_msg
    then (let key_value = after 58 received_msg in
        (store_key_value node (before 32 key_value) (after 32 key_value), false))
    else (node, holds (codes "NODE_CLOSE") received_msg)
