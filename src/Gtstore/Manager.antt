-- ===== src/Gtstore/Manager.antt =====
-- Assignment_4/Project4/gtstore/src/manager.cpp: the nodes that the manager knows, and its messages.
use advanced_oslab.Prelude.{
  ℕ, zero, suc, ◌+◌, ◌-◌, ◌%◌, Bool, true, false, Option, none, some, List, [], ◌∷◌, ◌++◌, map, ltb,
  length, ◌==◌, if◌then◌else◌,
}
use advanced_oslab.Prelude.Int.{ℤ, pos, negsuc}
use advanced_oslab.Prelude.Outcome.{Outcome, ok, undefined, aborted, exited, ◌>>=◌, ◌>>◌}
use advanced_oslab.Text.{Bytes, codes, same, pieces, after, to_string, stoi}
use advanced_oslab.Entries.{strip}
use advanced_oslab.Gtstore.{holds, node_node_prefix}

-- The globals.
pub record Manager : Type 0 where
  pub num_nodes : ℕ
  pub num_rep : ℕ
  pub node_address_map : List Bytes
  pub dead_node_ids : List ℕ

-- One message of the loop that waits for the nodes: the address goes to the end, the answer is its index.
-- `unconnected` is `current_unconnected_nodes`.
unfoldable pub register_node : Manager → (unconnected : ℕ) → Bytes → Option Bytes × ℕ × Manager
register_node m unconnected received_msg =
    if holds (codes "NODE_CLIENT_SOCKET_PATH:") received_msg
    then (
      some (codes "Node connected to manager:" ++ to_string (length m.node_address_map)),
      unconnected - 1,
      record m { node_address_map = m.node_address_map ++ after 58 received_msg ∷ [] },
    )
    else (none, unconnected, m)

-- The loop over the messages, until each of the nodes is connected; it exits if `accept` fails first.
unfoldable pub register_nodes : Manager → (unconnected : ℕ) → List Bytes → Outcome Manager
unfolding register_node
register_nodes m unconnected [] = exited
register_nodes m unconnected (msg ∷ msgs) =
    let (answer, left, next) = register_node m unconnected msg in
    let rest = register_nodes next left msgs in if left == 0 then ok next else rest

-- The loop over `j` in `send_node_replica_node_fds`, with so many rounds to go.
unfoldable pub replica_indices : (size i rounds j : ℕ) → List ℕ
replica_indices size i zero j = []
replica_indices size i (suc rounds) j =
    ((size + i + j) % size) ∷ replica_indices size i rounds (j + 1)

abbrev pub comma_text : List Bytes → Bytes
comma_text [] = []
comma_text (t ∷ texts) = t ++ 44 ∷ comma_text texts

-- `pop_back`
unfoldable pub drop_last : Bytes → Bytes
drop_last [] = []
drop_last (c ∷ []) = []
drop_last (c ∷ d ∷ s) = c ∷ drop_last (d ∷ s)

-- The message to node `i`.
unfoldable pub replica_message : Manager → (i : ℕ) → Bytes
unfolding replica_indices drop_last
replica_message m i = drop_last (
    codes "NUM_REPLICAS:"
    ++ (to_string m.num_rep
        ++ (codes ";REPLICA_PATHS:"
            ++ comma_text (
                map (λ k. node_node_prefix ++ to_string k)
                  (replica_indices (length m.node_address_map) i (m.num_rep - 1) 1)))))

-- The two loops that list the nodes for a client.
abbrev pub node_pairs : (i : ℕ) → List Bytes → List Bytes
node_pairs i [] = []
node_pairs i (address ∷ addresses) = (to_string i ++ 58 ∷ address) ∷ node_pairs (i + 1) addresses

abbrev pub dead_pairs : List ℕ → List Bytes
dead_pairs = map (λ i. to_string i ++ codes ":DEAD")

unfoldable pub init_response : Manager → Bytes
unfolding drop_last
init_response m = drop_last (
    codes "NUM_REPLICAS:"
    ++ (to_string m.num_rep
        ++ (codes ";HASH_FUNCTION:ADD-ASCII;NODES:"
            ++ comma_text (node_pairs 0 m.node_address_map ++ dead_pairs m.dead_node_ids))))

-- The list of numbers that a client reports.
unfoldable pub parse_ids : List Bytes → Outcome (List ℤ)
parse_ids [] = ok []
parse_ids (p ∷ ps) = elim (stoi p) [
  | none ↦ aborted
  | some n ↦ do rest ← parse_ids ps; ok (n ∷ rest)
]

-- `node_id < node_address_map.size()`, where a negative number counts as a large one.
abbrev pub is_below : ℕ → ℤ → Bool
is_below size (pos n) = ltb n size
is_below size (negsuc n) = false

-- The loop over the reported numbers: it appends to the list that it runs over, which is not defined.
abbrev pub note_dead : (size : ℕ) → List ℤ → Outcome (Unit {0})
note_dead size [] = ok tt
note_dead size (n ∷ ids) = elim (is_below size n) [ true ↦ undefined | false ↦ note_dead size ids ]

-- One message of the loop in `create_manager_client_socket`, with the answer. The list of dead nodes
-- that it fills is a local one of the same name as the global.
unfoldable pub serve_client : Manager → Bytes → Outcome (Bytes × Manager)
unfolding init_response parse_ids
serve_client m received_msg =
    if same received_msg (codes "INITIALIZE_CLIENT")
    then ok (init_response m, m)
    else elim (strip (codes "DEAD_NODES:") received_msg) [
      | none ↦ ok (codes "ERROR: Unknown message", m)
      | some dead_nodes_str ↦ do
        ids ← parse_ids (pieces 44 dead_nodes_str)
        note_dead (length m.node_address_map) ids
        ok (codes "DEAD_NODES_RECEIVED", m)
    ]

-- The check of the command line in `main`.
unfoldable pub start_manager : (num_nodes num_rep : ℤ) → Outcome Manager
start_manager (pos (suc n)) (pos (suc r)) =
    ok (record { num_nodes = suc n; num_rep = suc r; node_address_map = []; dead_node_ids = [] })
start_manager _ _ = exited
