-- ===== src/Gtstore/Told.antt =====
-- Assignment_4/Project4/gtstore/src/manager.cpp and storage.cpp: how the nodes come to be numbered, and
-- what the manager tells a node of its replicas.
use advanced_oslab.Prelude.{
  append_assoc, append_nil, ℕ, suc, ◌-◌, ◌≡◌, refl, sym, ap, ◌∙◌, false, Option, none, some, List,
  [], ◌∷◌, ◌++◌, ◌==◌, length, map, arith, if◌then◌else◌,
}
use advanced_oslab.Prelude.Outcome.{ok}
use advanced_oslab.Text.{Bytes, codes, has, pieces, to_string, before, behind}
use advanced_oslab.Text.Pieces.{has-append}
use advanced_oslab.Text.Decimal.{has-to_string}
use advanced_oslab.Entries.{strip, split}
use advanced_oslab.Gtstore.{node_node_prefix, atoi}
use advanced_oslab.Gtstore.Storage.{Node, parse_node_connection_msg}
use advanced_oslab.Gtstore.Manager.{
  Manager, comma_text, drop_last, replica_indices, replica_message, register_node, register_nodes,
}
use advanced_oslab.Gtstore.Reports.{AreFields, pieces-comma_text}
use advanced_oslab.Gtstore.Pairs.{is_nil-append}
use advanced_oslab.Gtstore.Startup.{drop_last-nonempty, behind_text, split-skip}
use advanced_oslab.Gtstore.Delivery.{address_of}

abbrev paths : List ℕ → List Bytes
paths = map address_of

paths-AreFields : (is : List ℕ) → AreFields (paths is)
unfolding has
paths-AreFields [] = tt
paths-AreFields (i ∷ is) = (
  refl,
  has-append 44 node_node_prefix (to_string i) refl (has-to_string 44 i refl),
  paths-AreFields is,
)

abbrev front : Bytes
front = codes "NUM_REPLICAS:"

split-front : (s : Bytes) → split front (front ++ s) ≡ some ([], s)
unfolding split strip
split-front s = refl

abbrev word : Bytes
word = codes "EPLICA_PATHS:"

-- The first word of the message is not the one that is searched.
split_second :
    (s : Bytes)
    → split (82 ∷ word) (front ++ s)
      ≡ behind_text
          (codes "NUM_")
          (behind_text (82 ∷ []) (behind_text (codes "EPLICAS:") (split (82 ∷ word) s)))
unfolding split strip has
split_second s =
    split-skip 82 word (codes "NUM_") (codes "REPLICAS:" ++ s) refl
    ∙ ap (λ o. behind_text (codes "NUM_") (behind_text (82 ∷ []) o))
        (split-skip 82 word (codes "EPLICAS:") s refl)

split_paths :
    (d s : Bytes)
    → has 82 d ≡ false
    → split (82 ∷ word) (front ++ (d ++ (codes ";REPLICA_PATHS:" ++ s)))
      ≡ some (front ++ (d ++ codes ";"), s)
unfolding split strip
split_paths d s h =
    split_second (d ++ (codes ";REPLICA_PATHS:" ++ s))
    ∙ ap
        (λ o. behind_text (codes "NUM_") (behind_text (82 ∷ []) (behind_text (codes "EPLICAS:") o)))
        (split-skip 82 word d (codes ";REPLICA_PATHS:" ++ s) h)

split_no_paths :
    (d : Bytes)
    → has 82 d ≡ false
    → split (82 ∷ word) (front ++ (d ++ codes ";REPLICA_PATHS")) ≡ none
unfolding split strip
split_no_paths d h =
    split_second (d ++ codes ";REPLICA_PATHS")
    ∙ ap
        (λ o. behind_text (codes "NUM_") (behind_text (82 ∷ []) (behind_text (codes "EPLICAS:") o)))
        (split-skip 82 word d (codes ";REPLICA_PATHS") h)

parse_paths :
    (node : Node) (buffer number tail paths : Bytes)
    → split front buffer ≡ some ([], number)
    → split (82 ∷ word) buffer ≡ some (tail, paths)
    → parse_node_connection_msg node buffer ≡ record node {
      num_rep = atoi (before 59 number);
      replica_node_addresses = node.replica_node_addresses ++ pieces 44 paths;
    }
unfolding parse_node_connection_msg
parse_paths node buffer number tail paths e1 e2 = rw (e1, e2, parse_node_connection_msg) refl

parse_no_paths :
    (node : Node) (buffer number : Bytes)
    → split front buffer ≡ some ([], number)
    → split (82 ∷ word) buffer ≡ none
    → parse_node_connection_msg node buffer ≡ node
unfolding parse_node_connection_msg
parse_no_paths node buffer number e1 e2 = rw (e1, e2, parse_node_connection_msg) refl

-- The message for a list of replicas; if there are none, its last character is the colon that goes.
message_lem :
    (d : Bytes) (texts : List Bytes)
    → drop_last (front ++ (d ++ (codes ";REPLICA_PATHS:" ++ comma_text texts)))
      ≡ front ++ (d ++ drop_last (codes ";REPLICA_PATHS:" ++ comma_text texts))
message_lem d texts =
    drop_last-nonempty front (d ++ (codes ";REPLICA_PATHS:" ++ comma_text texts))
      (is_nil-append d (codes ";REPLICA_PATHS:" ++ comma_text texts) refl)
    ∙ ap (λ t. front ++ t) (drop_last-nonempty d (codes ";REPLICA_PATHS:" ++ comma_text texts) refl)

told_some :
    (node : Node) (n : ℕ) (is : List ℕ)
    → (parse_node_connection_msg node (
        drop_last (
          front
          ++ (to_string n
              ++ (codes ";REPLICA_PATHS:" ++ comma_text (paths is)))))).replica_node_addresses
      ≡ node.replica_node_addresses ++ paths is
unfolding drop_last
told_some node n [] =
    let d = to_string n in
    ap (λ b. (parse_node_connection_msg node b).replica_node_addresses) (message_lem d [])
    ∙ ap (λ nd. nd.replica_node_addresses)
        (parse_no_paths node (front ++ (d ++ codes ";REPLICA_PATHS")) (d ++ codes ";REPLICA_PATHS")
          (split-front (d ++ codes ";REPLICA_PATHS")) (split_no_paths d (has-to_string 82 n refl)))
    ∙ sym (append_nil node.replica_node_addresses)
told_some node n (i ∷ is) =
    let d = to_string n in
    let texts = comma_text (paths (i ∷ is)) in
    let tail = drop_last texts in
    let message = front ++ (d ++ (codes ";REPLICA_PATHS:" ++ tail)) in
    ap (λ b. (parse_node_connection_msg node b).replica_node_addresses)
      (message_lem d (paths (i ∷ is))
        ∙ ap (λ t. front ++ (d ++ t)) (drop_last-nonempty (codes ";REPLICA_PATHS:") texts refl))
    ∙ ap (λ nd. nd.replica_node_addresses)
        (parse_paths node message (d ++ (codes ";REPLICA_PATHS:" ++ tail))
          (front ++ (d ++ codes ";")) tail (split-front (d ++ (codes ";REPLICA_PATHS:" ++ tail)))
          (split_paths d tail (has-to_string 82 n refl)))
    ∙ ap (λ ps. node.replica_node_addresses ++ ps)
        (pieces-comma_text (address_of i) (paths is) (paths-AreFields (i ∷ is)))

-- A node that reads the message of the manager adds to its addresses those of its replicas, in
-- order, and none if there is one copy only.
pub told_lem :
    (node : Node) (m : Manager) (i : ℕ)
    → (parse_node_connection_msg node (replica_message m i)).replica_node_addresses
      ≡ node.replica_node_addresses
        ++ map address_of (replica_indices (length m.node_address_map) i (m.num_rep - 1) 1)
unfolding replica_message
told_lem node m i =
    told_some node m.num_rep (replica_indices (length m.node_address_map) i (m.num_rep - 1) 1)

abbrev pub register_message : Bytes → Bytes
register_message path = codes "NODE_CLIENT_SOCKET_PATH:" ++ path

minus_one : (n : ℕ) → suc n - 1 ≡ n
minus_one n = omega arith

register_node_lem :
    (m : Manager) (left : ℕ) (path : Bytes)
    → register_node m (suc left) (register_message path) ≡ (
      some (codes "Node connected to manager:" ++ to_string (length m.node_address_map)),
      left,
      record m { node_address_map = m.node_address_map ++ path ∷ [] },
    )
unfolding register_node split strip behind
register_node_lem m left path = λ i. (
  some (codes "Node connected to manager:" ++ to_string (length m.node_address_map)),
  minus_one left i,
  record m { node_address_map = m.node_address_map ++ path ∷ [] },
)

register_step :
    (m next : Manager) (unconnected left : ℕ) (msg : Bytes) (msgs : List Bytes)
    (answer : Option Bytes)
    → register_node m unconnected msg ≡ (answer, left, next)
    → register_nodes m unconnected (msg ∷ msgs)
      ≡ (if left == 0 then ok next else register_nodes next left msgs)
unfolding register_nodes
register_step m next unconnected left msg msgs answer e = rw (e, register_nodes) refl

-- As many registration messages as the manager waits for, at least one, end its loop: the paths
-- stand in its map in the order of the messages.
pub register_nodes_lem :
    (m : Manager) (path : Bytes) (more : List Bytes)
    → register_nodes m (length (path ∷ more)) (map register_message (path ∷ more))
      ≡ ok (record m { node_address_map = m.node_address_map ++ path ∷ more })
register_nodes_lem m path [] =
    register_step m _ 1 0 (register_message path) [] _ (register_node_lem m 0 path)
register_nodes_lem m path (next ∷ more) =
    let m' = record m { node_address_map = m.node_address_map ++ path ∷ [] } in
    let waiting : (length (next ∷ more) == 0) ≡ false = ground arith in
    register_step m m' (length (path ∷ next ∷ more)) (length (next ∷ more)) (register_message path)
      (map register_message (next ∷ more)) _ (register_node_lem m (length (next ∷ more)) path)
    ∙ ap
        (λ b.
          if b
          then ok m'
          else register_nodes m' (length (next ∷ more)) (map register_message (next ∷ more)))
        waiting
    ∙ register_nodes_lem m' next more
    ∙ ap (λ ks. ok (record m { node_address_map = ks }))
        (append_assoc m.node_address_map (path ∷ []) (next ∷ more))
