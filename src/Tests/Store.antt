-- ===== src/Tests/Store.antt =====
-- The key-value store at work: three nodes, and two copies of each value.
use advanced_oslab.Prelude.{
  ℕ, Bool, ◌≡◌, refl, true, none, some, List, [], ◌∷◌, ◌==◌, count, map, length, arith,
  if◌then◌else◌,
}
use advanced_oslab.Prelude.Int.{pos}
use advanced_oslab.Prelude.Outcome.{ok, undefined}
use advanced_oslab.Text.{Bytes, codes, has, same, to_string}
use advanced_oslab.Gtstore.{Values}
use advanced_oslab.Gtstore.Storage.{Node}
use advanced_oslab.Gtstore.Manager
use advanced_oslab.Gtstore.Manager.{
  Manager, replica_indices, replica_message, register_nodes, init_response,
}
use advanced_oslab.Gtstore.Client
use advanced_oslab.Gtstore.Client.{
  Client, attempts, char_sum, put_message, read_response, dead_message,
}
use advanced_oslab.Gtstore.Ring.{first_answer, attempts_lem, replica_indices_lem}
use advanced_oslab.Gtstore.Messages.{IsKey}
use advanced_oslab.Gtstore.Delivery.{Nodes, address_of, answers_of, handled}
use advanced_oslab.Gtstore.Cluster.{IsRunning, put-get}
use advanced_oslab.Gtstore.Reports.{report-undefined}
use advanced_oslab.Gtstore.Startup.{read_response-init}

abbrev addresses : List Bytes
addresses = codes "x" ∷ codes "y" ∷ codes "z" ∷ []

abbrev manager : Manager
manager = record { num_nodes = 3; num_rep = 2; node_address_map = addresses; dead_node_ids = [] }

abbrev client : Client
client = record {
  num_replicas = pos 2;
  hash_function = codes "ADD-ASCII";
  node_address_map = addresses;
  dead_node_ids = [];
}

abbrev blank : Node
blank = record {
  node_id = [];
  num_rep = pos 0;
  replica_node_addresses = [];
  storage_key_value_map = λ key. none;
}

abbrev nodes : Nodes
nodes i = record blank {
  node_id = to_string i;
  replica_node_addresses = map address_of (replica_indices 3 i 1 1);
}

abbrev key : Bytes
key = codes "k"

abbrev values : Values
values = codes "v1" ∷ codes "v2" ∷ []

key-IsKey : IsKey key
unfolding has
key-IsKey = record { no_space = refl; no_comma = refl; no_colon = refl }

client-IsRunning : IsRunning client nodes 1
client-IsRunning = record {
  hashes = refl;
  replicated = refl;
  none_dead = refl;
  any = omega arith;
  told = λ i. refl;
}

-- A system that connects every socket.
abbrev connects : Bytes → Bool
connects address = true

-- Node 2 gets the values, node 0 a copy; then only node 0 answers.
put-get_example :
    (dead : List ℕ) × (Client.put client (answers_of connects nodes (λ i. true)) key values
      ≡ ok (true, []))
    × (Client.get client
          (answers_of connects (handled connects nodes 2 (put_message key values)) (λ i. i == 0))
          key
        ≡ ok (values, dead))
unfolding char_sum has count replica_indices
put-get_example =
    put-get connects client nodes (λ i. true) (λ i. i == 0) key values 2 1 2 0 key-IsKey
      (refl, refl, refl, (refl, refl, refl, tt)) client-IsRunning refl refl refl (omega arith) refl
      (λ j listed up. refl)

attempts_example :
    attempts 3 (λ i. if i == 0 then some (codes "OK") else none) 2 2 []
    ≡ first_answer
        (λ i. if i == 0 then some (codes "OK") else none)
        (2 ∷ replica_indices 3 2 1 1)
        []
attempts_example =
    attempts_lem 3 2 (λ i. if i == 0 then some (codes "OK") else none) 1 (omega arith)

replica_indices_example :
    (length (replica_indices 3 2 1 1) ≡ 1) × (count 2 (replica_indices 3 2 1 1) ≡ 0)
replica_indices_example =
    let (many, other, once, known) =
      replica_indices_lem 3 2 2 (omega arith) (omega arith) (omega arith) in
    (many, other)

report-undefined_example : Manager.serve_client manager (dead_message (2 ∷ [])) ≡ undefined
report-undefined_example = report-undefined manager 2 [] (omega arith, tt) (omega arith)

read_response-init_example : read_response client (init_response manager) ≡ ok client
unfolding same has
read_response-init_example =
    read_response-init client manager (codes "x") (codes "y" ∷ codes "z" ∷ []) refl
      (refl, refl, (refl, refl, (refl, refl, tt))) (omega arith) (omega arith) tt
