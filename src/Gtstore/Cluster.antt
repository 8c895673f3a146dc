-- ===== src/Gtstore/Cluster.antt =====
-- Assignment_4/Project4/gtstore/src: a client and the storage nodes together: a value goes to the node of
-- its key and to the replicas of that, and is read back while one of them answers.
use advanced_oslab.Prelude.{
  ℕ, suc, ◌%◌, ◌<◌, ◌≡◌, refl, sym, ap, ◌∙◌, Bool, true, false, Option, some, List, [], ◌∷◌, ◌++◌,
  ◌==◌, ==_refl, map, count, length, arith, Bool-cases, inl, inr, if◌then◌else◌,
}
use native.Mathlib.Nat.{mod-lt}
use advanced_oslab.Prelude.Int.{pos}
use advanced_oslab.Prelude.Outcome.{ok}
use advanced_oslab.Text.{Bytes, codes, same}
use advanced_oslab.Gtstore.{Values}
use advanced_oslab.Gtstore.Manager.{replica_indices}
use advanced_oslab.Gtstore.Client
use advanced_oslab.Gtstore.Client.{
  Client, char_sum, hash, attempts, parse_values, put_message, get_message, ask, is_listed,
}
use advanced_oslab.Gtstore.Ring.{first_answer, first_here, attempts_lem}
use advanced_oslab.Gtstore.Messages.{
  AreWords, IsKey, stored_at, serve_client-put, parse_values-found,
}
use advanced_oslab.Gtstore.Delivery.{
  Nodes, messages, replicate, address_of, answers_of, deliver, handled, Has, stored_at-Has,
  up_answer, deliver-kept, deliver-Has, first_answer-found,
}
use advanced_oslab.Gtstore.Storage.{replications}

-- A client that knows `size` nodes and of none that is dead, and nodes that the manager has told their
-- replicas.
pub record IsRunning (c : Client) (nodes : Nodes) (replicas : ℕ) : Type 0 where
  pub hashes : c.hash_function ≡ codes "ADD-ASCII"
  pub replicated : c.num_replicas ≡ pos (suc replicas)
  pub none_dead : c.dead_node_ids ≡ []
  pub any : 0 < length c.node_address_map
  pub told :
      (i : ℕ)
      → (nodes i).replica_node_addresses
        ≡ map address_of (replica_indices (length c.node_address_map) i replicas 1)

ask_lem :
    (c : Client) (answers : ℕ → Option Bytes) (key : Bytes) (size replicas : ℕ)
    → c.hash_function ≡ codes "ADD-ASCII"
    → c.num_replicas ≡ pos (suc replicas)
    → c.dead_node_ids ≡ []
    → length c.node_address_map ≡ suc size
    → let target = char_sum key % suc size in
      ask c answers key
      ≡ ok (first_answer answers (target ∷ replica_indices (suc size) target replicas 1) [])
unfolding ask hash same
ask_lem c answers key size replicas hashes replicated none_dead sized =
    let target = char_sum key % suc size in
    let below : target < suc size = mod-lt (char_sum key) (omega arith) in
    rw (hashes, sized, replicated, none_dead)
      (ap ok (attempts_lem (suc size) target answers replicas below))

module _ (connects : Bytes → Bool) (nodes : Nodes) (key : Bytes) (values : Values) (k : IsKey key)
    (w : AreWords values) (target : ℕ) (is : List ℕ) where
  -- The nodes with the value at the target, before the others get it.
  abbrev at_target : Nodes
  at_target i = if target == i then stored_at (nodes target) key values else nodes i

  handled_lem :
      (nodes target).replica_node_addresses ≡ map address_of is
      → handled connects nodes target (put_message key values)
        ≡ deliver (messages connects key values k w is) at_target
  handled_lem told =
      let served = serve_client-put connects (nodes target) key values k w in
      ap (λ s. deliver s.sent (λ i. if target == i then s.node else nodes i)) served
      ∙ ap
          (λ addresses.
            deliver (replications connects (replicate connects key values k w) addresses) at_target)
          told

  handled-Has :
      (nodes target).replica_node_addresses ≡ map address_of is
      → (j : ℕ) → 0 < count j (target ∷ is)
      → (0 < count j is → connects (address_of j) ≡ true)
      → Has key values (handled connects nodes target (put_message key values) j)
  unfolding count
  handled-Has told j listed up =
      let own : Has key values (at_target target) =
        rw (==_refl target) (stored_at-Has (nodes target) key values) in
      ap (λ ns. (ns j).storage_key_value_map key) (handled_lem told)
      ∙ (elim (Bool-cases (j == target)) [
        | inl here ↦
            let is_target : target ≡ j = ground (arith, here) in
            ap
              (λ n.
                (deliver (messages connects key values k w is) at_target n).storage_key_value_map
                  key)
              (sym is_target)
            ∙ deliver-kept connects key values k w is at_target target own
        | inr apart ↦
            let copied : 0 < count j is = ground (arith, listed, apart) in
            deliver-Has connects key values k w is at_target j copied (up copied)
      ])

put_ok :
    (c : Client) (answers : Bytes → ℕ → Option Bytes) (key : Bytes) (values : Values)
    (answer : Bytes) (dead : List ℕ)
    → ask c (answers (put_message key values)) key ≡ ok (some answer, dead)
    → Client.put c answers key values ≡ ok (true, dead)
unfolding Client.put
put_ok c answers key values answer dead e = rw e refl

get_ok :
    (c : Client) (answers : Bytes → ℕ → Option Bytes) (key msg : Bytes) (values : Values)
    (dead : List ℕ)
    → ask c (answers (get_message key)) key ≡ ok (some msg, dead)
    → same msg (codes "KEY_NOT_FOUND") ≡ false
    → parse_values msg ≡ some values
    → Client.get c answers key ≡ ok (values, dead)
unfolding Client.get
get_ok c answers key msg values dead e found parsed = rw (e, found, parsed) refl

-- For a key without space, comma and colon and values that are not empty and have neither space nor
-- comma, a client that knows some nodes, none of them as dead, and nodes that know their replicas:
-- if the node of the key answers, `put` succeeds and reports no node; and once the messages that the
-- node could send are handled, `get` returns the values as long as that node or one of its replicas
-- answers, if each replica that answers then could be connected to before.
pub put-get :
    (connects : Bytes → Bool) (c : Client) (nodes : Nodes) (alive alive_later : ℕ → Bool)
    (key : Bytes) (values : Values) (size replicas target i : ℕ)
    → IsKey key
    → AreWords values
    → IsRunning c nodes replicas
    → length c.node_address_map ≡ suc size
    → char_sum key % suc size ≡ target
    → alive target ≡ true
    → 0 < count i (target ∷ replica_indices (suc size) target replicas 1)
    → alive_later i ≡ true
    → ((j : ℕ)
        → 0 < count j (replica_indices (suc size) target replicas 1)
        → alive_later j ≡ true
        → connects (address_of j) ≡ true)
    → (dead : List ℕ) × (Client.put c (answers_of connects nodes alive) key values ≡ ok (true, []))
      × (Client.get c
            (answers_of connects
              (handled connects nodes target (put_message key values))
              alive_later)
            key
          ≡ ok (values, dead))
unfolding count
put-get connects c nodes alive alive_later key values size replicas target i k w running sized
      hashed up listed up_later connected =
    let is = replica_indices (suc size) target replicas 1 in
    let later = handled connects nodes target (put_message key values) in
    let told : (nodes target).replica_node_addresses ≡ map address_of is =
      running.told target ∙ ap (λ n. map address_of (replica_indices n target replicas 1)) sized in
    let asked : (answers : ℕ → Option Bytes)
        → ask c answers key ≡ ok (first_answer answers (target ∷ is) []) =
      λ answers.
        ask_lem c answers key size replicas running.hashes running.replicated running.none_dead
          sized
        ∙ ap (λ t. ok (first_answer answers (t ∷ replica_indices (suc size) t replicas 1) []))
            hashed in
    let msg = put_message key values in
    let stores : answers_of connects nodes alive msg target
        ≡ some (codes "OK, SERVER_" ++ (nodes target).node_id) =
      up_answer connects nodes alive msg target up
      ∙ ap (λ s. s.answer) (serve_client-put connects (nodes target) key values k w) in
    let (j, dead, found) =
      first_answer-found connects key values k w later alive_later (target ∷ is) [] i
        (λ m l living.
          handled-Has connects nodes key values k w target is told m l
            (λ copied. connected m copied living))
        listed up_later in
    let (parsed, known) = parse_values-found (later j) key values k w in
    (
      dead,
      put_ok c (answers_of connects nodes alive) key values _ [] (
          asked (answers_of connects nodes alive msg)
          ∙ ap ok (first_here (answers_of connects nodes alive msg) target is [] _ stores)),
      get_ok c (answers_of connects later alive_later) key _ values dead
          (asked (answers_of connects later alive_later (get_message key)) ∙ ap ok found) known
          parsed,
    )
