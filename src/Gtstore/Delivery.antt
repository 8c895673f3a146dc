-- ===== src/Gtstore/Delivery.antt =====
-- Assignment_4/Project4/gtstore/src/storage.cpp: the nodes together, and the messages of one to the others.
use advanced_oslab.Prelude.{
  ℕ, ◌<◌, ◌≡◌, refl, sym, ap, ◌∙◌, Bool, true, false, Option, none, some, List, [], ◌∷◌, ◌++◌, ◌==◌,
  map, count, arith, Bool-cases, inl, inr, if◌then◌else◌,
}
use advanced_oslab.Text.{Bytes, same, same_refl, put_self, to_string}
use advanced_oslab.Gtstore.{Values, node_node_prefix}
use advanced_oslab.Gtstore.Storage.{
  Node, replication_msg, replications, value_text, serve_client, serve_node,
}
use advanced_oslab.Gtstore.Client.{get_message}
use advanced_oslab.Gtstore.Ring.{first_answer, first_here, first_next}
use advanced_oslab.Gtstore.Messages.{
  AreWords, IsKey, stored_at, serve_node-replicate, found_answer, serve_client-get,
}

abbrev pub Nodes : Type 0
Nodes = ℕ → Node

-- The path of the socket that a node opens for the others.
abbrev pub address_of : ℕ → Bytes
address_of i = node_node_prefix ++ to_string i

-- What the nodes that are alive answer to a message of a client.
abbrev pub answers_of :
    (connects : Bytes → Bool) → Nodes → (alive : ℕ → Bool) → Bytes → ℕ → Option Bytes
answers_of connects nodes alive msg i =
    if alive i then (serve_client connects (nodes i) msg).answer else none

-- The messages between nodes, each handled by the node at the address.
unfoldable pub deliver : List (Bytes × Bytes) → Nodes → Nodes
deliver [] nodes = nodes
deliver ((address, msg) ∷ sent) nodes =
    deliver sent
      (λ i. if same address (address_of i) then (serve_node (nodes i) msg).0 else nodes i)

-- The nodes once node `target` has handled a message of a client and the others what it sends.
abbrev pub handled : (connects : Bytes → Bool) → Nodes → (target : ℕ) → (msg : Bytes) → Nodes
handled connects nodes target msg =
    let served = serve_client connects (nodes target) msg in
    deliver served.sent (λ i. if target == i then served.node else nodes i)

-- Whether the node has the values under the key.
abbrev pub Has : (key : Bytes) → Values → Node → Type 0
Has key values node = node.storage_key_value_map key ≡ some values

pub stored_at-Has :
    (node : Node) (key : Bytes) (values : Values) → Has key values (stored_at node key values)
stored_at-Has node key values = put_self node.storage_key_value_map key (some values)

pub up_answer :
    (connects : Bytes → Bool) (nodes : Nodes) (alive : ℕ → Bool) (msg : Bytes) (j : ℕ)
    → alive j ≡ true
    → answers_of connects nodes alive msg j ≡ (serve_client connects (nodes j) msg).answer
up_answer connects nodes alive msg j up = rw (up, answers_of) refl

pub down_answer :
    (connects : Bytes → Bool) (nodes : Nodes) (alive : ℕ → Bool) (msg : Bytes) (j : ℕ)
    → alive j ≡ false
    → answers_of connects nodes alive msg j ≡ none
down_answer connects nodes alive msg j down = rw (down, answers_of) refl

pub apart_alive : (alive : ℕ → Bool) (i j : ℕ) → alive i ≡ true → alive j ≡ false → (i == j) ≡ false
apart_alive alive i j up down = elim (Bool-cases (i == j)) [
  | inl equal ↦ let is : i ≡ j = ground (arith, equal) in absurd (cc (sym up ∙ ap alive is ∙ down))
  | inr apart ↦ apart
]

module _ (connects : Bytes → Bool) (key : Bytes) (values : Values) (k : IsKey key)
    (w : AreWords values) where
  abbrev pub replicate : Bytes
  replicate = replication_msg key (value_text values)

  pub replicate-Has : (node : Node) → Has key values (serve_node node replicate).0
  replicate-Has node =
      ap (λ p. p.0.storage_key_value_map key) (serve_node-replicate node key values k w)
      ∙ stored_at-Has node key values

  abbrev pub messages : List ℕ → List (Bytes × Bytes)
  messages is = replications connects replicate (map address_of is)

  -- What a node has it keeps, and the nodes at the addresses get it.
  pub deliver-kept :
      (is : List ℕ) (nodes : Nodes) (i : ℕ)
      → Has key values (nodes i)
      → Has key values (deliver (messages is) nodes i)
  unfolding deliver replications
  deliver-kept [] nodes i h = h
  deliver-kept (j ∷ is) nodes i h = elim (Bool-cases (connects (address_of j))) [
    | inl up ↦ rw up (
        deliver-kept is _ i (elim (Bool-cases (same (address_of j) (address_of i))) [
          | inl here ↦ rw here (replicate-Has (nodes i))
          | inr apart ↦ rw apart h
        ]))
    | inr down ↦ rw down (deliver-kept is nodes i h)
  ]

  pub deliver-Has :
      (is : List ℕ) (nodes : Nodes) (i : ℕ)
      → 0 < count i is
      → connects (address_of i) ≡ true
      → Has key values (deliver (messages is) nodes i)
  unfolding deliver count replications
  deliver-Has [] nodes i h up = absurd (omega arith)
  deliver-Has (j ∷ is) nodes i h up = elim (Bool-cases (i == j)) [
    | inl here ↦
        let is_j : j ≡ i = ground (arith, here) in
        let same_address : same (address_of j) (address_of i) ≡ true =
          ap (λ n. same (address_of n) (address_of i)) is_j ∙ same_refl (address_of i) in
        let connected : connects (address_of j) ≡ true =
          ap (λ n. connects (address_of n)) is_j ∙ up in
        rw connected (deliver-kept is _ i (rw same_address (replicate-Has (nodes i))))
    | inr apart ↦
        let listed : 0 < count i is = ground (arith, h, apart) in
        elim (Bool-cases (connects (address_of j))) [
          | inl connected ↦ rw connected (deliver-Has is _ i listed up)
          | inr shut ↦ rw shut (deliver-Has is nodes i listed up)
        ]
  ]

  -- The first of some nodes that have the values, and are not all dead, answers with them.
  pub first_answer-found :
      (nodes : Nodes) (alive : ℕ → Bool) (is : List ℕ) (dead : List ℕ) (i : ℕ)
      → ((j : ℕ) → 0 < count j is → alive j ≡ true → Has key values (nodes j))
      → 0 < count i is
      → alive i ≡ true
      → (j : ℕ) × (dead' : List ℕ) × (first_answer
            (answers_of connects nodes alive (get_message key))
            is
            dead
          ≡ (some (found_answer (nodes j) key values), dead'))
  unfolding count
  first_answer-found nodes alive [] dead i has listed living = absurd (omega arith)
  first_answer-found nodes alive (j ∷ is) dead i has listed living = elim (Bool-cases (alive j)) [
    | inl up ↦
        let answers : answers_of connects nodes alive (get_message key) j
            ≡ some (found_answer (nodes j) key values) =
          up_answer connects nodes alive (get_message key) j up
          ∙ serve_client-get connects (nodes j) key values k (has j (ground arith) up) in
        (
          j,
          dead,
          first_here (answers_of connects nodes alive (get_message key)) j is dead _ answers,
        )
    | inr down ↦
        let (n, dead', e) =
          first_answer-found nodes alive is (dead ++ j ∷ []) i
            (λ m l living_m. has m (ground (arith, l)) living_m)
            (ground (arith, listed, apart_alive alive i j living down)) living in
        (
          n,
          dead',
          first_next (answers_of connects nodes alive (get_message key)) j is dead
                (down_answer connects nodes alive (get_message key) j down)
              ∙ e,
        )
  ]
