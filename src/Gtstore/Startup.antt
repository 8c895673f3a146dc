-- ===== src/Gtstore/Startup.antt =====
-- Assignment_4/Project4/gtstore/src/manager.cpp and client.cpp: what a client learns of the nodes when it
-- starts.
use advanced_oslab.Prelude.{
  ℕ, ◌+◌, ◌-◌, leb, ◌<◌, ◌≤◌, ◌^◌, ◌≡◌, refl, sym, ap, ◌∙◌, true, false, Option, none, some, List,
  [], ◌∷◌, ◌++◌, ◌==◌, is_nil, length, length-append, map, arith, Option-cases, inl, inr,
}
use advanced_oslab.Prelude.Int.{ℤ, pos}
use advanced_oslab.Prelude.Outcome.{ok}
use advanced_oslab.Text.{Bytes, codes, has, pieces, to_string, stoi}
use advanced_oslab.Text.Pieces.{has-append}
use advanced_oslab.Text.Decimal.{has-to_string, stoi-to_string}
use advanced_oslab.Disk.{take}
use advanced_oslab.Entries.{strip, split}
use advanced_oslab.Gtstore.Manager.{
  Manager, comma_text, drop_last, node_pairs, dead_pairs, init_response,
}
use advanced_oslab.Gtstore.Client.{Client, read_pairs, part, read_response}
use advanced_oslab.Gtstore.Reports.{AreFields, AreInts, drop_last-append, pieces-comma_text}
use advanced_oslab.Gtstore.Pairs.{
  AreAddresses, is_nil-append, knowing, read_pairs-nodes, read_pairs-dead,
}

-- The search for a word goes past a text without its first character.
abbrev pub behind_text : Bytes → Option (Bytes × Bytes) → Option (Bytes × Bytes)
behind_text a none = none
behind_text a (some (front, rest)) = some (a ++ front, rest)

strip_apart : (p c : ℕ) (word s : Bytes) → (c == p) ≡ false → strip (p ∷ word) (c ∷ s) ≡ none
unfolding strip
strip_apart p c word s h = ground (arith, h)

pub split-skip :
    (p : ℕ) (word a s : Bytes)
    → has p a ≡ false
    → split (p ∷ word) (a ++ s) ≡ behind_text a (split (p ∷ word) s)
unfolding split has
split-skip p word [] s h = elim (Option-cases (split (p ∷ word) s)) [
  | inl e ↦ rw e refl
  | inr (r, e) ↦ rw e refl
]
split-skip p word (c ∷ a) s h =
    let first : strip (p ∷ word) (c ∷ (a ++ s)) ≡ none =
      strip_apart p c word (a ++ s) (ground arith) in
    let later = split-skip p word a s (ground arith) in
    elim (Option-cases (split (p ∷ word) s)) [
      | inl e ↦ rw (first, later, e, split) refl
      | inr (r, e) ↦ rw (first, later, e, split) refl
    ]

read_parts :
    (c : Client) (response front number to_hash named to_nodes nodes_data : Bytes) (n : ℤ)
    → split (codes "NUM_REPLICAS:") response ≡ some (front, number)
    → split (codes ";HASH_FUNCTION:") response ≡ some (to_hash, named)
    → split (codes ";NODES:") response ≡ some (to_nodes, nodes_data)
    → stoi (part (length front + 13) (length to_hash) number) ≡ some n
    → read_response c response
      ≡ read_pairs
          (record {
            num_replicas = n;
            hash_function = part (length to_hash + 15) (length to_nodes) named;
            node_address_map = [];
            dead_node_ids = [];
          })
          (pieces 44 nodes_data)
unfolding read_response
read_parts c response front number to_hash named to_nodes nodes_data n e1 e2 e3 e4 =
    rw (e1, e2, e3, e4, read_response) refl

pairs-AreFields :
    (i : ℕ) (addresses : List Bytes) (ns : List ℕ)
    → AreAddresses addresses
    → AreFields (node_pairs i addresses ++ dead_pairs ns)
unfolding has
pairs-AreFields i [] [] h = tt
pairs-AreFields i [] (n ∷ ns) h = (
  is_nil-append (to_string n) (codes ":DEAD") refl,
  has-append 44 (to_string n) (codes ":DEAD") (has-to_string 44 n refl) refl,
  pairs-AreFields i [] ns tt,
)
pairs-AreFields i (a ∷ addresses) ns (alive, comma, rest) = (
  is_nil-append (to_string i) (58 ∷ a) refl,
  has-append 44 (to_string i) (58 ∷ a) (has-to_string 44 i refl) comma,
  pairs-AreFields (i + 1) addresses ns rest,
)

take-length : (a s : Bytes) → take (length a) (a ++ s) ≡ a
unfolding take
take-length [] s = refl
take-length (c ∷ a) s = ap (λ t. c ∷ t) (take-length a s)

part_lem : (start stop : ℕ) (a s : Bytes) → stop ≡ start + length a → part start stop (a ++ s) ≡ a
part_lem start stop a s e =
    let enough : leb start stop ≡ true = ground (arith, e) in
    let count : stop - start ≡ length a = omega (arith, e) in
    rw (enough, count, part) (take-length a s)

pub drop_last-nonempty : (a s : Bytes) → is_nil s ≡ false → drop_last (a ++ s) ≡ a ++ drop_last s
drop_last-nonempty a [] h = absurd (cc)
drop_last-nonempty a (c ∷ s) h = drop_last-append a c s

abbrev front : Bytes
front = codes "NUM_REPLICAS:"

abbrev middle : Bytes
middle = codes ";HASH_FUNCTION:ADD-ASCII;NODES:"

split-front : (s : Bytes) → split front (front ++ s) ≡ some ([], s)
unfolding split strip
split-front s = refl

split_hash :
    (d s : Bytes)
    → has 59 d ≡ false
    → split (codes ";HASH_FUNCTION:") (front ++ (d ++ (middle ++ s)))
      ≡ some (front ++ (d ++ []), codes "ADD-ASCII;NODES:" ++ s)
unfolding split strip has
split_hash d s h =
    let word = codes "HASH_FUNCTION:" in
    split-skip 59 word front (d ++ (middle ++ s)) refl
    ∙ ap (behind_text front) (split-skip 59 word d (middle ++ s) h)

split_nodes :
    (d s : Bytes)
    → has 59 d ≡ false
    → split (codes ";NODES:") (front ++ (d ++ (middle ++ s)))
      ≡ some (front ++ (d ++ codes ";HASH_FUNCTION:ADD-ASCII"), s)
unfolding split strip has
split_nodes d s h =
    let word = codes "NODES:" in
    split-skip 59 word front (d ++ (middle ++ s)) refl
    ∙ ap (behind_text front) (split-skip 59 word d (middle ++ s) h)

init_response_lem :
    (m : Manager) (a : Bytes) (addresses : List Bytes)
    → m.node_address_map ≡ a ∷ addresses
    → init_response m
      ≡ front
        ++ (to_string m.num_rep
            ++ (middle
                ++ drop_last
                    (comma_text (node_pairs 0 (a ∷ addresses) ++ dead_pairs m.dead_node_ids))))
unfolding init_response
init_response_lem m a addresses known =
    let d = to_string m.num_rep in
    let texts = comma_text (node_pairs 0 (a ∷ addresses) ++ dead_pairs m.dead_node_ids) in
    let full : is_nil texts ≡ false =
      is_nil-append (to_string 0 ++ 58 ∷ a)
        (44 ∷ comma_text (node_pairs 1 addresses ++ dead_pairs m.dead_node_ids)) refl in
    ap
      (λ ks.
        drop_last
          (front ++ (d ++ (middle ++ comma_text (node_pairs 0 ks ++ dead_pairs m.dead_node_ids)))))
      known
    ∙ drop_last-nonempty front (d ++ (middle ++ texts)) (is_nil-append d (middle ++ texts) refl)
    ∙ ap (λ t. front ++ t) (drop_last-nonempty d (middle ++ texts) refl)
    ∙ ap (λ t. front ++ (d ++ t)) (drop_last-nonempty middle texts full)

-- If the manager knows at least one node and at most 2 ^ 31, with addresses that have no comma and
-- are not "DEAD", and numbers below 2 ^ 31, a client reads from its answer to INITIALIZE_CLIENT the
-- number of copies, the hash function, the addresses in their order and the dead nodes.
pub read_response-init :
    (c : Client) (m : Manager) (a : Bytes) (addresses : List Bytes)
    → m.node_address_map ≡ a ∷ addresses
    → AreAddresses (a ∷ addresses)
    → length (a ∷ addresses) ≤ 2 ^ 31
    → m.num_rep < 2 ^ 31
    → AreInts m.dead_node_ids
    → read_response c (init_response m)
      ≡ ok (record {
        num_replicas = pos m.num_rep;
        hash_function = codes "ADD-ASCII";
        node_address_map = m.node_address_map;
        dead_node_ids = map pos m.dead_node_ids;
      })
read_response-init c m a addresses known fine small rep_small ints =
    let d = to_string m.num_rep in
    let no_semicolon = has-to_string 59 m.num_rep refl in
    let pairs = node_pairs 0 (a ∷ addresses) ++ dead_pairs m.dead_node_ids in
    let nodes = drop_last (comma_text pairs) in
    let to_hash = front ++ (d ++ []) in
    let to_nodes = front ++ (d ++ codes ";HASH_FUNCTION:ADD-ASCII") in
    let number : stoi (part (0 + 13) (length to_hash) (d ++ (middle ++ nodes)))
        ≡ some (pos m.num_rep) =
      ap stoi
        (part_lem (0 + 13) (length to_hash) d (middle ++ nodes) (omega (arith, length-append d [])))
      ∙ stoi-to_string m.num_rep rep_small in
    let name : part (length to_hash + 15) (length to_nodes) (codes "ADD-ASCII;NODES:" ++ nodes)
        ≡ codes "ADD-ASCII" =
      part_lem (length to_hash + 15) (length to_nodes) (codes "ADD-ASCII")
        (codes ";NODES:" ++ nodes)
        (omega (arith, length-append d [], length-append d (codes ";HASH_FUNCTION:ADD-ASCII"))) in
    let blank : Bytes → Client = λ hash. record {
      num_replicas = pos m.num_rep;
      hash_function = hash;
      node_address_map = [];
      dead_node_ids = [];
    } in
    let start = blank (codes "ADD-ASCII") in
    ap (read_response c) (init_response_lem m a addresses known)
    ∙ read_parts c (front ++ (d ++ (middle ++ nodes))) [] (d ++ (middle ++ nodes)) to_hash
        (codes "ADD-ASCII;NODES:" ++ nodes) to_nodes nodes (pos m.num_rep)
        (split-front (d ++ (middle ++ nodes))) (split_hash d nodes no_semicolon)
        (split_nodes d nodes no_semicolon) number
    ∙ ap (λ h. read_pairs (blank h) (pieces 44 nodes)) name
    ∙ ap (read_pairs start)
        (pieces-comma_text _ _ (pairs-AreFields 0 (a ∷ addresses) m.dead_node_ids fine))
    ∙ read_pairs-nodes start [] 0 (a ∷ addresses) (dead_pairs m.dead_node_ids) refl
        (omega (arith, small)) fine
    ∙ read_pairs-dead (knowing start (a ∷ addresses)) m.dead_node_ids ints
    ∙ ap
        (λ ks. ok (record {
          num_replicas = pos m.num_rep;
          hash_function = codes "ADD-ASCII";
          node_address_map = ks;
          dead_node_ids = map pos m.dead_node_ids;
        }))
        (sym known)
