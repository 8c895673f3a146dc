-- ===== src/Gtstore/Messages.antt =====
-- Assignment_4/Project4/gtstore/src/storage.cpp and client.cpp: the messages that put a value and get it
-- back, at one node.
use advanced_oslab.Prelude.{
  ◌≡◌, refl, sym, ap, ◌∙◌, Bool, true, false, none, some, [], ◌∷◌, ◌++◌, is_nil, arith, Bool-cases,
  inl, inr,
}
use advanced_oslab.Text.{Bytes, codes, has, same, same_iff, put, pieces, before, behind, after}
use advanced_oslab.Text.Pieces.{pieces-append, has-append}
use advanced_oslab.Text.Cut.{before-append, behind-append, after-append, has_sep}
use advanced_oslab.Entries.{split, strip}
use advanced_oslab.Gtstore.{Values}
use advanced_oslab.Gtstore.Storage.{
  Node, store_key_value, value_text, replication_msg, replications, serve_client, serve_node,
}
use advanced_oslab.Gtstore.Client.{nonempty, value_part, parse_values, put_message, get_message}

-- Values that the messages can carry: not empty, without a space and without a comma.
abbrev pub AreWords : Values → Type 0
AreWords [] = Unit
AreWords (v ∷ values) =
    (is_nil v ≡ false) × (has 32 v ≡ false) × (has 44 v ≡ false) × AreWords values

-- Keys that they can carry: without a space, a comma and a colon.
pub record IsKey (key : Bytes) : Type 0 where
  pub no_space : has 32 key ≡ false
  pub no_comma : has 44 key ≡ false
  pub no_colon : has 58 key ≡ false

no_comma_there : has 44 (codes "KEY_NOT_FOUND") ≡ false
unfolding has
no_comma_there = refl

pieces-value_text : (values : Values) → AreWords values → pieces 32 (value_text values) ≡ values
unfolding value_text pieces
pieces-value_text [] h = refl
pieces-value_text (v ∷ values) (full, space, comma, rest) =
    pieces-append 32 v (value_text values) space ∙ ap (λ t. v ∷ t) (pieces-value_text values rest)

nonempty-words : (values : Values) → AreWords values → nonempty values ≡ values
unfolding nonempty
nonempty-words [] h = refl
nonempty-words (v ∷ values) (full, space, comma, rest) = rw (full, nonempty-words values rest) refl

has_comma-value_text : (values : Values) → AreWords values → has 44 (value_text values) ≡ false
unfolding value_text has
has_comma-value_text [] h = refl
has_comma-value_text (v ∷ values) (full, space, comma, rest) =
    has-append 44 v (32 ∷ value_text values) comma (has_comma-value_text values rest)

-- No word with a colon at its end is found where there is no colon.
strip_colon : (word s : Bytes) → has 58 word ≡ true → has 58 s ≡ false → strip word s ≡ none
unfolding strip has
strip_colon [] s w h = absurd (cc)
strip_colon (p ∷ word) [] w h = refl
strip_colon (p ∷ word) (c ∷ s) w h = ground (arith, strip_colon word s)

split_colon : (word s : Bytes) → has 58 word ≡ true → has 58 s ≡ false → split word s ≡ none
unfolding split has
split_colon word [] w h = rw (strip_colon word [] w refl, split) refl
split_colon word (c ∷ s) w h =
    let later : split word s ≡ none = split_colon word s w (ground arith) in
    rw (strip_colon word (c ∷ s) w h, later, split) refl

-- A node with a value stored under a key.
abbrev pub stored_at : Node → (key : Bytes) → Values → Node
stored_at node key values = record node {
  storage_key_value_map = put node.storage_key_value_map key (some values);
}

store_pair :
    (node : Node) (key : Bytes) (values : Values)
    → IsKey key
    → AreWords values
    → store_key_value node
        (before 32 (key ++ 32 ∷ value_text values))
        (after 32 (key ++ 32 ∷ value_text values))
      ≡ stored_at node key values
unfolding store_key_value
store_pair node key values k w =
    rw
      (
        before-append 32 key (value_text values) k.no_space,
        after-append 32 key (value_text values) k.no_space,
        pieces-value_text values w,
      )
      refl

replication_pair :
    (key : Bytes) (values : Values)
    → IsKey key
    → replication_msg
        (before 32 (key ++ 32 ∷ value_text values))
        (after 32 (key ++ 32 ∷ value_text values))
      ≡ replication_msg key (value_text values)
replication_pair key values k =
    rw
      (
        before-append 32 key (value_text values) k.no_space,
        after-append 32 key (value_text values) k.no_space,
      )
      refl

pub serve_client-put :
    (connects : Bytes → Bool) (node : Node) (key : Bytes) (values : Values)
    → IsKey key
    → AreWords values
    → serve_client connects node (put_message key values) ≡ record {
      node = stored_at node key values;
      sent =
          replications connects
            (replication_msg key (value_text values))
            node.replica_node_addresses;
      answer = some (codes "OK, SERVER_" ++ node.node_id);
      is_closed = false;
    }
unfolding serve_client split strip behind
serve_client-put connects node key values k w = λ i. record {
  node = store_pair node key values k w i;
  sent = replications connects (replication_pair key values k i) node.replica_node_addresses;
  answer = some (codes "OK, SERVER_" ++ node.node_id);
  is_closed = false;
}

pub serve_node-replicate :
    (node : Node) (key : Bytes) (values : Values)
    → IsKey key
    → AreWords values
    → serve_node node (replication_msg key (value_text values)) ≡ (stored_at node key values, false)
unfolding serve_node split strip behind
serve_node-replicate node key values k w = ap (λ n. (n, false)) (store_pair node key values k w)

-- The answer to GET for a key that the node has.
abbrev pub found_answer : Node → (key : Bytes) → Values → Bytes
found_answer node key values =
    key ++ (codes ", " ++ (value_text values ++ (codes ", SERVER_" ++ node.node_id)))

pub serve_client-get :
    (connects : Bytes → Bool) (node : Node) (key : Bytes) (values : Values)
    → IsKey key
    → node.storage_key_value_map key ≡ some values
    → (serve_client connects node (get_message key)).answer ≡ some (found_answer node key values)
unfolding serve_client split strip behind has
serve_client-get connects node key values k there =
    let no_put = split_colon (codes "PUT:") key refl k.no_colon in rw (no_put, there) refl

parse_at :
    (msg rest tail v : Bytes)
    → behind 44 msg ≡ some rest
    → behind 44 rest ≡ some tail
    → before 44 rest ≡ 32 ∷ v
    → parse_values msg ≡ some (nonempty (pieces 32 v))
unfolding parse_values
parse_at msg rest tail v e1 e2 e3 = rw (e1, e2, e3, parse_values, value_part) refl

-- The client reads the values back.
pub parse_values-found :
    (node : Node) (key : Bytes) (values : Values)
    → IsKey key
    → AreWords values
    → (parse_values (found_answer node key values) ≡ some values)
      × (same (found_answer node key values) (codes "KEY_NOT_FOUND") ≡ false)
unfolding before behind
parse_values-found node key values k w =
    let tail = codes " SERVER_" ++ node.node_id in
    let rest = 32 ∷ (value_text values ++ 44 ∷ tail) in
    let comma = has_comma-value_text values w in
    (
      parse_at (found_answer node key values) rest tail (value_text values)
            (behind-append 44 key rest k.no_comma) (behind-append 44 (value_text values) tail comma)
            (ap (λ t. 32 ∷ t) (before-append 44 (value_text values) tail comma))
          ∙ ap (λ t. some (nonempty t)) (pieces-value_text values w)
          ∙ ap some (nonempty-words values w),
      elim (Bool-cases (same (found_answer node key values) (codes "KEY_NOT_FOUND"))) [
        | inl equal ↦
            let is = (same_iff (found_answer node key values) (codes "KEY_NOT_FOUND")).0 equal in
            absurd (cc (sym (has_sep 44 key rest) ∙ ap (has 44) is, no_comma_there))
        | inr apart ↦ apart
      ],
    )
