-- ===== src/Gtstore/Reports.antt =====
-- Assignment_4/Project4/gtstore/src/manager.cpp and client.cpp: lists in messages, and the report of dead
-- nodes.
use advanced_oslab.Prelude.{
  ℕ, ◌<◌, ◌^◌, ◌≡◌, refl, sym, ap, ◌∙◌, true, false, List, [], ◌∷◌, ◌++◌, is_nil, append_nil,
  length, map, arith, ltb,
}
use advanced_oslab.Prelude.Int.{pos}
use advanced_oslab.Prelude.Outcome.{ok, undefined, ◌>>◌}
use advanced_oslab.Text.{Bytes, codes, has, same, pieces, to_string}
use advanced_oslab.Text.Pieces.{pieces-append, pieces-last}
use advanced_oslab.Text.Decimal.{has-to_string, stoi-to_string, to_string-nonempty}
use advanced_oslab.Entries.{strip}
use advanced_oslab.Gtstore.Manager
use advanced_oslab.Gtstore.Manager.{
  Manager, comma_text, drop_last, parse_ids, is_below, note_dead, init_response,
}
use advanced_oslab.Gtstore.Client.{number_texts, dead_message}

pub drop_last-append :
    (a : Bytes) (c : ℕ) (s : Bytes) → drop_last (a ++ c ∷ s) ≡ a ++ drop_last (c ∷ s)
unfolding drop_last
drop_last-append [] c s = refl
drop_last-append (d ∷ []) c s = refl
drop_last-append (d ∷ e ∷ a) c s = ap (λ t. d ∷ t) (drop_last-append (e ∷ a) c s)

-- Texts that can stand between commas.
abbrev pub AreFields : List Bytes → Type 0
AreFields [] = Unit
AreFields (t ∷ texts) = (is_nil t ≡ false) × (has 44 t ≡ false) × AreFields texts

pieces_single : (t : Bytes) → is_nil t ≡ false → has 44 t ≡ false → pieces 44 t ≡ t ∷ []
pieces_single [] full comma = absurd (cc)
pieces_single (c ∷ t) full comma = pieces-last 44 c t comma

-- A list that is written with commas, without the last of them, is read back.
pub pieces-comma_text :
    (t : Bytes) (texts : List Bytes)
    → AreFields (t ∷ texts)
    → pieces 44 (drop_last (comma_text (t ∷ texts))) ≡ t ∷ texts
unfolding drop_last
pieces-comma_text t [] (full, comma, rest) =
    ap (pieces 44) (drop_last-append t 44 [] ∙ append_nil t) ∙ pieces_single t full comma
pieces-comma_text t (u ∷ texts) (full, comma, rest) =
    let more : drop_last (44 ∷ comma_text (u ∷ texts)) ≡ 44 ∷ drop_last (comma_text (u ∷ texts)) =
      drop_last-append (44 ∷ u) 44 (comma_text texts)
      ∙ ap (λ s. 44 ∷ s) (sym (drop_last-append u 44 (comma_text texts))) in
    ap (pieces 44) (drop_last-append t 44 (comma_text (u ∷ texts)) ∙ ap (λ s. t ++ s) more)
    ∙ pieces-append 44 t (drop_last (comma_text (u ∷ texts))) comma
    ∙ ap (λ ps. t ∷ ps) (pieces-comma_text u texts rest)

number_texts-AreFields : (ns : List ℕ) → AreFields (number_texts ns)
number_texts-AreFields [] = tt
number_texts-AreFields (n ∷ ns) =
    (to_string-nonempty n, has-to_string 44 n refl, number_texts-AreFields ns)

abbrev pub AreInts : List ℕ → Type 0
AreInts [] = Unit
AreInts (n ∷ ns) = (n < 2 ^ 31) × AreInts ns

parse_ids-number_texts : (ns : List ℕ) → AreInts ns → parse_ids (number_texts ns) ≡ ok (map pos ns)
unfolding parse_ids
parse_ids-number_texts [] h = refl
parse_ids-number_texts (n ∷ ns) (small, rest) =
    rw (stoi-to_string n small, parse_ids-number_texts ns rest, parse_ids) refl

-- What the clients report of nodes that the manager knows.
pub serve-dead_message :
    (m : Manager) (n : ℕ) (ns : List ℕ)
    → AreInts (n ∷ ns)
    → Manager.serve_client m (dead_message (n ∷ ns)) ≡ (
        note_dead (length m.node_address_map) (map pos (n ∷ ns))
        >> ok (codes "DEAD_NODES_RECEIVED", m))
unfolding Manager.serve_client dead_message same strip
serve-dead_message m n ns small =
    let parsed =
      ap parse_ids
        (pieces-comma_text (to_string n) (number_texts ns) (number_texts-AreFields (n ∷ ns)))
      ∙ parse_ids-number_texts (n ∷ ns) small in
    rw parsed refl

-- The message by which a client reports dead nodes, the first of them one that the manager knows,
-- makes the manager append to the list that it runs over, which is undefined.
pub report-undefined :
    (m : Manager) (n : ℕ) (ns : List ℕ)
    → AreInts (n ∷ ns)
    → n < length m.node_address_map
    → Manager.serve_client m (dead_message (n ∷ ns)) ≡ undefined
report-undefined m n ns small known =
    let below : ltb n (length m.node_address_map) ≡ true = ground (arith, known) in
    serve-dead_message m n ns small ∙ rw (below, note_dead) refl
