-- ===== src/Gtstore/Pairs.antt =====
-- Assignment_4/Project4/gtstore/src/client.cpp: the nodes that a client reads one after the other from the
-- answer of the manager.
use advanced_oslab.Prelude.{
  ℕ, ◌+◌, ◌<◌, ◌≤◌, ◌^◌, ◌≡◌, refl, sym, ap, ◌∙◌, false, List, [], ◌∷◌, ◌++◌, is_nil, append_assoc,
  append_nil, length, length-append, map, arith,
}
use advanced_oslab.Prelude.Int.{pos}
use advanced_oslab.Prelude.Outcome.{ok, ◌>>=◌}
use advanced_oslab.Text.{Bytes, codes, has, same, to_string}
use advanced_oslab.Text.Cut.{before-append, behind-append}
use advanced_oslab.Text.Decimal.{has-to_string, stoi-to_string}
use advanced_oslab.Gtstore.Manager.{node_pairs, dead_pairs}
use advanced_oslab.Gtstore.Client.{Client, set_address, read_pair, read_pairs}
use advanced_oslab.Gtstore.Reports.{AreInts}

-- Addresses that the answer of the manager can carry.
abbrev pub AreAddresses : List Bytes → Type 0
AreAddresses [] = Unit
AreAddresses (a ∷ addresses) =
    (same a (codes "DEAD") ≡ false) × (has 44 a ≡ false) × AreAddresses addresses

pub set_address-end :
    (known : List Bytes) (address : Bytes)
    → set_address known (length known) address ≡ known ++ address ∷ []
unfolding set_address
set_address-end [] address = refl
set_address-end (k ∷ known) address = ap (λ t. k ∷ t) (set_address-end known address)

pub read_pair-node :
    (c : Client) (i : ℕ) (address : Bytes)
    → i < 2 ^ 31
    → same address (codes "DEAD") ≡ false
    → read_pair c (to_string i ++ 58 ∷ address)
      ≡ ok (record c { node_address_map = set_address c.node_address_map i address })
unfolding read_pair
read_pair-node c i address small alive =
    rw
      (
        behind-append 58 (to_string i) address (has-to_string 58 i refl),
        before-append 58 (to_string i) address (has-to_string 58 i refl),
        stoi-to_string i small,
        alive,
        read_pair,
      )
      refl

pub read_pair-dead :
    (c : Client) (i : ℕ)
    → i < 2 ^ 31
    → read_pair c (to_string i ++ codes ":DEAD")
      ≡ ok (record c { dead_node_ids = c.dead_node_ids ++ pos i ∷ [] })
unfolding read_pair same
read_pair-dead c i small =
    rw
      (
        behind-append 58 (to_string i) (codes "DEAD") (has-to_string 58 i refl),
        before-append 58 (to_string i) (codes "DEAD") (has-to_string 58 i refl),
        stoi-to_string i small,
        read_pair,
      )
      refl

pub is_nil-append : (a s : Bytes) → is_nil s ≡ false → is_nil (a ++ s) ≡ false
is_nil-append [] s h = h
is_nil-append (c ∷ a) s h = refl

-- A client with the nodes it knows so far.
abbrev pub knowing : Client → List Bytes → Client
knowing c known = record c { node_address_map = known }

pub read_pairs-nodes :
    (c : Client) (known : List Bytes) (i : ℕ) (addresses ps : List Bytes)
    → length known ≡ i
    → i + length addresses ≤ 2 ^ 31
    → AreAddresses addresses
    → read_pairs (knowing c known) (node_pairs i addresses ++ ps)
      ≡ read_pairs (knowing c (known ++ addresses)) ps
unfolding read_pairs
read_pairs-nodes c known i [] ps here small h =
    ap (λ k. read_pairs (knowing c k) ps) (sym (append_nil known))
read_pairs-nodes c known i (a ∷ addresses) ps here small (alive, comma, rest) =
    let longer : length (known ++ a ∷ []) ≡ i + 1 =
      omega (arith, here, length-append known (a ∷ [])) in
    let next : set_address known i a ≡ known ++ a ∷ [] =
      ap (λ n. set_address known n a) (sym here) ∙ set_address-end known a in
    let first = read_pair-node (knowing c known) i a (omega (arith, small)) alive in
    ap (λ o. o >>= λ c'. read_pairs c' (node_pairs (i + 1) addresses ++ ps))
      (first ∙ ap (λ k. ok (knowing c k)) next)
    ∙ read_pairs-nodes c (known ++ a ∷ []) (i + 1) addresses ps longer (omega (arith, small)) rest
    ∙ ap (λ k. read_pairs (knowing c k) ps) (append_assoc known (a ∷ []) addresses)

pub read_pairs-dead :
    (c : Client) (ns : List ℕ)
    → AreInts ns
    → read_pairs c (dead_pairs ns) ≡ ok (record c { dead_node_ids = c.dead_node_ids ++ map pos ns })
unfolding read_pairs
read_pairs-dead c [] h =
    ap (λ ids. ok (record c { dead_node_ids = ids })) (sym (append_nil c.dead_node_ids))
read_pairs-dead c (n ∷ ns) (small, rest) =
    ap (λ o. o >>= λ c'. read_pairs c' (dead_pairs ns)) (read_pair-dead c n small)
    ∙ read_pairs-dead (record c { dead_node_ids = c.dead_node_ids ++ pos n ∷ [] }) ns rest
    ∙ ap (λ ids. ok (record c { dead_node_ids = ids }))
        (append_assoc c.dead_node_ids (pos n ∷ []) (map pos ns))
