-- ===== src/Clients/Append.antt =====
-- Assignment_2/Project2/src/server/server.c: `append_client_node_to_tail` on a linked list.
use advanced_oslab.Prelude.{
  ℕ, zero, suc, ◌≤◌, ◌<◌, ◌≡◌, inl, inr, refl, sym, ap, ◌∙◌, Option, none, some, List, [], ◌∷◌,
  ◌++◌, count, length, false, ◌==◌, arith, Bool-cases, count-append_one, ==_refl,
}
use advanced_oslab.Prelude.Outcome.{ok}
use advanced_oslab.Clients.{
  ClientNode, Nodes, Server, put_node, last_node, append_client_node_to_tail,
}
use advanced_oslab.Clients.Neighbours.{some_injective}
use advanced_oslab.Clients.Links.{Linked, IsList, pid_of, put_node-pid}

abbrev pub last : ℕ → List ℕ → ℕ
last x [] = x
last x (y ∷ ys) = last y ys

last_node_lem :
    (nodes : Nodes) (prev : Option ℕ) (x : ℕ) (xs : List ℕ) (rounds : ℕ)
    → Linked nodes prev (some x) (x ∷ xs)
    → length xs < rounds
    → last_node nodes rounds x ≡ ok (last x xs)
unfolding last_node
last_node_lem nodes prev x xs zero linked enough = absurd (omega arith)
last_node_lem nodes prev x [] (suc rounds) (here, n, at, back, rest) enough = rw (at, rest)
last_node_lem nodes prev x (y ∷ ys) (suc rounds) (here, n, at, back, (next, m, at_y, back_y, rest))
      enough =
    rw (at, next, last_node)
      (last_node_lem nodes (some x) y ys rounds (refl, m, at_y, back_y, rest) (omega arith))

-- The cells after the call, as far as the list goes.
record Appended (nodes nodes' : Nodes) (tail node : ℕ) : Type 0 where
  pub at_tail :
      (t : ClientNode) → nodes tail ≡ some t → nodes' tail ≡ some (record t { next = some node })
  pub new : ClientNode
  pub at_node : nodes' node ≡ some new
  pub new_prev : new.prev ≡ some tail
  pub new_next : new.next ≡ none
  pub same : (x : ℕ) → (tail == x) ≡ false → (node == x) ≡ false → nodes' x ≡ nodes x

last-count : (x : ℕ) (xs : List ℕ) → 0 < count (last x xs) (x ∷ xs)
unfolding count
last-count x [] = ground arith
last-count x (y ∷ ys) = ground (arith, last-count y ys)

Linked-append :
    {nodes nodes' : Nodes} {node : ℕ} (prev : Option ℕ) (x : ℕ) (xs : List ℕ)
    → Appended nodes nodes' (last x xs) node
    → Linked nodes prev (some x) (x ∷ xs)
    → ((z : ℕ) → count z (x ∷ xs) ≤ 1)
    → count node (x ∷ xs) ≡ 0
    → Linked nodes' prev (some x) (x ∷ xs ++ node ∷ [])
unfolding count
Linked-append {node} prev x [] app (here, n, at, back, rest) once fresh = (
  refl,
  record n { next = some node },
  app.at_tail n at,
  back,
  (refl, app.new, app.at_node, app.new_prev, app.new_next),
)
Linked-append {nodes} {nodes'} {node} prev x (y ∷ ys) app
      (here, n, at, back, (next, m, at_y, back_y, rest)) once fresh =
    let not_last : (last y ys == x) ≡ false = ground (arith, last-count y ys, once x) in
    let not_node : (node == x) ≡ false = ground arith in
    (
      refl,
      n,
      app.same x not_last not_node ∙ at,
      back,
      rw (next) (
          Linked-append (some x) y ys app (refl, m, at_y, back_y, rest)
            (λ z. ground (arith, once z)) (ground arith)),
    )

allocated_tail :
    (nodes : Nodes) (prev : Option ℕ) (x : ℕ) (xs : List ℕ)
    → Linked nodes prev (some x) (x ∷ xs)
    → (t : ClientNode) × (nodes (last x xs) ≡ some t)
allocated_tail nodes prev x [] (here, n, at, back, rest) = (n, at)
allocated_tail nodes prev x (y ∷ ys) (here, n, at, back, (next, m, at_y, back_y, rest)) =
    allocated_tail nodes (some x) y ys (refl, m, at_y, back_y, rest)

apart_of : (x y : ℕ) (xs : List ℕ) → 0 < count x xs → count y xs ≡ 0 → (x == y) ≡ false
apart_of x y xs here gone = elim (Bool-cases (x == y)) [
  | inl e ↦ let is : x ≡ y = ground arith in absurd (omega (arith, ap (λ z. count z xs) is))
  | inr ne ↦ ne
]

append_once :
    (xs : List ℕ) (node : ℕ)
    → ((x : ℕ) → count x xs ≤ 1)
    → count node xs ≡ 0
    → (x : ℕ) → count x (xs ++ node ∷ []) ≤ 1
append_once xs node once fresh x = ground (arith, count-append_one x node xs, once x)

module _ (s : Server) (node : ℕ) {n : ClientNode} (at_node : s.nodes node ≡ some n) where
  -- `append_client_node_to_tail`, of an allocated node that is not in the client list, with as many
  -- rounds as the list is long, returns: the list has the node at its end and is linked in both
  -- directions, and the clients in the nodes and the count of shared memories are kept.
  pub append_lem :
      (rounds : ℕ) (xs : List ℕ)
      → IsList s xs
      → count node xs ≡ 0
      → length xs ≤ rounds
      → (s' : Server) × (append_client_node_to_tail s rounds node ≡ ok s')
        × IsList s' (xs ++ node ∷ [])
        × ((z : ℕ) → pid_of (s'.nodes z) ≡ pid_of (s.nodes z))
        × (s'.num_shared_memory ≡ s.num_shared_memory)
  unfolding append_client_node_to_tail
  append_lem rounds [] is fresh enough = (
    record s {
      client_list_head_node = some node;
      nodes = put_node s.nodes node (record n { next = none; prev = none });
    },
    rw (is.linked, at_node),
    record {
      linked =
          (refl, record n { next = none; prev = none }, ground (arith, ==_refl node), refl, refl);
      once = append_once [] node is.once fresh;
    },
    put_node-pid s.nodes node n _ at_node refl,
    refl,
  )
  append_lem rounds (x ∷ xs) is fresh enough =
      let (is_head, m, at_x, back, rest) = is.linked in
      let linked : Linked s.nodes none (some x) (x ∷ xs) = (refl, m, at_x, back, rest) in
      let (t, at_tail) = allocated_tail s.nodes none x xs linked in
      let apart : (last x xs == node) ≡ false =
        apart_of (last x xs) node (x ∷ xs) (last-count x xs) fresh in
      let apart' : (node == last x xs) ≡ false = ground arith in
      let nodes1 = put_node s.nodes (last x xs) (record t { next = some node }) in
      let at1 : nodes1 node ≡ some n = rw (apart) at_node in
      let nodes2 = put_node nodes1 node (record n { prev = some (last x xs); next = none }) in
      let app : Appended s.nodes nodes2 (last x xs) node = record {
        at_tail = λ t' at'. rw (some_injective (sym at' ∙ at_tail), apart', ==_refl (last x xs));
        new = record n { prev = some (last x xs); next = none };
        at_node = ground (arith, ==_refl node);
        new_prev = refl;
        new_next = refl;
        same = λ z not_tail not_node. rw (not_node, not_tail);
      } in
      (
        record s { nodes = nodes2 },
        rw (is_head, last_node_lem s.nodes none x xs rounds linked (omega arith), at_tail, at1),
        record {
          linked = rw (is_head) (Linked-append none x xs app linked is.once fresh);
          once = append_once (x ∷ xs) node is.once fresh;
        },
        λ z.
            put_node-pid nodes1 node n _ at1 refl z
            ∙ put_node-pid s.nodes (last x xs) t _ at_tail refl z,
        refl,
      )
