-- ===== src/Clients/Find.antt =====
-- Assignment_2/Project2/src/server/server.c: `find_current_client_node` on a linked list.
use advanced_oslab.Prelude.{
  ℕ, zero, suc, ◌<◌, ◌≡◌, inl, inr, Option, none, some, List, [], ◌∷◌, length, Bool, true, false,
  ◌==◌, if◌then◌else◌, arith, Bool-cases, count, sym, ap, ◌∙◌,
}
use advanced_oslab.Prelude.Outcome.{Outcome, ok}
use advanced_oslab.Clients.{ClientNode, Nodes, Server, find_from, find_current_client_node}
use advanced_oslab.Clients.Neighbours.{some_injective}
use advanced_oslab.Clients.Links.{Linked, IsList}

abbrev pub has_pid : ℕ → Option ClientNode → Bool
has_pid client_pid none = false
has_pid client_pid (some n) = n.pid == client_pid

-- The first node of the list whose client has the number.
abbrev pub first_with : Nodes → ℕ → List ℕ → Option ℕ
first_with nodes client_pid [] = none
first_with nodes client_pid (x ∷ xs) =
    if has_pid client_pid (nodes x) then some x else first_with nodes client_pid xs

find_step :
    (nodes : Nodes) (client_pid x : ℕ) (n : ClientNode) (xs : List ℕ) (rounds : ℕ)
    → find_from nodes rounds client_pid n.next ≡ ok (first_with nodes client_pid xs)
    → (elim (n.pid == client_pid) as (λ b. Outcome (Option ℕ)) [
      | true ↦ ok (some x)
      | false ↦ find_from nodes rounds client_pid n.next
    ])
      ≡ ok (if n.pid == client_pid then some x else first_with nodes client_pid xs)
find_step nodes client_pid x n xs rounds rest = elim (Bool-cases (n.pid == client_pid)) [
  | inl e ↦ rw (e)
  | inr ne ↦ rw (ne) rest
]

find_from_lem :
    (nodes : Nodes) (client_pid : ℕ) (prev head : Option ℕ) (xs : List ℕ) (rounds : ℕ)
    → Linked nodes prev head xs
    → length xs < rounds
    → find_from nodes rounds client_pid head ≡ ok (first_with nodes client_pid xs)
unfolding find_from
find_from_lem nodes client_pid prev head xs zero linked enough = absurd (omega arith)
find_from_lem nodes client_pid prev head [] (suc rounds) linked enough = rw (linked)
find_from_lem nodes client_pid prev head (x ∷ xs) (suc rounds) (here, n, at, back, rest) enough =
    rw (here, at)
      (find_step nodes client_pid x n xs rounds
        (find_from_lem nodes client_pid (some x) n.next xs rounds rest (omega arith)))

-- With more rounds than the client list is long, the loop of `find_current_client_node` ends, with
-- the first node of the list whose client has the number, or NULL if there is none.
pub find_current_client_node_lem :
    (s : Server) (xs : List ℕ) (rounds client_pid : ℕ)
    → IsList s xs
    → length xs < rounds
    → find_current_client_node s rounds client_pid ≡ ok (first_with s.nodes client_pid xs)
unfolding find_current_client_node
find_current_client_node_lem s xs rounds client_pid is enough =
    find_from_lem s.nodes client_pid none s.client_list_head_node xs rounds is.linked enough

pub first_with-member :
    (nodes : Nodes) (client_pid : ℕ) (xs : List ℕ) (x : ℕ)
    → first_with nodes client_pid xs ≡ some x
    → 0 < count x xs
unfolding count
first_with-member nodes client_pid [] x e = absurd (ground arith)
first_with-member nodes client_pid (y ∷ ys) x e = elim (Bool-cases (has_pid client_pid (nodes y))) [
  | inl h ↦
      let is : y ≡ x =
        some_injective
          (sym (ap (λ b. if b then some y else first_with nodes client_pid ys) h) ∙ e) in
      ground arith
  | inr h ↦
      let later : first_with nodes client_pid ys ≡ some x =
        sym (ap (λ b. if b then some y else first_with nodes client_pid ys) h) ∙ e in
      ground (arith, first_with-member nodes client_pid ys x later)
]
