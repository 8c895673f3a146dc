-- ===== src/Clients/Links.antt =====
-- Assignment_2/Project2/src/server/server.c: the client list as nodes linked in both directions.
use advanced_oslab.Prelude.{
  ℕ, ◌≤◌, ◌≡◌, Option, none, some, List, [], ◌∷◌, count, ◌==◌, arith, inl, inr, Bool-cases, ==_refl,
}
use advanced_oslab.Clients.{ClientNode, Nodes, Server, put_node}

-- From `head` on, behind `prev`, the nodes are those of the list.
abbrev pub Linked : Nodes → (prev head : Option ℕ) → List ℕ → Type 0
Linked nodes prev head [] = head ≡ none
Linked nodes prev head (x ∷ xs) =
    (head ≡ some x)
    × (n : ClientNode) × (nodes x ≡ some n)
    × (n.prev ≡ prev)
    × Linked nodes (some x) n.next xs

-- The server's clients are the nodes of the list, each of them once.
pub record IsList (s : Server) (xs : List ℕ) : Type 0 where
  pub linked : Linked s.nodes none s.client_list_head_node xs
  pub once : (x : ℕ) → count x xs ≤ 1

-- The number of the client in a cell of the memory.
abbrev pub pid_of : Option ClientNode → Option ℕ
pid_of none = none
pid_of (some n) = some n.pid

pub put_node-pid :
    (nodes : Nodes) (x : ℕ) (n n' : ClientNode)
    → nodes x ≡ some n
    → n'.pid ≡ n.pid
    → (z : ℕ) → pid_of (put_node nodes x n' z) ≡ pid_of (nodes z)
put_node-pid nodes x n n' at same z = elim (Bool-cases (x == z)) [
  | inl e ↦ let is : x ≡ z = ground arith in rw (← is, at) (ground (arith, ==_refl x))
  | inr ne ↦ rw (ne)
]
