-- ===== src/Clients.antt =====
-- Assignment_2/Project2: include/tinyfile/server.h and src/server/server.c, the server's list of
-- clients and the messages that change it.
pub mod Links
pub mod Append
pub mod Find
pub mod Neighbours
pub mod Erase
pub mod Skip
pub mod Remove
use advanced_oslab.Prelude.{
  ℕ, zero, suc, ◌+◌, Bool, true, false, not, Option, none, some, ◌==◌, if◌then◌else◌,
}
use advanced_oslab.Prelude.Arrays.{update}
use advanced_oslab.Prelude.Int.{ℤ, pos, negsuc, ◌+ℤ◌, ◌-ℤ◌}
use advanced_oslab.Prelude.Outcome.{Outcome, ok, spins, exited, ◌>>=◌, ◌>>◌, deref}

-- `client_node_t`: of the client, its number and whether its workers go on.
pub record ClientNode : Type 0 where
  pub pid : ℕ
  pub is_worker_thread_active : Bool
  pub next : Option ℕ
  pub prev : Option ℕ

-- The memory that holds the nodes: `none` where nothing is allocated.
abbrev pub Nodes : Type 0
Nodes = ℕ → Option ClientNode

pub record Server : Type 0 where
  pub client_list_head_node : Option ℕ
  pub nodes : Nodes
  pub num_shared_memory : ℤ

abbrev pub put_node : Nodes → ℕ → ClientNode → Nodes
put_node nodes x n = update nodes x (some n)

-- `while (tail->next != NULL) tail = tail->next;`, with so many rounds to go: `spins` where there
-- are more.
unfoldable pub last_node : Nodes → (rounds tail : ℕ) → Outcome ℕ
last_node nodes zero tail = spins
last_node nodes (suc rounds) tail =
    deref (nodes tail) >>= λ n. elim n.next [ none ↦ ok tail | some x ↦ last_node nodes rounds x ]

unfoldable pub append_client_node_to_tail : Server → (rounds node : ℕ) → Outcome Server
unfolding last_node
append_client_node_to_tail s rounds node = elim s.client_list_head_node [
  | none ↦ do
    n ← deref (s.nodes node)
    ok (record s {
      client_list_head_node = some node;
      nodes = put_node s.nodes node (record n { next = none; prev = none });
    })
  | some head ↦ do
    tail ← last_node s.nodes rounds head
    t ← deref (s.nodes tail)
    let nodes = put_node s.nodes tail (record t { next = some node })
    n ← deref (nodes node)
    ok (record s { nodes = put_node nodes node (record n { prev = some tail; next = none }) })
]

-- The loop of `find_current_client_node`, with so many rounds to go.
unfoldable pub find_from : Nodes → (rounds client_pid : ℕ) → Option ℕ → Outcome (Option ℕ)
find_from nodes zero client_pid current = spins
find_from nodes (suc rounds) client_pid none = ok none
find_from nodes (suc rounds) client_pid (some current) = deref (nodes current) >>= λ n.
    elim (n.pid == client_pid) [
      | true ↦ ok (some current)
      | false ↦ find_from nodes rounds client_pid n.next
    ]

unfoldable pub find_current_client_node : Server → (rounds client_pid : ℕ) → Outcome (Option ℕ)
unfolding find_from
find_current_client_node s rounds client_pid =
    find_from s.nodes rounds client_pid s.client_list_head_node

-- The first `if` of `remove_client_node`, for the node `n`: what was before it skips it.
unfoldable pub skip_forth : Server → ClientNode → Outcome Server
skip_forth s n = elim n.prev [
  | none ↦ ok (record s { client_list_head_node = n.next })
  | some p ↦ do
    before ← deref (s.nodes p)
    ok (record s { nodes = put_node s.nodes p (record before { next = n.next }) })
]

-- The second one: what was behind it skips it.
unfoldable pub skip_back : Server → ClientNode → Outcome Server
skip_back s n = elim n.next [
  | none ↦ ok s
  | some q ↦ do
    behind ← deref (s.nodes q)
    ok (record s { nodes = put_node s.nodes q (record behind { prev = n.prev }) })
]

unfoldable pub remove_client_node : Server → ℕ → Outcome Server
remove_client_node s node = do
  n ← deref (s.nodes node)
  s1 ← skip_forth s n
  m ← deref (s1.nodes node)
  skip_back s1 m
