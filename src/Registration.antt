-- ===== src/Registration.antt =====
-- Assignment_2/Project2/src/server/server.c: what `register_client_handler` does with a message.
pub mod Frame
pub mod Accounts
use advanced_oslab.Prelude.{
  ℕ, ◌+◌, Bool, true, false, not, Option, none, some, ◌==◌, ltb, if◌then◌else◌,
}
use advanced_oslab.Prelude.Arrays.{update}
use advanced_oslab.Prelude.Int.{ℤ, pos, negsuc, ltb_ℤ, ◌+ℤ◌, ◌-ℤ◌}
use advanced_oslab.Prelude.Outcome.{Outcome, ok, spins, exited, ◌>>=◌, deref}
use advanced_oslab.Clients.{
  ClientNode, Server, put_node, append_client_node_to_tail, find_current_client_node,
  remove_client_node,
}

-- `command` with the client's number; `unknown` is any other value of the enumeration.
pub data Message : Type 0 where
  register : ℕ → Message
  unregister : ℕ → Message
  unknown : Message

-- What the outside gives: the node that `malloc` returns and the links in its memory, whether the
-- system calls succeed, and the state when the wait for shared memory ends, if it does.
pub record Calls : Type 0 where
  pub node : Option ℕ
  pub old_next : Option ℕ
  pub old_prev : Option ℕ
  pub succeed : Bool
  pub later : Option Server

-- `new_client_node->client = client;`
abbrev pub store_client : Server → Calls → (client_pid node : ℕ) → Server
store_client s calls client_pid node = record s {
  nodes = put_node s.nodes node (record {
    pid = client_pid;
    is_worker_thread_active = true;
    next = calls.old_next;
    prev = calls.old_prev;
  });
}

-- The queues, the shared memory and the threads are not modelled, but for their failure.
unfoldable pub register_client_to_server : Server → Calls → (rounds client_pid : ℕ) → Outcome Server
register_client_to_server s calls rounds client_pid =
    if calls.succeed
    then (deref calls.node >>= λ node.
        append_client_node_to_tail (store_client s calls client_pid node) rounds node)
    else exited

-- `node->client.is_worker_thread_active = 0;`
abbrev pub stop_workers : Server → ℕ → ClientNode → Server
stop_workers s node n = record s {
  nodes = put_node s.nodes node (record n { is_worker_thread_active = false });
}

-- `num_shared_memory++; ... free(node);`
abbrev pub give_back : Server → ℕ → Server
give_back s node = record s {
  num_shared_memory = s.num_shared_memory +ℤ pos 1;
  nodes = update s.nodes node none;
}

unfoldable pub unregister_client_from_server :
    Server → Calls → (rounds client_pid : ℕ) → Outcome Server
unregister_client_from_server s calls rounds client_pid = do
  found ← find_current_client_node s rounds client_pid
  elim found [
    | none ↦ ok s
    | some node ↦ do
      n ← deref (s.nodes node)
      if calls.succeed
          then (do s' ← remove_client_node (stop_workers s node n) node; ok (give_back s' node))
          else exited
  ]

abbrev pub is_zero : ℤ → Bool
is_zero (pos n) = n == 0
is_zero (negsuc n) = false

-- One message. Without shared memory a client is not registered, but waited for.
unfoldable pub handle : Server → Calls → (rounds : ℕ) → Message → Outcome Server
handle s calls rounds (register client_pid) =
    if ltb_ℤ (pos 0) s.num_shared_memory
    then (register_client_to_server s calls rounds client_pid >>= λ s'.
        ok (record s' { num_shared_memory = s'.num_shared_memory -ℤ pos 1 }))
    else (if is_zero s.num_shared_memory
        then elim calls.later [ none ↦ spins | some s' ↦ ok s' ]
        else ok s)
handle s calls rounds (unregister client_pid) =
    unregister_client_from_server s calls rounds client_pid
handle s calls rounds unknown = ok s
