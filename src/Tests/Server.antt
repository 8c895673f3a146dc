-- ===== src/Tests/Server.antt =====
-- The server's clients at work: nodes 4 and 7 are linked, node 9 is fresh.
use advanced_oslab.Prelude.{
  ℕ, ◌+◌, ◌≤◌, ◌<◌, ◌≡◌, refl, Option, none, some, List, [], ◌∷◌, ◌++◌, count, erase, length, Bool,
  true, false, ◌==◌, if◌then◌else◌, arith,
}
use advanced_oslab.Prelude.Int.{pos}
use advanced_oslab.Prelude.Outcome.{ok}
use advanced_oslab.Clients.{ClientNode, Server, append_client_node_to_tail, remove_client_node}
use advanced_oslab.Clients.Links.{IsList, pid_of}
use advanced_oslab.Clients.Append.{append_lem}
use advanced_oslab.Clients.Remove.{remove_client_node_lem}
use advanced_oslab.Registration.{register, unregister, Calls, handle}
use advanced_oslab.Registration.Accounts.{accounts, register_lem, unregister_lem}

abbrev first : ClientNode
first = record { pid = 40; is_worker_thread_active = true; next = some 7; prev = none }

abbrev second : ClientNode
second = record { pid = 70; is_worker_thread_active = true; next = none; prev = some 4 }

abbrev spare : ClientNode
spare = record { pid = 90; is_worker_thread_active = true; next = some 1; prev = some 1 }

abbrev server : Server
server = record {
  client_list_head_node = some 4;
  nodes = λ i.
      if i == 4
      then some first
      else (if i == 7 then some second else (if i == 9 then some spare else none));
  num_shared_memory = pos 2;
}

abbrev clients : List ℕ
clients = 4 ∷ 7 ∷ []

server-IsList : IsList server clients
unfolding advanced_oslab.Prelude.count
server-IsList = record {
  linked = (refl, first, refl, refl, (refl, second, refl, refl, refl));
  once = λ x. ground arith;
}

append_example :
    (s' : Server) × (append_client_node_to_tail server 2 9 ≡ ok s') × IsList s' (4 ∷ 7 ∷ 9 ∷ [])
unfolding advanced_oslab.Prelude.count
append_example =
    let (s', returns, is, pids, num) =
      append_lem server 9 refl 2 clients server-IsList refl (omega arith) in
    (s', returns, is)

remove_example : (s' : Server) × (remove_client_node server 4 ≡ ok s') × IsList s' (7 ∷ [])
unfolding advanced_oslab.Prelude.count advanced_oslab.Prelude.erase
remove_example =
    let (s', returns, is, pids, num) =
      remove_client_node_lem server clients server-IsList 4 (omega arith) refl in
    (s', returns, is)

abbrev calls : Calls
calls = record { node = some 9; old_next = none; old_prev = none; succeed = true; later = none }

register_example :
    (s' : Server) × (handle server calls 3 (register 91) ≡ ok s')
    × (pid_of (s'.nodes 9) ≡ some 91)
    × (accounts s' (4 ∷ 7 ∷ 9 ∷ []) ≡ accounts server clients)
unfolding advanced_oslab.Prelude.count
register_example =
    let (s', returns, is, own, others, sum) =
      register_lem server clients server-IsList calls 3 refl 91 9 refl refl (omega arith) refl in
    (s', returns, own, sum)

unregister_example :
    (s' : Server) × (handle server calls 3 (unregister 40) ≡ ok s')
    × (s'.nodes 4 ≡ none)
    × (accounts s' (7 ∷ []) ≡ accounts server clients)
unfolding advanced_oslab.Prelude.erase
unregister_example =
    let (s', returns, is, gone, others, sum) =
      unregister_lem server clients server-IsList calls 3 refl 40 4 (omega arith) refl in
    (s', returns, gone, sum)
