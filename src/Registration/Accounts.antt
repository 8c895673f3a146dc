-- ===== src/Registration/Accounts.antt =====
-- Assignment_2/Project2/src/server/server.c: registration and its end, and the accounts of shared
-- memory.
use advanced_oslab.Prelude.{
  ℕ, ◌+◌, ◌≤◌, ◌<◌, ◌≡◌, refl, ap, ◌∙◌, none, some, List, [], ◌∷◌, ◌++◌, count, erase, length,
  length-append, length-erase, count-erase_self, true, false, ◌==◌, arith, ==_refl,
}
use advanced_oslab.Prelude.Int.{ℤ, pos, ltb_ℤ, ◌+ℤ◌, ◌-ℤ◌, int_laws, eq_of_parts}
use advanced_oslab.Prelude.Outcome.{ok}
use advanced_oslab.Clients.{Server}
use advanced_oslab.Clients.Links.{IsList, pid_of}
use advanced_oslab.Clients.Append.{append_lem}
use advanced_oslab.Clients.Find.{first_with, first_with-member, find_current_client_node_lem}
use advanced_oslab.Clients.Neighbours.{cell_of}
use advanced_oslab.Clients.Remove.{remove_client_node_lem}
use advanced_oslab.Registration.{
  register, unregister, Calls, store_client, register_client_to_server, stop_workers, give_back,
  unregister_client_from_server, handle,
}
use advanced_oslab.Registration.Frame.{Linked-same, update-SameLinks, rewrite-SameLinks}

-- The shared memories that are free or in use by a registered client.
abbrev pub accounts : Server → List ℕ → ℤ
accounts s xs = s.num_shared_memory +ℤ pos (length xs)

less_one-more : (b : ℤ) (k l : ℕ) → l ≡ k + 1 → b -ℤ pos 1 +ℤ pos l ≡ b +ℤ pos k
less_one-more b k l e = eq_of_parts _ _ (omega int_laws)

one_more-less : (b : ℤ) (k l : ℕ) → l + 1 ≡ k → b +ℤ pos 1 +ℤ pos l ≡ b +ℤ pos k
one_more-less b k l e = eq_of_parts _ _ (omega int_laws)

accounts-register :
    (a b : ℤ) (xs : List ℕ) (node : ℕ)
    → a ≡ b
    → a -ℤ pos 1 +ℤ pos (length (xs ++ node ∷ [])) ≡ b +ℤ pos (length xs)
accounts-register a b xs node same =
    ap (λ k. k -ℤ pos 1 +ℤ pos (length (xs ++ node ∷ []))) same
    ∙ less_one-more b (length xs) (length (xs ++ node ∷ [])) (length-append xs (node ∷ []))

accounts-unregister :
    (a b : ℤ) (xs : List ℕ) (node : ℕ)
    → 0 < count node xs
    → a ≡ b
    → a +ℤ pos 1 +ℤ pos (length (erase node xs)) ≡ b +ℤ pos (length xs)
accounts-unregister a b xs node member same =
    ap (λ k. k +ℤ pos 1 +ℤ pos (length (erase node xs))) same
    ∙ one_more-less b (length xs) (length (erase node xs)) (length-erase node xs member)

module _ (s : Server) (xs : List ℕ) (is : IsList s xs) (calls : Calls) (rounds : ℕ)
    (succeed : calls.succeed ≡ true) where
  -- A REGISTER message, with shared memory left, a fresh node from `malloc`, system calls that
  -- succeed and enough rounds for the list, is handled: the client stands at the end of the list
  -- under its number, the other nodes keep their clients, and the free shared memories and the
  -- clients add up to what they did.
  pub register_lem :
      (client_pid node : ℕ)
      → calls.node ≡ some node
      → count node xs ≡ 0
      → length xs ≤ rounds
      → ltb_ℤ (pos 0) s.num_shared_memory ≡ true
      → (s' : Server) × (handle s calls rounds (register client_pid) ≡ ok s')
        × IsList s' (xs ++ node ∷ [])
        × (pid_of (s'.nodes node) ≡ some client_pid)
        × ((z : ℕ) → (node == z) ≡ false → pid_of (s'.nodes z) ≡ pid_of (s.nodes z))
        × (accounts s' (xs ++ node ∷ []) ≡ accounts s xs)
  unfolding handle register_client_to_server
  register_lem client_pid node malloc fresh enough free =
      let s0 = store_client s calls client_pid node in
      let is0 : IsList s0 xs = record {
        linked =
            Linked-same s.nodes s0.nodes none s.client_list_head_node xs
              (update-SameLinks s.nodes node _ xs fresh) is.linked;
        once = is.once;
      } in
      let at0 : s0.nodes node
          ≡ some (record {
            pid = client_pid;
            is_worker_thread_active = true;
            next = calls.old_next;
            prev = calls.old_prev;
          }) =
        rw (==_refl node) in
      let (s1, run, is1, pids, num) = append_lem s0 node at0 rounds xs is0 fresh enough in
      (
        record s1 { num_shared_memory = s1.num_shared_memory -ℤ pos 1 },
        rw (free, succeed, malloc, run),
        record { linked = is1.linked; once = is1.once },
        pids node ∙ ap pid_of at0,
        λ z ne. pids z ∙ rw (ne),
        accounts-register s1.num_shared_memory s.num_shared_memory xs node num,
      )

  -- An UNREGISTER message of a registered client, with system calls that succeed and more rounds
  -- than the list is long, is handled: the first node with its number is out of the list and freed,
  -- the other nodes keep their clients, and the free shared memories and the clients add up to what
  -- they did.
  pub unregister_lem :
      (client_pid node : ℕ)
      → length xs < rounds
      → first_with s.nodes client_pid xs ≡ some node
      → (s' : Server) × (handle s calls rounds (unregister client_pid) ≡ ok s')
        × IsList s' (erase node xs)
        × (s'.nodes node ≡ none)
        × ((z : ℕ) → (node == z) ≡ false → pid_of (s'.nodes z) ≡ pid_of (s.nodes z))
        × (accounts s' (erase node xs) ≡ accounts s xs)
  unfolding handle unregister_client_from_server
  unregister_lem client_pid node enough found =
      let member = first_with-member s.nodes client_pid xs node found in
      let (n, at) = cell_of s.nodes none s.client_list_head_node xs is.linked node member in
      let s0 = stop_workers s node n in
      let is0 : IsList s0 xs = record {
        linked =
            Linked-same s.nodes s0.nodes none s.client_list_head_node xs
              (rewrite-SameLinks s.nodes node n _ xs at refl refl) is.linked;
        once = is.once;
      } in
      let at0 : s0.nodes node ≡ some (record n { is_worker_thread_active = false }) =
        rw (==_refl node) in
      let (s1, run, is1, pids, num) = remove_client_node_lem s0 xs is0 node member at0 in
      let gone : count node (erase node xs) ≡ 0 =
        omega (arith, count-erase_self node xs member, is.once node) in
      (
        give_back s1 node,
        rw (find_current_client_node_lem s xs rounds client_pid is enough, found, at, succeed, run),
        record {
          linked =
              Linked-same s1.nodes (give_back s1 node).nodes none s1.client_list_head_node
                (erase node xs) (update-SameLinks s1.nodes node none (erase node xs) gone)
                is1.linked;
          once = is1.once;
        },
        rw (==_refl node),
        λ z ne. rw (ne) (pids z ∙ rw (ne)),
        accounts-unregister s1.num_shared_memory s.num_shared_memory xs node member num,
      )
