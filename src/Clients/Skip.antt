-- ===== src/Clients/Skip.antt =====
-- Assignment_2/Project2/src/server/server.c: the two steps of `remove_client_node`, cell by cell.
use advanced_oslab.Prelude.{
  ℕ, ◌≡◌, inl, inr, refl, sym, ap, ◌∙◌, Option, none, some, Bool, false, ◌==◌, if◌then◌else◌, arith,
  Bool-cases, Option-cases,
}
use advanced_oslab.Prelude.Outcome.{ok}
use advanced_oslab.Clients.{ClientNode, Nodes, Server, put_node, skip_forth, skip_back}
use advanced_oslab.Clients.Links.{pid_of, put_node-pid}
use advanced_oslab.Clients.Neighbours.{some_injective}

-- Whether a pointer is to this node.
abbrev pub points : Option ℕ → ℕ → Bool
points none z = false
points (some p) z = p == z

put_node-at :
    (nodes : Nodes) (p : ℕ) (b : ClientNode) (f : ClientNode → ClientNode)
    → nodes p ≡ some b
    → (z : ℕ) (c : ClientNode) → nodes z ≡ some c
    → put_node nodes p (f b) z ≡ some (if p == z then f c else c)
put_node-at nodes p b f at z c at_z = elim (Bool-cases (p == z)) [
  | inl e ↦
      let is : p ≡ z = ground arith in
      rw (e) (ap (λ m. some (f m)) (some_injective (sym at ∙ ap nodes is ∙ at_z)))
  | inr ne ↦ rw (ne) at_z
]

-- What one of the two steps does to the cells.
pub record Skipped (s s' : Server) (f : ℕ → ClientNode → ClientNode) : Type 0 where
  pub cells : (z : ℕ) (c : ClientNode) → s.nodes z ≡ some c → s'.nodes z ≡ some (f z c)
  pub pids : (z : ℕ) → pid_of (s'.nodes z) ≡ pid_of (s.nodes z)
  pub same_num : s'.num_shared_memory ≡ s.num_shared_memory

abbrev pub set_next : ClientNode → ℕ → ClientNode → ClientNode
set_next n z c = if points n.prev z then record c { next = n.next } else c

abbrev pub set_prev : ClientNode → ℕ → ClientNode → ClientNode
set_prev n z c = if points n.next z then record c { prev = n.prev } else c

pub skip_forth_lem :
    (s : Server) (n : ClientNode)
    → ((p : ℕ) → n.prev ≡ some p → (b : ClientNode) × (s.nodes p ≡ some b))
    → (s' : Server) × (skip_forth s n ≡ ok s')
      × Skipped s s' (set_next n)
      × ((n.prev ≡ none) → s'.client_list_head_node ≡ n.next)
      × ((p : ℕ) → n.prev ≡ some p → s'.client_list_head_node ≡ s.client_list_head_node)
unfolding skip_forth
skip_forth_lem s n known = elim (Option-cases n.prev) [
  | inl e ↦ (
    record s { client_list_head_node = n.next },
    rw (e),
    record { cells = λ z c at. rw (e) at; pids = λ z. refl; same_num = refl },
    λ e'. refl,
    λ p e'. absurd (ground arith),
  )
  | inr (p, e) ↦
      let (b, at_p) = known p e in
      (
        record s { nodes = put_node s.nodes p (record b { next = n.next }) },
        rw (e, at_p),
        record {
          cells = λ z c at.
              rw (e) (put_node-at s.nodes p b (λ m. record m { next = n.next }) at_p z c at);
          pids = put_node-pid s.nodes p b _ at_p refl;
          same_num = refl;
        },
        λ e'. absurd (ground arith),
        λ q e'. refl,
      )
]

pub skip_back_lem :
    (s : Server) (n : ClientNode)
    → ((q : ℕ) → n.next ≡ some q → (b : ClientNode) × (s.nodes q ≡ some b))
    → (s' : Server) × (skip_back s n ≡ ok s')
      × Skipped s s' (set_prev n)
      × (s'.client_list_head_node ≡ s.client_list_head_node)
unfolding skip_back
skip_back_lem s n known = elim (Option-cases n.next) [
  | inl e ↦
      (s, rw (e), record { cells = λ z c at. rw (e) at; pids = λ z. refl; same_num = refl }, refl)
  | inr (q, e) ↦
      let (b, at_q) = known q e in
      (
        record s { nodes = put_node s.nodes q (record b { prev = n.prev }) },
        rw (e, at_q),
        record {
          cells = λ z c at.
              rw (e) (put_node-at s.nodes q b (λ m. record m { prev = n.prev }) at_q z c at);
          pids = put_node-pid s.nodes q b _ at_q refl;
          same_num = refl;
        },
        refl,
      )
]
