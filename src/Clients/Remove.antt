-- ===== src/Clients/Remove.antt =====
-- Assignment_2/Project2/src/server/server.c: `remove_client_node` on a linked list.
use advanced_oslab.Prelude.{
  ℕ, ◌<◌, ◌≡◌, inl, inr, refl, sym, ap, ◌∙◌, Option, none, some, List, count, erase, true, false,
  ◌==◌, if◌then◌else◌, arith, Bool-cases, Option-cases, ==_refl, count-erase-le,
}
use advanced_oslab.Prelude.Outcome.{ok}
use advanced_oslab.Clients.{ClientNode, Server, remove_client_node}
use advanced_oslab.Clients.Links.{IsList, pid_of}
use advanced_oslab.Clients.Neighbours.{
  some_injective, next_back, prev_forth, no_prev-first, first-no_prev,
}
use advanced_oslab.Clients.Erase.{redirect, Relinked, Linked-erase}
use advanced_oslab.Clients.Skip.{points, set_next, set_prev, skip_forth_lem, skip_back_lem}

points-true : (o : Option ℕ) (z : ℕ) → points o z ≡ true → o ≡ some z
points-true none z e = absurd (ground arith)
points-true (some p) z e = ap some (ground arith)

points_self : (o : Option ℕ) (z : ℕ) → o ≡ some z → points o z ≡ true
points_self o z e = rw (e) (==_refl z)

-- A pointer to the node, on either side, where both sides agree.
redirect-points :
    (node z : ℕ) (from to other : Option ℕ)
    → (points other z ≡ true → from ≡ some node)
    → (from ≡ some node → other ≡ some z)
    → redirect node to from ≡ (if points other z then to else from)
redirect-points node z from to other forth back = elim (Bool-cases (points other z)) [
  | inl e ↦ rw (e, forth e, ==_refl node)
  | inr ne ↦ elim (Option-cases from) [
    | inl is ↦ rw (ne, is)
    | inr (w, is) ↦
        let apart : (node == w) ≡ false = elim (Bool-cases (node == w)) [
          | inl same ↦
              let to_node : from ≡ some node = is ∙ ap some (ground arith) in
              absurd (ground (arith, points_self other z (back to_node)))
          | inr apart ↦ apart
        ] in
        rw (ne, is, apart)
  ]
]

module _ (s : Server) (xs : List ℕ) (is : IsList s xs) (node : ℕ) (member : 0 < count node xs)
    {n : ClientNode} (at_node : s.nodes node ≡ some n) where
  before :
      (p : ℕ)
      → none ≡ some p
      → (d : ClientNode) × (s.nodes p ≡ some d) × (d.next ≡ s.client_list_head_node)
  before p e = absurd (ground arith)

  forth : (p : ℕ) → n.prev ≡ some p → (d : ClientNode) × (s.nodes p ≡ some d) × (d.next ≡ some node)
  forth p e =
      prev_forth s.nodes none s.client_list_head_node xs is.linked before node p n member at_node e

  back : (q : ℕ) → n.next ≡ some q → (d : ClientNode) × (s.nodes q ≡ some d) × (d.prev ≡ some node)
  back q e = next_back s.nodes none s.client_list_head_node xs is.linked node q n member at_node e

  next_redirected :
      (z : ℕ) (c : ClientNode)
      → 0 < count z xs
      → s.nodes z ≡ some c
      → redirect node n.next c.next ≡ (if points n.prev z then n.next else c.next)
  next_redirected z c here at =
      redirect-points node z c.next n.next n.prev
        (λ e.
          let (d, at_d, to) = forth z (points-true n.prev z e) in
          ap (λ m. m.next) (some_injective (sym at ∙ at_d)) ∙ to)
        (λ e.
          let (d, at_d, to) =
            next_back s.nodes none s.client_list_head_node xs is.linked z node c here at e in
          ap (λ m. m.prev) (some_injective (sym at_node ∙ at_d)) ∙ to)

  prev_redirected :
      (z : ℕ) (c : ClientNode)
      → 0 < count z xs
      → s.nodes z ≡ some c
      → redirect node n.prev c.prev ≡ (if points n.next z then n.prev else c.prev)
  prev_redirected z c here at =
      redirect-points node z c.prev n.prev n.next
        (λ e.
          let (d, at_d, to) = back z (points-true n.next z e) in
          ap (λ m. m.prev) (some_injective (sym at ∙ at_d)) ∙ to)
        (λ e.
          let (d, at_d, to) =
            prev_forth s.nodes none s.client_list_head_node xs is.linked before z node c here at
              e in
          ap (λ m. m.next) (some_injective (sym at_node ∙ at_d)) ∙ to)

  set_both :
      (z : ℕ) (c : ClientNode)
      → set_prev n z (set_next n z c) ≡ record c {
        next = if points n.prev z then n.next else c.next;
        prev = if points n.next z then n.prev else c.prev;
      }
  set_both z c = elim (Bool-cases (points n.prev z)) [
    | inl e ↦ elim (Bool-cases (points n.next z)) [ inl f ↦ rw (e, f) | inr f ↦ rw (e, f) ]
    | inr e ↦ elim (Bool-cases (points n.next z)) [ inl f ↦ rw (e, f) | inr f ↦ rw (e, f) ]
  ]

  own_next : set_next n node n ≡ n
  own_next = elim (Bool-cases (points n.prev node)) [ inl e ↦ rw (e) | inr e ↦ rw (e) ]

  head_redirected :
      (s' : Server)
      → (n.prev ≡ none → s'.client_list_head_node ≡ n.next)
      → ((p : ℕ) → n.prev ≡ some p → s'.client_list_head_node ≡ s.client_list_head_node)
      → redirect node n.next s.client_list_head_node ≡ s'.client_list_head_node
  head_redirected s' first later = elim (Option-cases n.prev) [
    | inl e ↦
        let (outside, is_head) =
          no_prev-first s.nodes none s.client_list_head_node xs is.linked node n member at_node e in
        rw (is_head, ==_refl node) (sym (first e))
    | inr (p, e) ↦ elim (Option-cases s.client_list_head_node) [
      | inl gone ↦ rw (later p e, gone)
      | inr (x, is_head) ↦ elim (Bool-cases (node == x)) [
        | inl same ↦
            let own_head : s.client_list_head_node ≡ some node =
              is_head ∙ ap some (sym (ground arith)) in
            let none_before =
              first-no_prev s.nodes none s.client_list_head_node xs is.linked node n own_head
                at_node in
            absurd (ground arith)
        | inr ne ↦ rw (later p e, is_head, ne)
      ]
    ]
  ]

  -- `remove_client_node`, of a node of the client list, returns: the list loses the node and is
  -- linked in both directions as before, and the clients in the nodes and the count of shared
  -- memories are kept.
  pub remove_client_node_lem :
      (s' : Server) × (remove_client_node s node ≡ ok s')
      × IsList s' (erase node xs)
      × ((z : ℕ) → pid_of (s'.nodes z) ≡ pid_of (s.nodes z))
      × (s'.num_shared_memory ≡ s.num_shared_memory)
  unfolding remove_client_node
  remove_client_node_lem =
      let (s1, run1, sk1, first, later) =
        skip_forth_lem s n (λ p e. let (d, at_d, to) = forth p e in (d, at_d)) in
      let at1 : s1.nodes node ≡ some n = sk1.cells node n at_node ∙ ap some own_next in
      let (s2, run2, sk2, head2) =
        skip_back_lem s1 n
          (λ q e. let (d, at_d, to) = back q e in (set_next n q d, sk1.cells q d at_d)) in
      let relinked : Relinked s.nodes s2.nodes node n xs = λ z c here ne at.
        sk2.cells z (set_next n z c) (sk1.cells z c at)
        ∙ ap some (
            set_both z c ∙ λ i. record c {
              next = sym (next_redirected z c here at) i;
              prev = sym (prev_redirected z c here at) i;
            }) in
      let linked =
        Linked-erase s.nodes s2.nodes node n none s.client_list_head_node xs at_node relinked
          is.linked is.once (λ pos. refl) in
      (
        s2,
        rw (at_node, run1, at1, run2),
        record {
          linked = rw (head2, ← head_redirected s1 first later) linked;
          once = λ z. omega (arith, count-erase-le z node xs, is.once z);
        },
        λ z. sk2.pids z ∙ sk1.pids z,
        sk2.same_num ∙ sk1.same_num,
      )
