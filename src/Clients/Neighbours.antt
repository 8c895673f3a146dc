-- ===== src/Clients/Neighbours.antt =====
-- Assignment_2/Project2/src/server/server.c: the links between a node of the client list and its
-- neighbours.
use advanced_oslab.Prelude.{
  ℕ, ◌<◌, ◌≡◌, inl, inr, refl, sym, ap, ◌∙◌, Option, none, some, List, [], ◌∷◌, count, ◌==◌, arith,
  Bool-cases,
}
use advanced_oslab.Clients.{ClientNode, Nodes}
use advanced_oslab.Clients.Links.{Linked}

pub some_injective {ℓ} : {A : Type ℓ} {a b : A} → some a ≡ some b → a ≡ b
some_injective {a} e = ap (λ o. elim o [ none ↦ a | some x ↦ x ]) e

pub cell_of :
    (nodes : Nodes) (prev head : Option ℕ) (xs : List ℕ)
    → Linked nodes prev head xs
    → (z : ℕ) → 0 < count z xs
    → (c : ClientNode) × (nodes z ≡ some c)
unfolding count
cell_of nodes prev head [] linked z member = absurd (omega arith)
cell_of nodes prev head (x ∷ xs) (here, n, at, back, rest) z member = elim (Bool-cases (z == x)) [
  | inl e ↦ let is : x ≡ z = ground arith in (n, ap nodes (sym is) ∙ at)
  | inr ne ↦ cell_of nodes (some x) n.next xs rest z (ground arith)
]

-- The node behind the first one, if there is any, points back at it.
first_back :
    (nodes : Nodes) (x : ℕ) (next : Option ℕ) (xs : List ℕ)
    → Linked nodes (some x) next xs
    → (w : ℕ) → next ≡ some w
    → (d : ClientNode) × (nodes w ≡ some d) × (d.prev ≡ some x)
first_back nodes x next [] linked w e = absurd (ground arith)
first_back nodes x next (y ∷ ys) (here, n, at, back, rest) w e =
    (n, ap nodes (some_injective (sym e ∙ here)) ∙ at, back)

pub next_back :
    (nodes : Nodes) (prev head : Option ℕ) (xs : List ℕ)
    → Linked nodes prev head xs
    → (z w : ℕ) (c : ClientNode) → 0 < count z xs
    → nodes z ≡ some c
    → c.next ≡ some w
    → (d : ClientNode) × (nodes w ≡ some d) × (d.prev ≡ some z)
unfolding count
next_back nodes prev head [] linked z w c member at_z to = absurd (omega arith)
next_back nodes prev head (x ∷ xs) (here, n, at, back, rest) z w c member at_z to =
    elim (Bool-cases (z == x)) [
      | inl e ↦
          let is : z ≡ x = ground arith in
          let same : n ≡ c = some_injective (sym at ∙ ap nodes (sym is) ∙ at_z) in
          let (d, at_w, back_w) =
            first_back nodes x n.next xs rest w (ap (λ m. m.next) same ∙ to) in
          (d, at_w, back_w ∙ ap some (sym is))
      | inr ne ↦ next_back nodes (some x) n.next xs rest z w c (ground arith) at_z to
    ]

pub prev_forth :
    (nodes : Nodes) (prev head : Option ℕ) (xs : List ℕ)
    → Linked nodes prev head xs
    → ((p : ℕ) → prev ≡ some p → (d : ClientNode) × (nodes p ≡ some d) × (d.next ≡ head))
    → (z w : ℕ) (c : ClientNode) → 0 < count z xs
    → nodes z ≡ some c
    → c.prev ≡ some w
    → (d : ClientNode) × (nodes w ≡ some d) × (d.next ≡ some z)
unfolding count
prev_forth nodes prev head [] linked before z w c member at_z to = absurd (omega arith)
prev_forth nodes prev head (x ∷ xs) (here, n, at, back, rest) before z w c member at_z to =
    elim (Bool-cases (z == x)) [
      | inl e ↦
          let is : z ≡ x = ground arith in
          let same : n ≡ c = some_injective (sym at ∙ ap nodes (sym is) ∙ at_z) in
          let (d, at_w, forth) = before w (sym back ∙ ap (λ m. m.prev) same ∙ to) in
          (d, at_w, forth ∙ here ∙ ap some (sym is))
      | inr ne ↦
          prev_forth nodes (some x) n.next xs rest
            (λ p e. (n, ap nodes (sym (some_injective e)) ∙ at, refl)) z w c (ground arith) at_z to
    ]

-- A node without one before it is the first.
pub no_prev-first :
    (nodes : Nodes) (prev head : Option ℕ) (xs : List ℕ)
    → Linked nodes prev head xs
    → (z : ℕ) (c : ClientNode) → 0 < count z xs
    → nodes z ≡ some c
    → c.prev ≡ none
    → (prev ≡ none) × (head ≡ some z)
unfolding count
no_prev-first nodes prev head [] linked z c member at_z to = absurd (omega arith)
no_prev-first nodes prev head (x ∷ xs) (here, n, at, back, rest) z c member at_z to =
    elim (Bool-cases (z == x)) [
      | inl e ↦
          let is : z ≡ x = ground arith in
          let same : n ≡ c = some_injective (sym at ∙ ap nodes (sym is) ∙ at_z) in
          (sym back ∙ ap (λ m. m.prev) same ∙ to, here ∙ ap some (sym is))
      | inr ne ↦
          let (wrong, there) =
            no_prev-first nodes (some x) n.next xs rest z c (ground arith) at_z to in
          absurd (ground arith)
    ]

-- The first node has none before it.
pub first-no_prev :
    (nodes : Nodes) (prev head : Option ℕ) (xs : List ℕ)
    → Linked nodes prev head xs
    → (z : ℕ) (c : ClientNode) → head ≡ some z
    → nodes z ≡ some c
    → c.prev ≡ prev
first-no_prev nodes prev head [] linked z c is_head at_z = absurd (ground arith)
first-no_prev nodes prev head (x ∷ xs) (here, n, at, back, rest) z c is_head at_z =
    ap (λ m. m.prev)
      (some_injective (sym at_z ∙ ap nodes (some_injective (sym is_head ∙ here)) ∙ at))
    ∙ back
