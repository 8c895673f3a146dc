-- ===== src/Registration/Frame.antt =====
-- Assignment_2/Project2/src/server/server.c: writes to the nodes that do not touch their links.
use advanced_oslab.Prelude.{
  ℕ, ◌<◌, ◌≡◌, inl, inr, refl, sym, ap, ◌∙◌, Option, some, List, [], ◌∷◌, count, ◌==◌, arith,
  Bool-cases,
}
use advanced_oslab.Prelude.Arrays.{update}
use advanced_oslab.Clients.{ClientNode, Nodes}
use advanced_oslab.Clients.Neighbours.{some_injective}
use advanced_oslab.Clients.Links.{Linked}

-- The same links in each cell of the list.
abbrev pub SameLinks : Nodes → Nodes → List ℕ → Type 0
SameLinks nodes nodes' xs =
    (z : ℕ) (c : ClientNode)
    → 0 < count z xs
    → nodes z ≡ some c
    → (d : ClientNode) × (nodes' z ≡ some d) × (d.next ≡ c.next) × (d.prev ≡ c.prev)

pub Linked-same :
    (nodes nodes' : Nodes) (prev head : Option ℕ) (xs : List ℕ)
    → SameLinks nodes nodes' xs
    → Linked nodes prev head xs
    → Linked nodes' prev head xs
unfolding count
Linked-same nodes nodes' prev head [] same linked = linked
Linked-same nodes nodes' prev head (x ∷ xs) same (here, n, at, back, rest) =
    let (d, at_d, next, prev_d) = same x n (ground arith) at in
    (
      here,
      d,
      at_d,
      prev_d ∙ back,
      rw (next) (
          Linked-same nodes nodes' (some x) n.next xs (λ z c pos at'. same z c (ground arith) at')
            rest),
    )

-- A cell outside the list is written.
pub update-SameLinks :
    (nodes : Nodes) (node : ℕ) (v : Option ClientNode) (xs : List ℕ)
    → count node xs ≡ 0
    → SameLinks nodes (update nodes node v) xs
update-SameLinks nodes node v xs fresh z c here at = elim (Bool-cases (node == z)) [
  | inl e ↦ let is : node ≡ z = ground arith in absurd (omega (arith, ap (λ y. count y xs) is))
  | inr ne ↦ (c, rw (ne) at, refl, refl)
]

-- A cell is written with its links kept.
pub rewrite-SameLinks :
    (nodes : Nodes) (node : ℕ) (n m : ClientNode) (xs : List ℕ)
    → nodes node ≡ some n
    → m.next ≡ n.next
    → m.prev ≡ n.prev
    → SameLinks nodes (update nodes node (some m)) xs
rewrite-SameLinks nodes node n m xs at_node next prev z c here at = elim (Bool-cases (node == z)) [
  | inl e ↦
      let is : node ≡ z = ground arith in
      let same : n ≡ c = some_injective (sym at_node ∙ ap nodes is ∙ at) in
      (m, rw (e), next ∙ ap (λ k. k.next) same, prev ∙ ap (λ k. k.prev) same)
  | inr ne ↦ (c, rw (ne) at, refl, refl)
]
