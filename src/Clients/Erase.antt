-- ===== src/Clients/Erase.antt =====
-- Assignment_2/Project2/src/server/server.c: pointers to a node that is removed, and the list
-- without it.
use advanced_oslab.Prelude.{
  ℕ, ◌≤◌, ◌<◌, ◌≡◌, inl, inr, refl, sym, ap, ◌∙◌, Option, none, some, List, [], ◌∷◌, count, erase,
  true, false, ◌==◌, if◌then◌else◌, arith, Bool-cases,
}
use mathlib.Core.Path.{subst}
use advanced_oslab.Clients.{ClientNode, Nodes}
use advanced_oslab.Clients.Neighbours.{some_injective}
use advanced_oslab.Clients.Links.{Linked}

-- A pointer, redirected if it is to the node.
abbrev pub redirect : ℕ → Option ℕ → Option ℕ → Option ℕ
redirect node to none = none
redirect node to (some x) = if node == x then to else some x

-- The cells after the call: pointers to the node go to its own neighbours.
abbrev pub Relinked : Nodes → Nodes → ℕ → ClientNode → List ℕ → Type 0
Relinked nodes nodes' node n xs =
    (z : ℕ) (c : ClientNode)
    → 0 < count z xs
    → (node == z) ≡ false
    → nodes z ≡ some c
    → nodes' z
      ≡ some (record c { next = redirect node n.next c.next; prev = redirect node n.prev c.prev })

erase_gone : (node : ℕ) (xs : List ℕ) → count node xs ≡ 0 → erase node xs ≡ xs
unfolding erase count
erase_gone node [] gone = refl
erase_gone node (x ∷ xs) gone = ground (arith, erase_gone node xs)

Linked-redirect :
    (nodes : Nodes) (node : ℕ) (prev head : Option ℕ) (xs : List ℕ)
    → Linked nodes prev head xs
    → count node xs ≡ 0
    → (to : Option ℕ) → redirect node to head ≡ head
unfolding count
Linked-redirect nodes node prev head [] linked gone to = rw (linked)
Linked-redirect nodes node prev head (x ∷ xs) (here, n, at, back, rest) gone to =
    let ne : (node == x) ≡ false = ground arith in rw (here, ne)

Linked-eq :
    (nodes : Nodes) {prev prev' head head' : Option ℕ} {xs xs' : List ℕ}
    → prev ≡ prev'
    → head ≡ head'
    → xs ≡ xs'
    → Linked nodes prev head xs
    → Linked nodes prev' head' xs'
Linked-eq nodes {prev} {prev'} {head} {head'} {xs} {xs'} p h l linked =
    subst (λ ys. Linked nodes prev' head' ys) l
      (subst (λ k. Linked nodes prev' k xs) h (subst (λ k. Linked nodes k head xs) p linked))

erase_self : (node : ℕ) (x : ℕ) (xs : List ℕ) → (node == x) ≡ true → erase node (x ∷ xs) ≡ xs
unfolding erase
erase_self node x xs e = rw (e)

erase-other :
    (node : ℕ) (x : ℕ) (xs : List ℕ) → (node == x) ≡ false → erase node (x ∷ xs) ≡ x ∷ erase node xs
unfolding erase
erase-other node x xs ne = rw (ne)

redirect_self : (node x : ℕ) (to : Option ℕ) → (node == x) ≡ true → redirect node to (some x) ≡ to
redirect_self node x to e = rw (e)

redirect-other :
    (node x : ℕ) (to : Option ℕ) → (node == x) ≡ false → redirect node to (some x) ≡ some x
redirect-other node x to ne = rw (ne)

pub Linked-erase :
    (nodes nodes' : Nodes) (node : ℕ) (n : ClientNode) (prev head : Option ℕ) (xs : List ℕ)
    → nodes node ≡ some n
    → Relinked nodes nodes' node n xs
    → Linked nodes prev head xs
    → ((z : ℕ) → count z xs ≤ 1)
    → (0 < count node xs → redirect node n.prev prev ≡ prev)
    → Linked nodes' (redirect node n.prev prev) (redirect node n.next head) (erase node xs)
unfolding count erase
Linked-erase nodes nodes' node n prev head [] at_node re linked once outside = rw (linked)
Linked-erase nodes nodes' node n prev head (x ∷ xs) at_node re (here, c, at, back, rest) once
      outside =
    elim (Bool-cases (node == x)) [
      | inl e ↦
          let is : node ≡ x = ground arith in
          let same : c ≡ n = some_injective (sym at ∙ ap nodes (sym is) ∙ at_node) in
          let gone : count node xs ≡ 0 = ground (arith, once node) in
          let tail =
            Linked-erase nodes nodes' node n (some x) c.next xs at_node
              (λ z d pos ne at'. re z d (ground arith) ne at') rest (λ z. ground (arith, once z))
              (λ pos. absurd (omega arith)) in
          Linked-eq nodes'
            (redirect_self node x n.prev e
              ∙ ap (λ m. m.prev) (sym same)
              ∙ back
              ∙ sym (outside (ground arith)))
            (Linked-redirect nodes node (some x) c.next xs rest gone n.next
              ∙ ap (λ m. m.next) same
              ∙ sym (ap (redirect node n.next) here ∙ redirect_self node x n.next e))
            (erase_gone node xs gone ∙ sym (erase_self node x xs e)) tail
      | inr ne ↦
          let tail =
            Linked-erase nodes nodes' node n (some x) c.next xs at_node
              (λ z d pos ne' at'. re z d (ground arith) ne' at') rest (λ z. ground (arith, once z))
              (λ pos. redirect-other node x n.prev ne) in
          let tail' : Linked nodes' (some x) (redirect node n.next c.next) (erase node xs) =
            Linked-eq nodes' (redirect-other node x n.prev ne) refl refl tail in
          Linked-eq nodes' refl refl (sym (erase-other node x xs ne)) (
            ap (redirect node n.next) here ∙ redirect-other node x n.next ne,
            record c { next = redirect node n.next c.next; prev = redirect node n.prev c.prev },
            re x c (ground arith) ne at,
            ap (redirect node n.prev) back,
            tail',
          )
    ]
