-- ===== src/Gtstore/Ring.antt =====
-- Assignment_4/Project4/gtstore/src/manager.cpp and client.cpp: the replicas of a node, and the nodes
-- that a client asks one after the other.
use native.Mathlib.Nat.{mod-add-mod, mod-lt, add-mod_left, mod-eq_of_lt, mod-eq-sub-mod}
use advanced_oslab.Prelude.{
  ℕ, zero, suc, ◌+◌, ◌-◌, ◌%◌, ◌≤◌, ◌<◌, ◌≡◌, refl, sym, ap, ◌∙◌, false, Option, none, some, List,
  [], ◌∷◌, ◌++◌, ◌==◌, count, length, arith, Bool-cases, Option-cases, inl, inr, ltb, ◌⊎◌, ltb,
}
use advanced_oslab.Text.{Bytes}
use advanced_oslab.Gtstore.Manager.{replica_indices}
use advanced_oslab.Gtstore.Client.{attempts}

-- The answer of the first node of a list that has one, and the nodes before it.
abbrev pub first_answer :
    (answers : ℕ → Option Bytes) → List ℕ → (dead : List ℕ) → Option Bytes × List ℕ
first_answer answers [] dead = (none, dead)
first_answer answers (i ∷ nodes) dead = elim (answers i) [
  | some answer ↦ (some answer, dead)
  | none ↦ first_answer answers nodes (dead ++ i ∷ [])
]

pub first_here :
    (answers : ℕ → Option Bytes) (i : ℕ) (nodes : List ℕ) (dead : List ℕ) (answer : Bytes)
    → answers i ≡ some answer
    → first_answer answers (i ∷ nodes) dead ≡ (some answer, dead)
first_here answers i nodes dead answer e = rw (e, first_answer) refl

pub first_next :
    (answers : ℕ → Option Bytes) (i : ℕ) (nodes : List ℕ) (dead : List ℕ)
    → answers i ≡ none
    → first_answer answers (i ∷ nodes) dead ≡ first_answer answers nodes (dead ++ i ∷ [])
first_next answers i nodes dead e = rw (e, first_answer) refl

next_mod :
    (size i j : ℕ) → 0 < size → ((size + i + j) % size + 1) % size ≡ (size + i + (j + 1)) % size
next_mod size i j h = mod-add-mod (size + i + j) size 1 ∙ ap (λ n. n % size) (omega arith)

start_mod : (size i : ℕ) → i < size → (size + i + 0) % size ≡ i
start_mod size i h = grind arith

attempts_from :
    (size i : ℕ) (answers : ℕ → Option Bytes) (rounds j : ℕ) (dead : List ℕ)
    → 0 < size
    → attempts size answers rounds ((size + i + j) % size) dead
      ≡ first_answer answers (replica_indices size i rounds j) dead
unfolding attempts replica_indices
attempts_from size i answers zero j dead h = refl
attempts_from size i answers (suc rounds) j dead h =
    let node_id = (size + i + j) % size in
    elim (Option-cases (answers node_id)) [
      | inl none_yet ↦
          rw (none_yet, next_mod size i j h, attempts)
            (attempts_from size i answers rounds (j + 1) (dead ++ node_id ∷ []) h)
      | inr (answer, found) ↦ rw (found, attempts) refl
    ]

-- The attempts of a client, as many as there are copies, starting at a node, go to that node and to
-- its replicas in the order of the list that the manager makes for it: the result is the answer of
-- the first of them that has one, with the nodes before it as dead, or no answer and all of them as
-- dead.
pub attempts_lem :
    (size i : ℕ) (answers : ℕ → Option Bytes) (num_rep : ℕ)
    → i < size
    → attempts size answers (suc num_rep) i []
      ≡ first_answer answers (i ∷ replica_indices size i num_rep 1) []
unfolding replica_indices
attempts_lem size i answers num_rep h =
    ap (λ n. attempts size answers (suc num_rep) n []) (sym (start_mod size i h))
    ∙ attempts_from size i answers (suc num_rep) 0 [] (omega (arith, h))
    ∙ ap (λ n. first_answer answers (n ∷ replica_indices size i num_rep 1) []) (start_mod size i h)

-- A step round the ring, before and behind its end.
ring_cases :
    (size i k : ℕ)
    → i < size
    → k < size
    → ((i + k < size) × ((size + i + k) % size ≡ i + k))
      ⊎ ((size ≤ i + k) × ((size + i + k) % size + size ≡ i + k))
ring_cases size i k h l = elim (Bool-cases (ltb (i + k) size)) [
  | inl before ↦
      let small : i + k < size = ground (arith, before) in
      let wrapped : (size + i + k) % size ≡ i + k =
        ap (λ n. n % size) (omega arith) ∙ add-mod_left size (i + k) ∙ mod-eq_of_lt small in
      inl (small, wrapped)
  | inr behind ↦
      let large : size ≤ i + k = ground (arith, behind) in
      let rest : i + k - size < size = omega (arith, h, l) in
      let once : (size + i + k) % size ≡ (i + k) % size =
        ap (λ n. n % size) (omega arith) ∙ add-mod_left size (i + k) in
      let wrapped : (size + i + k) % size ≡ i + k - size =
        once ∙ mod-eq-sub-mod large ∙ mod-eq_of_lt rest in
      inr (large, omega (arith, wrapped, large))
]

ring_apart :
    (size i k j : ℕ)
    → i < size
    → k < j
    → j < size
    → ((size + i + k) % size == (size + i + j) % size) ≡ false
ring_apart size i k j h l m = elim (ring_cases size i k h (omega arith)) [
  | inl (a, b) ↦ elim (ring_cases size i j h m) [
    | inl (c, d) ↦ ground (arith, b, d)
    | inr (c, d) ↦ ground (arith, b, d)
  ]
  | inr (a, b) ↦ elim (ring_cases size i j h m) [
    | inl (c, d) ↦ ground (arith, b, d)
    | inr (c, d) ↦ ground (arith, b, d)
  ]
]

count-behind :
    (size i k rounds j : ℕ)
    → i < size
    → k < j
    → j + rounds ≤ size
    → count ((size + i + k) % size) (replica_indices size i rounds j) ≡ 0
unfolding count replica_indices
count-behind size i k zero j h l m = refl
count-behind size i k (suc rounds) j h l m =
    let apart = ring_apart size i k j h l (omega arith) in
    let rest = count-behind size i k rounds (j + 1) h (omega arith) (omega arith) in
    ground (arith, apart, rest)

count-le_one :
    (x size i rounds j : ℕ)
    → i < size
    → j + rounds ≤ size
    → count x (replica_indices size i rounds j) ≤ 1
unfolding count replica_indices
count-le_one x size i zero j h m = omega arith
count-le_one x size i (suc rounds) j h m =
    let rest = count-le_one x size i rounds (j + 1) h (omega arith) in
    elim (Bool-cases (x == (size + i + j) % size)) [
      | inl equal ↦
          let is : x ≡ (size + i + j) % size = ground (arith, equal) in
          let none_behind = count-behind size i j rounds (j + 1) h (omega arith) (omega arith) in
          ground (arith, is, none_behind)
      | inr apart ↦ ground (arith, apart, rest)
    ]

count-large :
    (x size i rounds j : ℕ) → 0 < size → size ≤ x → count x (replica_indices size i rounds j) ≡ 0
unfolding count replica_indices
count-large x size i zero j h l = refl
count-large x size i (suc rounds) j h l =
    let below = mod-lt (size + i + j) h in
    let rest = count-large x size i rounds (j + 1) h l in ground (arith, below, rest)

length-replica_indices : (size i rounds j : ℕ) → length (replica_indices size i rounds j) ≡ rounds
unfolding replica_indices
length-replica_indices size i zero j = refl
length-replica_indices size i (suc rounds) j =
    omega (arith, length-replica_indices size i rounds (j + 1))

-- If there are at least as many nodes as copies, and at least one copy, a node has one replica less
-- than copies: they are numbers of nodes, none is the node itself, and none occurs twice.
pub replica_indices_lem :
    (size i num_rep : ℕ)
    → i < size
    → 0 < num_rep
    → num_rep ≤ size
    → (length (replica_indices size i (num_rep - 1) 1) ≡ num_rep - 1)
      × (count i (replica_indices size i (num_rep - 1) 1) ≡ 0)
      × ((x : ℕ) → count x (replica_indices size i (num_rep - 1) 1) ≤ 1)
      × ((x : ℕ) → size ≤ x → count x (replica_indices size i (num_rep - 1) 1) ≡ 0)
replica_indices_lem size i num_rep h positive enough = (
  length-replica_indices size i (num_rep - 1) 1,
  ap (λ n. count n (replica_indices size i (num_rep - 1) 1)) (sym (start_mod size i h))
      ∙ count-behind size i 0 (num_rep - 1) 1 h (omega arith) (omega arith),
  λ x. count-le_one x size i (num_rep - 1) 1 h (omega arith),
  λ x large. count-large x size i (num_rep - 1) 1 (omega arith) large,
)
