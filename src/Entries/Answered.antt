-- ===== src/Entries/Answered.antt =====
-- Assignment_2/Project2/src/client/client.c and server/server.c: how the requests under way come to an
-- end.
use advanced_oslab.Prelude.{
  ℕ, zero, suc, ◌+◌, ◌*◌, ◌<◌, ◌≡◌, refl, ap, Bool, true, false, List, [], ◌∷◌, ==_refl, count,
  length, arith, List-cases, inl, inr, length-erase, length-append,
}
use advanced_oslab.Prelude.Arrays.{update}
use advanced_oslab.Prelude.Outcome.{ok}
use advanced_oslab.Entries.{FilePath, Memory, finish_entry, wait_response_from_server}
use advanced_oslab.Entries.Protocol.{
  State, Step, send, receive, finish, collect, Reach, here, next, IsStart, bit, Inv,
}
use advanced_oslab.Entries.Requests.{Step-Inv, Reach-Inv}
use advanced_oslab.Entries.Counts.{count_none}

after :
    {dir_ready : FilePath → Bool} {s t u : State}
    → Step dir_ready s t
    → Reach dir_ready t u
    → Reach dir_ready s u
after m here = next here m
after m (next r n) = next (after m r) n

abbrev left_to_do : State → ℕ
left_to_do s = 4 * length s.claimed_by + 2 * length s.send_q + length s.working + length s.waiting

abbrev CanEnd : (dir_ready : FilePath → Bool) → State → Type 0
CanEnd dir_ready s = (u : State) × Reach dir_ready s u × IsStart u

step_on :
    {dir_ready : FilePath → Bool} {s t : State}
    → Step dir_ready s t
    → CanEnd dir_ready t
    → CanEnd dir_ready s
step_on m (u, r, ends) = (u, after m r, ends)

pub finish_runs :
    (memory : Memory) (i : ℕ)
    → (memory i).is_locked ≡ false
    → finish_entry memory i ≡ ok (update memory i (record (memory i) { is_done = true }))
unfolding finish_entry
finish_runs memory i unlocked = ground (arith, unlocked)

pub wait_runs :
    (memory : Memory) (i : ℕ)
    → (memory i).is_locked ≡ false
    → (memory i).is_done ≡ true
    → wait_response_from_server memory i
      ≡ ok (update memory i (record (memory i) { is_used = false; is_done = false }))
unfolding wait_response_from_server
wait_runs memory i unlocked done = ground (arith, unlocked, done)

bit_zero : (b : Bool) → bit b ≡ 0 → b ≡ false
bit_zero true e = absurd (omega (arith, e))
bit_zero false e = refl

bit_one : (b : Bool) → 0 < bit b → b ≡ true
bit_one true e = refl
bit_one false e = absurd (omega (arith, e))

count_head : (i : ℕ) {xs ys : List ℕ} → xs ≡ i ∷ ys → 0 < count i xs
unfolding count
count_head i is = ground (arith, ap (count i) is, ==_refl i)

idle-IsStart :
    (s : State)
    → Inv s
    → s.claimed_by ≡ []
    → s.send_q ≡ []
    → s.working ≡ []
    → s.waiting ≡ []
    → IsStart s
idle-IsStart s inv claimed sent working waiting = record {
  unused = λ j.
      bit_zero (s.memory j).is_used
        (omega (arith, (inv j).one_request, count_none j claimed, count_none j waiting));
  not_done =
      λ j. bit_zero (s.memory j).is_done (omega (arith, (inv j).one_place, count_none j waiting));
  unlocked = λ j. (inv j).unlocked;
  none_claimed = claimed;
  none_sent = sent;
  none_working = working;
  none_waiting = waiting;
}

module _ (dir_ready : FilePath → Bool) where
  abbrev CanEndWithin : ℕ → Type 0
  CanEndWithin n = (s : State) → Inv s → left_to_do s < n → CanEnd dir_ready s

  send_on :
      {n : ℕ}
      → CanEndWithin n
      → (s : State) (i : ℕ) (claimed : List ℕ) → Inv s
      → s.claimed_by ≡ i ∷ claimed
      → left_to_do s < suc n
      → CanEnd dir_ready s
  send_on rest s i claimed inv is bound =
      let held = count_head i is in
      let m = send i held in
      step_on m (
        rest _ (Step-Inv dir_ready s _ m inv)
          (omega (arith, bound, length-erase i s.claimed_by held, length-append s.send_q (i ∷ []))))

  receive_on :
      {n : ℕ}
      → CanEndWithin n
      → (s : State) (i : ℕ) (send_q : List ℕ) → Inv s
      → s.send_q ≡ i ∷ send_q
      → left_to_do s < suc n
      → CanEnd dir_ready s
  receive_on rest s i send_q inv is bound =
      let m = receive i send_q is in
      step_on m (rest _ (Step-Inv dir_ready s _ m inv) (omega (arith, bound, ap length is)))

  finish_on :
      {n : ℕ}
      → CanEndWithin n
      → (s : State) (i : ℕ) (working : List ℕ) → Inv s
      → s.working ≡ i ∷ working
      → left_to_do s < suc n
      → CanEnd dir_ready s
  finish_on rest s i working inv is bound =
      let busy = count_head i is in
      let m = finish i _ busy (finish_runs s.memory i (inv i).unlocked) in
      step_on m (
        rest _ (Step-Inv dir_ready s _ m inv) (omega (arith, bound, length-erase i s.working busy)))

  collect_on :
      {n : ℕ}
      → CanEndWithin n
      → (s : State) (i : ℕ) (waiting : List ℕ) → Inv s
      → s.send_q ≡ []
      → s.working ≡ []
      → s.waiting ≡ i ∷ waiting
      → left_to_do s < suc n
      → CanEnd dir_ready s
  collect_on rest s i waiting inv sent working is bound =
      let waited = count_head i is in
      let done =
        bit_one (s.memory i).is_done
          (omega (arith, (inv i).one_place, count_none i sent, count_none i working, waited)) in
      let m = collect i _ waited (wait_runs s.memory i (inv i).unlocked done) in
      step_on m (
        rest _ (Step-Inv dir_ready s _ m inv)
          (omega (arith, bound, length-erase i s.waiting waited)))

  within : (n : ℕ) → CanEndWithin n
  within zero s inv bound = absurd (omega (arith, bound))
  within (suc n) s inv bound = elim (List-cases s.claimed_by) [
    | inr (i, claimed, is) ↦ send_on (within n) s i claimed inv is bound
    | inl no_claimed ↦ elim (List-cases s.send_q) [
      | inr (i, send_q, is) ↦ receive_on (within n) s i send_q inv is bound
      | inl no_sent ↦ elim (List-cases s.working) [
        | inr (i, working, is) ↦ finish_on (within n) s i working inv is bound
        | inl no_working ↦ elim (List-cases s.waiting) [
          | inr (i, waiting, is) ↦ collect_on (within n) s i waiting inv no_sent no_working is bound
          | inl no_waiting ↦ (s, here, idle-IsStart s inv no_claimed no_sent no_working no_waiting)
        ]
      ]
    ]
  ]

  -- From every such state some further steps lead to one in which no entry is in use and no request
  -- is under way: no request is stuck.
  pub answered :
      (s t : State)
      → IsStart s
      → Reach dir_ready s t
      → (u : State) × Reach dir_ready t u × IsStart u
  answered s t begins r =
      within (suc (left_to_do t)) t (Reach-Inv dir_ready s t begins r) (omega arith)
