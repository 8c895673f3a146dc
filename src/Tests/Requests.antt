-- ===== src/Tests/Requests.antt =====
-- The requests of a client under way: one request for "./input/a".
use advanced_oslab.Prelude.{
  ℕ, zero, suc, ◌≡◌, ◌<◌, refl, ap, Bool, true, false, some, List, [], ◌∷◌, arith, count, erase,
}
use advanced_oslab.Prelude.Arrays.{update}
use advanced_oslab.Prelude.Outcome.{ok}
use advanced_oslab.Entries.{Entry, Memory, strip, split, claim, claimed, compressed, finish_entry}
use advanced_oslab.Entries.Claim.{IsFirstFree}
use advanced_oslab.Entries.Protocol.{
  State, Reach, here, next, find, send, receive, finish, collect, IsStart, Inv,
}
use advanced_oslab.Entries.Requests.{start-Inv, Reach-Inv}
use advanced_oslab.Entries.Results.{claim_ok}
use advanced_oslab.Entries.Answered.{answered, finish_runs, wait_runs}
use advanced_oslab.Entries.Counts.{count_own}
use advanced_oslab.Entries.Calls.{queued, collected, communicate_file_sync, communicate_file_async}
use advanced_oslab.Entries.Served.{sync_lem}
use advanced_oslab.Entries.Waited.{waited, IsFull, async_lem}
use advanced_oslab.Tests.Memory.{entry, file_path, dir_ready, file_path-IsTarget}

abbrev begun : State
begun = record {
  memory = λ i. entry false;
  claimed_by = [];
  send_q = [];
  working = [];
  waiting = [];
}

-- An entry as a thread leaves it that has found it for `file_path`.
abbrev found : Entry
found = record (claimed (entry false) file_path) {
  compressed_file_path = compressed (46 ∷ []) (97 ∷ []);
  is_locked = false;
}

abbrev sent : State
sent = record begun {
  memory = update begun.memory 1 found;
  claimed_by = [];
  send_q = 1 ∷ [];
  waiting = 1 ∷ [];
}

begun-IsStart : IsStart begun
begun-IsStart = record {
  unused = λ i. refl;
  not_done = λ i. refl;
  unlocked = λ i. refl;
  none_claimed = refl;
  none_sent = refl;
  none_working = refl;
  none_waiting = refl;
}

begun-sent : Reach dir_ready begun sent
unfolding claim split strip count erase
begun-sent =
    next (next here (find 1 file_path (update begun.memory 1 found) refl refl))
      (send 1 (omega arith))

ordered_example : Inv sent
ordered_example = Reach-Inv dir_ready begun sent begun-IsStart begun-sent

answered_example : (u : State) × Reach dir_ready sent u × IsStart u
answered_example = answered dir_ready begun sent begun-IsStart begun-sent

-- The other threads: a worker takes the first message and finishes it.
serve_first : State → (i : ℕ) (send_q : List ℕ) → Bool → State
serve_first s i send_q true = s
serve_first s i send_q false = record s {
  memory = update s.memory i (record (s.memory i) { is_done = true });
  send_q = send_q;
  working = erase i (i ∷ s.working);
}

serve_queue : State → List ℕ → State
unfolding serve_first
serve_queue s [] = s
serve_queue s (i ∷ send_q) = serve_first s i send_q (s.memory i).is_locked

serve : State → State
unfolding serve_queue
serve s = serve_queue s s.send_q

serve_first-Reach :
    (s : State) (i : ℕ) (send_q : List ℕ) (b : Bool)
    → (s.memory i).is_locked ≡ b
    → s.send_q ≡ i ∷ send_q
    → Reach dir_ready s (serve_first s i send_q b)
unfolding serve_first
serve_first-Reach s i send_q true is head = here
serve_first-Reach s i send_q false is head =
    next (next here (receive i send_q head))
      (finish i _ (omega (arith, count_own i s.working)) (finish_runs s.memory i is))

serve_queue-Reach :
    (s : State) (send_q : List ℕ) → s.send_q ≡ send_q → Reach dir_ready s (serve_queue s send_q)
unfolding serve_queue
serve_queue-Reach s [] is = here
serve_queue-Reach s (i ∷ send_q) is = serve_first-Reach s i send_q (s.memory i).is_locked refl is

serve-Reach : (s : State) → Reach dir_ready s (serve s)
unfolding serve
serve-Reach s = serve_queue-Reach s s.send_q refl

begun-IsFirstFree : IsFirstFree begun.memory 0 0
begun-IsFirstFree = record {
  passed_used = λ j a b. absurd (omega arith);
  passed_unlocked = λ j a b. refl;
  free = refl;
  unlocked = refl;
}

begun-served :
    (memory : Memory)
    → claim dir_ready begun.memory 0 file_path ≡ ok (some 0, memory)
    → ((serve (queued begun 0 memory)).memory 0).is_done ≡ true
unfolding serve serve_queue serve_first
begun-served memory claims =
    let (e, is, used, not_done, unlocked, same) =
      claim_ok dir_ready begun.memory 0 0 file_path memory claims in
    let free : (memory 0).is_locked ≡ false = rw is unlocked in rw free

sync_example :
    (t : State) × (communicate_file_sync dir_ready true 2 serve begun file_path ≡ ok t)
    × Reach dir_ready begun t
    × ((t.memory 0).is_used ≡ false)
sync_example =
    sync_lem dir_ready true 2 serve serve-Reach refl begun 0 (start-Inv begun begun-IsStart)
      begun-IsFirstFree (omega arith) file_path (46 ∷ []) (97 ∷ []) file_path-IsTarget begun-served

-- One entry, whose request is done; the other threads collect what is done.
abbrev finished : Entry
finished = record found { is_done = true }

abbrev full : State
full = record begun { memory = update (update begun.memory 0 found) 0 finished; waiting = 0 ∷ [] }

gather_first : State → ℕ → (is_locked is_done : Bool) → State
gather_first s i true b = s
gather_first s i false false = s
gather_first s i false true =
    collected s i (update s.memory i (record (s.memory i) { is_used = false; is_done = false }))

gather_waiting : State → List ℕ → State
unfolding gather_first
gather_waiting s [] = s
gather_waiting s (i ∷ waiting) = gather_first s i (s.memory i).is_locked (s.memory i).is_done

gather : State → State
unfolding gather_waiting
gather s = gather_waiting s s.waiting

gather_first-Reach :
    (s : State) (i : ℕ) (is_locked is_done : Bool)
    → (s.memory i).is_locked ≡ is_locked
    → (s.memory i).is_done ≡ is_done
    → 0 < count i s.waiting
    → Reach dir_ready s (gather_first s i is_locked is_done)
unfolding gather_first
gather_first-Reach s i true b is ready waited = here
gather_first-Reach s i false false is ready waited = here
gather_first-Reach s i false true is ready waited =
    next here (collect i _ waited (wait_runs s.memory i is ready))

gather_waiting-Reach :
    (s : State) (waiting : List ℕ)
    → s.waiting ≡ waiting
    → Reach dir_ready s (gather_waiting s waiting)
unfolding gather_waiting
gather_waiting-Reach s [] is = here
gather_waiting-Reach s (i ∷ waiting) is =
    gather_first-Reach s i (s.memory i).is_locked (s.memory i).is_done refl refl
      (omega (arith, ap (count i) is, count_own i waiting))

gather-Reach : (s : State) → Reach dir_ready s (gather s)
unfolding gather
gather-Reach s = gather_waiting-Reach s s.waiting refl

begun-full : Reach dir_ready begun full
unfolding claim split strip count erase finish_entry
begun-full =
    next
      (next
        (next (next here (find 0 file_path (update begun.memory 0 found) refl refl))
          (send 0 (omega arith)))
        (receive 0 [] refl))
      (finish 0 _ (omega arith) refl)

full_before : (k : ℕ) → k < 1 → IsFull 1 (waited gather k full)
full_before zero h j small = ground arith
full_before (suc k) h j small = absurd (omega arith)

gathered-IsFirstFree : IsFirstFree (waited gather 1 full).memory 0 0
unfolding gather gather_waiting gather_first
gathered-IsFirstFree = record {
  passed_used = λ j a b. absurd (omega arith);
  passed_unlocked = λ j a b. absurd (omega arith);
  free = refl;
  unlocked = refl;
}

async_example :
    (memory : Memory) × (communicate_file_async dir_ready true 1 2 gather full file_path
      ≡ ok (queued (waited gather 1 full) 0 memory, 0))
    × Reach dir_ready full (queued (waited gather 1 full) 0 memory)
async_example =
    async_lem dir_ready true 1 gather gather-Reach file_path (46 ∷ []) (97 ∷ []) file_path-IsTarget
      refl 2 1 0 full (omega arith) (Reach-Inv dir_ready begun full begun-IsStart begun-full)
      full_before gathered-IsFirstFree (omega arith)
