-- ===== src/Entries/Served.antt =====
-- Assignment_2/Project2/src/client/client.c: the calls of the client as runs of the step relation.
use advanced_oslab.Prelude.{
  ℕ, zero, suc, ◌+◌, ◌<◌, ◌≡◌, refl, ap, ◌∙◌, Bool, true, false, Option, none, some, ◌∷◌, ==_refl,
  count, arith, Bool-cases, inl, inr,
}
use advanced_oslab.Prelude.Outcome.{Outcome, ok, aborted, undefined, spins, exited, ◌>>=◌}
use advanced_oslab.Prelude.Branches.{IfOk, bind-IfOk_from, itself-IfOk, elim_known, or_exit-IfOk}
use mathlib.Core.Path.{subst}
use advanced_oslab.Entries.{
  FilePath, Memory, claim, find_and_set_shared_memory_entry_index, wait_response_from_server,
}
use advanced_oslab.Entries.Claim.{IsFirstFree, IsTarget, find_and_set_lem}
use advanced_oslab.Entries.Answered.{wait_runs}
use advanced_oslab.Entries.Protocol.{State, find, send, collect, Reach, here, next, bit, Inv}
use advanced_oslab.Entries.Requests.{Step-Inv}
use advanced_oslab.Entries.Results.{claim_ok, wait_ok}
use advanced_oslab.Entries.Counts.{count_own, erase_own}
use advanced_oslab.Entries.Calls.{queued, collected, communicate_file_sync}

-- An entry that `find_and_set_shared_memory_entry_index` returns was free, and is claimed.
abbrev pub Claimed : (dir_ready : FilePath → Bool) → Memory → FilePath → ℕ → Memory → Type 0
Claimed dir_ready memory file_path i memory' =
    ((memory i).is_used ≡ false) × (claim dir_ready memory i file_path ≡ ok (some i, memory'))

abbrev pub FindOk : (dir_ready : FilePath → Bool) → Memory → FilePath → Option ℕ × Memory → Type 0
FindOk dir_ready memory file_path (none, memory') = Unit
FindOk dir_ready memory file_path (some i, memory') = Claimed dir_ready memory file_path i memory'

module _ (dir_ready : FilePath → Bool) where
  claim-FindOk :
      (memory : Memory) (i : ℕ) (file_path : FilePath) (r : Outcome (Option ℕ × Memory))
      → (memory i).is_used ≡ false
      → claim dir_ready memory i file_path ≡ r
      → IfOk (FindOk dir_ready memory file_path) r
  claim-FindOk memory i file_path (ok (none, memory')) free e = tt
  claim-FindOk memory i file_path (ok (some j, memory')) free e =
      let (_, _, _, _, _, same) = claim_ok dir_ready memory i j file_path memory' e in
      (
        ap (λ k. (memory k).is_used) same ∙ free,
        ap (λ k. claim dir_ready memory k file_path) same ∙ e,
      )
  claim-FindOk memory i file_path aborted free e = tt
  claim-FindOk memory i file_path undefined free e = tt
  claim-FindOk memory i file_path spins free e = tt
  claim-FindOk memory i file_path exited free e = tt

  pub find-FindOk :
      (memory : Memory) (entries i : ℕ) (file_path : FilePath)
      → IfOk
          (FindOk dir_ready memory file_path)
          (find_and_set_shared_memory_entry_index dir_ready memory entries i file_path)
  unfolding find_and_set_shared_memory_entry_index
  find-FindOk memory zero i file_path = tt
  find-FindOk memory (suc entries) i file_path = elim (Bool-cases (memory i).is_locked) [
    | inl locked ↦ rw (find_and_set_shared_memory_entry_index, locked) tt
    | inr unlocked ↦ elim (Bool-cases (memory i).is_used) [
      | inl used ↦
          rw (find_and_set_shared_memory_entry_index, unlocked, used)
            (find-FindOk memory entries (i + 1) file_path)
      | inr free ↦
          rw (find_and_set_shared_memory_entry_index, unlocked, free)
            (claim-FindOk memory i file_path _ free refl)
    ]
  ]

  pub queued-Reach :
      (s : State) (i : ℕ) (memory : Memory) (file_path : FilePath)
      → Claimed dir_ready s.memory file_path i memory
      → Reach dir_ready s (queued s i memory)
  queued-Reach s i memory file_path (free, claims) =
      subst (λ claimed. Reach dir_ready s (record (queued s i memory) { claimed_by = claimed }))
        (erase_own i s.claimed_by)
        (next (next here (find i file_path memory free claims)) (send i held))
    where
      held : 0 < count i (i ∷ s.claimed_by)
      held = omega (arith, count_own i s.claimed_by)

  pub join : {s t u : State} → Reach dir_ready s t → Reach dir_ready t u → Reach dir_ready s u
  join r here = r
  join r (next q m) = next (join r q) m

  pub Reach-keeps : {s t : State} → Inv s → Reach dir_ready s t → Inv t
  Reach-keeps inv here = inv
  Reach-keeps inv (next {t = u} r m) = Step-Inv dir_ready u _ m (Reach-keeps inv r)

  collected-Reach :
      (s : State) (i : ℕ) (memory : Memory)
      → Inv s
      → wait_response_from_server s.memory i ≡ ok memory
      → Reach dir_ready s (collected s i memory)
  collected-Reach s i memory inv collects =
      let (done, _) = wait_ok s.memory i memory collects in
      next here (collect i memory (omega (arith, (inv i).one_place, ap bit done)) collects)

  module _ (sends : Bool) (entries : ℕ) (meanwhile : State → State)
      (others : (t : State) → Reach dir_ready t (meanwhile t)) where
    Runs : State → State → Type 0
    Runs s t = Inv s → Reach dir_ready s t

    served-Runs :
        (s : State) (i : ℕ) (memory : Memory) (file_path : FilePath)
        → Claimed dir_ready s.memory file_path i memory
        → IfOk (Runs s) (
            wait_response_from_server (meanwhile (queued s i memory)).memory i >>= λ m.
            ok (collected (meanwhile (queued s i memory)) i m))
    unfolding Runs
    served-Runs s i memory file_path claims =
        let sent = queued-Reach s i memory file_path claims in
        let later = meanwhile (queued s i memory) in
        bind-IfOk_from (Runs s) (λ m. wait_response_from_server later.memory i ≡ ok m)
          (wait_response_from_server later.memory i) _
          (itself-IfOk (wait_response_from_server later.memory i))
          (λ m waits inv.
            let r = join sent (others (queued s i memory)) in
            join r (collected-Reach later i m (Reach-keeps inv r) waits))

    sync-Runs :
        (s : State) (file_path : FilePath)
        → IfOk (Runs s) (communicate_file_sync dir_ready sends entries meanwhile s file_path)
    unfolding communicate_file_sync
    sync-Runs s file_path =
        bind-IfOk_from (Runs s) (FindOk dir_ready s.memory file_path)
          (find_and_set_shared_memory_entry_index dir_ready s.memory entries 0 file_path) _
          (find-FindOk s.memory entries 0 file_path)
          (λ (index, memory) known.
            elim_known (IfOk (Runs s)) (λ o. FindOk dir_ready s.memory file_path (o, memory)) index
              known tt
              (λ i claims.
                or_exit-IfOk (Runs s) sends _ _ (served-Runs s i memory file_path claims)))

    sync-Reach :
        (s t : State) (file_path : FilePath)
        → Inv s
        → communicate_file_sync dir_ready sends entries meanwhile s file_path ≡ ok t
        → Reach dir_ready s t
    unfolding Runs
    sync-Reach s t file_path inv e = (rw e at (sync-Runs s file_path)) inv

    sync_runs :
        (s : State) (i : ℕ) (memory memory' : Memory) (file_path : FilePath)
        → sends ≡ true
        → find_and_set_shared_memory_entry_index dir_ready s.memory entries 0 file_path
          ≡ ok (some i, memory)
        → wait_response_from_server (meanwhile (queued s i memory)).memory i ≡ ok memory'
        → communicate_file_sync dir_ready sends entries meanwhile s file_path
          ≡ ok (collected (meanwhile (queued s i memory)) i memory')
    unfolding communicate_file_sync
    sync_runs s i memory memory' file_path sent finds waits =
        rw (communicate_file_sync, finds, sent, waits)

    -- In a state with the invariant of the protocol, which every reachable state has: if entry `i`
    -- is the first that is free, the path fits, its directory is there or can be made, the message
    -- can be sent, and the other threads, who take steps of the protocol only, bring the entry to
    -- done, `communicate_file_sync` returns: its accesses and theirs are a run of the protocol, and
    -- the entry is not in use in the end.
    pub sync_lem :
        sends ≡ true
        → (s : State) (i : ℕ) → Inv s
        → IsFirstFree s.memory 0 i
        → i < entries
        → (file_path base file_name : FilePath) → IsTarget dir_ready file_path base file_name
        → ((memory : Memory)
            → claim dir_ready s.memory i file_path ≡ ok (some i, memory)
            → ((meanwhile (queued s i memory)).memory i).is_done ≡ true)
        → (t : State) × (communicate_file_sync dir_ready sends entries meanwhile s file_path ≡ ok t)
          × Reach dir_ready s t
          × ((t.memory i).is_used ≡ false)
    sync_lem sent s i inv first small file_path base file_name target served =
        let (memory, finds, _, _) =
          find_and_set_lem dir_ready s.memory entries i first small file_path base file_name
            target in
        let (free, claims) : Claimed dir_ready s.memory file_path i memory =
          rw finds at (find-FindOk s.memory entries 0 file_path) in
        let later = meanwhile (queued s i memory) in
        let r =
          join (queued-Reach s i memory file_path (free, claims)) (others (queued s i memory)) in
        let waits =
          wait_runs later.memory i (Reach-keeps inv r i).unlocked (served memory claims) in
        let returns = sync_runs s i memory _ file_path sent finds waits in
        (_, returns, sync-Reach s _ file_path inv returns, rw (==_refl i))
