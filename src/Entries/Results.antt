-- ===== src/Entries/Results.antt =====
-- Assignment_2/Project2/src/client/client.c and server/server.c: what a claim, the end of a request and
-- the wait for it have done, if they return.
use advanced_oslab.Prelude.{ℕ, ◌≡◌, refl, Bool, true, false, Option, none, some, ◌++◌}
use advanced_oslab.Prelude.Arrays.{update}
use advanced_oslab.Prelude.Outcome.{Outcome, ok}
use advanced_oslab.Prelude.Branches.{IfOk, bind-IfOk, if_keeps, if_known, elim_keeps}
use advanced_oslab.Entries.{
  FilePath, Entry, Memory, claim, split, compressed, input_dir, output_dir, fits, finish_entry,
  wait_response_from_server,
}
use advanced_oslab.Prelude.Outcome.{defined}

-- What a claim that returns an entry has done.
abbrev ClaimOk : Memory → ℕ → Option ℕ × Memory → Type 0
ClaimOk memory i (none, memory') = Unit
ClaimOk memory i (some j, memory') =
    (e : Entry) × (memory' ≡ update memory i e)
    × (e.is_used ≡ true)
    × (e.is_done ≡ false)
    × (e.is_locked ≡ false)
    × (j ≡ i)

pub claim-ClaimOk :
    (dir_ready : FilePath → Bool) (memory : Memory) (i : ℕ) (file_path : FilePath)
    → IfOk (ClaimOk memory i) (claim dir_ready memory i file_path)
unfolding claim
claim-ClaimOk dir_ready memory i file_path =
    bind-IfOk (ClaimOk memory i) (defined (fits file_path)) _ (λ _.
      elim_keeps (IfOk (ClaimOk memory i)) (split input_dir file_path) tt (λ (base, file_name).
        if_keeps (IfOk (ClaimOk memory i)) (dir_ready (base ++ output_dir))
          (bind-IfOk (ClaimOk memory i) (defined (fits (compressed base file_name))) _
            (λ _. (_, refl, refl, refl, refl, refl)))
          tt))

pub claim_ok :
    (dir_ready : FilePath → Bool) (memory : Memory) (i j : ℕ) (file_path : FilePath)
    (memory' : Memory)
    → claim dir_ready memory i file_path ≡ ok (some j, memory')
    → (e : Entry) × (memory' ≡ update memory i e)
      × (e.is_used ≡ true)
      × (e.is_done ≡ false)
      × (e.is_locked ≡ false)
      × (j ≡ i)
claim_ok dir_ready memory i j file_path memory' e =
    rw e at (claim-ClaimOk dir_ready memory i file_path)

pub finish-IfOk :
    (memory : Memory) (i : ℕ)
    → IfOk (λ m. m ≡ update memory i (record (memory i) { is_done = true })) (finish_entry memory i)
unfolding finish_entry
finish-IfOk memory i =
    if_keeps (IfOk (λ m. m ≡ update memory i (record (memory i) { is_done = true })))
      (memory i).is_locked tt refl

pub wait-IfOk :
    (memory : Memory) (i : ℕ)
    → IfOk
        (λ m.
          ((memory i).is_done ≡ true)
          × (m ≡ update memory i (record (memory i) { is_used = false; is_done = false })))
        (wait_response_from_server memory i)
unfolding wait_response_from_server
wait-IfOk memory i =
    let P : Outcome Memory → Type 0 = IfOk (λ m.
      ((memory i).is_done ≡ true)
      × (m ≡ update memory i (record (memory i) { is_used = false; is_done = false }))) in
    if_keeps P (memory i).is_locked tt
      (if_known P (memory i).is_done (λ done. (done, refl)) (λ not_done. tt))

pub finish_ok :
    (memory : Memory) (i : ℕ) (memory' : Memory)
    → finish_entry memory i ≡ ok memory'
    → memory' ≡ update memory i (record (memory i) { is_done = true })
finish_ok memory i memory' e = rw e at (finish-IfOk memory i)

pub wait_ok :
    (memory : Memory) (i : ℕ) (memory' : Memory)
    → wait_response_from_server memory i ≡ ok memory'
    → ((memory i).is_done ≡ true)
      × (memory' ≡ update memory i (record (memory i) { is_used = false; is_done = false }))
wait_ok memory i memory' e = rw e at (wait-IfOk memory i)
