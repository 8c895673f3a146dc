-- ===== src/Entries/Requests.antt =====
-- Assignment_2/Project2/src/client/client.c and server/server.c: where the requests of a client stand in
-- the states that its threads and workers reach.
use advanced_oslab.Prelude.{
  ℕ, ◌+◌, ◌<◌, ◌≡◌, refl, sym, ap, ◌∙◌, Bool, true, false, List, [], ◌∷◌, ◌++◌, count, erase, arith,
  count-erase_self,
}
use advanced_oslab.Prelude.Arrays.{update}
use advanced_oslab.Entries.{FilePath, Entry}
use advanced_oslab.Entries.Protocol.{
  State, Step, find, send, receive, finish, collect, Reach, here, next, IsStart, bit, IsOrdered,
  Inv,
}
use mathlib.Core.Path.{subst}
use advanced_oslab.Entries.Results.{claim_ok, finish_ok, wait_ok}
use advanced_oslab.Entries.Counts.{
  update_at, at_all, count_cons, count_own, count_last, count_last_own, count_erase, bit-le,
  count-cons_both, count_none,
}

-- What is known of an entry stays true when only the lists change, and the counts in step.
counts_changed :
    {e : Entry} {c q w t c' q' w' t' : ℕ}
    → IsOrdered e c q w t
    → c' + t' ≡ c + t
    → q' + w' + t ≡ q + w + t'
    → IsOrdered e c' q' w' t'
counts_changed h a b = record {
  unlocked = h.unlocked;
  one_request = omega (arith, h.one_request, a);
  one_place = omega (arith, h.one_place, b);
}

module _ (s : State) (inv : Inv s) where
  find-Inv :
      (i : ℕ) (e : Entry)
      → (s.memory i).is_used ≡ false
      → e.is_used ≡ true
      → e.is_done ≡ false
      → e.is_locked ≡ false
      → Inv (record s { memory = update s.memory i e; claimed_by = i ∷ s.claimed_by })
  find-Inv i e free used not_done unlocked =
      let own = inv i in
      let none : count i s.claimed_by + count i s.waiting ≡ 0 = own.one_request ∙ ap bit free in
      update_at
        (λ j x.
          IsOrdered x (count j (i ∷ s.claimed_by)) (count j s.send_q) (count j s.working)
            (count j s.waiting))
        s.memory i e
        (record {
          unlocked = unlocked;
          one_request = omega (arith, none, count_own i s.claimed_by) ∙ ap bit (sym used);
          one_place =
              ap (λ b. count i s.send_q + count i s.working + bit b) not_done
              ∙ omega (arith, none, own.one_place);
        })
        (λ j apart. counts_changed (inv j) (omega (arith, count_cons i j s.claimed_by apart)) refl)

  send-Inv :
      (i : ℕ)
      → 0 < count i s.claimed_by
      → Inv (record s {
        claimed_by = erase i s.claimed_by;
        send_q = s.send_q ++ i ∷ [];
        waiting = i ∷ s.waiting;
      })
  send-Inv i held =
      at_all
        (λ j.
          IsOrdered (s.memory j) (count j (erase i s.claimed_by)) (count j (s.send_q ++ i ∷ []))
            (count j s.working) (count j (i ∷ s.waiting)))
        i
        (counts_changed (inv i)
          (omega (arith, count_own i s.waiting, count-erase_self i s.claimed_by held))
          (omega (arith, count_own i s.waiting, count_last_own i s.send_q)))
        (λ j apart.
          counts_changed (inv j)
            (omega (arith, count_erase i j s.claimed_by apart, count_cons i j s.waiting apart))
            (omega (arith, count_last i j s.send_q apart, count_cons i j s.waiting apart)))

  receive-Inv :
      (i : ℕ) (send_q : List ℕ)
      → s.send_q ≡ i ∷ send_q
      → Inv (record s { send_q = send_q; working = i ∷ s.working })
  receive-Inv i send_q head j =
      counts_changed (inv j) refl
        (omega (arith, ap (count j) head, count-cons_both i j send_q s.working))

  finish-Inv :
      (i : ℕ)
      → 0 < count i s.working
      → Inv (record s {
        memory = update s.memory i (record (s.memory i) { is_done = true });
        working = erase i s.working;
      })
  finish-Inv i busy =
      let own = inv i in
      let fewer = count-erase_self i s.working busy in
      let not_done : bit (s.memory i).is_done ≡ 0 =
        omega (arith, own.one_place, own.one_request, bit-le (s.memory i).is_used, busy) in
      update_at
        (λ j x.
          IsOrdered x (count j s.claimed_by) (count j s.send_q) (count j (erase i s.working))
            (count j s.waiting))
        s.memory i (record (s.memory i) { is_done = true })
        (record {
          unlocked = own.unlocked;
          one_request = own.one_request;
          one_place = omega (arith, own.one_place, fewer, not_done);
        })
        (λ j apart. counts_changed (inv j) refl (omega (arith, count_erase i j s.working apart)))

  collect-Inv :
      (i : ℕ)
      → 0 < count i s.waiting
      → (s.memory i).is_done ≡ true
      → Inv (record s {
        memory = update s.memory i (record (s.memory i) { is_used = false; is_done = false });
        waiting = erase i s.waiting;
      })
  collect-Inv i waited done =
      let own = inv i in
      let fewer = count-erase_self i s.waiting waited in
      let was : bit (s.memory i).is_done ≡ 1 = ap bit done in
      let bound = bit-le (s.memory i).is_used in
      update_at
        (λ j x.
          IsOrdered x (count j s.claimed_by) (count j s.send_q) (count j s.working)
            (count j (erase i s.waiting)))
        s.memory i (record (s.memory i) { is_used = false; is_done = false })
        (record {
          unlocked = own.unlocked;
          one_request = omega (arith, own.one_request, fewer, bound);
          one_place = omega (arith, own.one_place, own.one_request, fewer, was, bound);
        })
        (λ j apart.
          counts_changed (inv j) (omega (arith, count_erase i j s.waiting apart))
            (omega (arith, count_erase i j s.waiting apart)))

pub Step-Inv : (dir_ready : FilePath → Bool) (s t : State) → Step dir_ready s t → Inv s → Inv t
Step-Inv dir_ready s t (find i file_path memory free claims) inv =
    let (e, is, used, not_done, unlocked, same) =
      claim_ok dir_ready s.memory i i file_path memory claims in
    subst (λ m. Inv (record s { memory = m; claimed_by = i ∷ s.claimed_by })) (sym is)
      (find-Inv s inv i e free used not_done unlocked)
Step-Inv dir_ready s t (send i held) inv = send-Inv s inv i held
Step-Inv dir_ready s t (receive i send_q head) inv = receive-Inv s inv i send_q head
Step-Inv dir_ready s t (finish i memory busy finishes) inv =
    subst (λ m. Inv (record s { memory = m; working = erase i s.working }))
      (sym (finish_ok s.memory i memory finishes)) (finish-Inv s inv i busy)
Step-Inv dir_ready s t (collect i memory waited collects) inv =
    let (done, is) = wait_ok s.memory i memory collects in
    subst (λ m. Inv (record s { memory = m; waiting = erase i s.waiting })) (sym is)
      (collect-Inv s inv i waited done)

pub start-Inv : (s : State) → IsStart s → Inv s
start-Inv s h j = record {
  unlocked = h.unlocked j;
  one_request =
      omega (arith, count_none j h.none_claimed, count_none j h.none_waiting, ap bit (h.unused j));
  one_place = omega (
    arith,
    count_none j h.none_sent,
    count_none j h.none_working,
    count_none j h.none_waiting,
    ap bit (h.not_done j),
  );
}

-- In every state that the threads of a client and its workers reach from entries that are free and
-- lists that are empty, one access to shared memory or the queue at a time, in any order, while
-- every claim finds its directory and every path fits: no entry is locked; an entry in use belongs
-- to exactly one request, and one that is not in use to none; and an entry that is waited for is in
-- the queue, at a worker or done, and only one of these.
pub Reach-Inv :
    (dir_ready : FilePath → Bool) (s t : State) → IsStart s → Reach dir_ready s t → Inv t
Reach-Inv dir_ready s t begins here = start-Inv s begins
Reach-Inv dir_ready s t begins (next {t = u} r m) =
    Step-Inv dir_ready u t m (Reach-Inv dir_ready s u begins r)
