-- ===== src/Runqueue.antt =====
-- Assignment_1/Project1/gtthreads/src/gt_pq.h and gt_pq.c: a run queue of uthreads by priority and
-- group, its counters and masks, and the operations that its lock protects.
pub mod Invariant
pub mod Add
pub mod Remove
pub mod Best
pub mod Init
pub mod Cycle
use advanced_oslab.Prelude.{
  ℕ, ◌+◌, ◌-◌, ◌%◌, ◌^◌, Bool, true, false, ◌&&◌, Option, List, ltb, ◌==◌, if◌then◌else◌, length,
}
use advanced_oslab.Prelude.Arrays.{update}
use advanced_oslab.Prelude.Outcome.{Outcome, ok, ◌>>=◌, ◌>>◌, assert, defined, deref}
use advanced_oslab.Bits.{is_bit_set, set_bit, reset_bit, lowest_bit_set}
use advanced_oslab.TailQueue.{TailQueue}
use advanced_oslab.Uthread.{Uthread, Uthreads}

abbrev pub max_uthread_priority : ℕ
max_uthread_priority = 32

abbrev pub max_uthread_groups : ℕ
max_uthread_groups = 32

abbrev pub default_uthread_priority : ℕ
default_uthread_priority = 16

-- `++` and `--` on an `unsigned int`.
abbrev pub increment : ℕ → ℕ
increment n = (n + 1) % 2 ^ 32

abbrev pub decrement : ℕ → ℕ
decrement n = (n + 2 ^ 32 - 1) % 2 ^ 32

-- An access to `prio_array[uprio].group[ugroup]` is within the arrays.
abbrev pub in_bounds : Uthread → Bool
in_bounds t = ltb t.uthread_priority max_uthread_priority && ltb t.uthread_gid max_uthread_groups

module _ ⦃T : TailQueue⦄ where
  open T use {Head, init, insert_tail, remove, first, is_empty, elems}

  pub record Prio : Type 0 where
    pub group_mask : ℕ
    pub group : ℕ → Head

  pub record Runqueue : Type 0 where
    pub uthread_mask : ℕ
    pub uthread_tot : ℕ
    pub uthread_prio_tot : ℕ → ℕ
    pub uthread_group_mask : ℕ → ℕ
    pub uthread_group_tot : ℕ → ℕ
    pub prio_array : ℕ → Prio

  -- `if (!IS_BIT_SET(mask, off)) SET_BIT(mask, off);`
  abbrev pub mark : ℕ → ℕ → ℕ
  mark mask off = if is_bit_set mask off then mask else set_bit mask off

  abbrev pub bucket_head : Runqueue → ℕ → ℕ → Head
  bucket_head runq uprio ugroup = (runq.prio_array uprio).group ugroup

  -- The list behind `prio_array[uprio].group[ugroup]`.
  abbrev pub bucket : Runqueue → ℕ → ℕ → List ℕ
  bucket runq uprio ugroup = elems (bucket_head runq uprio ugroup)

  abbrev pub load : Runqueue → ℕ → ℕ → ℕ
  load runq uprio ugroup = length (bucket runq uprio ugroup)

  unfoldable pub added : Runqueue → ℕ → ℕ → ℕ → Runqueue
  added runq uprio ugroup u_elem =
      let prioq = runq.prio_array uprio in
      record {
        uthread_mask = mark runq.uthread_mask uprio;
        uthread_tot = increment runq.uthread_tot;
        uthread_prio_tot =
            update runq.uthread_prio_tot uprio (increment (runq.uthread_prio_tot uprio));
        uthread_group_mask =
            update runq.uthread_group_mask ugroup (mark (runq.uthread_group_mask ugroup) uprio);
        uthread_group_tot =
            update runq.uthread_group_tot ugroup (increment (runq.uthread_group_tot ugroup));
        prio_array = update runq.prio_array uprio (record {
          group_mask = mark prioq.group_mask ugroup;
          group = update prioq.group ugroup (insert_tail (prioq.group ugroup) u_elem);
        });
      }

  -- `__add_to_runqueue`
  unfoldable pub add : Uthreads → Runqueue → ℕ → Outcome Runqueue
  unfolding added
  add us runq u_elem = do
    defined (in_bounds (us u_elem))
    ok (added runq (us u_elem).uthread_priority (us u_elem).uthread_gid u_elem)

  -- The state after `__rem_from_runqueue`, if its assertion holds.
  unfoldable pub removed : Runqueue → ℕ → ℕ → ℕ → Runqueue
  removed runq uprio ugroup u_elem =
      let prioq = runq.prio_array uprio in
      let uhead = remove (prioq.group ugroup) u_elem in
      let prio_tot = decrement (runq.uthread_prio_tot uprio) in
      let group_tot = decrement (runq.uthread_group_tot ugroup) in
      let group_mask = runq.uthread_group_mask ugroup in
      record {
        uthread_mask =
            if prio_tot == 0 then reset_bit runq.uthread_mask uprio else runq.uthread_mask;
        uthread_tot = decrement runq.uthread_tot;
        uthread_prio_tot = update runq.uthread_prio_tot uprio prio_tot;
        uthread_group_mask =
            update runq.uthread_group_mask ugroup
              (if group_tot == 0 then reset_bit group_mask uprio else group_mask);
        uthread_group_tot = update runq.uthread_group_tot ugroup group_tot;
        prio_array = update runq.prio_array uprio (record {
          group_mask =
              if is_empty uhead then reset_bit prioq.group_mask ugroup else prioq.group_mask;
          group = update prioq.group ugroup uhead;
        });
      }

  -- `__rem_from_runqueue`: the last of its group must leave an empty bucket behind.
  unfoldable pub rem : Uthreads → Runqueue → ℕ → Outcome Runqueue
  unfolding removed
  rem us runq u_elem = do
    let uprio = (us u_elem).uthread_priority
    let ugroup = (us u_elem).uthread_gid
    defined (in_bounds (us u_elem))
    let runq' = removed runq uprio ugroup u_elem
    assert (
        if runq'.uthread_group_tot ugroup == 0
        then is_empty (bucket_head runq' uprio ugroup)
        else true)
    ok runq'

  -- The uthread that `sched_find_best_uthread` takes out: the first of the lowest group of the
  -- lowest priority. `bsfl` of 0 is undefined, and so is a NULL uthread in what follows.
  unfoldable pub best : Runqueue → Outcome ℕ
  best runq = do
    uprio ← deref (lowest_bit_set runq.uthread_mask)
    assert (ltb 0 (runq.prio_array uprio).group_mask)
    ugroup ← deref (lowest_bit_set (runq.prio_array uprio).group_mask)
    deref (first (bucket_head runq uprio ugroup))

  -- `init_runqueue` on memory that is zeroed but for the lists.
  unfoldable pub init_runqueue : Runqueue → Runqueue
  init_runqueue runq = record runq {
    prio_array = λ i.
        if ltb i max_uthread_priority
        then record {
          group_mask = (runq.prio_array i).group_mask;
          group = λ j. if ltb j max_uthread_groups then init else (runq.prio_array i).group j;
        }
        else runq.prio_array i;
  }
