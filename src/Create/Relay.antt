-- ===== src/Create/Relay.antt =====
-- Assignment_1/Project1/gtthreads/src/gt_kthread.c: to which kthreads `ksched_priority` passes its signal on.
use advanced_oslab.Prelude.{
  ℕ, zero, suc, ◌+◌, Bool, false, ◌&&◌, ◌||◌, not, Option, none, some, ltb, leb, ◌==◌,
  if◌then◌else◌, ◌≡◌, count, arith,
}
use advanced_oslab.TailQueue.{TailQueue}
use advanced_oslab.Kthread.{KthreadContext, World, gt_max_cores, is_kthread_done}
use advanced_oslab.Create.{relay}

module _ ⦃T : TailQueue⦄ where
  -- Whether the kthread is there, is not the sender and has not exited.
  abbrev pub is_wanted : ℕ → ℕ → Option KthreadContext → Bool
  is_wanted me i none = false
  is_wanted me i (some c) = not (i == me || is_kthread_done c)

  relay-count :
      (w : World) (me rounds inx i : ℕ)
      → count i (relay w me rounds inx) ≡ (
          if leb inx i && (ltb i (inx + rounds) && is_wanted me i (w.kthread_cpu_map i))
          then 1
          else 0)
  unfolding relay count
  relay-count w me zero inx i = ground arith
  relay-count w me (suc rounds) inx i = ground (arith, relay-count w me rounds (inx + 1) i)

  -- `ksched_priority` sends the signal exactly once to every kthread of the map that is not itself
  -- and not done, and to no other.
  pub relay_lem :
      (w : World) (me i : ℕ)
      → count i (relay w me gt_max_cores 0)
        ≡ (if ltb i gt_max_cores && is_wanted me i (w.kthread_cpu_map i) then 1 else 0)
  relay_lem w me i = ground (arith, relay-count w me gt_max_cores 0 i)
