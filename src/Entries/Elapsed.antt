-- ===== src/Entries/Elapsed.antt =====
-- Assignment_2/Project2/src/client/client.c: the time that main writes to client_log.csv.
use advanced_oslab.Prelude.{◌+◌, ◌*◌, ◌≤◌, ◌<◌, ◌≡◌, arith}
use advanced_oslab.Entries.Calls.{Timespec, elapsed}

-- The clock never runs back, and a reading has less than 10 ^ 9 nanoseconds.
pub record IsClock (start end : Timespec) : Type 0 where
  pub start_small : start.tv_nsec < 1000000000
  pub end_small : end.tv_nsec < 1000000000
  pub forward : start.tv_sec * 1000000000 + start.tv_nsec ≤ end.tv_sec * 1000000000 + end.tv_nsec

pub elapsed_lem :
    (start end : Timespec)
    → IsClock start end
    → ((elapsed start end).tv_nsec < 1000000000)
      × (start.tv_sec * 1000000000
            + start.tv_nsec
            + ((elapsed start end).tv_sec * 1000000000 + (elapsed start end).tv_nsec)
          ≡ end.tv_sec * 1000000000 + end.tv_nsec)
unfolding elapsed
elapsed_lem start end is =
    let a = is.start_small in
    let b = is.end_small in let c = is.forward in (ground arith, ground arith)
