-- ===== src/Queue/Tests.antt =====
-- Two threads: one pushes a number while the other waits for the front.
use tcpclient_server.Prelude.{ℕ, true, [], ◌∷◌, ◌≡◌, refl}
use tcpclient_server.Queue
use tcpclient_server.Queue.Locking.{
  pop, Shared, apply, waiting, within, leaving, outside, holds, update, push, front, unit, calls,
  locks, ends, unlocks, Reach, here, next,
}
use tcpclient_server.Queue.Progress.{Progress}
use tcpclient_server.Queue.Atomic.{Replays, locked_is_atomic}

-- The second thread has the lock, and has read the number that the first one has pushed.
abbrev reading : Shared ℕ
reading = record {
  locked = true;
  queue = 5 ∷ [];
  pc =
      update
        (update
          (update
            (update (update (update (λ i. outside) 0 (waiting (push 5))) 1 (waiting front)) 0
              (within (push 5) []))
            0 (leaving unit))
          0 outside)
        1 (within front (5 ∷ []));
  log = (push 5, unit) ∷ [];
}

reading-Reach : Reach reading
unfolding apply Queue.push
reading-Reach =
    next
      (next
        (next
          (next (next (next here (calls 0 (push 5) refl)) (calls 1 front refl))
            (locks 0 (push 5) refl refl))
          (ends 0 (push 5) [] (5 ∷ []) unit refl refl))
        (unlocks 0 unit refl))
      (locks 1 front refl refl)

locked_is_atomic_example :
    Replays [] reading.log reading.queue
    × ((i j : ℕ) → holds (reading.pc i) ≡ true → holds (reading.pc j) ≡ true → i ≡ j)
locked_is_atomic_example = locked_is_atomic reading reading-Reach

-- Thread 1 is the only one within the queue, and thread 2 waits for it.
abbrev two_threads : Shared ℕ
two_threads = record reading { pc = update reading.pc 2 (waiting pop) }
