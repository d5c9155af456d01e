-- ===== src/Queue/Progress.antt =====
-- A thread that waits for the lock of a queue.
use tcpclient_server.Prelude.{ℕ, true, false, [], ◌≡◌, ◌⊎◌}
use tcpclient_server.Errors.{undefined}
use tcpclient_server.Queue
use tcpclient_server.Queue.Locking.{Call, Result, apply, within, leaving, holds, Shared, Step}

module _ {T : Type 0} where
  -- Somebody has the lock whenever it is locked.
  abbrev Owned : Shared T → Type 0
  Owned s = s.locked ≡ true → (j : ℕ) × (holds (s.pc j) ≡ true)

  -- What a thread that waits finds: the lock is free, and its next step takes it; or another thread
  -- has it, whose next step is to release it or to end its call; or that thread is within a call
  -- that reads an item of the empty queue.
  abbrev pub Progress : Shared T → ℕ → Type 0
  Progress s i =
      ((t : Shared T) × Step s t × (holds (t.pc i) ≡ true))
      ⊎ ((j : ℕ) × (t : Shared T) × Step s t
          × (holds (s.pc j) ≡ true)
          × ((t.locked ≡ false) ⊎ ((r : Result T) × (t.pc j ≡ leaving r))))
      ⊎ ((j : ℕ) × (c : Call T) × (s.pc j ≡ within c [])
          × (apply c [] ≡ undefined)
          × (s.queue ≡ []))
