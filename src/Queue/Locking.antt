-- ===== src/Queue/Locking.antt =====
-- The threads that share a queue. `lock_guard` is taken on entry and released on return; the
-- function of `std::queue` between reads the queue when it begins and writes it when it ends, so it
-- is not atomic. `back` and `front` return a reference; `item` is what it refers to while the lock
-- is held.
use tcpclient_server.Prelude.{ℕ, Bool, true, false, List, [], ◌∷◌, ◌++◌, ◌≡◌, ◌==◌, if◌then◌else◌}
use tcpclient_server.Errors.{Outcome, returns, ◌>>=◌}
use tcpclient_server.Queue

pub data Call (T : Type 0) : Type 0 where
  back front empty pop : Call T
  push : T → Call T

pub data Result (T : Type 0) : Type 0 where
  item : T → Result T
  flag : Bool → Result T
  unit : Result T

-- What a member function does with the queue that it reads: its result, and the queue that it
-- writes.
unfoldable pub apply : {T : Type 0} → Call T → List T → Outcome (Result T × List T)
apply back q = do x ← Queue.back q; returns (item x, q)
apply front q = do x ← Queue.front q; returns (item x, q)
apply empty q = returns (flag (Queue.empty q), q)
apply pop q = do q' ← Queue.pop q; returns (unit, q')
apply (push x) q = returns (unit, Queue.push q x)

-- Where a thread is: outside, waiting for the lock, within the function that has read the queue, or
-- with its result and still with the lock.
pub data Pc (T : Type 0) : Type 0 where
  outside : Pc T
  waiting : Call T → Pc T
  within : Call T → List T → Pc T
  leaving : Result T → Pc T

abbrev pub holds : {T : Type 0} → Pc T → Bool
holds (within c q) = true
holds (leaving r) = true
holds _ = false

abbrev pub update : {A : Type 0} → (ℕ → A) → ℕ → A → ℕ → A
update f i a j = if i == j then a else f j

-- `log` records the calls whose function has ended, with their results, in that order.
pub record Shared (T : Type 0) : Type 0 where
  pub locked : Bool
  pub queue : List T
  pub pc : ℕ → Pc T
  pub log : List (Call T × Result T)

abbrev pub start : {T : Type 0} → Shared T
start = record { locked = false; queue = []; pc = λ i. outside; log = [] }

-- A step of the thread `i`.
pub data Step {T : Type 0} (s : Shared T) : Shared T → Type 0 where
  calls :
      (i : ℕ) (c : Call T) → s.pc i ≡ outside → Step s (record s { pc = update s.pc i (waiting c) })
  locks :
      (i : ℕ) (c : Call T)
      → s.pc i ≡ waiting c
      → s.locked ≡ false
      → Step s (record s { locked = true; pc = update s.pc i (within c s.queue) })
  ends :
      (i : ℕ) (c : Call T) (read written : List T) (r : Result T)
      → s.pc i ≡ within c read
      → apply c read ≡ returns (r, written)
      → Step s (record s {
        queue = written;
        pc = update s.pc i (leaving r);
        log = s.log ++ ((c, r) ∷ []);
      })
  unlocks :
      (i : ℕ) (r : Result T)
      → s.pc i ≡ leaving r
      → Step s (record s { locked = false; pc = update s.pc i outside })

pub data Reach {T : Type 0} : Shared T → Type 0 where
  here : Reach start
  next : {s t : Shared T} → Reach s → Step s t → Reach t
