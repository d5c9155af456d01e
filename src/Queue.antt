-- ===== src/Queue.antt =====
-- ClientServerFramework/Shared/Container/SafeQueue.hpp. Each member function holds the lock for its
-- whole body, so an operation is one step of a thread. The front of the queue is the head of a
-- list. The functions of `std::queue` that want an element are undefined on an empty queue.
pub mod Locking
pub mod Atomic
pub mod Progress
pub mod Tests
use tcpclient_server.Prelude.{Bool, true, false, List, [], ◌∷◌, ◌++◌}
use tcpclient_server.Errors.{Outcome, returns, undefined}

module _ {T : Type 0} where
  unfoldable pub empty : List T → Bool
  empty [] = true
  empty (x ∷ q) = false

  unfoldable pub front : List T → Outcome T
  front [] = undefined
  front (x ∷ q) = returns x

  unfoldable pub back : List T → Outcome T
  back [] = undefined
  back (x ∷ []) = returns x
  back (x ∷ y ∷ q) = back (y ∷ q)

  unfoldable pub pop : List T → Outcome (List T)
  pop [] = undefined
  pop (x ∷ q) = returns q

  unfoldable pub push : List T → T → List T
  push q x = q ++ (x ∷ [])
