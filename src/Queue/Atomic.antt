-- ===== src/Queue/Atomic.antt =====
-- With the lock every call of the queue acts as one atomic step.
use tcpclient_server.Prelude.{ℕ, true, List, [], ◌∷◌, ◌++◌, ◌≡◌, refl, sym, arith}
use tcpclient_server.Errors.{returns}
use tcpclient_server.Queue.Locking.{
  Call, Result, apply, within, holds, Shared, Step, calls, locks, ends, unlocks, Reach, here, next,
}

module _ {T : Type 0} where
  -- The calls, one after the other, take the first queue to the second and have these results.
  abbrev pub Replays : List T → List (Call T × Result T) → List T → Type 0
  Replays q [] q' = q ≡ q'
  Replays q ((c, r) ∷ log) q' = (m : List T) × (apply c q ≡ returns (r, m)) × Replays m log q'

  Replays-snoc :
      (q m q' : List T) (log : List (Call T × Result T)) (c : Call T) (r : Result T)
      → Replays q log m
      → apply c m ≡ returns (r, q')
      → Replays q (log ++ ((c, r) ∷ [])) q'
  Replays-snoc q m q' [] c r h e = (q', rw h e, refl)
  Replays-snoc q m q' ((d, x) ∷ log) c r (k, step, more) e =
      (k, step, Replays-snoc k m q' log c r more e)

  -- One thread at most has the lock, and it has read the queue as it is.
  pub record Inv (s : Shared T) : Type 0 where
    pub locked : (i : ℕ) → holds (s.pc i) ≡ true → s.locked ≡ true
    pub alone : (i j : ℕ) → holds (s.pc i) ≡ true → holds (s.pc j) ≡ true → i ≡ j
    pub fresh : (i : ℕ) (c : Call T) (q : List T) → s.pc i ≡ within c q → q ≡ s.queue
    pub replays : Replays [] s.log s.queue

  Step-Inv : {s t : Shared T} → Step s t → Inv s → Inv t
  Step-Inv {s} (calls i c at) v = record {
    locked = λ j h. ground (arith, v.locked j);
    alone = λ j k h h'. ground (arith, v.alone j k);
    fresh = λ j d q e. ground (arith, v.fresh j d q);
    replays = v.replays;
  }
  Step-Inv {s} (locks i c at free) v = record {
    locked = λ j h. refl;
    alone = λ j k h h'. ground (arith, v.alone j k, v.locked j, v.locked k);
    fresh = λ j d q e. ground (arith, v.fresh j d q);
    replays = v.replays;
  }
  Step-Inv {s} (ends i c read written r at done) v = record {
    locked = λ j h. ground (arith, v.locked j, v.locked i);
    alone = λ j k h h'. ground (arith, v.alone j k, v.alone i k, v.alone j i);
    fresh = λ j d q e. ground (arith, v.fresh j d q, v.alone i j);
    replays =
        Replays-snoc [] s.queue written s.log c r v.replays (rw (sym (v.fresh i c read at)) done);
  }
  Step-Inv {s} (unlocks i r at) v = record {
    locked = λ j h. ground (arith, v.locked j, v.alone i j);
    alone = λ j k h h'. ground (arith, v.alone j k, v.alone i k, v.alone j i);
    fresh = λ j d q e. ground (arith, v.fresh j d q);
    replays = v.replays;
  }

  pub Reach-Inv : {s : Shared T} → Reach s → Inv s
  Reach-Inv here = record {
    locked = λ i h. cc;
    alone = λ i j h h'. cc;
    fresh = λ i c q e. cc;
    replays = refl;
  }
  Reach-Inv (next r st) = Step-Inv st (Reach-Inv r)

  -- However the threads are interleaved: the queue and all results so far are those of the calls
  -- made one after the other on an empty queue, in the order in which they ended; and two threads
  -- are never within the queue together.
  pub locked_is_atomic :
      (s : Shared T)
      → Reach s
      → Replays [] s.log s.queue
        × ((i j : ℕ) → holds (s.pc i) ≡ true → holds (s.pc j) ≡ true → i ≡ j)
  locked_is_atomic s r = let v = Reach-Inv r in (v.replays, v.alone)
