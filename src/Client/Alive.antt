-- ===== src/Client/Alive.antt =====
-- When the client goes on: with `keep_alive` it never ends by itself, and while the server answers
-- it empties its queue.
use tcpclient_server.Prelude.{
  true, false, ◌⊎◌, inl, List, [], ◌∷◌, ◌++◌, ◌≡◌, refl, arith, append_assoc, append-nil, map, sym,
  ◌∙◌,
}
use mathlib.Core.Path.{subst}
use tcpclient_server.Errors.{Outcome, success}
use tcpclient_server.Response.{ok}
use tcpclient_server.Queue
use tcpclient_server.Client.{
  Source, ClientPoint, testing, checking, checking_scraper, done, looping, System, Reply, replied,
  start_client, open_connection, test_queue, take_front, receive_reply, pop_front, check_queue,
  end_round, check_scraper, scrape, write_datum, scraped_datum, act_on, verdict, heads,
}
use tcpclient_server.Client.Steps.{
  Step, opens, tests, takes, receives, pops, checks, checks_scraper, loops, scrapes, pushes, Reach,
  here, next,
}

-- Program points of a client that is kept alive.
abbrev pub GoesOn : {D : Type 0} → ClientPoint D → Type 0
GoesOn done = ⊥
GoesOn checking_scraper = ⊥
GoesOn (looping b) = b ≡ true
GoesOn _ = Unit

record Kept {I D R : Type 0} (s : System I D R) : Type 0 where
  kept : s.keep_alive ≡ true
  goes_on : GoesOn s.client

module _ {I D R : Type 0} (source : Source I D) where
  Kept-at : (s : System I D R) (p : ClientPoint D) → s.client ≡ p → Kept s → GoesOn p
  Kept-at s p e k = subst GoesOn e k.goes_on

  receive_reply-GoesOn :
      (s : System I D R) (d : D) (r : Reply R) → Kept s → Kept (receive_reply s d r)
  unfolding receive_reply act_on verdict
  receive_reply-GoesOn s d r k = ground arith

  scraped-GoesOn :
      (s : System I D R) (o : Outcome D) (is : I) → Kept s → Kept (scraped_datum source s (o, is))
  unfolding scraped_datum
  scraped-GoesOn s o is k = ground arith

  Step-GoesOn : {s t : System I D R} → Step source s t → Kept s → Kept t
  unfolding open_connection test_queue take_front pop_front check_queue end_round check_scraper
      scrape write_datum Queue.front Queue.empty Queue.pop
  Step-GoesOn {s} (opens o e) k = ground arith
  Step-GoesOn {s} (tests e) k = ground arith
  Step-GoesOn {s} (takes e) k = ground arith
  Step-GoesOn {s} (receives d r e) k = receive_reply-GoesOn s d r k
  Step-GoesOn {s} (pops e) k = ground arith
  Step-GoesOn {s} (checks e) k = ground arith
  Step-GoesOn {s} (checks_scraper e) k = absurd (Kept-at s checking_scraper e k)
  Step-GoesOn {s} (loops input_ok e) k = let b = Kept-at s (looping input_ok) e k in ground arith
  Step-GoesOn {s} (scrapes e) k =
      ground (arith, scraped-GoesOn s (source.get_datum s.stream).0 (source.get_datum s.stream).1)
  Step-GoesOn {s} (pushes d e) k = ground arith

  Reach-Kept : {s t : System I D R} → Reach source s t → Kept s → Kept t
  Reach-Kept here k = k
  Reach-Kept (next r st) k = Step-GoesOn st (Reach-Kept r k)

  -- A client with `keep_alive` never comes to the end of `start`, and never looks at its
  -- scraper's state: it goes on, or an exception ends it.
  pub Reach-keep_alive :
      (is : I) {s : System I D R} → Reach source (start_client is true) s → GoesOn s.client
  unfolding start_client
  Reach-keep_alive is r = (Reach-Kept r (record { kept = refl; goes_on = tt })).goes_on

  pub Reach-trans : {s t u : System I D R} → Reach source s t → Reach source t u → Reach source s u
  Reach-trans r here = r
  Reach-trans r (next q st) = next (Reach-trans r q) st

  -- The request at the front is sent, its response is handled, and it is popped.
  pub answers_front :
      (s : System I D R) (answer : D → R) (d : D) (q : List D)
      → s.client ≡ testing
      → s.queue ≡ d ∷ q
      → Reach source s (record s {
        client = checking;
        queue = q;
        connection_ok = true;
        popped = s.popped ++ (d ∷ []);
        responses = s.responses ++ ((d, answer d) ∷ []);
      })
  unfolding test_queue take_front receive_reply act_on verdict pop_front heads Queue.front
      Queue.empty Queue.pop
  answers_front s answer d q e1 e2 =
      let reply : Reply R =
        replied success (record { transmission_status = ok; payload = answer d }) in
      let run : Reach source s (pop_front (receive_reply (take_front (test_queue s)) d reply)) =
        next
          (next (next (next here (tests e1)) (takes (ground arith)))
            (receives d reply (ground arith)))
          (pops (ground arith)) in
      subst (Reach source s) (ground arith) run

  -- While data is left or the client is kept alive, a round over a good connection goes on.
  pub goes_round :
      (s : System I D R)
      → s.client ≡ checking
      → s.connection_ok ≡ true
      → (s.keep_alive ≡ true) ⊎ (Queue.empty s.queue ≡ false)
      → Reach source s (record s { client = testing })
  unfolding check_queue end_round
  goes_round s e k h =
      let run : Reach source s (end_round (check_queue s) true) =
        next (next here (checks e)) (loops true (ground arith)) in
      subst (Reach source s) (ground arith) run

  Served : System I D R → (D → R) → List D → Type 0
  Served s answer q =
      (t : System I D R) × Reach source s t
      × (t.client ≡ testing)
      × (t.queue ≡ [])
      × (t.popped ≡ s.popped ++ q)
      × (t.responses ≡ s.responses ++ map (λ d. (d, answer d)) q)

  serves :
      (answer : D → R) (q : List D) (s : System I D R)
      → s.queue ≡ q
      → s.client ≡ testing
      → s.keep_alive ≡ true
      → Served s answer q
  unfolding Served
  serves answer [] s eq e k =
      (s, here, e, eq, sym (append-nil s.popped), sym (append-nil s.responses))
  serves answer (d ∷ q) s eq e k =
      let (t, r, c, z, p, rs) =
        serves answer q
          (record s {
            client = testing;
            queue = q;
            connection_ok = true;
            popped = s.popped ++ (d ∷ []);
            responses = s.responses ++ ((d, answer d) ∷ []);
          })
          refl refl k in
      (
        t,
        Reach-trans (Reach-trans (answers_front s answer d q e eq) (goes_round _ refl refl (inl k)))
            r,
        c,
        z,
        p ∙ append_assoc s.popped (d ∷ []) q,
        rs ∙ append_assoc s.responses ((d, answer d) ∷ []) (map (λ x. (x, answer x)) q),
      )

  -- If the server answers requests with OK responses, a client that is kept alive can always serve
  -- its whole queue: there is a run that ends with the queue empty and the client at the start of
  -- its loop, in which the data popped are those of the queue, in order, and the responses handled
  -- are the answer to each of them, in the same order.
  pub serves_queue :
      (s : System I D R) (answer : D → R)
      → s.client ≡ testing
      → s.keep_alive ≡ true
      → (t : System I D R) × Reach source s t
        × (t.client ≡ testing)
        × (t.queue ≡ [])
        × (t.popped ≡ s.popped ++ s.queue)
        × (t.responses ≡ s.responses ++ map (λ d. (d, answer d)) s.queue)
  unfolding Served
  serves_queue s answer e k = serves answer s.queue s refl e k
