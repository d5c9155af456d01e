-- ===== src/Client/Finish.antt =====
-- How a client that is not kept alive comes to its end.
use tcpclient_server.Prelude.{
  true, false, List, [], ◌∷◌, ◌++◌, ◌≡◌, refl, arith, append_assoc, append-nil, map, sym, ◌∙◌, inr,
}
use mathlib.Core.Path.{subst}
use tcpclient_server.Queue
use tcpclient_server.Client.{
  Source, testing, checking, done, System, test_queue, check_queue, end_round, check_scraper,
}
use tcpclient_server.Client.Steps.{tests, checks, checks_scraper, loops, Reach, here, next}
use tcpclient_server.Client.Alive.{answers_front, goes_round, Reach-trans}

module _ {I D R : Type 0} (source : Source I D) where
  -- With an empty queue and no good input a round is the last one.
  ends_round :
      (s : System I D R)
      → s.client ≡ checking
      → s.queue ≡ []
      → s.keep_alive ≡ false
      → source.good s.stream ≡ false
      → Reach source s (record s { client = done })
  unfolding check_queue end_round check_scraper Queue.empty
  ends_round s e q k g =
      let run : Reach source s (end_round (check_scraper source (check_queue s)) false) =
        next (next (next here (checks e)) (checks_scraper (ground arith)))
          (loops false (ground arith)) in
      subst (Reach source s) (ground arith) run

  tests_empty :
      (s : System I D R)
      → s.client ≡ testing
      → s.queue ≡ []
      → Reach source s (record s { client = checking })
  unfolding test_queue Queue.empty
  tests_empty s e q =
      let run : Reach source s (test_queue s) = next here (tests e) in
      subst (Reach source s) (ground arith) run

  Finished : System I D R → (D → R) → List D → Type 0
  Finished s answer q =
      (t : System I D R) × Reach source s t
      × (t.client ≡ done)
      × (t.queue ≡ [])
      × (t.popped ≡ s.popped ++ q)
      × (t.responses ≡ s.responses ++ map (λ d. (d, answer d)) q)

  finishes :
      (answer : D → R) (q : List D) (s : System I D R)
      → s.queue ≡ q
      → s.client ≡ testing
      → s.keep_alive ≡ false
      → source.good s.stream ≡ false
      → Finished s answer q
  unfolding Finished Queue.empty
  finishes answer [] s eq e k g = (
    record s { client = done },
    Reach-trans source (tests_empty s e eq) (ends_round _ refl eq k g),
    refl,
    eq,
    sym (append-nil s.popped),
    sym (append-nil s.responses),
  )
  finishes answer (d ∷ []) s eq e k g = (
    _,
    Reach-trans source (answers_front source s answer d [] e eq) (ends_round _ refl refl k g),
    refl,
    refl,
    refl,
    refl,
  )
  finishes answer (d ∷ d' ∷ q) s eq e k g =
      let (t, r, c, z, p, rs) =
        finishes answer (d' ∷ q)
          (record s {
            client = testing;
            queue = d' ∷ q;
            connection_ok = true;
            popped = s.popped ++ (d ∷ []);
            responses = s.responses ++ ((d, answer d) ∷ []);
          })
          refl refl k g in
      (
        t,
        Reach-trans source
            (Reach-trans source (answers_front source s answer d (d' ∷ q) e eq)
              (goes_round source _ refl refl (inr refl)))
            r,
        c,
        z,
        p ∙ append_assoc s.popped (d ∷ []) (d' ∷ q),
        rs ∙ append_assoc s.responses ((d, answer d) ∷ []) (map (λ x. (x, answer x)) (d' ∷ q)),
      )

  -- A client that is not kept alive and whose input is no longer good can always come to its
  -- regular end while the server answers every request with an OK response: it serves the whole
  -- queue first, each request once and in order, and leaves it empty.
  pub finishes_queue :
      (s : System I D R) (answer : D → R)
      → s.client ≡ testing
      → s.keep_alive ≡ false
      → source.good s.stream ≡ false
      → (t : System I D R) × Reach source s t
        × (t.client ≡ done)
        × (t.queue ≡ [])
        × (t.popped ≡ s.popped ++ s.queue)
        × (t.responses ≡ s.responses ++ map (λ d. (d, answer d)) s.queue)
  unfolding Finished
  finishes_queue s answer e k g = finishes answer s.queue s refl e k g
