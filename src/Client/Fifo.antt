-- ===== src/Client/Fifo.antt =====
-- The order of the requests: what is scraped is sent and popped in that order, and nothing is lost.
use tcpclient_server.Prelude.{
  Bool, List, [], ◌∷◌, ◌++◌, ◌≡◌, refl, ◌≢◌, arith, append_assoc, map, sym, ap, ◌∙◌, inl, inr,
  Bool-cases,
}
use mathlib.Core.List.{map-append}
use mathlib.Core.Path.{subst}
use tcpclient_server.Errors.{Outcome, returns, throws, undefined, out_of_data}
use tcpclient_server.Queue
use tcpclient_server.Client.{
  Source, ClientPoint, opening, testing, taking, popping, checking, checking_scraper, sending,
  faulted, looping, System, Reply, replied, thrown, Opening, opened, open_threw, start_client,
  open_connection, test_queue, take_front, receive_reply, pop_front, check_queue, end_round,
  check_scraper, scrape, write_datum, scraped_datum, act_on, verdict, Verdict, handle, go_on,
  give_up, heads,
}
use tcpclient_server.Client.Steps.{
  Step, opens, tests, takes, receives, pops, checks, checks_scraper, loops, scrapes, pushes, Reach,
  here, next,
}

-- What the client holds of the queue at a program point: at `taking` there is a front, at `sending
-- d` and at `popping` it is the request at hand, and `popping` is reached with its response
-- handled.
abbrev pub Holds : {D R : Type 0} → ClientPoint D → List D → List D → List (D × R) → Type 0
Holds taking queue popped responses = (queue ≢ []) × (map (λ p. p.0) responses ≡ popped)
Holds (sending d) queue popped responses =
    (rest : List _) × (queue ≡ d ∷ rest) × (map (λ p. p.0) responses ≡ popped)
Holds popping queue popped responses =
    (d : _) × (rest : List _) × (queue ≡ d ∷ rest) × (map (λ p. p.0) responses ≡ popped ++ (d ∷ []))
Holds faulted queue popped responses = ⊥
Holds _ queue popped responses = map (λ p. p.0) responses ≡ popped

pub record Inv {I D R : Type 0} (s : System I D R) : Type 0 where
  pub in_order : s.popped ++ s.queue ≡ s.scraped
  pub holds : Holds s.client s.queue s.popped s.responses

ne_nil-cons : {D : Type 0} (q : List D) → q ≢ [] → (d : D) × (rest : List D) × (q ≡ d ∷ rest)
ne_nil-cons [] h = absurd (h refl)
ne_nil-cons (d ∷ rest) h = (d, rest, refl)

-- A request that is pushed behind the others changes nothing for the client.
push-Holds :
    {D R : Type 0} (p : ClientPoint D) (q popped : List D) (rs : List (D × R)) (x : D)
    → Holds p q popped rs
    → Holds p (Queue.push q x) popped rs
unfolding Queue.push
push-Holds taking q popped rs x (some_front, m) =
    let (d, rest, e) = ne_nil-cons q some_front in (rw e (λ h. cc), m)
push-Holds (sending d) q popped rs x (rest, e, m) = (rest ++ (x ∷ []), rw e refl, m)
push-Holds popping q popped rs x (d, rest, e, m) = (d, rest ++ (x ∷ []), rw e refl, m)
push-Holds faulted q popped rs x h = h
push-Holds _ q popped rs x h = h

module _ {I D R : Type 0} where
  pub start_client-Inv :
      (is : I) (keep_alive : Bool) → Inv (start_client {I = I} {D = D} {R = R} is keep_alive)
  unfolding start_client
  start_client-Inv is keep_alive = record { in_order = refl; holds = refl }

  pub held :
      (s : System I D R) (p : ClientPoint D)
      → s.client ≡ p
      → Inv s
      → Holds p s.queue s.popped s.responses
  held s p e v = subst (λ q. Holds q s.queue s.popped s.responses) e v.holds

  -- Where only the program point changes, the order stands.
  module _ (s : System I D R) (v : Inv s) where
    open_connection-Inv : (o : Opening) → s.client ≡ opening → Inv (open_connection s o)
    unfolding open_connection
    open_connection-Inv (opened ec is_open) e = let h = held s opening e v in ground arith
    open_connection-Inv (open_threw x) e = record {
      in_order = v.in_order;
      holds = held s opening e v;
    }

    test_queue-Inv : s.client ≡ testing → Inv (test_queue s)
    unfolding test_queue Queue.empty
    test_queue-Inv e = let h = held s testing e v in ground arith

    take_front-Inv : s.client ≡ taking → Inv (take_front s)
    unfolding take_front Queue.front
    take_front-Inv e =
        let (some_front, m) = held s taking e v in
        let (d, rest, q) = ne_nil-cons s.queue some_front in
        let eq : take_front s ≡ record s { client = sending d } = ground arith in
        rw eq (record { in_order = v.in_order; holds = (rest, q, m) })

    act_on-Inv : (d : D) (r : R) (a : Verdict) → s.client ≡ sending d → Inv (act_on s d r a)
    unfolding act_on
    act_on-Inv d r handle e =
        let (rest, q, m) = held s (sending d) e v in
        record {
          in_order = v.in_order;
          holds = (
            d,
            rest,
            q,
            map-append (λ p. p.0) s.responses ((d, r) ∷ []) ∙ ap (λ x. x ++ (d ∷ [])) m,
          );
        }
    act_on-Inv d r (go_on b) e = record {
      in_order = v.in_order;
      holds = (held s (sending d) e v).2;
    }
    act_on-Inv d r (give_up ec) e = record {
      in_order = v.in_order;
      holds = (held s (sending d) e v).2;
    }

    receive_reply-Inv : (d : D) (r : Reply R) → s.client ≡ sending d → Inv (receive_reply s d r)
    unfolding receive_reply
    receive_reply-Inv d (thrown x) e = record {
      in_order = v.in_order;
      holds = (held s (sending d) e v).2;
    }
    receive_reply-Inv d (replied ec r) e =
        act_on-Inv d r.payload (verdict ec r.transmission_status) e

    pop_front-Inv : s.client ≡ popping → Inv (pop_front s)
    unfolding pop_front Queue.pop heads
    pop_front-Inv e =
        let (d, rest, q, m) = held s popping e v in
        let eq : pop_front s
            ≡ record s { client = checking; queue = rest; popped = s.popped ++ (d ∷ []) } =
          ground arith in
        rw eq (record {
          in_order =
              append_assoc s.popped (d ∷ []) rest ∙ (ap (◌++◌ s.popped) (sym q) ∙ v.in_order);
          holds = m;
        })

    check_queue-Inv : s.client ≡ checking → Inv (check_queue s)
    unfolding check_queue
    check_queue-Inv e = let h = held s checking e v in ground arith

    end_round-Inv : (input_ok : Bool) → s.client ≡ looping input_ok → Inv (end_round s input_ok)
    unfolding end_round
    end_round-Inv input_ok e = let h = held s (looping input_ok) e v in ground arith

  module _ (source : Source I D) (s : System I D R) (v : Inv s) where
    check_scraper-Inv : s.client ≡ checking_scraper → Inv (check_scraper source s)
    unfolding check_scraper
    check_scraper-Inv e = record { in_order = v.in_order; holds = held s checking_scraper e v }

    scraped_datum-Inv : (o : Outcome D) (is : I) → Inv (scraped_datum source s (o, is))
    unfolding scraped_datum
    scraped_datum-Inv (returns d) is = record { in_order = v.in_order; holds = v.holds }
    scraped_datum-Inv (throws out_of_data) is = record { in_order = v.in_order; holds = v.holds }
    scraped_datum-Inv (throws _) is = record { in_order = v.in_order; holds = v.holds }
    scraped_datum-Inv undefined is = record { in_order = v.in_order; holds = v.holds }

    scrape-Inv : Inv (scrape source s)
    unfolding scrape
    scrape-Inv = elim (Bool-cases (source.failed s.stream)) [
      | inl e ↦ rw (e, scrape) (record { in_order = v.in_order; holds = v.holds })
      | inr e ↦
          rw (e, scrape)
            (scraped_datum-Inv (source.get_datum s.stream).0 (source.get_datum s.stream).1)
    ]

    write_datum-Inv : (d : D) → Inv (write_datum source s d)
    unfolding write_datum
    write_datum-Inv d = record {
      in_order =
          unfold Queue.push in
          (sym (append_assoc s.popped s.queue (d ∷ [])) ∙ ap (λ x. x ++ (d ∷ [])) v.in_order);
      holds = push-Holds s.client s.queue s.popped s.responses d v.holds;
    }

  Step-Inv : (source : Source I D) {s t : System I D R} → Step source s t → Inv s → Inv t
  Step-Inv source {s} (opens o e) v = open_connection-Inv s v o e
  Step-Inv source {s} (tests e) v = test_queue-Inv s v e
  Step-Inv source {s} (takes e) v = take_front-Inv s v e
  Step-Inv source {s} (receives d r e) v = receive_reply-Inv s v d r e
  Step-Inv source {s} (pops e) v = pop_front-Inv s v e
  Step-Inv source {s} (checks e) v = check_queue-Inv s v e
  Step-Inv source {s} (checks_scraper e) v = check_scraper-Inv source s v e
  Step-Inv source {s} (loops input_ok e) v = end_round-Inv s v input_ok e
  Step-Inv source {s} (scrapes e) v = scrape-Inv source s v
  Step-Inv source {s} (pushes d e) v = write_datum-Inv source s v d

  pub Reach-Inv : (source : Source I D) {s t : System I D R} → Reach source s t → Inv s → Inv t
  Reach-Inv source here v = v
  Reach-Inv source (next r st) v = Step-Inv source st (Reach-Inv source r v)

  -- Whatever the threads and the connection do, and in whatever order: the requests popped and
  -- those still queued are the requests scraped, in that order; the responses handled are those
  -- of the popped requests in their order, and of the front of the queue as well where it is
  -- about to be popped; and neither `front` nor `pop` is ever called on an empty queue.
  pub Reach-fifo :
      (source : Source I D) (is : I) (keep_alive : Bool) {s : System I D R}
      → Reach source (start_client is keep_alive) s
      → (s.popped ++ s.queue ≡ s.scraped)
        × Holds s.client s.queue s.popped s.responses
        × (s.client ≢ faulted)
  Reach-fifo source is keep_alive {s} r =
      let v = Reach-Inv source r (start_client-Inv is keep_alive) in
      (v.in_order, v.holds, λ e. held s faulted e v)
