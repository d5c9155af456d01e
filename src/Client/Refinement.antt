-- ===== src/Client/Refinement.antt =====
-- The threads of the client implement a channel.
use tcpclient_server.Prelude.{Bool, List, [], ◌∷◌, ◌++◌, ◌≡◌, refl, ◌≢◌, ◌⊎◌, arith, inr}
use mathlib.Core.Path.{subst}
use tcpclient_server.Errors.{Outcome}
use tcpclient_server.Queue
use tcpclient_server.Client.{
  Source, ClientPoint, taking, popping, sending, System, Reply, replied, thrown, start_client,
  open_connection, test_queue, take_front, receive_reply, pop_front, check_queue, end_round,
  check_scraper, scrape, write_datum, scraped_datum, act_on, verdict, Verdict, handle, go_on,
  give_up,
}
use tcpclient_server.Client.Steps.{
  Step, opens, tests, takes, receives, pops, checks, checks_scraper, loops, scrapes, pushes, Reach,
}
use tcpclient_server.Client.Fifo.{Inv, held, start_client-Inv, Reach-Inv}
use tcpclient_server.Client.Channel.{Channel, new_channel, answer, Transition, arrives, answers}

abbrev tail : {D : Type 0} → List D → List D
tail [] = []
tail (d ∷ q) = q

-- The request at the front of the queue is no longer waiting once its response has been handled,
-- although it has not been popped yet.
abbrev pub waiting_at : {D : Type 0} → ClientPoint D → List D → List D
waiting_at popping q = tail q
waiting_at _ q = q

abbrev pub channel_of : {I D R : Type 0} → System I D R → Channel D R
channel_of s = record { waiting = waiting_at s.client s.queue; answered = s.responses }

-- A step of the threads is no step of the channel, or one.
abbrev pub Refines : {I D R : Type 0} → System I D R → System I D R → Type 0
Refines s t = (channel_of t ≡ channel_of s) ⊎ Transition (channel_of s) (channel_of t)

waiting_at-push :
    {D : Type 0} (p : ClientPoint D) (q : List D) (x : D)
    → (p ≡ popping → q ≢ [])
    → waiting_at p (Queue.push q x) ≡ waiting_at p q ++ (x ∷ [])
unfolding Queue.push
waiting_at-push popping [] x h = absurd (h refl refl)
waiting_at-push popping (d ∷ q) x h = refl
waiting_at-push _ q x h = refl

module _ {I D R : Type 0} (s : System I D R) where
  act_on-Refines :
      (d : D) (rest : List D) (r : R) (a : Verdict)
      → s.client ≡ sending d
      → s.queue ≡ d ∷ rest
      → Refines s (act_on s d r a)
  unfolding act_on
  act_on-Refines d rest r handle e q =
      let there : waiting_at s.client s.queue ≡ d ∷ rest = rw e q in
      let gone : answer (channel_of s) d rest r ≡ channel_of (act_on s d r handle) = rw q refl in
      inr (subst (Transition (channel_of s)) gone (answers d rest r there))
  act_on-Refines d rest r (go_on b) e q = ground arith
  act_on-Refines d rest r (give_up ec) e q = ground arith

  receive_reply-Refines :
      (d : D) (r : Reply R) → s.client ≡ sending d → Inv s → Refines s (receive_reply s d r)
  unfolding receive_reply
  receive_reply-Refines d (thrown x) e v = ground arith
  receive_reply-Refines d (replied ec r) e v =
      let (rest, q, m) = held s (sending d) e v in
      act_on-Refines d rest r.payload (verdict ec r.transmission_status) e q

  pop_front-Refines : s.client ≡ popping → Inv s → Refines s (pop_front s)
  unfolding pop_front Queue.pop
  pop_front-Refines e v = let (d, rest, q, m) = held s popping e v in ground arith

  take_front-Refines : s.client ≡ taking → Refines s (take_front s)
  unfolding take_front Queue.front
  take_front-Refines e = ground arith

  write_datum-Refines : (source : Source I D) (d : D) → Inv s → Refines s (write_datum source s d)
  unfolding write_datum
  write_datum-Refines source d v =
      let some_front : s.client ≡ popping → s.queue ≢ [] =
        λ e. let (x, rest, q, m) = held s popping e v in rw q (λ h. cc) in
      let pushed = waiting_at-push s.client s.queue d some_front in
      inr (subst (Transition (channel_of s)) (rw pushed refl) (arrives d))

  scraped_datum-Refines :
      (source : Source I D) (o : Outcome D) (is : I) → Refines s (scraped_datum source s (o, is))
  unfolding scraped_datum
  scraped_datum-Refines source o is = ground arith

module _ {I D R : Type 0} (source : Source I D) where
  Step-Refines : {s t : System I D R} → Step source s t → Inv s → Refines s t
  unfolding open_connection test_queue check_queue end_round check_scraper scrape
  Step-Refines {s} (opens o e) v = ground arith
  Step-Refines {s} (tests e) v = ground arith
  Step-Refines {s} (takes e) v = take_front-Refines s e
  Step-Refines {s} (receives d r e) v = receive_reply-Refines s d r e v
  Step-Refines {s} (pops e) v = pop_front-Refines s e v
  Step-Refines {s} (checks e) v = ground arith
  Step-Refines {s} (checks_scraper e) v = ground arith
  Step-Refines {s} (loops input_ok e) v = ground arith
  Step-Refines {s} (scrapes e) v = ground (
    arith,
    scraped_datum-Refines s source (source.get_datum s.stream).0 (source.get_datum s.stream).1,
  )
  Step-Refines {s} (pushes d e) v = write_datum-Refines s source d v

  -- The client with its scraper implements a channel: it starts as an empty one, and in every state
  -- that it reaches, each step of a thread either leaves the channel as it is, or is an arrival of
  -- a request at its end, or answers the request at its front and takes it out. A reconnection, an
  -- error or the pop of the queue is no step of the channel.
  pub client-Refines :
      (is : I) (keep_alive : Bool) (s t : System I D R)
      → Reach source (start_client is keep_alive) s
      → Step source s t
      → (channel_of (start_client {D = D} {R = R} is keep_alive) ≡ new_channel) × Refines s t
  unfolding start_client
  client-Refines is keep_alive s t r st =
      (refl, Step-Refines st (Reach-Inv source r (start_client-Inv is keep_alive)))
