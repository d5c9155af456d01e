-- ===== src/Session/Turns.antt =====
-- One turn of a session: from a request that has arrived to the next read.
use tcpclient_server.Prelude.{ℕ, suc, ◌≡◌, refl, Bool, false, List, [], ◌∷◌, ◌++◌, Bytes}
use tcpclient_server.Errors.{success, Outcome, returns, ◌>>=◌}
use tcpclient_server.Response.{Response, ok}
use tcpclient_server.Connection.{WriteStart}
use tcpclient_server.Session.{
  replying, receiving, received, delivered, Session, do_receive, on_sent, do_reply, on_received,
  handle_at, handle_event,
}

module _ {C D : Type 0} (strategy : C → Outcome D) (async_write : Response D → WriteStart) where
  pub handle_event-received :
      (s : Session C D) (first : Bool) (n : ℕ) (c : C) (a : D) (buffers : List Bytes)
      → s.point ≡ receiving first
      → strategy c ≡ returns a
      → async_write (record { transmission_status = ok; payload = a }) ≡ WriteStart.writing buffers
      → handle_event strategy async_write s (received success n c)
        ≡ returns (record s {
          point = replying;
          requests = s.requests ++ (c ∷ []);
          replies = s.replies ++ (record { transmission_status = ok; payload = a } ∷ []);
        })
  unfolding handle_event handle_at on_received do_reply
  handle_event-received s first n c a buffers at answer start =
      rw (at, handle_at, answer, ◌>>=◌, do_reply, start) refl

  pub handle_event-delivered :
      (s : Session C D) (n : ℕ)
      → s.point ≡ replying
      → handle_event strategy async_write s (delivered success n)
        ≡ returns (record s { point = receiving false; sent = suc s.sent })
  unfolding handle_event handle_at on_sent do_receive
  handle_event-delivered s n at = rw (at, handle_at) refl
