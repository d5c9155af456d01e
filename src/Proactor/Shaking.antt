-- ===== src/Proactor/Shaking.antt =====
-- Where a session waits for its handshake, its connection has left one of the server's side
-- pending.
use tcpclient_server.Prelude.{◌≡◌, refl, sym, ap, ◌∙◌, inl, inr}
use mathlib.Core.Path.{subst}
use tcpclient_server.Errors.{Outcome, returns}
use tcpclient_server.Response.{Response}
use tcpclient_server.Io.{Asio, Io, unsecured, ssl, server, handshaking}
use tcpclient_server.Io
use tcpclient_server.Connection.{Archive}
use tcpclient_server.Endpoints.{async_initialize}
use tcpclient_server.Session.{initializing, replying, Session, do_initialize}
use tcpclient_server.Session.Pending.{IsSettled, handle_event-Moves, do_initialize-unsecured}
use tcpclient_server.Proactor.{Peer, Completion, complete}
use tcpclient_server.Proactor.Peers.{complete-Advances}

abbrev pub Shakes : {S C D : Type 0} → Peer S C D → Type 0
Shakes p =
    p.session.point ≡ initializing → async_initialize p.connection ≡ returns (handshaking server)

module _ {C D : Type 0} where
  pub do_initialize-shakes :
      (io : Io) (s t : Session C D)
      → do_initialize (Io.async_initialize io) s ≡ returns t
      → t.point ≡ initializing
      → Io.async_initialize io ≡ returns (handshaking server)
  unfolding Io.async_initialize
  do_initialize-shakes unsecured s t h at =
      absurd (subst IsSettled at (do_initialize-unsecured s t h))
  do_initialize-shakes (ssl io) s t h at = refl

pub do_initialize-Shakes :
    {S C D : Type 0} (p : Peer S C D) (s : Session C D)
    → do_initialize (async_initialize p.connection) p.session ≡ returns s
    → Shakes (record p { session = s })
unfolding async_initialize
do_initialize-Shakes p s h at = do_initialize-shakes p.connection.io p.session s h at

module _ {S C D : Type 0} (asio : Asio S) (requests : Archive C) (responses : Archive (Response D))
    (strategy : C → Outcome D) where
  pub complete-Shakes :
      (p q : Peer S C D) (e : Completion)
      → Shakes p
      → complete asio requests responses strategy p e ≡ returns q
      → Shakes q
  unfolding async_initialize
  complete-Shakes p q e v h at =
      let ((same, io), moved) = complete-Advances asio requests responses strategy p q e h in
      let as_before = ap Io.async_initialize io in
      elim moved [
        | inl stays ↦ as_before ∙ v (sym (ap (λ s. s.point) stays) ∙ at)
        | inr (ev, handled) ↦ elim (handle_event-Moves strategy _ p.session q.session ev handled) [
          | inl stays ↦ as_before ∙ v (sym (ap (λ s. s.point) stays) ∙ at)
          | inr (inl (r, bs, more, begun, there)) ↦
              let no : replying ≡ initializing = sym there ∙ at in cc
          | inr (inr settled) ↦ absurd (subst IsSettled at settled)
        ]
      ]
