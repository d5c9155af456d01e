-- ===== src/Proactor/Table.antt =====
-- The sessions of a host: what holds of all of them.
use tcpclient_server.Prelude.{
  ℕ, ◌≡◌, List, [], ◌∷◌, some, ◌==◌, ◌≢◌, refl, arith, Bool-cases, inl, inr,
}
use mathlib.Core.Path.{subst}
use tcpclient_server.Proactor.{Peer, find_peer, put_peer}

module _ {S C D : Type 0} (P : Peer S C D → Type 0) where
  abbrev pub AllPeers : List (Peer S C D) → Type 0
  AllPeers [] = Unit
  AllPeers (p ∷ ps) = P p × AllPeers ps

  pub find_peer-AllPeers :
      (i : ℕ) (ps : List (Peer S C D)) (p : Peer S C D)
      → AllPeers ps
      → find_peer i ps ≡ some p
      → P p
  unfolding find_peer
  find_peer-AllPeers i [] p k h = cc
  find_peer-AllPeers i (x ∷ ps) p k h = elim (Bool-cases (x.session.session_id == i)) [
    | inl here ↦ let same : x ≡ p = ground arith in subst P same k.0
    | inr there ↦ find_peer-AllPeers i ps p k.1 (rw there at h)
  ]

  pub put_peer-AllPeers :
      (i : ℕ) (q : Peer S C D) (ps : List (Peer S C D))
      → P q
      → AllPeers ps
      → AllPeers (put_peer i q ps)
  unfolding put_peer
  put_peer-AllPeers i q [] e k = tt
  put_peer-AllPeers i q (x ∷ ps) e k = elim (Bool-cases (x.session.session_id == i)) [
    | inl here ↦ rw here (e, k.1)
    | inr there ↦ rw there (k.0, put_peer-AllPeers i q ps e k.1)
  ]

module _ {S C D : Type 0} {P Q : Peer S C D → Type 0} where
  pub AllPeers-map :
      (f : (p : Peer S C D) → P p → Q p) (ps : List (Peer S C D)) → AllPeers P ps → AllPeers Q ps
  AllPeers-map f [] k = tt
  AllPeers-map f (p ∷ ps) k = (f p k.0, AllPeers-map f ps k.1)

module _ {S C D : Type 0} where
  pub find_peer-id :
      (i : ℕ) (ps : List (Peer S C D)) (p : Peer S C D)
      → find_peer i ps ≡ some p
      → p.session.session_id ≡ i
  unfolding find_peer
  find_peer-id i [] p h = cc
  find_peer-id i (x ∷ ps) p h = ground (arith, find_peer-id i ps p)

  pub put_peer-same :
      (i : ℕ) (q : Peer S C D) (ps : List (Peer S C D)) (p : Peer S C D)
      → q.session.session_id ≡ i
      → find_peer i ps ≡ some p
      → find_peer i (put_peer i q ps) ≡ some q
  unfolding find_peer put_peer
  put_peer-same i q [] p e h = cc
  put_peer-same i q (x ∷ ps) p e h = ground (arith, put_peer-same i q ps p e)

  pub put_peer-other :
      (i j : ℕ) (q : Peer S C D) (ps : List (Peer S C D))
      → i ≢ j
      → q.session.session_id ≡ j
      → find_peer i (put_peer j q ps) ≡ find_peer i ps
  unfolding find_peer put_peer
  put_peer-other i j q [] n e = refl
  put_peer-other i j q (x ∷ ps) n e = ground (arith, put_peer-other i j q ps n e)
