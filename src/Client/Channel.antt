-- ===== src/Client/Channel.antt =====
-- What the client and its scraper amount to for the user: a channel, to which requests arrive and
-- which answers them in the order of their arrival, each once.
use tcpclient_server.Prelude.{List, [], ◌∷◌, ◌++◌, ◌≡◌}

pub record Channel (D R : Type 0) : Type 0 where
  pub waiting : List D
  pub answered : List (D × R)

module _ {D R : Type 0} where
  abbrev pub new_channel : Channel D R
  new_channel = record { waiting = []; answered = [] }

  abbrev pub arrive : Channel D R → D → Channel D R
  arrive c d = record c { waiting = c.waiting ++ (d ∷ []) }

  -- The request at the front is answered.
  abbrev pub answer : Channel D R → D → List D → R → Channel D R
  answer c d rest r = record { waiting = rest; answered = c.answered ++ ((d, r) ∷ []) }

pub data Transition {D R : Type 0} (c : Channel D R) : Channel D R → Type 0 where
  arrives : (d : D) → Transition c (arrive c d)
  answers :
      (d : D) (rest : List D) (r : R) → c.waiting ≡ d ∷ rest → Transition c (answer c d rest r)
