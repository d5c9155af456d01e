-- ===== src/Programs/Exits.antt =====
-- How the client's program can end.
use tcpclient_server.Prelude.{
  true, false, Bool, List, [], ◌∷◌, ◌≡◌, ◌≢◌, refl, Bytes, some, inl, inr, arith, Bool-cases,
}
use mathlib.Core.Path.{subst}
use tcpclient_server.Errors.{returns}
use tcpclient_server.Client.{ClientPoint, Source, System, start_client}
use tcpclient_server.Client.Steps.{Reach}
use tcpclient_server.Client.Alive.{GoesOn, Reach-keep_alive}
use tcpclient_server.Programs.{
  SslConstants, Input, standard_input, input_file, ClientArgs, Launch, goes_on, exit_success,
  client_launch, client_args, choose_input, client_exit,
}

-- The client is kept alive exactly if it reads the standard input.
abbrev pub KeptFor : Input → Bool → Type 0
KeptFor standard_input b = b ≡ true
KeptFor (input_file f) b = b ≡ false

abbrev AllKept : Launch ClientArgs → Type 0
AllKept (goes_on (returns a)) = KeptFor a.input a.keep_alive
AllKept _ = Unit

client_exit-GoesOn : {D : Type 0} (p : ClientPoint D) → GoesOn p → client_exit p ≢ some exit_success
unfolding client_exit
client_exit-GoesOn p h = ground arith

module _ (k : SslConstants) (install_dir : Bytes) (opens : Bytes → Bool) where
  client_args-AllKept :
      (client_id host service f : Bytes)
      → AllKept (goes_on (client_args k install_dir client_id host service (choose_input opens f)))
  unfolding client_args choose_input
  client_args-AllKept client_id host service [] = refl
  client_args-AllKept client_id host service (c ∷ s) = elim (Bool-cases (opens (c ∷ s))) [
    | inl e ↦ rw e refl
    | inr e ↦ rw e tt
  ]

  client_launch-AllKept : (argv : List Bytes) → AllKept (client_launch k install_dir opens argv)
  unfolding client_launch
  client_launch-AllKept [] = tt
  client_launch-AllKept (p ∷ []) = tt
  client_launch-AllKept (p ∷ i ∷ []) = tt
  client_launch-AllKept (p ∷ i ∷ h ∷ []) = tt
  client_launch-AllKept (p ∷ i ∷ h ∷ s ∷ []) = client_args-AllKept i h s []
  client_launch-AllKept (p ∷ i ∷ h ∷ s ∷ f ∷ []) = client_args-AllKept i h s f
  client_launch-AllKept (p ∷ i ∷ h ∷ s ∷ f ∷ x ∷ xs) = tt

  -- A program whose arguments make it read the standard input never exits with success, whatever it
  -- reads and whatever the server and the network do: while it runs it goes on, and it ends by a
  -- failure.
  pub standard_input_never_succeeds :
      {I D R : Type 0} (source : Source I D) (argv : List Bytes) (a : ClientArgs) (is : I)
      (t : System I D R)
      → client_launch k install_dir opens argv ≡ goes_on (returns a)
      → a.input ≡ standard_input
      → Reach source (start_client is a.keep_alive) t
      → client_exit t.client ≢ some exit_success
  standard_input_never_succeeds source argv a is t launched input r =
      let kept : KeptFor a.input a.keep_alive =
        subst AllKept launched (client_launch-AllKept argv) in
      let alive : a.keep_alive ≡ true = subst (λ i. KeptFor i a.keep_alive) input kept in
      client_exit-GoesOn t.client (Reach-keep_alive source is (rw alive at r))
