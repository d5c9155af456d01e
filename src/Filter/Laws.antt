-- ===== src/Filter/Laws.antt =====
-- What a connection relies on in a filter, and that both filters provide it.
use tcpclient_server.Prelude.{Bool, true, false, [], ◌∷◌, Bytes, ◌≡◌, ◌≢◌, refl, ap, ◌∙◌}
use tcpclient_server.Errors.{returns, undefined}
use tcpclient_server.Filter.{
  Zlib, IsZlib, Filter, default_input_filter, inflated, compression_input_filter, create,
}

-- Data that is not empty passes through the output filter and back, and stays other than empty on
-- the way.
pub record IsFilter (f : Filter) : Type 0 where
  pub through : (s : Bytes) → s ≢ [] → f.input_filter (f.output_filter s) ≡ returns s
  pub kept : (s : Bytes) → s ≢ [] → f.output_filter s ≢ []

default-through : (s : Bytes) → s ≢ [] → default_input_filter s ≡ returns s
unfolding default_input_filter
default-through [] h = absurd (h refl)
default-through (c ∷ s) h = refl

compression-nonempty :
    (z : Zlib) (s : Bytes) → s ≢ [] → compression_input_filter z s ≡ inflated (z.decompress s)
unfolding compression_input_filter
compression-nonempty z [] h = absurd (h refl)
compression-nonempty z (c ∷ s) h = refl

compression-through :
    (z : Zlib) → IsZlib z → (s : Bytes) → compression_input_filter z (z.compress s) ≡ returns s
unfolding inflated
compression-through z law s =
    compression-nonempty z (z.compress s) (law.has_header s) ∙ ap inflated (law.inverse s)

-- Whichever filter the factory makes, data that is not empty comes back unchanged through it and is
-- not empty on the way, if zlib inflates what it deflated and always writes its header.
pub create-IsFilter : (z : Zlib) (compressed : Bool) → IsZlib z → IsFilter (create z compressed)
unfolding create
create-IsFilter z true law = record {
  through = λ s _. compression-through z law s;
  kept = λ s _. law.has_header s;
}
create-IsFilter z false law = record { through = default-through; kept = λ s h. h }

-- An empty message is undefined behaviour in every filter that the factory makes.
pub create-nil : (z : Zlib) (compressed : Bool) → (create z compressed).input_filter [] ≡ undefined
unfolding create
create-nil z true = refl
create-nil z false = refl
