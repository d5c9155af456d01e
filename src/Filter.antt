-- ===== src/Filter.antt =====
-- The filters of ClientServerFramework/Shared/IO: Filter_base.hpp, DefaultFilter.hpp,
-- CompressionFilter.hpp and Filter_base_factory.hpp. zlib is a parameter.
pub mod Laws
pub mod Tests
use tcpclient_server.Prelude.{ℕ, Bool, true, false, [], ◌∷◌, Bytes, Option, none, some, ◌≡◌, ◌≢◌}
use tcpclient_server.Errors.{Outcome, returns, throws, undefined, zlib_error}

-- zlib as the filters call it; `none` is its exception on data that it cannot inflate.
pub record Zlib : Type 0 where
  pub compress : Bytes → Bytes
  pub decompress : Bytes → Option Bytes

-- What zlib documents: inflating undoes deflating, and a zlib stream begins with a header.
pub record IsZlib (z : Zlib) : Type 0 where
  pub inverse : (s : Bytes) → z.decompress (z.compress s) ≡ some s
  pub has_header : (s : Bytes) → z.compress s ≢ []

-- `Filter_base`. The interface is dispatched virtually, so it is a record of functions.
pub record Filter : Type 0 where
  pub output_filter : Bytes → Bytes
  pub input_filter : Bytes → Outcome Bytes

-- Both input filters take `&inbound[0]`, which is undefined for an empty vector.
pub default_input_filter : Bytes → Outcome Bytes
default_input_filter [] = undefined
default_input_filter (c ∷ s) = returns (c ∷ s)

pub default_filter : Filter
unfolding default_input_filter
default_filter = record {
  output_filter = λ outbound. outbound;
  input_filter = default_input_filter;
}

inflated : Option Bytes → Outcome Bytes
inflated none = throws zlib_error
inflated (some s) = returns s

pub compression_input_filter : Zlib → Bytes → Outcome Bytes
unfolding inflated
compression_input_filter z [] = undefined
compression_input_filter z (c ∷ s) = inflated (z.decompress (c ∷ s))

pub compression_filter : Zlib → Filter
unfolding compression_input_filter
compression_filter z = record {
  output_filter = z.compress;
  input_filter = compression_input_filter z;
}

-- `Filter_base_factory::create`.
unfoldable pub create : Zlib → Bool → Filter
unfolding default_filter compression_filter
create z compressed = elim compressed [ true ↦ compression_filter z | false ↦ default_filter ]
