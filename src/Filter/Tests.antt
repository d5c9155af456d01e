-- ===== src/Filter/Tests.antt =====
-- A stand-in for zlib, and the filters over it.
use tcpclient_server.Prelude.{[], ◌∷◌, Bytes, Option, none, some, refl, if◌then◌else◌, ◌==◌}
use tcpclient_server.Filter.{Zlib, IsZlib}

-- A zlib stream begins with the byte 0x78; the stand-in writes that and does not compress.
abbrev inflate : Bytes → Option Bytes
inflate [] = none
inflate (c ∷ s) = if c == 0x78 then some s else none

abbrev pub marking : Zlib
marking = record { compress = λ s. 0x78 ∷ s; decompress = inflate }

pub marking-IsZlib : IsZlib marking
marking-IsZlib = record { inverse = λ s. refl; has_header = λ s e. cc }
