-- ===== src/Framing.antt =====
-- Packets: common/src/packet_framing.cpp, common/include/poker/packet_framing.h and network_limits.h,
-- and how server/src/network/session.cpp reads them. A byte is a number.
pub mod Header
pub mod RoundTrip
pub mod Tests
use ascii_poker.Prelude.{
  ℕ, ◌+◌, ◌*◌, ◌/◌, ◌%◌, Bool, true, false, ◌&&◌, List, [], ◌∷◌, ◌++◌, Option, none, some, length,
  take, drop, ltb, leb, if◌then◌else◌,
}

abbrev pub max_packet_size : ℕ
max_packet_size = 1024 * 1024

abbrev pub is_valid_packet_length : ℕ → Bool
is_valid_packet_length length = ltb 0 length && leb length max_packet_size

-- The byte order of the host.
pub data Endian : Type 0 where
  little big : Endian

-- The four bytes of a uint32_t in the memory of the host, and the value that four bytes have there.
abbrev pub stored : Endian → ℕ → List ℕ
stored little v = v % 256 ∷ v / 256 % 256 ∷ v / 65536 % 256 ∷ v / 16777216 % 256 ∷ []
stored big v = v / 16777216 % 256 ∷ v / 65536 % 256 ∷ v / 256 % 256 ∷ v % 256 ∷ []

abbrev pub loaded : Endian → ℕ → ℕ → ℕ → ℕ → ℕ
loaded little a b c d = a + b * 256 + c * 65536 + d * 16777216
loaded big a b c d = d + c * 256 + b * 65536 + a * 16777216

-- Each mask takes one byte, and the shifted bytes do not overlap: `|` is a sum.
unfoldable pub to_big_endian : ℕ → ℕ
to_big_endian v =
    v % 256 * 16777216 + v / 256 % 256 * 65536 + v / 65536 % 256 * 256 + v / 16777216 % 256

unfoldable pub from_big_endian : ℕ → ℕ
unfolding to_big_endian
from_big_endian v = to_big_endian v

-- `std::length_error` is `none`.
unfoldable pub encode_packet : Endian → List ℕ → Option (List ℕ)
unfolding to_big_endian
encode_packet e body =
    if ltb max_packet_size (length body)
    then none
    else some (stored e (to_big_endian (length body)) ++ body)

-- `out_length`, and the result.
unfoldable pub decode_packet_length : Endian → ℕ → ℕ → ℕ → ℕ → ℕ × Bool
unfolding from_big_endian
decode_packet_length e a b c d =
    let out_length = from_big_endian (loaded e a b c d) in
    (out_length, is_valid_packet_length out_length)

-- A read of a session from the bytes that have arrived: it waits for more, closes the session, or has
-- the body of a message and the bytes after it.
pub data Read : Type 0 where
  waiting closed : Read
  received : List ℕ → List ℕ → Read

unfoldable pub read_body : ℕ → List ℕ → Read
read_body n stream =
    if ltb (length stream) n then waiting else received (take n stream) (drop n stream)

unfoldable pub read_packet : Endian → List ℕ → Read
unfolding decode_packet_length read_body
read_packet e (a ∷ b ∷ c ∷ d ∷ stream) =
    let (out_length, valid) = decode_packet_length e a b c d in
    if valid then read_body out_length stream else closed
read_packet e _ = waiting
