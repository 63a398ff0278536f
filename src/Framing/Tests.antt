-- ===== src/Framing/Tests.antt =====
-- A packet, written and read.
use ascii_poker.Prelude.{ℕ, ◌≡◌, ◌<◌, refl, List, [], ◌∷◌, ◌++◌, some, length, arith}
use ascii_poker.Framing.{little, big, encode_packet, received, closed, read_packet}
use ascii_poker.Framing.RoundTrip.{read_packet-encode_packet, read_packet-received}

abbrev hello : List ℕ
hello = b'h' ∷ b'i' ∷ []

-- The length comes first, the high byte before the low one.
abbrev hello_packet : List ℕ
hello_packet = 0 ∷ 0 ∷ 0 ∷ 2 ∷ b'h' ∷ b'i' ∷ []

hello_written : encode_packet little hello ≡ some hello_packet
unfolding encode_packet
hello_written = refl

read_packet-encode_packet_example :
    read_packet little (hello_packet ++ (7 ∷ [])) ≡ received hello (7 ∷ [])
read_packet-encode_packet_example =
    read_packet-encode_packet little hello hello_packet (7 ∷ []) hello_written (omega arith)

hello_read : read_packet little (0 ∷ 0 ∷ 0 ∷ 2 ∷ b'h' ∷ b'i' ∷ 7 ∷ []) ≡ received hello (7 ∷ [])
unfolding read_packet
hello_read = refl

read_packet-received_example :
    (packet : List ℕ) × (encode_packet little hello ≡ some packet)
    × (0 ∷ 0 ∷ 0 ∷ 2 ∷ b'h' ∷ b'i' ∷ 7 ∷ [] ≡ packet ++ (7 ∷ []))
    × (0 < length hello)
read_packet-received_example =
    read_packet-received little (0 ∷ 0 ∷ 0 ∷ 2 ∷ b'h' ∷ b'i' ∷ 7 ∷ []) hello (7 ∷ [])
      (
        omega arith,
        (omega arith, (omega arith, (omega arith, (omega arith, (omega arith, (omega arith, _)))))),
      )
      hello_read

-- A packet without a body is written, and closes the session that reads it.
empty_closes : read_packet little (0 ∷ 0 ∷ 0 ∷ 0 ∷ []) ≡ closed
unfolding read_packet
empty_closes = refl

-- On a host that stores the high byte first, the length comes with its low byte first.
big_host : encode_packet big hello ≡ some (2 ∷ 0 ∷ 0 ∷ 0 ∷ b'h' ∷ b'i' ∷ [])
unfolding encode_packet
big_host = refl
