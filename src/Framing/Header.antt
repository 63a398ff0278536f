-- ===== src/Framing/Header.antt =====
-- The four bytes before a message.
use ascii_poker.Prelude.{
  ℕ, ◌+◌, ◌*◌, ◌/◌, ◌%◌, ◌<◌, ◌≡◌, ap, ◌∙◌, if◌then◌else◌, ◌++◌, List, [], ◌∷◌, arith,
}
use ascii_poker.Framing.{
  Endian, little, big, stored, loaded, to_big_endian, from_big_endian, decode_packet_length,
  is_valid_packet_length, read_packet, read_body, closed,
}

-- Swapping the bytes twice changes nothing.
to_big_endian_twice : (v : ℕ) → v < 4294967296 → to_big_endian (to_big_endian v) ≡ v
unfolding to_big_endian
to_big_endian_twice v h = omega arith

pub to_big_endian_bound : (v : ℕ) → to_big_endian v < 4294967296
unfolding to_big_endian
to_big_endian_bound v = omega arith

-- The value of the bytes of a number is the number.
value_of_bytes :
    (v : ℕ)
    → v < 4294967296
    → v % 256 + v / 256 % 256 * 256 + v / 65536 % 256 * 65536 + v / 16777216 % 256 * 16777216 ≡ v
value_of_bytes v h = omega arith

-- The bytes of the value of four bytes are these bytes.
bytes_of_value :
    (a b c d : ℕ)
    → a < 256
    → b < 256
    → c < 256
    → d < 256
    → let v = a + b * 256 + c * 65536 + d * 16777216 in
      (v % 256 ≡ a) × (v / 256 % 256 ≡ b) × (v / 65536 % 256 ≡ c) × (v / 16777216 % 256 ≡ d)
bytes_of_value a b c d ha hb hc hd = (omega arith, omega arith, omega arith, omega arith)

pub stored-loaded :
    (e : Endian) (a b c d : ℕ)
    → a < 256
    → b < 256
    → c < 256
    → d < 256
    → stored e (loaded e a b c d) ≡ a ∷ b ∷ c ∷ d ∷ []
stored-loaded little a b c d ha hb hc hd =
    let bytes = bytes_of_value a b c d ha hb hc hd in
    λ i. bytes.0 i ∷ bytes.1 i ∷ bytes.2 i ∷ bytes.3 i ∷ []
stored-loaded big a b c d ha hb hc hd =
    let bytes = bytes_of_value d c b a hd hc hb ha in
    λ i. bytes.3 i ∷ bytes.2 i ∷ bytes.1 i ∷ bytes.0 i ∷ []

pub loaded_bound :
    (e : Endian) (a b c d : ℕ)
    → a < 256
    → b < 256
    → c < 256
    → d < 256
    → loaded e a b c d < 4294967296
loaded_bound little a b c d ha hb hc hd = omega arith
loaded_bound big a b c d ha hb hc hd = omega arith

pub swap_twice : (v : ℕ) → v < 4294967296 → to_big_endian (from_big_endian v) ≡ v
unfolding from_big_endian
swap_twice v h = to_big_endian_twice v h

-- A header is read as the number that it was written for.
pub read_packet-stored :
    (e : Endian) (v : ℕ) (rest : List ℕ)
    → v < 4294967296
    → read_packet e (stored e (to_big_endian v) ++ rest)
      ≡ (if is_valid_packet_length v then read_body v rest else closed)
unfolding read_packet decode_packet_length from_big_endian
read_packet-stored little v rest h =
    ap (λ (n : ℕ). if is_valid_packet_length n then read_body n rest else closed)
      (ap to_big_endian (value_of_bytes (to_big_endian v) (to_big_endian_bound v))
        ∙ to_big_endian_twice v h)
read_packet-stored big v rest h =
    ap (λ (n : ℕ). if is_valid_packet_length n then read_body n rest else closed)
      (ap to_big_endian (value_of_bytes (to_big_endian v) (to_big_endian_bound v))
        ∙ to_big_endian_twice v h)
