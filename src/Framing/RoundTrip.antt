-- ===== src/Framing/RoundTrip.antt =====
-- Reading the packets that were written.
use mathlib.Core.List.{append_assoc}
use ascii_poker.Prelude.{
  ℕ, zero, suc, ◌<◌, ◌≤◌, ◌≡◌, refl, ap, sym, ◌∙◌, if◌then◌else◌, ltb, Bool, true, false, List, [],
  ◌∷◌, ◌++◌, length, take, drop, All, some, arith, length-append,
}
use ascii_poker.Framing.{
  Endian, stored, loaded, from_big_endian, decode_packet_length, to_big_endian, max_packet_size,
  is_valid_packet_length, encode_packet, Read, waiting, closed, received, read_body, read_packet,
}
use ascii_poker.Framing.Header.{stored-loaded, loaded_bound, swap_twice, read_packet-stored}

take-append : (xs ys : List ℕ) → take (length xs) (xs ++ ys) ≡ xs
take-append [] ys = refl
take-append (x ∷ xs) ys = ap (λ (t : List ℕ). x ∷ t) (take-append xs ys)

drop-append : (xs ys : List ℕ) → drop (length xs) (xs ++ ys) ≡ ys
drop-append [] ys = refl
drop-append (x ∷ xs) ys = drop-append xs ys

-- A packet of a message, as `encode_packet` makes it.
encode_packet-some :
    (e : Endian) (body packet : List ℕ)
    → encode_packet e body ≡ some packet
    → (length body ≤ max_packet_size) × (packet ≡ stored e (to_big_endian (length body)) ++ body)
unfolding encode_packet
encode_packet-some e body packet h = ground arith

not_less : (body rest : List ℕ) → ltb (length (body ++ rest)) (length body) ≡ false
not_less body rest = ground (arith, length-append body rest)

is_valid_packet_length-true :
    (n : ℕ) → 0 < n → n ≤ max_packet_size → is_valid_packet_length n ≡ true
is_valid_packet_length-true n h k = ground arith

encode_packet-fits :
    (e : Endian) (body : List ℕ)
    → length body ≤ max_packet_size
    → encode_packet e body ≡ some (stored e (to_big_endian (length body)) ++ body)
unfolding encode_packet
encode_packet-fits e body h = ground arith

read_body-append :
    (body rest : List ℕ) → read_body (length body) (body ++ rest) ≡ received body rest
unfolding read_body
read_body-append body rest =
    let enough : ltb (length (body ++ rest)) (length body) ≡ false = not_less body rest in
    ap
      (λ (b : Bool).
        if b
        then waiting
        else received (take (length body) (body ++ rest)) (drop (length body) (body ++ rest)))
      enough
    ∙ λ i. received (take-append body rest i) (drop-append body rest i)

-- A message that is not empty and that encode_packet takes is read back, with the bytes after it.
pub read_packet-encode_packet :
    (e : Endian) (body packet rest : List ℕ)
    → encode_packet e body ≡ some packet
    → 0 < length body
    → read_packet e (packet ++ rest) ≡ received body rest
read_packet-encode_packet e body packet rest h positive =
    let (fits, made) = encode_packet-some e body packet h in
    ap (λ (p : List ℕ). read_packet e (p ++ rest)) made
    ∙ ap (read_packet e) (append_assoc (stored e (to_big_endian (length body))) body rest)
    ∙ read_packet-stored e (length body) (body ++ rest) (omega arith)
    ∙ ap (λ (b : Bool). if b then read_body (length body) (body ++ rest) else closed)
        (is_valid_packet_length-true (length body) positive fits)
    ∙ read_body-append body rest

body_of : Read → List ℕ → List ℕ
body_of (received body rest) other = body
body_of _ other = other

rest_of : Read → List ℕ → List ℕ
rest_of (received body rest) other = rest
rest_of _ other = other

received-injective :
    (body rest body' rest' : List ℕ)
    → received body rest ≡ received body' rest'
    → (body ≡ body') × (rest ≡ rest')
unfolding body_of rest_of
received-injective body rest body' rest' h =
    (ap (λ (r : Read). body_of r []) h, ap (λ (r : Read). rest_of r []) h)

take-append_drop : (n : ℕ) (xs : List ℕ) → take n xs ++ drop n xs ≡ xs
take-append_drop zero xs = refl
take-append_drop (suc n) [] = refl
take-append_drop (suc n) (x ∷ xs) = ap (λ (t : List ℕ). x ∷ t) (take-append_drop n xs)

length-take : (n : ℕ) (xs : List ℕ) → n ≤ length xs → length (take n xs) ≡ n
length-take zero xs h = refl
length-take (suc n) [] h = omega arith
length-take (suc n) (x ∷ xs) h = omega (arith, length-take n xs (omega arith))

read_enough :
    (l n : ℕ) (taken left body rest : List ℕ)
    → (if ltb l n then waiting else received taken left) ≡ received body rest
    → (n ≤ l) × (received taken left ≡ received body rest)
read_enough l n taken left body rest h = ground arith

read_body-received :
    (n : ℕ) (stream body rest : List ℕ)
    → read_body n stream ≡ received body rest
    → (length body ≡ n) × (stream ≡ body ++ rest)
unfolding read_body
read_body-received n stream body rest h =
    let (enough, read) =
      read_enough (length stream) n (take n stream) (drop n stream) body rest h in
    let (taken, left) = received-injective (take n stream) (drop n stream) body rest read in
    (
      ap length (sym taken) ∙ length-take n stream enough,
      sym (take-append_drop n stream) ∙ λ i. taken i ++ left i,
    )

-- A header that is taken has a valid length.
read_valid :
    (v : ℕ) (stream body rest : List ℕ)
    → (if is_valid_packet_length v then read_body v stream else closed) ≡ received body rest
    → (0 < v) × (v ≤ max_packet_size) × (read_body v stream ≡ received body rest)
read_valid v stream body rest h = ground arith

-- What has been read was written: a stream of bytes that is read as a message begins with the packet
-- of that message, which is not empty and has at most max_packet_size bytes.
pub read_packet-received :
    (e : Endian) (stream body rest : List ℕ)
    → All (λ b. b < 256) stream
    → read_packet e stream ≡ received body rest
    → (packet : List ℕ) × (encode_packet e body ≡ some packet)
      × (stream ≡ packet ++ rest)
      × (0 < length body)
unfolding read_packet decode_packet_length encode_packet
read_packet-received e [] body rest bytes h = ground arith
read_packet-received e (a ∷ b ∷ c ∷ d ∷ stream) body rest bytes h =
    let v = from_big_endian (loaded e a b c d) in
    let (positive, fits, read) = read_valid v stream body rest h in
    let (size, split) = read_body-received v stream body rest read in
    let header : stored e (to_big_endian (length body)) ≡ a ∷ b ∷ c ∷ d ∷ [] =
      ap (λ (n : ℕ). stored e (to_big_endian n)) size
      ∙ ap (stored e) (
          swap_twice (loaded e a b c d)
            (loaded_bound e a b c d bytes.0 bytes.1.0 bytes.1.1.0 bytes.1.1.1.0))
      ∙ stored-loaded e a b c d bytes.0 bytes.1.0 bytes.1.1.0 bytes.1.1.1.0 in
    (
      stored e (to_big_endian (length body)) ++ body,
      encode_packet-fits e body (omega (arith, size, fits)),
      ap (λ (t : List ℕ). a ∷ b ∷ c ∷ d ∷ t) split
          ∙ sym (ap (λ (t : List ℕ). (t ++ body) ++ rest) header),
      omega (arith, size, positive),
    )
read_packet-received e _ body rest bytes h = ground arith
