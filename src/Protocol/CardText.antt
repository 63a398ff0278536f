-- ===== src/Protocol/CardText.antt =====
-- The texts that `from_json` of common/include/poker/protocol.h takes for a card.
use mathlib.Core.Option.{some-injective}
use ascii_poker.Prelude.{
  Bool, ◌==◌, ==_iff, Bool-cases, if◌then◌else◌, ℕ, ◌≡◌, refl, ◌∙◌, ap, sym, Option, none, some,
  List, [], ◌∷◌, ◌++◌, arith, inl, inr,
}
use ascii_poker.Card.{
  Suit, clubs, diamonds, hearts, spades, Rank, two, three, four, five, six, seven, eight, nine, ten,
  jack, queen, king, ace, Card,
}
use ascii_poker.Protocol.Json.{◌>>=◌}
use ascii_poker.Protocol.Words.{
  codes, suit_symbol, rank_symbol, card_to_string, suit_from_code, rank_from_code, rank_from_codes,
  split_last, card_from_codes,
}

-- One test of a `switch` on a character.
one_if {ℓ} :
    {A : Type ℓ} (text_of : A → List ℕ) (c k : ℕ) (a : A) (rest : Option A) (x : A)
    → text_of a ≡ k ∷ []
    → (rest ≡ some x → text_of x ≡ c ∷ [])
    → (if c == k then some a else rest) ≡ some x
    → text_of x ≡ c ∷ []
one_if text_of c k a rest x e other h = elim (Bool-cases (c == k)) [
  | inl t ↦
      sym (
        ap text_of (some-injective a x (sym (ap (λ (b : Bool). if b then some a else rest) t) ∙ h)))
      ∙ e
      ∙ ap (λ (n : ℕ). n ∷ []) (sym ((==_iff c k).0 t))
  | inr f ↦ other (sym (ap (λ (b : Bool). if b then some a else rest) f) ∙ h)
]

suit_from_code-suit_symbol :
    (c : ℕ) (x : Suit) → suit_from_code c ≡ some x → codes (suit_symbol x) ≡ c ∷ []
suit_from_code-suit_symbol c x =
    one_if (λ s. codes (suit_symbol s)) c b'C' clubs _ x refl
      (one_if (λ s. codes (suit_symbol s)) c b'D' diamonds _ x refl
        (one_if (λ s. codes (suit_symbol s)) c b'H' hearts _ x refl
          (one_if (λ s. codes (suit_symbol s)) c b'S' spades _ x refl (λ h. ground arith))))

rank_from_code-rank_symbol :
    (c : ℕ) (x : Rank) → rank_from_code c ≡ some x → codes (rank_symbol x) ≡ c ∷ []
unfolding rank_from_code
rank_from_code-rank_symbol c x =
    one_if (λ r. codes (rank_symbol r)) c b'2' two _ x refl
      (one_if (λ r. codes (rank_symbol r)) c b'3' three _ x refl
        (one_if (λ r. codes (rank_symbol r)) c b'4' four _ x refl
          (one_if (λ r. codes (rank_symbol r)) c b'5' five _ x refl
            (one_if (λ r. codes (rank_symbol r)) c b'6' six _ x refl
              (one_if (λ r. codes (rank_symbol r)) c b'7' seven _ x refl
                (one_if (λ r. codes (rank_symbol r)) c b'8' eight _ x refl
                  (one_if (λ r. codes (rank_symbol r)) c b'9' nine _ x refl
                    (one_if (λ r. codes (rank_symbol r)) c b'J' jack _ x refl
                      (one_if (λ r. codes (rank_symbol r)) c b'Q' queen _ x refl
                        (one_if (λ r. codes (rank_symbol r)) c b'K' king _ x refl
                          (one_if (λ r. codes (rank_symbol r)) c b'A' ace _ x refl
                            (λ h. ground arith))))))))))))

ten_read :
    (c d : ℕ) (x : Rank)
    → (if c == b'1' then (if d == b'0' then some ten else none) else none) ≡ some x
    → (c ≡ b'1') × (d ≡ b'0') × (ten ≡ x)
ten_read c d x h = ground arith

rank_from_codes-rank_symbol :
    (cs : List ℕ) (x : Rank) → rank_from_codes cs ≡ some x → codes (rank_symbol x) ≡ cs
unfolding rank_from_codes
rank_from_codes-rank_symbol [] x h = ground arith
rank_from_codes-rank_symbol (c ∷ []) x h = rank_from_code-rank_symbol c x h
rank_from_codes-rank_symbol (c ∷ d ∷ []) x h =
    let e : (c ≡ b'1') × (d ≡ b'0') × (ten ≡ x) = ten_read c d x h in
    sym (ap (λ (r : Rank). codes (rank_symbol r)) e.2) ∙ simp (e.0, e.1)
rank_from_codes-rank_symbol (c ∷ d ∷ e ∷ cs) x h = ground arith

split_last-append :
    (c : ℕ) (cs : List ℕ) → let (before, last) = split_last c cs in before ++ (last ∷ []) ≡ c ∷ cs
split_last-append c [] = refl
split_last-append c (d ∷ cs) = ap (λ (t : List ℕ). c ∷ t) (split_last-append d cs)

codes-card_to_string :
    (s : Suit) (r : Rank)
    → codes (card_to_string (record { suit = s; rank = r }))
      ≡ codes (rank_symbol r) ++ codes (suit_symbol s)
unfolding card_to_string
codes-card_to_string clubs two = refl
codes-card_to_string clubs _ = refl
codes-card_to_string diamonds two = refl
codes-card_to_string diamonds _ = refl
codes-card_to_string hearts two = refl
codes-card_to_string hearts _ = refl
codes-card_to_string spades two = refl
codes-card_to_string spades _ = refl

-- A card is made of the suit and the rank that were read.
card_parts :
    (so : Option Suit) (ro : Option Rank) (x : Card)
    → (so >>= λ s. ro >>= λ r. some (record { suit = s; rank = r })) ≡ some x
    → (so ≡ some x.suit) × (ro ≡ some x.rank)
card_parts none ro x h = ground arith
card_parts (some s) none x h = ground arith
card_parts (some s) (some r) x h =
    let e = some-injective (record { suit = s; rank = r }) x h in
    (ap (λ (c : Card). some c.suit) e, ap (λ (c : Card). some c.rank) e)

-- A text that is read as a card is the text of that card.
pub card_from_codes-codes :
    (cs : List ℕ) (x : Card) → card_from_codes cs ≡ some x → codes (card_to_string x) ≡ cs
unfolding card_from_codes
card_from_codes-codes [] x h = ground arith
card_from_codes-codes (c ∷ []) x h = ground arith
card_from_codes-codes (c ∷ d ∷ cs) x h =
    let (before, last) = split_last c (d ∷ cs) in
    let parts = card_parts (suit_from_code last) (rank_from_codes before) x h in
    codes-card_to_string x.suit x.rank
    ∙ ap (λ (t : List ℕ). t ++ codes (suit_symbol x.suit))
        (rank_from_codes-rank_symbol before x.rank parts.1)
    ∙ ap (λ (t : List ℕ). before ++ t) (suit_from_code-suit_symbol last x.suit parts.0)
    ∙ split_last-append c (d ∷ cs)
