-- ===== src/Deck/Tests.antt =====
-- Deals from concrete decks.
use ascii_poker.Prelude.{◌<◌, ◌≡◌, ◌⊎◌, refl, List, [], ◌∷◌, ◌++◌, none, some, length}
use mathlib.Core.Option
use ascii_poker.Card.{clubs, hearts, spades, two, king, ace, Card, count}
use ascii_poker.Deck.{Deck, new_deck, deal}
use ascii_poker.Deck.Laws.{deal_lem, count-new_deck}

abbrev three_cards : Deck
three_cards = record {
  cards =
      record { suit = clubs; rank = two }
      ∷ record { suit = hearts; rank = ace }
      ∷ record { suit = spades; rank = king }
      ∷ [];
}

-- The ace of spades was pushed last, and is dealt first.
top_of_new_deck :
    Option.map (λ (dealt : List Card × Deck). dealt.0) (deal 1 new_deck)
    ≡ some (record { suit = spades; rank = ace } ∷ [])
unfolding deal new_deck
top_of_new_deck = refl

deal_lem_example :
    ((hand : List Card) × (rest : List Card) × (deal 2 three_cards
        ≡ some (hand, record { cards = rest }))
      × (hand ++ rest ≡ three_cards.cards)
      × (length hand ≡ 2))
    ⊎ ((deal 2 three_cards ≡ none) × (length three_cards.cards < 2))
deal_lem_example = deal_lem 2 three_cards

count-new_deck_example : count (record { suit = hearts; rank = king }) new_deck.cards ≡ 1
count-new_deck_example = count-new_deck hearts king
