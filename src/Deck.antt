-- ===== src/Deck.antt =====
-- common/include/poker/deck.h and common/src/deck.cpp. The head of the list is the back of the
-- vector, from which cards are dealt.
pub mod Laws
mod Tests
use ascii_poker.Prelude.{
  ℕ, zero, suc, Bool, List, [], ◌∷◌, ◌++◌, map, Option, none, some, length, ltb, if◌then◌else◌, ◌≡◌,
  ◌==◌,
}
use ascii_poker.Card.{
  Suit, clubs, diamonds, hearts, spades, Rank, two, three, four, five, six, seven, eight, nine, ten,
  jack, queen, king, ace, Card, count,
}

pub record Deck : Type 0 where
  pub cards : List Card

-- The values of the two loop counters of the constructor.
abbrev suits : List Suit
suits = clubs ∷ diamonds ∷ hearts ∷ spades ∷ []

abbrev ranks : List Rank
ranks =
    two ∷ three ∷ four ∷ five ∷ six ∷ seven ∷ eight ∷ nine ∷ ten ∷ jack ∷ queen ∷ king ∷ ace ∷ []

-- The inner loop: a card of each rank is pushed.
push_ranks : Suit → List Rank → List Card → List Card
push_ranks s [] cards = cards
push_ranks s (r ∷ rs) cards = push_ranks s rs (record { suit = s; rank = r } ∷ cards)

push_suits : List Suit → List Card → List Card
unfolding push_ranks
push_suits [] cards = cards
push_suits (s ∷ ss) cards = push_suits ss (push_ranks s ranks cards)

-- `Deck::Deck()`.
unfoldable pub new_deck : Deck
unfolding push_suits
new_deck = record { cards = push_suits suits [] }

-- The loop of `deal`: `back` and `pop_back`, `count` times. `deal` tests that the cards are there.
unfoldable pub deal_loop : ℕ → List Card → List Card × List Card
deal_loop zero cards = ([], cards)
deal_loop (suc n) [] = ([], [])
deal_loop (suc n) (c ∷ cards) = let (dealt, rest) = deal_loop n cards in (c ∷ dealt, rest)

-- `Deck::deal`; `none` is the exception `std::out_of_range`.
unfoldable pub deal : ℕ → Deck → Option (List Card × Deck)
unfolding deal_loop
deal n deck =
    let (dealt, rest) = deal_loop n deck.cards in
    if ltb (length deck.cards) n then none else some (dealt, record { cards = rest })

unfoldable pub size : Deck → ℕ
size deck = length deck.cards

unfoldable pub empty : Deck → Bool
empty deck = length deck.cards == 0

-- What `std::shuffle` promises, whatever its random numbers: the same cards in some order. The
-- first argument stands for the state of the random device.
pub record IsShuffle (shuffle : ℕ → List Card → List Card) : Type 0 where
  pub same_size : (seed : ℕ) (cards : List Card) → length (shuffle seed cards) ≡ length cards
  pub same_cards :
      (seed : ℕ) (cards : List Card) (c : Card) → count c (shuffle seed cards) ≡ count c cards
