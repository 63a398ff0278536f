-- ===== src/Deck/Laws.antt =====
-- What `deal` does to the cards, and the 52 cards of a new deck.
use ascii_poker.Prelude.{
  ℕ, zero, suc, ◌+◌, ◌≤◌, ◌<◌, ◌≡◌, refl, ap, ◌⊎◌, inl, inr, List, [], ◌∷◌, ◌++◌, none, some,
  length, arith, ltb, Bool-cases,
}
use ascii_poker.Card.{Suit, clubs, diamonds, hearts, spades, Rank, two, Card, count}
use ascii_poker.Deck.{Deck, new_deck, deal, deal_loop}

pub count-append : (c : Card) (xs ys : List Card) → count c (xs ++ ys) ≡ count c xs + count c ys
count-append c [] ys = omega arith
count-append c (x ∷ xs) ys = omega (arith, count-append c xs ys)

deal_loop_lem :
    (n : ℕ) (cards : List Card)
    → n ≤ length cards
    → let (dealt, rest) = deal_loop n cards in (dealt ++ rest ≡ cards) × (length dealt ≡ n)
unfolding deal_loop
deal_loop_lem zero cards h = (refl, refl)
deal_loop_lem (suc n) [] h = absurd (omega arith)
deal_loop_lem (suc n) (c ∷ cards) h =
    let (parts, size) = deal_loop_lem n cards (omega arith) in (ap (◌∷◌ c) parts, ap suc size)

-- A deal of `n` cards takes the top `n` cards off a deck that has them, in order, and throws if the
-- deck has fewer.
pub deal_lem :
    (n : ℕ) (deck : Deck)
    → ((hand : List Card) × (rest : List Card) × (deal n deck
          ≡ some (hand, record { cards = rest }))
        × (hand ++ rest ≡ deck.cards)
        × (length hand ≡ n))
      ⊎ ((deal n deck ≡ none) × (length deck.cards < n))
unfolding deal
deal_lem n deck = elim (Bool-cases (ltb (length deck.cards) n)) [
  | inl short ↦ inr (rw short, ground arith)
  | inr enough ↦
      let (parts, size) = deal_loop_lem n deck.cards (ground arith) in
      inl ((deal_loop n deck.cards).0, (deal_loop n deck.cards).1, rw enough, parts, size)
]

-- A new deck has each card exactly once.
pub count-new_deck :
    (s : Suit) (r : Rank) → count (record { suit = s; rank = r }) new_deck.cards ≡ 1
unfolding new_deck
count-new_deck clubs two = refl
count-new_deck clubs _ = refl
count-new_deck diamonds two = refl
count-new_deck diamonds _ = refl
count-new_deck hearts two = refl
count-new_deck hearts _ = refl
count-new_deck spades two = refl
count-new_deck spades _ = refl

pub length-new_deck : length new_deck.cards ≡ 52
unfolding new_deck
length-new_deck = refl
