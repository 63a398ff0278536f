-- ===== src/Card.antt =====
-- common/include/poker/card.h: suits, ranks and cards. An enumerator is a constructor, and its
-- underlying uint8_t is `suit_index` and `rank_index`.
use ascii_poker.Prelude.{ℕ, Bool, List, [], ◌∷◌, ◌&&◌, if◌then◌else◌, ◌==◌, ltb, ◌+◌, not}

pub data Suit : Type 0 where
  clubs diamonds hearts spades : Suit

pub data Rank : Type 0 where
  two three four five six seven eight nine ten jack queen king ace : Rank

pub record Card : Type 0 where
  pub suit : Suit
  pub rank : Rank

abbrev pub suit_index : Suit → ℕ
suit_index clubs = 0
suit_index diamonds = 1
suit_index hearts = 2
suit_index spades = 3

abbrev pub rank_index : Rank → ℕ
rank_index two = 0
rank_index three = 1
rank_index four = 2
rank_index five = 3
rank_index six = 4
rank_index seven = 5
rank_index eight = 6
rank_index nine = 7
rank_index ten = 8
rank_index jack = 9
rank_index queen = 10
rank_index king = 11
rank_index ace = 12

-- `Card::operator==`.
abbrev pub card_eq : Card → Card → Bool
card_eq a b = (rank_index a.rank == rank_index b.rank) && (suit_index a.suit == suit_index b.suit)

-- `Card::operator<`.
unfoldable pub card_lt : Card → Card → Bool
card_lt a b =
    if not (rank_index a.rank == rank_index b.rank)
    then ltb (rank_index a.rank) (rank_index b.rank)
    else ltb (suit_index a.suit) (suit_index b.suit)

-- How often a card occurs in a list.
abbrev pub count : Card → List Card → ℕ
count c [] = 0
count c (x ∷ xs) = (if card_eq c x then 1 else 0) + count c xs
