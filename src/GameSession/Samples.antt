-- ===== src/GameSession/Samples.antt =====
-- Sessions at concrete tables, for the tests.
use ascii_poker.Prelude.{
  ℕ, refl, false, List, [], ◌∷◌, Option, none, some, if◌then◌else◌, ◌==◌, empty_map, empty_set,
  at_key, arith, take,
}
use ascii_poker.Card.{Card, clubs, diamonds, hearts, spades, two, four, nine, ten, ace}
use ascii_poker.Deck.{IsShuffle}
use ascii_poker.Protocol.{pre_flop}
use ascii_poker.GameSession.State.{GameSession}
use ascii_poker.GameSession.Table.{IsBalanced}
use ascii_poker.GameSession.Opening.{SoundWithin}

abbrev pub no_shuffle : ℕ → List Card → List Card
no_shuffle seed cards = cards

-- Players 1 and 2 (and 3), reached through the connections 11 and 12 (and 13).
abbrev pub table : List ℕ → (ℕ → Option ℕ) → GameSession
table players stacks = record {
  has_repository = false;
  bankrolls = λ _. none;
  players = players;
  name_of = λ p. if p == 1 then "ann" else if p == 2 then "bob" else "cy";
  connection_map =
      λ c. if c == 11 then some 1 else if c == 12 then some 2 else if c == 13 then some 3 else none;
  hands = empty_map;
  folded_players = empty_set;
  all_in_players = empty_set;
  players_acted = empty_set;
  deck = record { cards = [] };
  community_cards = [];
  phase = pre_flop;
  dealer_index = 0;
  current_player_index = 0;
  pot = 0;
  current_bet = 0;
  last_raise_increment = 0;
  chips = stacks;
  round_bets = empty_map;
  total_contributed = empty_map;
  seed = 0;
  effects = [];
}

pub no_shuffle-IsShuffle : IsShuffle no_shuffle
no_shuffle-IsShuffle = record { same_size = λ seed cards. refl; same_cards = λ seed cards c. refl }

abbrev pub few_cards : List Card
few_cards =
    record { suit = clubs; rank = two }
    ∷ record { suit = hearts; rank = ace }
    ∷ record { suit = spades; rank = ten }
    ∷ record { suit = clubs; rank = nine }
    ∷ record { suit = diamonds; rank = ten }
    ∷ record { suit = hearts; rank = four }
    ∷ []

-- Two players before the flop, the blinds posted.
abbrev pub heads_up : GameSession
heads_up = record (table (1 ∷ 2 ∷ []) (λ p. some (if p == 1 then 990 else 980))) {
  deck = record { cards = few_cards };
  hands = λ p. some (take 2 few_cards);
  round_bets = λ p. some (if p == 1 then 10 else 20);
  total_contributed = λ p. some (if p == 1 then 10 else 20);
  pot = 30;
  current_bet = 20;
  last_raise_increment = 20;
}

pub heads_up-IsBalanced : IsBalanced heads_up
unfolding at_key
heads_up-IsBalanced = record {
  distinct = (refl, (refl, tt));
  bounded = omega arith;
  contributed_within = omega arith;
}

pub heads_up-SoundWithin : SoundWithin 2000 heads_up
unfolding at_key
heads_up-SoundWithin = (
  record {
    balanced = heads_up-IsBalanced;
    seated = ((refl, refl, refl), ((refl, refl, refl), tt));
    nonempty = omega arith;
    few = omega arith;
    dealer = omega arith;
    current = omega arith;
    stocked = omega arith;
  },
  omega arith,
)
