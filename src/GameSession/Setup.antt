-- ===== src/GameSession/Setup.antt =====
-- The constructor of `GameSession`, and the table that it sets up.
use Prim.Native.String.{String}
use ascii_poker.Prelude.{
  ℕ, ◌+◌, ◌≤◌, ◌<◌, Bool, List, [], Option, none, some, length, sum_of, arith, Map, empty_map,
  empty_set, u32_max,
}
use ascii_poker.Card.{Card}
use ascii_poker.Deck.{IsShuffle, new_deck}
use ascii_poker.Protocol.{pre_flop}
use ascii_poker.GameSession.State.{GameSession, starting_chips}
use ascii_poker.GameSession.Phases.{start, ask_current_player}
use ascii_poker.GameSession.Table.{Distinct}
use ascii_poker.GameSession.Sound.{most_players}
use ascii_poker.GameSession.Opening.{IsTable}
use ascii_poker.GameSession.Course.{Settles}
use ascii_poker.GameSession.Ending.{start-Settles}

-- A new session. `has_repository` says whether the pointer given is not null, `name_of` is
-- `IPlayer::get_name`, and `seed` the state of the random device; the room's number is only logged.
unfoldable pub new_session :
    List ℕ → (ℕ → String) → Map ℕ → Bool → (String → Option ℕ) → ℕ → GameSession
unfolding new_deck
new_session players name_of connection_map has_repository bankrolls seed = record {
  has_repository = has_repository;
  bankrolls = bankrolls;
  players = players;
  name_of = name_of;
  connection_map = connection_map;
  hands = empty_map;
  folded_players = empty_set;
  all_in_players = empty_set;
  players_acted = empty_set;
  deck = new_deck;
  community_cards = [];
  phase = pre_flop;
  dealer_index = 0;
  current_player_index = 0;
  pot = 0;
  current_bet = 0;
  last_raise_increment = 0;
  chips = empty_map;
  round_bets = empty_map;
  total_contributed = empty_map;
  seed = seed;
  effects = [];
}

-- What a player with the name brings: the bankroll, or the starting chips without one.
abbrev pub brought : (String → Option ℕ) → String → ℕ
brought bankrolls name = elim (bankrolls name) [ none ↦ starting_chips | some b ↦ b ]

module _ (shuffle : ℕ → List Card → List Card) (perm : IsShuffle shuffle) (spare fuel : ℕ) where
  -- With a shuffle that permutes the cards: a new session for 1 to 23 players, none listed twice,
  -- whose bankrolls (1000 chips for a player without one) add up to less than 2^32 - 1, starts.
  -- With `spare + 8` or more fuel the call returns a sound session with at most those chips on the
  -- table, or comes to the end of the hand, where a sound session with at most those chips is left,
  -- and what remains is the call of `try_start_new_hand` on it with at least `spare` fuel.
  pub new_session-Settles :
      (players : List ℕ) (name_of : ℕ → String) (connection_map : Map ℕ) (has_repository : Bool)
      (bankrolls : String → Option ℕ) (seed : ℕ)
      → spare + 8 ≤ fuel
      → 0 < length players
      → length players ≤ most_players
      → Distinct players
      → sum_of (λ p. brought bankrolls (name_of p)) players < u32_max
      → Settles shuffle spare (sum_of (λ p. brought bankrolls (name_of p)) players) (
          start shuffle
            (ask_current_player shuffle fuel)
            (new_session players name_of connection_map has_repository bankrolls seed))
  unfolding new_session
  new_session-Settles players name_of connection_map has_repository bankrolls seed enough
        some_player few distinct funded =
      let s = new_session players name_of connection_map has_repository bankrolls seed in
      let table : IsTable s = record {
        distinct = distinct;
        funded = funded;
        nonempty = some_player;
        few = few;
        dealer = some_player;
        current = some_player;
      } in
      start-Settles shuffle perm spare fuel enough
        (sum_of (λ p. brought bankrolls (name_of p)) players) s table (omega arith)
