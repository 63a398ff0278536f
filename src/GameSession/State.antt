-- ===== src/GameSession/State.antt =====
-- The members of `class GameSession`. A player (`IPlayer*`) and a connection (`IConnection*`) are
-- numbers. `operator[]` on a map of numbers reads a missing key as 0; the entry that it then inserts
-- is left out.
use Prim.Native.String.{String}
use ascii_poker.Prelude.{ℕ, List, ◌∷◌, Option, none, some, Bool, Map, Set}
use ascii_poker.Card.{Card}
use ascii_poker.Deck.{Deck}
use ascii_poker.Protocol.{GamePhase, ServerMessage}

-- What the session does to the rest of the server: a message to a player, or a call of
-- `UserRepository::update_chips`, whose result only decides what is logged.
pub data Effect : Type 0 where
  send_message : ℕ → ServerMessage → Effect
  update_chips : String → ℕ → Effect

pub record GameSession : Type 0 where
  -- Is `user_repository_` not null?
  pub has_repository : Bool
  pub bankrolls : String → Option ℕ
  pub players : List ℕ
  pub name_of : ℕ → String
  pub connection_map : Map ℕ
  pub hands : Map (List Card)
  pub folded_players : Set
  pub all_in_players : Set
  pub players_acted : Set
  pub deck : Deck
  pub community_cards : List Card
  pub phase : GamePhase
  pub dealer_index : ℕ
  pub current_player_index : ℕ
  pub pot : ℕ
  pub current_bet : ℕ
  pub last_raise_increment : ℕ
  pub chips : Map ℕ
  pub round_bets : Map ℕ
  pub total_contributed : Map ℕ
  -- The state of the random device, and the effects so far, the latest first.
  pub seed : ℕ
  pub effects : List Effect

-- How a call ends: it returns, an exception `std::out_of_range` leaves it (`deal` with too few
-- cards, `at` with a missing key), or the fuel of the model is used up.
pub data Outcome {ℓ} (A : Type ℓ) : Type ℓ where
  returns : A → Outcome A
  out_of_range : Outcome A
  out_of_fuel : Outcome A

infixl 5 ◌>>=◌
abbrev pub ◌>>=◌ {ℓ κ} : {A : Type ℓ} {B : Type κ} → Outcome A → (A → Outcome B) → Outcome B
returns a >>= f = f a
out_of_range >>= f = out_of_range
out_of_fuel >>= f = out_of_fuel

-- `m.at(key)`.
abbrev pub at {ℓ} : {V : Type ℓ} → Option V → Outcome V
at none = out_of_range
at (some v) = returns v

abbrev pub emit : Effect → GameSession → GameSession
emit e s = record s { effects = e ∷ s.effects }

abbrev pub small_blind_size : ℕ
small_blind_size = 10

abbrev pub big_blind_size : ℕ
big_blind_size = 20

abbrev pub starting_chips : ℕ
starting_chips = 1000
