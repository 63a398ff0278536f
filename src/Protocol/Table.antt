-- ===== src/Protocol/Table.antt =====
-- The JSON form of the server's messages about a table: common/src/protocol.cpp.
use ascii_poker.Prelude.{false, [], ◌∷◌, map, Option, some}
use ascii_poker.Protocol.{PlayerState, GameStateUpdate, YourTurn, ActionEvent, HandResult}
use ascii_poker.Protocol.Json.{
  JsonLibrary, ◌>>=◌, field_or, optional_number, optional_amount, get_vector,
}
use ascii_poker.Protocol.Words.{
  card_to_json, cards_from_json, action_name, action_from_json, phase_name, phase_from_json,
}

module _ (library : JsonLibrary) where
  open library use {
    Json, object, array, string, number, boolean, null, at, set_key, get_string, get_word, get_bool,
  }

  unfoldable pub player_state_to_json : PlayerState → Json
  unfolding card_to_json
  player_state_to_json msg = object (
      ("name", string msg.name)
      ∷ ("chips", number msg.chips)
      ∷ ("round_bet", number msg.round_bet)
      ∷ ("folded", boolean msg.folded)
      ∷ ("all_in", boolean msg.all_in)
      ∷ ("is_dealer", boolean msg.is_dealer)
      ∷ ("is_small_blind", boolean msg.is_small_blind)
      ∷ ("is_big_blind", boolean msg.is_big_blind)
      ∷ ("hole_cards", array (map (card_to_json library) msg.hole_cards))
      ∷ [])

  unfoldable pub player_state_from_json : Json → Option PlayerState
  unfolding cards_from_json
  player_state_from_json j = do
    name ← at "name" j >>= get_string
    chips ← at "chips" j >>= get_word 32
    round_bet ← at "round_bet" j >>= get_word 32
    folded ← at "folded" j >>= get_bool
    all_in ← at "all_in" j >>= get_bool
    is_dealer ← field_or library "is_dealer" get_bool false j
    is_small_blind ← field_or library "is_small_blind" get_bool false j
    is_big_blind ← field_or library "is_big_blind" get_bool false j
    hole_cards ← field_or library "hole_cards" (λ v. cards_from_json library v) [] j
    some (record {
      name = name;
      chips = chips;
      round_bet = round_bet;
      folded = folded;
      all_in = all_in;
      is_dealer = is_dealer;
      is_small_blind = is_small_blind;
      is_big_blind = is_big_blind;
      hole_cards = hole_cards;
    })

  unfoldable pub game_state_update_to_json : GameStateUpdate → Json
  unfolding card_to_json player_state_to_json
  game_state_update_to_json msg = object (
      ("general_cards", array (map (card_to_json library) msg.general_cards))
      ∷ ("your_cards", array (map (card_to_json library) msg.your_cards))
      ∷ ("phase", string (phase_name msg.phase))
      ∷ ("active_player_name", string msg.active_player_name)
      ∷ ("total_pot", number msg.total_pot)
      ∷ ("current_bet", number msg.current_bet)
      ∷ ("players", array (map player_state_to_json msg.players))
      ∷ [])

  unfoldable pub game_state_update_from_json : Json → Option GameStateUpdate
  unfolding cards_from_json phase_from_json player_state_from_json
  game_state_update_from_json j = do
    general_cards ← at "general_cards" j >>= (λ v. cards_from_json library v)
    your_cards ← at "your_cards" j >>= (λ v. cards_from_json library v)
    phase ← at "phase" j >>= (λ v. some (phase_from_json library v))
    active_player_name ← at "active_player_name" j >>= get_string
    total_pot ← at "total_pot" j >>= get_word 32
    current_bet ← field_or library "current_bet" (get_word 32) 0 j
    players ← field_or library "players" (get_vector library player_state_from_json) [] j
    some (record {
      general_cards = general_cards;
      your_cards = your_cards;
      phase = phase;
      active_player_name = active_player_name;
      total_pot = total_pot;
      current_bet = current_bet;
      players = players;
    })

  unfoldable pub your_turn_to_json : YourTurn → Json
  your_turn_to_json msg = object (
      ("available_actions", array (map (λ a. string (action_name a)) msg.available_actions))
      ∷ ("min_amount", number msg.min_amount)
      ∷ ("max_amount", number msg.max_amount)
      ∷ ("to_call", number msg.to_call)
      ∷ ("your_chips", number msg.your_chips)
      ∷ [])

  unfoldable pub your_turn_from_json : Json → Option YourTurn
  unfolding action_from_json
  your_turn_from_json j = do
    available_actions ←
        at "available_actions" j >>= get_vector library (λ v. some (action_from_json library v))
    min_amount ← at "min_amount" j >>= get_word 32
    max_amount ← at "max_amount" j >>= get_word 32
    to_call ← field_or library "to_call" (get_word 32) 0 j
    your_chips ← field_or library "your_chips" (get_word 32) 0 j
    some (record {
      available_actions = available_actions;
      min_amount = min_amount;
      max_amount = max_amount;
      to_call = to_call;
      your_chips = your_chips;
    })

  unfoldable pub action_event_to_json : ActionEvent → Json
  action_event_to_json msg = set_key "amount" (optional_number library msg.amount) (
      object (
        ("player_name", string msg.player_name) ∷ ("action", string (action_name msg.action)) ∷ []))

  unfoldable pub action_event_from_json : Json → Option ActionEvent
  unfolding action_from_json
  action_event_from_json j = do
    player_name ← at "player_name" j >>= get_string
    action ← at "action" j
    amount ← optional_amount library j
    some (record {
      player_name = player_name;
      action = action_from_json library action;
      amount = amount;
    })

  unfoldable pub hand_result_to_json : HandResult → Json
  hand_result_to_json msg = object (
      ("winner_names", array (map string msg.winner_names))
      ∷ ("pot_amount", number msg.pot_amount)
      ∷ ("winner_hand_labels", array (map string msg.winner_hand_labels))
      ∷ [])

  unfoldable pub hand_result_from_json : Json → Option HandResult
  hand_result_from_json j = do
    winner_names ← at "winner_names" j >>= get_vector library get_string
    pot_amount ← at "pot_amount" j >>= get_word 32
    winner_hand_labels ← field_or library "winner_hand_labels" (get_vector library get_string) [] j
    some (record {
      winner_names = winner_names;
      pot_amount = pot_amount;
      winner_hand_labels = winner_hand_labels;
    })
