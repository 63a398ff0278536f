-- ===== src/Protocol/RoundTrip/Table.antt =====
-- The messages about a table, read back: common/src/protocol.cpp.
use native.Mathlib.Nat.{mod-eq_of_lt}
use ascii_poker.Prelude.{◌<◌, ◌^◌, ◌≡◌, some, List, map, All}
use ascii_poker.Protocol.{PlayerState, GameStateUpdate, YourTurn, ActionEvent, HandResult}
use ascii_poker.Protocol.Json.{JsonLibrary, read_all-map, get_vector, field_or}
use ascii_poker.Protocol.Fits.{AmountFits, PlayerFits, TurnFits}
use ascii_poker.Protocol.Table.{
  player_state_to_json, player_state_from_json, game_state_update_to_json,
  game_state_update_from_json, your_turn_to_json, your_turn_from_json, action_event_to_json,
  action_event_from_json, hand_result_to_json, hand_result_from_json,
}
use ascii_poker.Protocol.RoundTrip.Words.{
  action_round, amount_round, actions_round, phase_round, cards_round, strings_round,
}

module _ (library : JsonLibrary) where
  open library use {
    Json, at, string, null, set_key, at-object, set_key-object, set_key-null, get_string-string,
    get_word-number, get_bool-boolean, get_items-array,
  }

  pub player_state_round :
      (m : PlayerState)
      → PlayerFits m
      → player_state_from_json library (player_state_to_json library m) ≡ some m
  unfolding player_state_from_json player_state_to_json PlayerFits
  player_state_round m h = simp (
    get_string-string,
    get_word-number,
    get_bool-boolean,
    at-object,
    field_or,
    cards_round library,
    mod-eq_of_lt h.0,
    mod-eq_of_lt h.1,
  )

  player_states_round :
      (ps : List PlayerState)
      → All PlayerFits ps
      → get_vector library
          (player_state_from_json library)
          (library.array (map (player_state_to_json library) ps))
        ≡ some ps
  player_states_round ps h = simp (
    get_vector,
    get_items-array,
    read_all-map PlayerFits (player_state_from_json library) (player_state_to_json library)
        player_state_round ps h,
  )

  pub game_state_update_round :
      (m : GameStateUpdate)
      → (m.total_pot < 2 ^ 32) × (m.current_bet < 2 ^ 32) × All PlayerFits m.players
      → game_state_update_from_json library (game_state_update_to_json library m) ≡ some m
  unfolding game_state_update_from_json game_state_update_to_json
  game_state_update_round m h = simp (
    get_string-string,
    get_word-number,
    at-object,
    field_or,
    cards_round library,
    phase_round library,
    player_states_round m.players h.2,
    mod-eq_of_lt h.0,
    mod-eq_of_lt h.1,
  )

  pub your_turn_round :
      (m : YourTurn)
      → TurnFits m
      → your_turn_from_json library (your_turn_to_json library m) ≡ some m
  unfolding your_turn_from_json your_turn_to_json TurnFits
  your_turn_round m h = simp (
    get_word-number,
    at-object,
    field_or,
    actions_round library,
    mod-eq_of_lt h.0,
    mod-eq_of_lt h.1,
    mod-eq_of_lt h.2,
    mod-eq_of_lt h.3,
  )

  pub action_event_round :
      (m : ActionEvent)
      → AmountFits m.amount
      → action_event_from_json library (action_event_to_json library m) ≡ some m
  unfolding action_event_from_json action_event_to_json AmountFits
  action_event_round m h = simp (
    get_string-string,
    at-object,
    field_or,
    set_key-object,
    action_round library,
    amount_round library m.amount,
  )

  pub hand_result_round :
      (m : HandResult)
      → m.pot_amount < 2 ^ 32
      → hand_result_from_json library (hand_result_to_json library m) ≡ some m
  unfolding hand_result_from_json hand_result_to_json
  hand_result_round m h =
      simp (get_word-number, at-object, field_or, strings_round library, mod-eq_of_lt)
