-- ===== src/ClientView/Tests.antt =====
-- A client that logs in and joins a room.
use ascii_poker.Prelude.{◌≡◌, refl, true, false, List, [], ◌∷◌}
use ascii_poker.Protocol.{ServerMessage, welcome, joined_room}
use ascii_poker.ClientView.{new_view, Texts, waiting_room, connected}
use ascii_poker.ClientView.Messages.{apply_message}
use ascii_poker.ClientView.Log.{IsLogged, apply_message-IsLogged}
use ascii_poker.ClientView.Screens.{
  IsView, Input, received, changed, apply_inputs, apply_inputs-IsView,
}

abbrev plain_texts : Texts
plain_texts = record {
  tr = λ m args. "text";
  tr_phase = λ p. "phase";
  tr_auth_error = λ code. "error";
  format_action_event = λ e. "action";
  describe_hand = λ own table. "hand";
  to_string = λ n. "number";
}

abbrev greeting : ServerMessage
greeting = welcome (record { player_name = "ann"; chips = 1000; is_new_account = true })

abbrev evening_joined : ServerMessage
evening_joined = joined_room (record {
  room_id = 7;
  player_names = "ann" ∷ [];
  host_name = "ann";
  max_players = 2;
  in_game = false;
})

abbrev inputs : List Input
inputs = changed connected ∷ received greeting ∷ received evening_joined ∷ []

waits : (apply_inputs plain_texts inputs new_view).screen ≡ waiting_room
unfolding apply_inputs
waits = refl

greeted : (apply_message plain_texts greeting new_view).log ≡ "text" ∷ []
unfolding apply_message
greeted = refl

apply_message-IsLogged_example : IsLogged [] (apply_message plain_texts greeting new_view).log
apply_message-IsLogged_example = apply_message-IsLogged plain_texts greeting new_view

apply_inputs-IsView_example : IsView (apply_inputs plain_texts inputs new_view)
apply_inputs-IsView_example = apply_inputs-IsView plain_texts inputs new_view tt
