-- ===== src/Protocol/Tests.antt =====
-- A JSON library of plain values, and messages written and read with it.
use Prim.Native.String.{String}
use ascii_poker.Prelude.{
  ℕ, ◌%◌, ◌^◌, ◌≡◌, refl, ap, Bool, true, false, Option, none, some, List, [], ◌∷◌, arith,
}
use ascii_poker.Card.{hearts, ten, Card}
use ascii_poker.Protocol.{
  fold, raise, flop, ClientMessage, player_action, PlayerState, ServerMessage, game_state_update,
  room_list,
}
use ascii_poker.Protocol.Json.{JsonLibrary, lookup, assign_key}
use ascii_poker.Protocol.Words.{
  codes, card_to_json, card_from_json, card_from_codes, card_to_string, action_from_json,
}
use ascii_poker.Protocol.Client.{client_to_json, client_from_json}
use ascii_poker.Protocol.Server.{server_to_json, server_from_json}
use ascii_poker.Protocol.Fits.{ClientFits, ServerFits}
use ascii_poker.Protocol.RoundTrip.Words.{card_from_json-card_to_json}
use ascii_poker.Protocol.RoundTrip.Client.{client_from_json-client_to_json}
use ascii_poker.Protocol.RoundTrip.Server.{server_from_json-server_to_json}
use ascii_poker.Protocol.Accepted.{client_from_json-type, server_from_json-type}
use ascii_poker.Protocol.CardText.{card_from_codes-codes}

mutual
  data Value : Type 0 where
    of_fields : Fields → Value
    of_items : Items → Value
    string : String → Value
    number : ℕ → Value
    boolean : Bool → Value
    null : Value

  data Fields : Type 0 where
    no_fields : Fields
    field : String → Value → Fields → Fields

  data Items : Type 0 where
    no_items : Items
    item : Value → Items → Items

abbrev fields_of : List (String × Value) → Fields
fields_of [] = no_fields
fields_of ((k, v) ∷ fields) = field k v (fields_of fields)

abbrev fields_list : Fields → List (String × Value)
fields_list no_fields = []
fields_list (field k v fields) = (k, v) ∷ fields_list fields

fields_round : (fields : List (String × Value)) → fields_list (fields_of fields) ≡ fields
fields_round [] = refl
fields_round ((k, v) ∷ fields) =
    ap (λ (f : List (String × Value)). (k, v) ∷ f) (fields_round fields)

abbrev items_of : List Value → Items
items_of [] = no_items
items_of (v ∷ items) = item v (items_of items)

abbrev items_list : Items → List Value
items_list no_items = []
items_list (item v items) = v ∷ items_list items

items_round : (items : List Value) → items_list (items_of items) ≡ items
items_round [] = refl
items_round (v ∷ items) = ap (λ (t : List Value). v ∷ t) (items_round items)

abbrev object : List (String × Value) → Value
object fields = of_fields (fields_of fields)

abbrev array : List Value → Value
array items = of_items (items_of items)

abbrev plain_at : String → Value → Option Value
plain_at k (of_fields fields) = lookup k (fields_list fields)
plain_at k _ = none

abbrev plain_set_key : String → Value → Value → Value
plain_set_key k v (of_fields fields) = object (assign_key k v (fields_list fields))
plain_set_key k v _ = object ((k, v) ∷ [])

abbrev plain_string : Value → Option String
plain_string (string s) = some s
plain_string _ = none

abbrev plain_word : ℕ → Value → Option ℕ
plain_word bits (number n) = some (n % 2 ^ bits)
plain_word bits _ = none

abbrev plain_bool : Value → Option Bool
plain_bool (boolean b) = some b
plain_bool _ = none

abbrev plain_items : Value → Option (List Value)
plain_items (of_items items) = some (items_list items)
plain_items _ = none

abbrev plain_is_null : Value → Bool
plain_is_null null = true
plain_is_null _ = false

abbrev plain_elements : Value → List Value
plain_elements (of_items items) = items_list items
plain_elements null = []
plain_elements v = v ∷ []

abbrev plain : JsonLibrary
plain = record {
  Json = Value;
  object = object;
  array = array;
  string = string;
  number = number;
  boolean = boolean;
  null = null;
  at = plain_at;
  set_key = plain_set_key;
  get_string = plain_string;
  get_word = plain_word;
  get_bool = plain_bool;
  get_items = plain_items;
  is_null = plain_is_null;
  elements = plain_elements;
  at-object = λ k fields. ap (lookup k) (fields_round fields);
  set_key-object = λ k v fields. ap (λ f. object (assign_key k v f)) (fields_round fields);
  set_key-null = λ k v. refl;
  get_string-string = λ s. refl;
  get_word-number = λ bits n. refl;
  get_bool-boolean = λ b. refl;
  get_items-array = λ items. ap some (items_round items);
  elements-array = λ items. items_round items;
  is_null-null = refl;
  is_null-number = λ n. refl;
}

abbrev ten_of_hearts : Card
ten_of_hearts = record { suit = hearts; rank = ten }

abbrev raise_to_forty : ClientMessage
raise_to_forty = player_action (record { action = raise; amount = some 40 })

abbrev seat : PlayerState
seat = record {
  name = "ann";
  chips = 960;
  round_bet = 40;
  folded = false;
  all_in = false;
  is_dealer = true;
  is_small_blind = false;
  is_big_blind = false;
  hole_cards = ten_of_hearts ∷ [];
}

abbrev table_view : ServerMessage
table_view = game_state_update (record {
  general_cards = ten_of_hearts ∷ [];
  your_cards = [];
  phase = flop;
  active_player_name = "ann";
  total_pot = 80;
  current_bet = 40;
  players = seat ∷ [];
})

card_from_json-card_to_json_example :
    card_from_json plain (card_to_json plain ten_of_hearts) ≡ some ten_of_hearts
card_from_json-card_to_json_example = card_from_json-card_to_json plain ten_of_hearts

client_from_json-client_to_json_example :
    client_from_json plain (client_to_json plain raise_to_forty) ≡ some raise_to_forty
unfolding ClientFits
client_from_json-client_to_json_example =
    client_from_json-client_to_json plain raise_to_forty (omega arith)

server_from_json-server_to_json_example :
    server_from_json plain (server_to_json plain table_view) ≡ some table_view
unfolding ServerFits
server_from_json-server_to_json_example =
    server_from_json-server_to_json plain table_view
      (omega arith, omega arith, ((omega arith, omega arith), _))

-- A raise, as the client sends it.
abbrev raise_sent : Value
raise_sent = object (
    ("type", string "player_action")
    ∷ ("data", object (("action", string "raise") ∷ ("amount", number 40) ∷ []))
    ∷ [])

raise_read : client_from_json plain raise_sent ≡ some raise_to_forty
unfolding client_from_json
raise_read = refl

client_from_json-type_example : plain_string (string "player_action") ≡ some "player_action"
client_from_json-type_example = client_from_json-type plain raise_sent raise_to_forty raise_read

-- An action of no name is taken as folding.
bluff_folds : action_from_json plain (string "bluff") ≡ fold
unfolding action_from_json
bluff_folds = refl

ten_read : card_from_codes (codes "10H") ≡ some ten_of_hearts
unfolding card_from_codes
ten_read = refl

card_from_codes-codes_example : codes (card_to_string ten_of_hearts) ≡ codes "10H"
card_from_codes-codes_example = card_from_codes-codes (codes "10H") ten_of_hearts ten_read

abbrev rooms_sent : Value
rooms_sent =
    object (("type", string "room_list") ∷ ("data", object (("rooms", array []) ∷ [])) ∷ [])

rooms_read : server_from_json plain rooms_sent ≡ some (room_list [])
unfolding server_from_json
rooms_read = refl

server_from_json-type_example : plain_string (string "room_list") ≡ some "room_list"
server_from_json-type_example = server_from_json-type plain rooms_sent (room_list []) rooms_read
