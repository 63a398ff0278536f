-- ===== src/Protocol/Accepted.antt =====
-- What the readers of common/src/protocol.cpp accept.
use Prim.Native.String.{String}
use text.Mathlib.Text.{◌==◌ as str_eq}
use text.Mathlib.TextEquality.{eq_iff}
use mathlib.Core.Option.{some-injective}
use ascii_poker.Prelude.{
  ◌≡◌, refl, ◌∙◌, ap, sym, Bool, true, Option, none, some, arith, Bool-cases, inl, inr,
  if◌then◌else◌,
}
use ascii_poker.Protocol.{
  ClientMessage, login, create_room, join_room, leave_room, list_rooms, start_game, player_action,
  ServerMessage, welcome, room_list, joined_room, game_state_update, your_turn, error, left_room,
  hand_result, action_event,
}
use ascii_poker.Protocol.Json.{JsonLibrary, ◌>>=◌}
use ascii_poker.Protocol.Client.{
  client_from_json, client_from_data, client_type, login_from_json, create_room_from_json,
  join_room_from_json, player_action_from_json,
}
use ascii_poker.Protocol.Rooms.{
  welcome_from_json, room_list_from_json, joined_room_from_json, error_from_json,
  left_room_from_json,
}
use ascii_poker.Protocol.Table.{
  game_state_update_from_json, your_turn_from_json, hand_result_from_json, action_event_from_json,
}
use ascii_poker.Protocol.Server.{server_from_json, server_from_data, server_type}

-- A message that is made of a result has the type of what makes it.
made_some {ℓ μ} :
    {A : Type ℓ} {B : Type μ} (type_of : B → String) (name : String) (o : Option A) (make : A → B)
    (m : B)
    → ((a : A) → type_of (make a) ≡ name)
    → (o >>= λ a. some (make a)) ≡ some m
    → name ≡ type_of m
made_some type_of name none make m named h = ground arith
made_some type_of name (some a) make m named h =
    sym (named a) ∙ ap type_of (some-injective (make a) m h)

-- A test on the type, whose branch makes a message of that type.
named_if {ℓ μ} :
    {A : Type ℓ} {B : Type μ} (type_of : B → String) (type name : String) (o : Option A)
    (make : A → B) (rest : Option B) (m : B)
    → ((a : A) → type_of (make a) ≡ name)
    → (rest ≡ some m → type ≡ type_of m)
    → (if str_eq type name then (o >>= λ a. some (make a)) else rest) ≡ some m
    → type ≡ type_of m
named_if type_of type name o make rest m named other h = elim (Bool-cases (str_eq type name)) [
  | inr e ↦ other (sym (ap (λ (b : Bool). if b then (o >>= λ a. some (make a)) else rest) e) ∙ h)
  | inl e ↦
      (eq_iff type name).0 e
      ∙ made_some type_of name o make m named
          (sym (ap (λ (b : Bool). if b then (o >>= λ a. some (make a)) else rest) e) ∙ h)
]

-- A reader of messages takes the type, then the content.
read_type {ℓ} :
    {M : Type 0} {J : Type ℓ} (type_of : M → String) (read : String → J → Option M)
    (t : Option String) (o : Option J) (m : M)
    → ((type : String) (content : J) → read type content ≡ some m → type ≡ type_of m)
    → (t >>= λ type. o >>= λ content. read type content) ≡ some m
    → t ≡ some (type_of m)
read_type type_of read none o m typed h = ground arith
read_type type_of read (some type) none m typed h = ground arith
read_type type_of read (some type) (some content) m typed h = ap some (typed type content h)

module _ (library : JsonLibrary) where
  open library use {Json, at, get_string}

  client_from_data-type :
      (type : String) (content : Json) (m : ClientMessage)
      → client_from_data library type content ≡ some m
      → type ≡ client_type library m
  unfolding client_from_data
  client_from_data-type type content m =
      named_if (client_type library) type "login" (login_from_json library content) login _ m
        (λ _. refl)
        (named_if (client_type library) type "create_room" (create_room_from_json library content)
          create_room _ m (λ _. refl)
          (named_if (client_type library) type "join_room" (join_room_from_json library content)
            join_room _ m (λ _. refl)
            (named_if (client_type library) type "leave_room" (some true) (λ _. leave_room) _ m
              (λ _. refl)
              (named_if (client_type library) type "list_rooms" (some true) (λ _. list_rooms) _ m
                (λ _. refl)
                (named_if (client_type library) type "start_game" (some true) (λ _. start_game) _ m
                  (λ _. refl)
                  (named_if (client_type library) type "player_action"
                    (player_action_from_json library content) player_action _ m (λ _. refl)
                    (λ h. ground arith)))))))

  -- A message that is read is of the kind that its type names: any other type is refused.
  pub client_from_json-type :
      (j : Json) (m : ClientMessage)
      → client_from_json library j ≡ some m
      → (at "type" j >>= get_string) ≡ some (client_type library m)
  unfolding client_from_json
  client_from_json-type j m =
      read_type (client_type library) (client_from_data library) (at "type" j >>= get_string)
        (at "data" j) m (λ type content. client_from_data-type type content m)

  server_from_data-type :
      (type : String) (content : Json) (m : ServerMessage)
      → server_from_data library type content ≡ some m
      → type ≡ server_type library m
  unfolding server_from_data
  server_from_data-type type content m =
      named_if (server_type library) type "welcome" (welcome_from_json library content) welcome _ m
        (λ _. refl)
        (named_if (server_type library) type "room_list" (room_list_from_json library content)
          room_list _ m (λ _. refl)
          (named_if (server_type library) type "joined_room" (joined_room_from_json library content)
            joined_room _ m (λ _. refl)
            (named_if (server_type library) type "game_state_update"
              (game_state_update_from_json library content) game_state_update _ m (λ _. refl)
              (named_if (server_type library) type "your_turn" (your_turn_from_json library content)
                your_turn _ m (λ _. refl)
                (named_if (server_type library) type "error" (error_from_json library content) error
                  _ m (λ _. refl)
                  (named_if (server_type library) type "left_room"
                    (left_room_from_json library content) left_room _ m (λ _. refl)
                    (named_if (server_type library) type "hand_result"
                      (hand_result_from_json library content) hand_result _ m (λ _. refl)
                      (named_if (server_type library) type "action_event"
                        (action_event_from_json library content) action_event _ m (λ _. refl)
                        (λ h. ground arith)))))))))

  -- A message that is read is of the kind that its type names: any other type is refused.
  pub server_from_json-type :
      (j : Json) (m : ServerMessage)
      → server_from_json library j ≡ some m
      → (at "type" j >>= get_string) ≡ some (server_type library m)
  unfolding server_from_json
  server_from_json-type j m =
      read_type (server_type library) (server_from_data library) (at "type" j >>= get_string)
        (at "data" j) m (λ type content. server_from_data-type type content m)
