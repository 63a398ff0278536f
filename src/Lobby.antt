-- ===== src/Lobby.antt =====
-- server/include/game/lobby.h, server/src/game/lobby.cpp and server/src/network/connection_registry.cpp:
-- the rooms, and which room a connection is in. A shared pointer to a room is the number of the room,
-- and points into `rooms`. `name_of` is `IConnection::get_name`, and `find` what
-- `UserRepository::find_by_username` answers: the chips of an account.
pub mod Lookup
pub mod Invariant
pub mod Departed
pub mod Leave
pub mod Enter
pub mod Join
pub mod Create
pub mod Start
pub mod Processor
pub mod Served
pub mod Course
mod Tests
use Prim.Native.String.{String}
use ascii_poker.Prelude.{
  ℕ, suc, ◌+◌, ◌%◌, ◌^◌, Bool, true, false, not, ◌&&◌, List, [], ◌∷◌, ◌++◌, map, Option, none, some,
  length, ltb, leb, ◌==◌, if◌then◌else◌, keep_if, Map,
}
use ascii_poker.Card.{Card}
use ascii_poker.Protocol.{
  ErrorCode, not_enough_chips, join_failed, game_already_started, room_full, not_in_room, RoomInfo,
  ServerMessage, room_list,
}
use ascii_poker.GameSession.State.{Effect, Outcome, returns, ◌>>=◌, send_message, big_blind_size}
use ascii_poker.Room.{
  Room, new_room, is_game_started, get_room_info, add_player, remove_player, try_start_game,
}

pub record Lobby : Type 0 where
  -- Is `user_repository_` not null?
  pub has_repository : Bool
  -- The connections of `connection_registry_`, if that is not null.
  pub connection_registry : Option (List ℕ)
  pub rooms : List Room
  pub player_rooms : Map ℕ
  pub next_room_id : ℕ
  -- The state of the random device, and the effects so far, the latest first.
  pub seed : ℕ
  pub effects : List Effect

-- The constructor.
abbrev pub new_lobby : Bool → Option (List ℕ) → ℕ → Lobby
new_lobby has_repository connection_registry seed = record {
  has_repository = has_repository;
  connection_registry = connection_registry;
  rooms = [];
  player_rooms = λ c. none;
  next_room_id = 1;
  seed = seed;
  effects = [];
}

-- The `find_if` on a room's number.
unfoldable pub room_of : ℕ → List Room → Option Room
room_of id [] = none
room_of id (r ∷ rs) = let rest = room_of id rs in if r.id == id then some r else rest

-- The rooms when a room has changed: the write through a shared pointer, which is a number here.
unfoldable pub put_room : Room → List Room → List Room
put_room changed [] = []
put_room changed (r ∷ rs) =
    let rest = put_room changed rs in if r.id == changed.id then changed ∷ rest else r ∷ rest

-- `std::remove` and `erase`.
unfoldable pub drop_room : ℕ → List Room → List Room
drop_room id [] = []
drop_room id (r ∷ rs) = let rest = drop_room id rs in if r.id == id then rest else r ∷ rest

-- A room in the lobby, and the lobby when the room has changed.
abbrev pub in_lobby : Lobby → Room → Room
in_lobby l r = record r { seed = l.seed; effects = l.effects }

unfoldable pub keep_room : Lobby → Room → Lobby
unfolding put_room
keep_room l r = record l { rooms = put_room r l.rooms; seed = r.seed; effects = r.effects }

-- `player_rooms_.insert`, which leaves a key that is there, and `player_rooms_.erase`.
unfoldable pub enter : ℕ → ℕ → Map ℕ → Map ℕ
enter c id rooms q = elim (rooms c) [
  | some old ↦ rooms q
  | none ↦ if q == c then some id else rooms q
]

unfoldable pub forget : ℕ → Map ℕ → Map ℕ
forget c rooms q = if q == c then none else rooms q

unfoldable pub get_room_list : Lobby → List RoomInfo
get_room_list l = map get_room_info l.rooms

-- `ConnectionRegistry::broadcast`.
unfoldable pub broadcast : ServerMessage → List ℕ → List Effect → List Effect
broadcast msg [] es = es
broadcast msg (c ∷ cs) es = broadcast msg cs (send_message c msg ∷ es)

unfoldable pub broadcast_room_list : Lobby → Lobby
unfolding broadcast get_room_list
broadcast_room_list l = elim l.connection_registry [
  | none ↦ l
  | some connections ↦ record l {
    effects = broadcast (room_list (get_room_list l)) connections l.effects;
  }
]

abbrev pub get_room : ℕ → Lobby → Option Room
get_room id l = room_of id l.rooms

unfoldable pub find_room_by_player : ℕ → Lobby → Option Room
unfolding room_of
find_room_by_player c l = elim (l.player_rooms c) [ none ↦ none | some id ↦ room_of id l.rooms ]

module _ (name_of : ℕ → String) (find : String → Option ℕ) where
  unfoldable pub check_player_bankroll : ℕ → Lobby → Option ErrorCode
  check_player_bankroll c l =
      let chips : ℕ = elim (find (name_of c)) [ none ↦ 0 | some chips ↦ chips ] in
      if not l.has_repository
      then none
      else if ltb chips big_blind_size
      then some not_enough_chips
      else none

  unfoldable pub account_chips_for : String → Lobby → Option ℕ
  account_chips_for username l = if not l.has_repository then none else find username

  module _ (shuffle : ℕ → List Card → List Card) (fuel : ℕ) where
    -- If the map has a room that is not listed, which the invariant of the lobby excludes, only the
    -- entry of the map is modelled, and not what becomes of the room.
    unfoldable pub leave_room : ℕ → Lobby → Outcome Lobby
    unfolding room_of keep_room forget drop_room broadcast_room_list
    leave_room c l = elim (l.player_rooms c) [
      | none ↦ returns l
      | some id ↦
          let gone = forget c l.player_rooms in
          elim (room_of id l.rooms) [
            | none ↦ returns (broadcast_room_list (record l { player_rooms = gone }))
            | some room ↦ remove_player shuffle fuel name_of c (in_lobby l room) >>= λ (left, done).
                let kept = record (keep_room l left) { player_rooms = gone } in
                returns (
                  broadcast_room_list (
                    if length left.players == 0
                    then record kept { rooms = drop_room left.id kept.rooms }
                    else kept))
          ]
    ]

    -- The room's number, or `none` for a null pointer.
    unfoldable pub create_room : String → ℕ → ℕ → Lobby → Outcome (Lobby × Option ℕ)
    unfolding leave_room check_player_bankroll enter keep_room broadcast_room_list
    create_room name max_players creator l =
        if ltb max_players 2 then returns (l, none) else elim (check_player_bankroll creator l) [
          | some error ↦ returns (l, none)
          | none ↦ leave_room creator l >>= λ l'.
              let room =
                new_room l'.next_room_id name max_players creator l'.has_repository l'.seed in
              let listed = record l' {
                next_room_id = (l'.next_room_id + 1) % 2 ^ 64;
                rooms = l'.rooms ++ (room ∷ []);
              } in
              add_player name_of find shuffle fuel creator (in_lobby listed room)
              >>= λ (joined, added). returns (
                broadcast_room_list (record (keep_room listed joined) {
                  player_rooms = enter creator room.id listed.player_rooms;
                }),
                some room.id,
              )
        ]

    -- The errors of a room that cannot be joined, or the call of `add_player`.
    unfoldable pub join_found : ℕ → Room → Lobby → Outcome (Lobby × Option ErrorCode)
    unfolding enter keep_room broadcast_room_list
    join_found player room l =
        if is_game_started room
        then returns (l, some game_already_started)
        else if leb room.max_players (length room.players)
        then returns (l, some room_full)
        else (add_player name_of find shuffle fuel player (in_lobby l room) >>= λ (joined, added).
            let kept = keep_room l joined in
            returns (
              if added
              then (
                broadcast_room_list
                    (record kept { player_rooms = enter player room.id kept.player_rooms }),
                none,
              )
              else (kept, some join_failed)))

    unfoldable pub join_room : ℕ → ℕ → Lobby → Outcome (Lobby × Option ErrorCode)
    unfolding leave_room check_player_bankroll join_found room_of
    join_room room_id player l =
        let already : Bool = elim (l.player_rooms player) [
          | none ↦ false
          | some id ↦ id == room_id
        ] in
        elim (check_player_bankroll player l) [
          | some error ↦ returns (l, some error)
          | none ↦
              if already
              then returns (l, none)
              else (leave_room player l >>= λ l'. elim (room_of room_id l'.rooms) [
                | none ↦ returns (l', some join_failed)
                | some room ↦ join_found player room l'
              ])
        ]

    unfoldable pub start_game : ℕ → Lobby → Outcome (Lobby × Option ErrorCode)
    unfolding find_room_by_player keep_room broadcast_room_list
    start_game player l = elim (find_room_by_player player l) [
      | none ↦ returns (l, some not_in_room)
      | some room ↦
          try_start_game name_of find shuffle fuel player (in_lobby l room) >>= λ (started, error).
          let kept = keep_room l started in
          returns (elim error [ some e ↦ (kept, some e) | none ↦ (broadcast_room_list kept, none) ])
    ]
