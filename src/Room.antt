-- ===== src/Room.antt =====
-- server/include/game/room.h and server/src/game/room.cpp: a room, its members, and the session that
-- it starts. A connection is a number, and the player made for a connection has the same number.
-- `name_of` is `IConnection::get_name`, and `find` what `UserRepository::find_by_username` answers:
-- the chips of an account.
pub mod Bankrolls
pub mod Members
pub mod Play
pub mod Raises
pub mod Roster
mod Tests
use Prim.Native.String.{String}
use text.Mathlib.Text.{◌==◌ as str_eq}
use ascii_poker.Prelude.{
  ℕ, zero, suc, ◌+◌, Bool, true, false, not, ◌&&◌, List, [], ◌∷◌, ◌++◌, map, Option, none, some,
  length, elem, get_or, ltb, leb, ◌==◌, ◌%◌, if◌then◌else◌,
}
use ascii_poker.Card.{Card}
use ascii_poker.Protocol.{
  Action, ErrorCode, not_enough_chips, game_already_started, not_room_host, not_enough_players,
  RoomInfo, JoinedRoom, joined_room, ServerMessage,
}
use ascii_poker.GameSession.State.{
  GameSession, Effect, Outcome, returns, ◌>>=◌, emit, send_message, starting_chips, big_blind_size,
}
use ascii_poker.GameSession.Seats.{has_enough_players}
use ascii_poker.GameSession.Phases.{start, ask_current_player}
use ascii_poker.GameSession.Moves.{index_of, erase_at, apply_action}
use ascii_poker.GameSession.Moves
use ascii_poker.GameSession.Setup.{new_session}

pub record Room : Type 0 where
  -- Is `user_repository_` not null?
  pub has_repository : Bool
  pub id : ℕ
  pub name : String
  pub max_players : ℕ
  pub host : ℕ
  pub players : List ℕ
  pub game_session : Option GameSession
  -- The state of the random device, and the effects so far, the latest first.
  pub seed : ℕ
  pub effects : List Effect

-- The constructor.
abbrev pub new_room : ℕ → String → ℕ → ℕ → Bool → ℕ → Room
new_room id name max_players host has_repository seed = record {
  has_repository = has_repository;
  id = id;
  name = name;
  max_players = max_players;
  host = host;
  players = [];
  game_session = none;
  seed = seed;
  effects = [];
}

abbrev pub is_game_started : Room → Bool
is_game_started r = elim r.game_session [ none ↦ false | some s ↦ true ]

unfoldable pub get_room_info : Room → RoomInfo
get_room_info r = record {
  room_id = r.id;
  room_name = r.name;
  current_players = length r.players % 256;
  max_players = r.max_players;
  in_game = is_game_started r;
}

-- What the session has done to the room's random device and to the outside.
abbrev pub keep_session : Room → GameSession → Room
keep_session r s = record r { game_session = some s; seed = s.seed; effects = s.effects }

-- The session as it stands, with the effects of the room so far.
abbrev pub in_room : Room → GameSession → GameSession
in_room r s = record s { seed = r.seed; effects = r.effects }

module _ (name_of : ℕ → String) where
  unfoldable pub make_joined_room_message : Room → JoinedRoom
  make_joined_room_message r = record {
    room_id = r.id;
    player_names = map name_of r.players;
    host_name = name_of r.host;
    max_players = r.max_players;
    in_game = is_game_started r;
  }

  -- The loop over the connections.
  unfoldable pub send_joined : JoinedRoom → List ℕ → List Effect → List Effect
  send_joined msg [] es = es
  send_joined msg (c ∷ cs) es = send_joined msg cs (send_message c (joined_room msg) ∷ es)

  unfoldable pub notify_all_about_joined : Room → Room
  unfolding make_joined_room_message send_joined
  notify_all_about_joined r = record r {
    effects = send_joined (make_joined_room_message r) r.players r.effects;
  }

  -- The members that stay, the host if need be, and the message to them.
  unfoldable pub leave_members : ℕ → ℕ → Room → Room
  unfolding notify_all_about_joined
  leave_members c index r =
      let players = erase_at index r.players in
      let host =
        (if c == r.host && not (length players == 0) then get_or players 0 0 else r.host) in
      let left = record r { players = players; host = host } in
      if length players == 0 then left else notify_all_about_joined left

  -- The session of `start_game`, before it starts.
  unfoldable pub room_session : Room → (String → Option ℕ) → GameSession
  unfolding new_session
  room_session r bankrolls = in_room r (
      new_session r.players name_of (λ c. if elem c r.players then some c else none)
        r.has_repository bankrolls r.seed)

  module _ (find : String → Option ℕ) where
    -- The chips with which a connection would sit down.
    abbrev pub bankroll_of : Bool → ℕ → ℕ
    bankroll_of has_repository c =
        if has_repository
        then (elim (find (name_of c)) [ none ↦ 0 | some chips ↦ chips ])
        else starting_chips

    -- The loop of `load_player_bankrolls`; `none` is the error `NotEnoughChips`.
    unfoldable pub load_player_bankrolls :
        Bool → List ℕ → (String → Option ℕ) → Option (String → Option ℕ)
    load_player_bankrolls has_repository [] bankrolls = some bankrolls
    load_player_bankrolls has_repository (c ∷ cs) bankrolls =
        let chips = bankroll_of has_repository c in
        let rest =
          load_player_bankrolls has_repository cs
            (λ n. if str_eq n (name_of c) then some chips else bankrolls n) in
        if ltb chips big_blind_size then none else rest

    module _ (shuffle : ℕ → List Card → List Card) (fuel : ℕ) where
      unfoldable pub start_game : Room → Outcome (Room × Option ErrorCode)
      unfolding load_player_bankrolls room_session start ask_current_player
      start_game r = elim r.game_session [
        | some s ↦ returns (r, none)
        | none ↦ elim (load_player_bankrolls r.has_repository r.players (λ n. none)) [
          | none ↦ returns (r, some not_enough_chips)
          | some bankrolls ↦
              start shuffle (ask_current_player shuffle fuel) (room_session r bankrolls) >>= λ s.
              returns (keep_session r s, none)
        ]
      ]

      unfoldable pub try_start_game : ℕ → Room → Outcome (Room × Option ErrorCode)
      unfolding start_game
      try_start_game requester r =
          if is_game_started r
          then returns (r, some game_already_started)
          else if not (requester == r.host)
          then returns (r, some not_room_host)
          else if ltb (length r.players) 2
          then returns (r, some not_enough_players)
          else start_game r

      -- The error of an automatic start is only logged.
      unfoldable pub add_player : ℕ → Room → Outcome (Room × Bool)
      unfolding notify_all_about_joined start_game
      add_player c r =
          let r' = notify_all_about_joined (record r { players = r.players ++ c ∷ [] }) in
          if is_game_started r
          then returns (r, false)
          else if leb r.max_players (length r.players)
          then returns (r, false)
          else if length r'.players == r.max_players
          then (start_game r' >>= λ (started, error). returns (started, true))
          else returns (r', true)

module _ (shuffle : ℕ → List Card → List Card) (fuel : ℕ) where
  unfoldable pub on_player_action : ℕ → Action → Option ℕ → Room → Outcome Room
  unfolding apply_action
  on_player_action c action amount r = elim r.game_session [
    | none ↦ returns r
    | some s ↦ apply_action shuffle fuel c action amount (in_room r s) >>= λ s'.
        returns (keep_session r s')
  ]

  -- The session's part of `remove_player`; a session with fewer than two players is dropped.
  unfoldable pub leave_session : ℕ → Room → Outcome Room
  unfolding Moves.remove_player
  leave_session c r = elim r.game_session [
    | none ↦ returns r
    | some s ↦ Moves.remove_player shuffle fuel c (in_room r s) >>= λ s'.
        let kept = keep_session r s' in
        returns (if has_enough_players s' then kept else record kept { game_session = none })
  ]

  module _ (name_of : ℕ → String) where
    unfoldable pub remove_player : ℕ → Room → Outcome (Room × Bool)
    unfolding leave_session leave_members
    remove_player c r = elim (index_of c r.players) [
      | none ↦ returns (r, false)
      | some index ↦ leave_session c r >>= λ r'. returns (leave_members name_of c index r', true)
    ]
