-- ===== src/Lobby/Tests.antt =====
-- A lobby with one room, and requests to it.
use Prim.Native.String.{String}
use ascii_poker.Prelude.{
  ℕ, ◌≡◌, refl, inl, inr, ◌↔◌, true, false, [], ◌∷◌, List, Option, none, some, arith, if◌then◌else◌,
  if_elim, ◌==◌, Bool-cases,
}
use ascii_poker.Protocol.{ClientMessage, create_room, join_room, player_action, call}
use ascii_poker.GameSession.Outcomes.{NeverThrows}
use ascii_poker.GameSession.Samples.{no_shuffle, no_shuffle-IsShuffle}
use ascii_poker.Room.{Room, new_room}
use ascii_poker.Room.Members.{IsRoom}
use ascii_poker.Lobby.{Lobby, new_lobby, room_of}
use ascii_poker.Lobby
use ascii_poker.Lobby.Invariant.{IsLobby, IsListed, HasMember}
use ascii_poker.Lobby.Leave.{IsOut, leave_room-IsOut}
use ascii_poker.Lobby.Enter.{Moderate}
use ascii_poker.Lobby.Join.{IsJoined, join_room-IsJoined}
use ascii_poker.Lobby.Create.{IsCreated, create_room-IsCreated}
use ascii_poker.Lobby.Course.{Request, serve, serve-IsLobby, new_lobby-IsLobby}

abbrev names : ℕ → String
names c = if c == 1 then "ann" else "bob"

abbrev accounts : String → Option ℕ
accounts name = some 500

moderate : Moderate names accounts
moderate true c = omega arith
moderate false c = omega arith

abbrev evening : Room
evening = record (new_room 7 "evening" 2 1 true 0) { players = 1 ∷ [] }

evening-IsRoom : IsRoom evening
evening-IsRoom = record {
  distinct = (refl, tt);
  fits = omega arith;
  few = omega arith;
  hosted = inr refl;
  playing = tt;
}

abbrev one_room : Lobby
one_room = record (new_lobby true (some (1 ∷ 2 ∷ [])) 0) {
  rooms = evening ∷ [];
  player_rooms = λ c. if c == 1 then some 7 else none;
  next_room_id = 8;
}

evening_routed :
    (c id : ℕ)
    → ((if c == 1 then some 7 else none) ≡ some id)
      ↔ HasMember c (if 7 == id then some evening else none)
evening_routed c id = elim (Bool-cases (7 == id)) [
  | inl same ↦ rw same ((λ e. ground arith), (λ e. ground arith))
  | inr other ↦ rw other ((λ e. ground arith), absurd)
]

one_room-IsLobby : IsLobby one_room
unfolding room_of
one_room-IsLobby = record {
  distinct = (refl, tt);
  fresh = λ id le. ground arith;
  sound = λ id. if_elim IsListed (7 == id) (evening-IsRoom, omega arith) tt;
  routed = evening_routed;
}

leave_room-IsOut_example :
    NeverThrows (IsOut 1 one_room) (Lobby.leave_room names accounts no_shuffle 20 1 one_room)
leave_room-IsOut_example =
    leave_room-IsOut names accounts no_shuffle no_shuffle-IsShuffle 20 1 one_room one_room-IsLobby

join_room-IsJoined_example :
    NeverThrows (IsJoined 2 7 one_room) (Lobby.join_room names accounts no_shuffle 20 7 2 one_room)
join_room-IsJoined_example =
    join_room-IsJoined names accounts no_shuffle no_shuffle-IsShuffle 20 moderate 7 2 one_room
      one_room-IsLobby

create_room-IsCreated_example :
    NeverThrows
      (IsCreated 1 one_room)
      (Lobby.create_room names accounts no_shuffle 20 "night" 4 1 one_room)
create_room-IsCreated_example =
    create_room-IsCreated names accounts no_shuffle no_shuffle-IsShuffle 20 moderate "night" 4 1
      one_room (omega arith) (omega arith) one_room-IsLobby

-- Two players meet in a room, play, and one of them is lost.
abbrev from : ℕ → Option ClientMessage → Request
from c message = record { find = accounts; connection = c; message = message }

abbrev meeting : List Request
meeting =
    from 1 (some (create_room (record { room_name = "evening"; max_players = 2 })))
    ∷ from 2 (some (join_room 1))
    ∷ from 1 (some (player_action (record { action = call; amount = none })))
    ∷ from 2 none
    ∷ []

serve-IsLobby_example :
    NeverThrows IsLobby (serve names no_shuffle 20 meeting (new_lobby true (some (1 ∷ 2 ∷ [])) 0))
serve-IsLobby_example =
    serve-IsLobby names no_shuffle no_shuffle-IsShuffle 20 meeting
      (new_lobby true (some (1 ∷ 2 ∷ [])) 0)
      ((moderate, omega arith), ((moderate, tt), ((moderate, tt), ((moderate, tt), tt))))
      (omega arith) (new_lobby-IsLobby true (some (1 ∷ 2 ∷ [])) 0)
