-- ===== src/Room/Tests.antt =====
-- A concrete room.
use Prim.Native.String.{String}
use text.Mathlib.Text.{◌==◌ as str_eq}
use ascii_poker.Prelude.{
  ℕ, ◌≤◌, ◌≡◌, ◌⊎◌, at_key, refl, inr, Bool, true, [], ◌∷◌, Option, none, some, arith,
  if◌then◌else◌, ◌==◌,
}
use ascii_poker.Protocol.{raise}
use ascii_poker.GameSession.State.{GameSession, big_blind_size}
use ascii_poker.GameSession.Outcomes.{Returns, NeverThrows}
use ascii_poker.Room.{
  Room, new_room, in_room, bankroll_of, load_player_bankrolls, add_player, on_player_action,
  remove_player,
}
use ascii_poker.GameSession.Opening.{SoundWithin}
use ascii_poker.Room.Bankrolls.{load_player_bankrolls_lem}
use ascii_poker.Room.Members.{IsRoom, add_player-IsRoom}
use ascii_poker.Room.Play.{remove_player-IsRoom}
use ascii_poker.Room.Raises.{Plays, on_player_action-raise}
use ascii_poker.GameSession.Betting.{IsAllowedRaise}
use ascii_poker.GameSession.Announced.{IsRaised}
use ascii_poker.GameSession.Raises.{IsRaiser, IsTurnedDown}
use ascii_poker.GameSession.Samples.{
  no_shuffle, no_shuffle-IsShuffle, heads_up, heads_up-SoundWithin,
}

abbrev names : ℕ → String
names c = if c == 1 then "ann" else "bob"

abbrev accounts : String → Option ℕ
accounts name = some 500

-- A room for two, with its host.
abbrev with_host : Room
with_host = record (new_room 7 "evening" 2 1 true 0) { players = 1 ∷ [] }

with_host-IsRoom : IsRoom with_host
with_host-IsRoom = record {
  distinct = (refl, tt);
  fits = omega arith;
  few = omega arith;
  hosted = inr refl;
  playing = tt;
}

-- The two at the table, whose players have the numbers of their connections.
abbrev at_table : GameSession
at_table = record heads_up {
  connection_map = λ c. if c == 1 then some 1 else if c == 2 then some 2 else none;
}

at_table-SoundWithin : SoundWithin 2000 at_table
at_table-SoundWithin = ground (arith, heads_up-SoundWithin)

-- The game of two is on.
abbrev playing_room : Room
playing_room = record (new_room 7 "evening" 2 1 true 0) {
  players = 1 ∷ 2 ∷ [];
  game_session = some at_table;
}

playing_room-IsRoom : IsRoom playing_room
playing_room-IsRoom = record {
  distinct = (refl, (refl, tt));
  fits = omega arith;
  few = omega arith;
  hosted = inr refl;
  playing = at_table-SoundWithin.0;
}

add_player-IsRoom_example :
    NeverThrows
      (λ (done : Room × Bool). IsRoom done.0)
      (add_player names accounts no_shuffle 20 2 with_host)
add_player-IsRoom_example =
    add_player-IsRoom names accounts no_shuffle no_shuffle-IsShuffle 20 2 with_host refl refl
      (omega arith) with_host-IsRoom

-- Ann raises to 100 through connection 1.
ann_raises : IsRaiser 100 1 2 1 2000 at_table
unfolding at_key
ann_raises = record {
  sound = at_table-SoundWithin;
  in_turn = refl;
  live = refl;
  within = omega arith;
  word = omega arith;
  small = omega arith;
  headroom = omega arith;
  seat = omega arith;
  at_seat = refl;
  differs = refl;
  acts = refl;
  covered = omega arith;
}

on_player_action-raise_example :
    (IsAllowedRaise 100 1 at_table
      × Returns
          (Plays (IsRaised 100 1 (in_room playing_room at_table)) playing_room)
          (on_player_action no_shuffle 1 1 raise (some 100) playing_room))
    ⊎ ((¬ IsAllowedRaise 100 1 at_table)
        × Returns
            (Plays (IsTurnedDown 1 (in_room playing_room at_table)) playing_room)
            (on_player_action no_shuffle 1 1 raise (some 100) playing_room))
on_player_action-raise_example =
    on_player_action-raise no_shuffle 0 100 1 2 1 2000 1 playing_room at_table refl ann_raises refl

remove_player-IsRoom_example :
    NeverThrows
      (λ (done : Room × Bool). IsRoom done.0)
      (remove_player no_shuffle 20 names 1 playing_room)
remove_player-IsRoom_example =
    remove_player-IsRoom no_shuffle no_shuffle-IsShuffle 20 names 1 playing_room playing_room-IsRoom

abbrev loaded : String → Option ℕ
loaded n = if str_eq n "ann" then some 500 else none

load_player_bankrolls_lem_example :
    (loaded "ann" ≡ some 500) × (big_blind_size ≤ bankroll_of names accounts true 1)
unfolding load_player_bankrolls
load_player_bankrolls_lem_example =
    load_player_bankrolls_lem names accounts true (1 ∷ []) (λ n. none) loaded 1 refl refl
