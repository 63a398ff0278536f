-- ===== src/Lobby/Join.antt =====
-- `join_room` of lobby.cpp.
use Prim.Native.String.{String}
use ascii_poker.Prelude.{
  ℕ, ◌≤◌, ◌<◌, ◌≡◌, refl, ap, ◌∙◌, subst, ◌↔◌, Bool, true, false, List, [], ◌∷◌, ◌++◌, Option, none,
  some, length, length-append, elem, arith, Map, leb, ◌==◌, if◌then◌else◌, if_elim_known, ==_iff,
  Bool-cases, Option-cases, inl, inr,
}
use ascii_poker.Card.{Card}
use ascii_poker.Deck.{IsShuffle}
use ascii_poker.Protocol.{ErrorCode, join_failed, game_already_started, room_full}
use ascii_poker.GameSession.State.{returns}
use ascii_poker.GameSession.Sound.{most_players}
use ascii_poker.GameSession.Outcomes.{
  NeverThrows, NeverThrows->>=, NeverThrows-and, NeverThrows-weaken, NeverThrows-unless,
}
use ascii_poker.Room.{Room, is_game_started, add_player}
use ascii_poker.Room.Members.{IsRoom, add_player-IsRoom}
use ascii_poker.Room.Roster.{IsRoster, add_player-IsRoster}
use ascii_poker.Lobby.{
  Lobby, room_of, enter, in_lobby, keep_room, broadcast_room_list, check_player_bankroll,
  leave_room, join_found, join_room,
}
use ascii_poker.Lobby.Lookup.{room_of-id}
use ascii_poker.Lobby.Invariant.{
  IsRoom-in_lobby, IsLobby, IsListed, HasMember, broadcast_room_list-IsLobby,
  broadcast_room_list-same,
}
use ascii_poker.Lobby.Leave.{IsOut, leave_room-IsOut}
use ascii_poker.Lobby.Departed.{elsewhere}
use ascii_poker.Lobby.Enter.{entered, entered-IsLobby, entered_map, Moderate, room_funds-moderate}

-- Without an error, the room that the map has is the one asked for.
abbrev pub IsInside : Option ErrorCode → Option ℕ → ℕ → Type 0
IsInside none room id = room ≡ some id
IsInside (some error) room id = Unit

-- The lobby keeps its invariant, all others stay where they are, without an error the connection is in
-- the room, and no number has been given out.
abbrev pub IsJoined : ℕ → ℕ → Lobby → Lobby × Option ErrorCode → Type 0
IsJoined c id l done =
    IsLobby done.0
    × ((q : ℕ)
        → done.0.player_rooms q ≡ (if q == c then done.0.player_rooms c else l.player_rooms q))
    × IsInside done.1 (done.0.player_rooms c) id
    × (done.0.next_room_id ≡ l.next_room_id)

last_elem : (q c : ℕ) (ps : List ℕ) → elem q ps ≡ true → elem q (ps ++ (c ∷ [])) ≡ true
last_elem q c [] h = ground arith
last_elem q c (p ∷ ps) h = ground (arith, last_elem q c ps)

refused : (c id : ℕ) (l : Lobby) (error : ErrorCode) → IsLobby l → IsJoined c id l (l, some error)
refused c id l error h = (h, elsewhere c l.player_rooms l.player_rooms (λ q e. refl), tt, refl)

-- A connection that is in no room is no member of one.
no_member :
    (c : ℕ) (l : Lobby) (r : Room)
    → l.player_rooms c ≡ none
    → (l.player_rooms c ≡ some r.id) ↔ (elem c r.players ≡ true)
    → elem c r.players ≡ false
no_member c l r out routed = elim (Bool-cases (elem c r.players)) [
  | inl here ↦ absurd (apart (l.player_rooms c) out (routed.1 here))
  | inr other ↦ other
]
  where
    apart : (o : Option ℕ) → o ≡ none → o ≡ some r.id → ⊥
    apart o e k = ground arith

place_left :
    (c : ℕ) (r : Room)
    → IsRoom r
    → leb r.max_players (length r.players) ≡ false
    → length (r.players ++ (c ∷ [])) ≤ most_players
place_left c r h place =
    let few = h.few in
    let below : length r.players < r.max_players = ground arith in
    omega (arith, length-append r.players (c ∷ []))

still_hosted :
    (c : ℕ) (r : Room)
    → IsRoom r
    → 0 < length r.players
    → elem r.host (r.players ++ (c ∷ [])) ≡ true
still_hosted c r h some_member = elim h.hosted [
  | inl nobody ↦ absurd (omega arith)
  | inr host ↦ last_elem r.host c r.players host
]

already_in :
    (o : Option ℕ) (room_id : ℕ)
    → (elim o as (λ _. Bool) [ none ↦ false | some id ↦ id == room_id ]) ≡ true
    → o ≡ some room_id
already_in none room_id t = absurd (ground arith)
already_in (some id) room_id t = ap some ((==_iff id room_id).0 t)

module _ (name_of : ℕ → String) (find : String → Option ℕ) (shuffle : ℕ → List Card → List Card)
    (perm : IsShuffle shuffle) (fuel : ℕ) (moderate : Moderate name_of find) where
  -- The end of a call that has added the connection.
  welcomed :
      (c : ℕ) (r : Room) (l : Lobby) (joined : Room)
      → IsLobby l
      → l.player_rooms c ≡ none
      → room_of r.id l.rooms ≡ some r
      → (added : Bool) → added ≡ true
      → IsRoom joined
      → IsRoster r (r.players ++ (c ∷ [])) joined
      → let kept = keep_room l joined in
        IsJoined c r.id l (
          if added
          then (
            broadcast_room_list (record kept { player_rooms = enter c r.id kept.player_rooms }),
            none,
          )
          else (kept, some join_failed))
  unfolding keep_room
  welcomed c r l joined h out there false e room roster = absurd (ground arith)
  welcomed c r l joined h out there true e room roster =
      let routed = λ (q : ℕ).
        subst (λ o. (l.player_rooms q ≡ some r.id) ↔ HasMember q o) there (h.routed q r.id) in
      let done =
        entered c l l r joined h h.distinct h.fresh there (λ id e. refl) out routed room roster in
      let (self, rest) =
        entered_map c l l r joined h h.distinct h.fresh there (λ id e. refl) out routed room
          roster in
      let same = (broadcast_room_list-same done).0 in
      (
        broadcast_room_list-IsLobby done (
            entered-IsLobby c l l r joined h h.distinct h.fresh there (λ id e. refl) out routed room
              roster),
        elsewhere c l.player_rooms (broadcast_room_list done).player_rooms
            (λ q e. ap (λ (m : Map ℕ). m q) same ∙ rest q e),
        ap (λ (m : Map ℕ). m c) same ∙ self,
        (broadcast_room_list-same done).1,
      )

  join_found-IsJoined :
      (c : ℕ) (r : Room) (l : Lobby)
      → IsLobby l
      → l.player_rooms c ≡ none
      → room_of r.id l.rooms ≡ some r
      → NeverThrows (IsJoined c r.id l) (join_found name_of find shuffle fuel c r l)
  unfolding join_found
  join_found-IsJoined c r l h out there =
      let joined = IsJoined c r.id l in
      let start = in_lobby l r in
      let listed = subst IsListed there (h.sound r.id) in
      let routed = λ (q : ℕ).
        subst (λ o. (l.player_rooms q ≡ some r.id) ↔ HasMember q o) there (h.routed q r.id) in
      NeverThrows-unless joined (is_game_started r) (returns (l, some game_already_started)) _
        (refused c r.id l game_already_started h)
        λ idle.
          NeverThrows-unless joined (leb r.max_players (length r.players))
            (returns (l, some room_full)) _ (refused c r.id l room_full h)
            λ place.
              NeverThrows->>=
                (λ (done : Room × Bool).
                  IsRoom done.0 × ((done.1 ≡ true) × IsRoster r (r.players ++ (c ∷ [])) done.0))
                joined (add_player name_of find shuffle fuel c start) _
                (NeverThrows-and (λ (done : Room × Bool). IsRoom done.0)
                  (λ (done : Room × Bool).
                    (done.1 ≡ true) × IsRoster r (r.players ++ (c ∷ [])) done.0)
                  (add_player name_of find shuffle fuel c start)
                  (add_player-IsRoom name_of find shuffle perm fuel c start
                    (no_member c l r out (routed c)) (still_hosted c r listed.0 listed.1)
                    (room_funds-moderate name_of find
                      (record start { players = r.players ++ (c ∷ []) }) moderate
                      (place_left c r listed.0 place))
                    (IsRoom-in_lobby l r listed.0))
                  (add_player-IsRoster shuffle fuel name_of find c start idle place))
                (λ done k. welcomed c r l done.0 h out there done.1 k.1.0 k.0 k.1.1)

  join_listed :
      (c room_id : ℕ) (l : Lobby)
      → IsLobby l
      → l.player_rooms c ≡ none
      → NeverThrows (IsJoined c room_id l) (elim (room_of room_id l.rooms) [
        | none ↦ returns (l, some join_failed)
        | some room ↦ join_found name_of find shuffle fuel c room l
      ])
  join_listed c room_id l h out = elim (Option-cases (room_of room_id l.rooms)) [
    | inl nowhere ↦ rw nowhere (refused c room_id l join_failed h)
    | inr (r, there) ↦
        let same = room_of-id room_id l.rooms r there in
        rw there (
          subst (λ id. NeverThrows (IsJoined c id l) (join_found name_of find shuffle fuel c r l))
            same (join_found-IsJoined c r l h out (ap (λ (k : ℕ). room_of k l.rooms) same ∙ there)))
  ]

  -- With a shuffle that permutes the cards, and accounts of at most 2^27 chips: when a connection asks to
  -- join a room of a lobby with the invariant, nothing is thrown, whatever the fuel for a game that
  -- starts; and when the call returns, the lobby has the invariant, every other connection is in the room
  -- where it was, without an error the connection is in the room, and the next number is the same.
  pub join_room-IsJoined :
      (room_id c : ℕ) (l : Lobby)
      → IsLobby l
      → NeverThrows (IsJoined c room_id l) (join_room name_of find shuffle fuel room_id c l)
  unfolding join_room
  join_room-IsJoined room_id c l h = elim (Option-cases (check_player_bankroll name_of find c l)) [
    | inr (error, e) ↦ rw (e, join_room) (refused c room_id l error h)
    | inl e ↦
        let joined = IsJoined c room_id l in
        rw (e, join_room)
          (if_elim_known (NeverThrows joined) _ (returns (l, none)) _
            (λ t. (
              h,
              elsewhere c l.player_rooms l.player_rooms (λ q differs. refl),
              already_in (l.player_rooms c) room_id t,
              refl,
            ))
            (λ f.
              NeverThrows->>= (IsOut c l) joined (leave_room name_of find shuffle fuel c l) _
                (leave_room-IsOut name_of find shuffle perm fuel c l h)
                (λ l' k.
                  NeverThrows-weaken (IsJoined c room_id l') joined _
                    (λ done j. (
                      j.0,
                      elsewhere c l.player_rooms done.0.player_rooms
                          (λ q differs. j.1 q ∙ rw differs (k.1 q ∙ rw differs refl)),
                      j.2,
                      j.3 ∙ k.2,
                    ))
                    (join_listed c room_id l' k.0 (k.1 c ∙ rw ((==_iff c c).1 refl) refl)))))
  ]
