-- ===== src/Lobby/Create.antt =====
-- `create_room` of lobby.cpp.
use Prim.Native.String.{String}
use ascii_poker.Prelude.{
  ℕ, ◌+◌, ◌%◌, ◌^◌, ltb, ◌≤◌, ◌<◌, ◌≡◌, refl, sym, ap, ◌∙◌, subst, ◌↔◌, Bool, true, false, List, [],
  ◌∷◌, ◌++◌, Option, none, some, elem, arith, Map, ◌==◌, if◌then◌else◌, ==_iff, Option-cases, inl,
  inr,
}
use ascii_poker.Card.{Card}
use ascii_poker.Deck.{IsShuffle}
use ascii_poker.GameSession.State.{returns}
use ascii_poker.GameSession.Sound.{most_players}
use ascii_poker.GameSession.Outcomes.{
  NeverThrows, NeverThrows->>=, NeverThrows-and, NeverThrows-weaken, NeverThrows-unless,
}
use ascii_poker.Room.{Room, new_room, add_player}
use ascii_poker.Room.Members.{IsRoom, add_player-IsRoom}
use ascii_poker.Room.Roster.{IsRoster, add_player-IsRoster}
use ascii_poker.Lobby.{
  Lobby, room_of, enter, in_lobby, keep_room, broadcast_room_list, check_player_bankroll,
  leave_room, create_room,
}
use ascii_poker.Lobby.Lookup.{room_of-append, Distinct-ids-append}
use ascii_poker.Lobby.Invariant.{
  IsLobby, HasMember, broadcast_room_list-IsLobby, broadcast_room_list-same,
}
use ascii_poker.Lobby.Leave.{IsOut, leave_room-IsOut}
use ascii_poker.Lobby.Departed.{elsewhere}
use ascii_poker.Lobby.Enter.{entered, entered-IsLobby, entered_map, Moderate, room_funds-moderate}

-- The room that is answered, if any, is the one that the map has.
abbrev pub IsInNew : Option ℕ → Option ℕ → Type 0
IsInNew none room = Unit
IsInNew (some id) room = room ≡ some id

-- The lobby keeps its invariant, all others stay where they are, the creator is in a room that is
-- answered, and at most one number has been given out.
abbrev pub IsCreated : ℕ → Lobby → Lobby × Option ℕ → Type 0
IsCreated c l done =
    IsLobby done.0
    × ((q : ℕ)
        → done.0.player_rooms q ≡ (if q == c then done.0.player_rooms c else l.player_rooms q))
    × IsInNew done.1 (done.0.player_rooms c)
    × (done.0.next_room_id ≤ l.next_room_id + 1)

not-IsCreated : (c : ℕ) (l : Lobby) → IsLobby l → IsCreated c l (l, none)
not-IsCreated c l h = (h, elsewhere c l.player_rooms l.player_rooms (λ q e. refl), tt, omega arith)

module _ (name_of : ℕ → String) (find : String → Option ℕ) (shuffle : ℕ → List Card → List Card)
    (perm : IsShuffle shuffle) (fuel : ℕ) (moderate : Moderate name_of find) where
  -- The new room, and the lobby that lists it.
  abbrev fresh_room : String → ℕ → ℕ → Lobby → Room
  fresh_room name max_players c l =
      new_room l.next_room_id name max_players c l.has_repository l.seed

  abbrev with_room : Room → Lobby → Lobby
  with_room room l = record l {
    next_room_id = (l.next_room_id + 1) % 2 ^ 64;
    rooms = l.rooms ++ (room ∷ []);
  }

  module _ (name : String) (max_players c : ℕ) (few : max_players ≤ most_players)
      (enough : ltb max_players 2 ≡ false) where
    fresh_room-IsRoom : (l : Lobby) → IsRoom (in_lobby l (fresh_room name max_players c l))
    fresh_room-IsRoom l = record {
      distinct = tt;
      fits = omega arith;
      few = few;
      hosted = inl refl;
      playing = tt;
    }

    module _ (l : Lobby) (numbers : l.next_room_id + 1 < 2 ^ 64) (h : IsLobby l)
        (out : l.player_rooms c ≡ none) where
      abbrev room : Room
      room = fresh_room name max_players c l

      abbrev listed : Lobby
      listed = with_room room l

      unlisted : room_of room.id l.rooms ≡ none
      unlisted = h.fresh l.next_room_id (omega arith)

      listed_rooms :
          (id : ℕ)
          → room_of id listed.rooms ≡ (if id == room.id then some room else room_of id l.rooms)
      listed_rooms id = room_of-append id room l.rooms unlisted

      listed_fresh : (id : ℕ) → listed.next_room_id ≤ id → room_of id listed.rooms ≡ none
      listed_fresh id le =
          let later : l.next_room_id + 1 ≤ id = omega arith in
          let other : (id == room.id) ≡ false = ground arith in
          listed_rooms id ∙ rw other (h.fresh id (omega arith))

      nobody_inside : (q : ℕ) → (l.player_rooms q ≡ some room.id) ↔ (elem q room.players ≡ true)
      nobody_inside q =
          let none_there =
            subst (λ o. (l.player_rooms q ≡ some room.id) ↔ HasMember q o) unlisted
              (h.routed q room.id) in
          ((λ e. absurd (none_there.0 e)), (λ e. absurd (ground arith)))

      next_kept : (joined : Room) → (keep_room listed joined).next_room_id ≡ l.next_room_id + 1
      unfolding keep_room
      next_kept joined = omega arith

      opened :
          (joined : Room)
          → IsRoom joined
          → IsRoster room (room.players ++ (c ∷ [])) joined
          → IsCreated c l (
            broadcast_room_list (record (keep_room listed joined) {
              player_rooms = enter c room.id l.player_rooms;
            }),
            some room.id,
          )
      opened joined is_room roster =
          let distinct = Distinct-ids-append room l.rooms unlisted h.distinct in
          let there = listed_rooms room.id ∙ rw ((==_iff room.id room.id).1 refl) refl in
          let others = λ (id : ℕ) (e : (id == room.id) ≡ false). listed_rooms id ∙ rw e refl in
          let done =
            entered c l listed room joined h distinct listed_fresh there others out nobody_inside
              is_room roster in
          let (self, rest) =
            entered_map c l listed room joined h distinct listed_fresh there others out
              nobody_inside is_room roster in
          let same = (broadcast_room_list-same done).0 in
          (
            broadcast_room_list-IsLobby done (
                entered-IsLobby c l listed room joined h distinct listed_fresh there others out
                  nobody_inside is_room roster),
            elsewhere c l.player_rooms (broadcast_room_list done).player_rooms
                (λ q e. ap (λ (m : Map ℕ). m q) same ∙ rest q e),
            ap (λ (m : Map ℕ). m c) same ∙ self,
            omega (arith, (broadcast_room_list-same done).1, next_kept joined),
          )

      creator_added :
          NeverThrows
            (λ (done : Room × Bool).
              IsRoom done.0 × ((done.1 ≡ true) × IsRoster room (room.players ++ (c ∷ [])) done.0))
            (add_player name_of find shuffle fuel c (in_lobby listed room))
      creator_added =
          let start = in_lobby listed room in
          NeverThrows-and (λ (done : Room × Bool). IsRoom done.0)
            (λ (done : Room × Bool).
              (done.1 ≡ true) × IsRoster room (room.players ++ (c ∷ [])) done.0)
            (add_player name_of find shuffle fuel c start)
            (add_player-IsRoom name_of find shuffle perm fuel c start refl
              (rw ((==_iff c c).1 refl) refl)
              (room_funds-moderate name_of find (record start { players = c ∷ [] }) moderate
                (omega arith))
              (fresh_room-IsRoom l))
            (add_player-IsRoster shuffle fuel name_of find c start refl (ground arith))

  -- With a shuffle that permutes the cards, and accounts of at most 2^27 chips: when a connection asks for
  -- a new room for at most 23 players, in a lobby with the invariant whose numbers are not used up, nothing
  -- is thrown, whatever the fuel; and when the call returns, the lobby has the invariant, every other
  -- connection is in the room where it was, a room that is answered has the connection in it, and the next
  -- number is at most one more.
  pub create_room-IsCreated :
      (name : String) (max_players c : ℕ) (l : Lobby)
      → max_players ≤ most_players
      → l.next_room_id + 1 < 2 ^ 64
      → IsLobby l
      → NeverThrows (IsCreated c l) (create_room name_of find shuffle fuel name max_players c l)
  unfolding create_room
  create_room-IsCreated name max_players c l few numbers h =
      let created = IsCreated c l in
      NeverThrows-unless created (ltb max_players 2) (returns (l, none)) _ (not-IsCreated c l h)
        λ enough. elim (Option-cases (check_player_bankroll name_of find c l)) [
          | inr (error, e) ↦ rw e (not-IsCreated c l h)
          | inl e ↦ rw e (
              NeverThrows->>= (IsOut c l) created (leave_room name_of find shuffle fuel c l) _
                (leave_room-IsOut name_of find shuffle perm fuel c l h)
                (λ l' k.
                  let left = subst (λ n. n + 1 < 2 ^ 64) (sym k.2) numbers in
                  let out = k.1 c ∙ rw ((==_iff c c).1 refl) refl in
                  NeverThrows-weaken (IsCreated c l') created _
                    (λ done j. (
                      j.0,
                      elsewhere c l.player_rooms done.0.player_rooms
                          (λ q differs. j.1 q ∙ rw differs (k.1 q ∙ rw differs refl)),
                      j.2,
                      omega (arith, j.3, k.2),
                    ))
                    (NeverThrows->>= _ (IsCreated c l')
                      (add_player name_of find shuffle fuel c (
                        in_lobby (with_room (fresh_room name max_players c l') l')
                          (fresh_room name max_players c l')))
                      _ (creator_added name max_players c few enough l' left k.0 out)
                      (λ done j.
                        opened name max_players c few enough l' left k.0 out done.0 j.0 j.1.1))))
        ]
