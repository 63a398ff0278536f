-- ===== src/Lobby/Served.antt =====
-- The messages that the server takes keep the lobby in order: lobby_message_processor.cpp.
use Prim.Native.String.{String}
use ascii_poker.Prelude.{
  ℕ, ◌+◌, ◌^◌, ◌≤◌, ◌<◌, ◌≡◌, refl, ap, ◌∙◌, subst, List, Option, none, some, arith, ltb,
  Option-cases, inl, inr,
}
use ascii_poker.Card.{Card}
use ascii_poker.Deck.{IsShuffle}
use ascii_poker.Protocol.{
  ErrorCode, invalid_max_players, ClientMessage, ServerMessage, error_reply, login, list_rooms,
  player_action, PlayerAction,
}
use ascii_poker.Protocol
use ascii_poker.GameSession.State.{returns}
use ascii_poker.GameSession.Sound.{most_players}
use ascii_poker.GameSession.Outcomes.{
  NeverThrows, NeverThrows->>=, NeverThrows-and, NeverThrows-unless,
}
use ascii_poker.Room.{on_player_action}
use ascii_poker.Room.Members.{IsRoom}
use ascii_poker.Room.Play.{on_player_action-IsRoom}
use ascii_poker.Room.Roster.{IsRoster, on_player_action-IsRoster}
use ascii_poker.Lobby.{
  Lobby, room_of, in_lobby, keep_room, check_player_bankroll, leave_room, create_room, join_room,
  start_game,
}
use ascii_poker.Lobby.Lookup.{room_of-id}
use ascii_poker.Lobby.Invariant.{IsLobby, IsListed, IsRoom-in_lobby}
use ascii_poker.Lobby.Leave.{IsOut, leave_room-IsOut}
use ascii_poker.Lobby.Enter.{Moderate}
use ascii_poker.Lobby.Join.{IsJoined, join_room-IsJoined}
use ascii_poker.Lobby.Create.{IsCreated, create_room-IsCreated}
use ascii_poker.Lobby.Start.{changed-IsLobby, start_game-IsLobby}
use ascii_poker.Lobby.Processor.{
  send, send_error, process_create_room, process_leave_room, process_player_action,
  process_client_message,
}

-- The lobby has the invariant, and has given out at most one number.
abbrev pub IsServed : Lobby → Lobby → Type 0
IsServed l l' = IsLobby l' × (l'.next_room_id ≤ l.next_room_id + 1)

-- A room asked for holds at most 23 players.
abbrev pub IsModest : ClientMessage → Type 0
IsModest (Protocol.create_room msg) = msg.max_players ≤ most_players
IsModest _ = Unit

served : (l l' : Lobby) → IsLobby l' → l'.next_room_id ≡ l.next_room_id → IsServed l l'
served l l' h n = (h, omega (arith, n))

-- What is sent to the connection changes nothing else.
send-IsServed :
    (c : ℕ) (msg : ServerMessage) (l l' : Lobby) → IsServed l l' → IsServed l (send c msg l')
unfolding send
send-IsServed c msg l l' (h, n) =
    (record { distinct = h.distinct; fresh = h.fresh; sound = h.sound; routed = h.routed }, n)

send_error-IsServed :
    (c : ℕ) (error : Option ErrorCode) (l l' : Lobby)
    → IsServed l l'
    → IsServed l (send_error c error l')
unfolding send_error
send_error-IsServed c none l l' h = h
send_error-IsServed c (some error) l l' h = send-IsServed c (error_reply error) l l' h

module _ (name_of : ℕ → String) (find : String → Option ℕ) (shuffle : ℕ → List Card → List Card)
    (perm : IsShuffle shuffle) (fuel : ℕ) where
  process_leave_room-IsServed :
      (c : ℕ) (l : Lobby)
      → IsLobby l
      → NeverThrows (IsServed l) (process_leave_room name_of find shuffle fuel c l)
  unfolding process_leave_room
  process_leave_room-IsServed c l h =
      NeverThrows->>= (IsOut c l) (IsServed l) (leave_room name_of find shuffle fuel c l) _
        (leave_room-IsOut name_of find shuffle perm fuel c l h)
        (λ l' k. send-IsServed c _ l l' (served l l' k.0 k.2))

  process_player_action-IsServed :
      (c : ℕ) (msg : PlayerAction) (l : Lobby)
      → IsLobby l
      → NeverThrows (IsServed l) (process_player_action name_of find shuffle fuel c msg l)
  unfolding process_player_action
  process_player_action-IsServed c msg l h = elim (Option-cases (l.player_rooms c)) [
    | inl e ↦ rw (e, process_player_action) (send-IsServed c _ l l (served l l h refl))
    | inr (id, e) ↦ elim (Option-cases (room_of id l.rooms)) [
      | inl nowhere ↦
          rw (e, nowhere, process_player_action) (send-IsServed c _ l l (served l l h refl))
      | inr (r, there) ↦
          let same = room_of-id id l.rooms r there in
          let at_id : room_of r.id l.rooms ≡ some r =
            ap (λ (k : ℕ). room_of k l.rooms) same ∙ there in
          let room = IsRoom-in_lobby l r (subst IsListed there (h.sound id)).0 in
          rw (e, there, process_player_action)
            (NeverThrows->>= (λ t. IsRoom t × IsRoster r r.players t) (IsServed l)
              (on_player_action shuffle fuel c msg.action msg.amount (in_lobby l r)) _
              (NeverThrows-and IsRoom (IsRoster r r.players)
                (on_player_action shuffle fuel c msg.action msg.amount (in_lobby l r))
                (on_player_action-IsRoom shuffle perm fuel c msg.action msg.amount (in_lobby l r)
                  room)
                (on_player_action-IsRoster shuffle fuel c msg.action msg.amount (in_lobby l r)))
              (λ t k. served l (keep_room l t) (changed-IsLobby l r t h at_id k.0 k.1) refl))
    ]
  ]

  module _ (moderate : Moderate name_of find) where
    process_create_room-IsServed :
        (c : ℕ) (name : String) (max_players : ℕ) (l : Lobby)
        → max_players ≤ most_players
        → l.next_room_id + 1 < 2 ^ 64
        → IsLobby l
        → NeverThrows
            (IsServed l)
            (process_create_room name_of find shuffle fuel c name max_players l)
    unfolding process_create_room
    process_create_room-IsServed c name max_players l few numbers h =
        NeverThrows-unless (IsServed l) (ltb max_players 2)
          (returns (send c (error_reply invalid_max_players) l)) _
          (send-IsServed c _ l l (served l l h refl))
          λ enough. elim (Option-cases (check_player_bankroll name_of find c l)) [
            | inr (error, e) ↦ rw e (send-IsServed c _ l l (served l l h refl))
            | inl e ↦ rw e (
                NeverThrows->>= (IsCreated c l) (IsServed l)
                  (create_room name_of find shuffle fuel name max_players c l) _
                  (create_room-IsCreated name_of find shuffle perm fuel moderate name max_players c
                    l few numbers h)
                  (λ done k. (k.0, k.3)))
          ]

    -- With a shuffle that permutes the cards, and accounts of at most 2^27 chips: a message of a
    -- connection, which asks for no room of more than 23 players, throws nothing in a lobby with the
    -- invariant whose numbers are not used up, whatever the fuel; and when the call returns, the lobby has
    -- the invariant and has given out at most one number.
    pub process_client_message-IsServed :
        (c : ℕ) (msg : ClientMessage) (l : Lobby)
        → IsModest msg
        → l.next_room_id + 1 < 2 ^ 64
        → IsLobby l
        → NeverThrows (IsServed l) (process_client_message name_of find shuffle fuel c msg l)
    unfolding process_client_message
    process_client_message-IsServed c (login msg) l modest numbers h = served l l h refl
    process_client_message-IsServed c (Protocol.create_room msg) l modest numbers h =
        process_create_room-IsServed c msg.room_name msg.max_players l modest numbers h
    process_client_message-IsServed c (Protocol.join_room room_id) l modest numbers h =
        NeverThrows->>= (IsJoined c room_id l) (IsServed l)
          (join_room name_of find shuffle fuel room_id c l) _
          (join_room-IsJoined name_of find shuffle perm fuel moderate room_id c l h)
          (λ done k. send_error-IsServed c done.1 l done.0 (served l done.0 k.0 k.3))
    process_client_message-IsServed c Protocol.leave_room l modest numbers h =
        process_leave_room-IsServed c l h
    process_client_message-IsServed c list_rooms l modest numbers h =
        send-IsServed c _ l l (served l l h refl)
    process_client_message-IsServed c Protocol.start_game l modest numbers h =
        NeverThrows->>= _ (IsServed l) (start_game name_of find shuffle fuel c l) _
          (start_game-IsLobby name_of find shuffle perm fuel moderate c l h)
          (λ done k. send_error-IsServed c done.1 l done.0 (served l done.0 k.0 k.1))
    process_client_message-IsServed c (player_action msg) l modest numbers h =
        process_player_action-IsServed c msg l h
