-- ===== src/Lobby/Start.antt =====
-- `start_game` of lobby.cpp.
use Prim.Native.String.{String}
use ascii_poker.Prelude.{
  ℕ, ◌<◌, ◌≡◌, refl, sym, ap, ◌∙◌, subst, ◌↔◌, true, not, ltb, List, Option, none, some, length,
  elem, arith, ◌==◌, Option-cases, inl, inr,
}
use ascii_poker.Card.{Card}
use ascii_poker.Deck.{IsShuffle}
use ascii_poker.Protocol.{ErrorCode, game_already_started, not_room_host, not_enough_players}
use ascii_poker.GameSession.State.{returns}
use ascii_poker.GameSession.Table.{Distinct}
use ascii_poker.GameSession.Outcomes.{NeverThrows, NeverThrows->>=, NeverThrows-and, NeverThrows-if}
use ascii_poker.Room.{start_game as start_room, Room, is_game_started, try_start_game}
use ascii_poker.Room.Members.{IsRoom, start_game-IsRoom}
use ascii_poker.Room.Roster.{IsRoster, try_start_game-IsRoster}
use ascii_poker.Lobby.{Lobby, room_of, in_lobby, keep_room, broadcast_room_list, start_game}
use ascii_poker.Lobby.Lookup.{room_of-changed, fresh-put_room, ids-put_room, room_of-id}
use ascii_poker.Lobby.Invariant.{
  change-IsLobby, IsRoom-in_lobby, IsLobby, IsListed, HasMember, broadcast_room_list-IsLobby,
  broadcast_room_list-same,
}
use ascii_poker.Lobby.Enter.{Moderate, room_funds-moderate}

-- The lobby where the members of a room have stayed.
pub changed-IsLobby :
    (l : Lobby) (r changed : Room)
    → IsLobby l
    → room_of r.id l.rooms ≡ some r
    → IsRoom changed
    → IsRoster r r.players changed
    → IsLobby (keep_room l changed)
unfolding keep_room
changed-IsLobby l r changed h there room roster =
    let listed = subst IsListed there (h.sound r.id) in
    change-IsLobby l (keep_room l changed) r.id (some changed) h
      (subst Distinct (sym (ids-put_room changed l.rooms)) h.distinct)
      (λ id k. fresh-put_room id changed l.rooms (h.fresh id k))
      (room_of-changed r changed l.rooms roster.0 there)
      (room, subst (λ (ps : List ℕ). 0 < length ps) (sym roster.1) listed.1)
      (λ q.
        subst (λ (ps : List ℕ). (l.player_rooms q ≡ some r.id) ↔ (elem q ps ≡ true)) (sym roster.1)
          (subst (λ o. (l.player_rooms q ≡ some r.id) ↔ HasMember q o) there (h.routed q r.id)))
      (λ q id differs. ((λ e. e), (λ e. e)))

module _ (name_of : ℕ → String) (find : String → Option ℕ) (shuffle : ℕ → List Card → List Card)
    (perm : IsShuffle shuffle) (fuel : ℕ) (moderate : Moderate name_of find) where
  try_start_game-IsRoom :
      (c : ℕ) (r : Room)
      → 0 < length r.players
      → IsRoom r
      → NeverThrows
          (λ (done : Room × Option ErrorCode). IsRoom done.0)
          (try_start_game name_of find shuffle fuel c r)
  unfolding try_start_game
  try_start_game-IsRoom c r some_member h =
      let room = λ (done : Room × Option ErrorCode). IsRoom done.0 in
      let fits = h.fits in
      let few = h.few in
      NeverThrows-if room (is_game_started r) (returns (r, some game_already_started)) _ h (
        NeverThrows-if room (not (c == r.host)) (returns (r, some not_room_host)) _ h (
          NeverThrows-if room (ltb (length r.players) 2) (returns (r, some not_enough_players))
            (start_room name_of find shuffle fuel r) h
            (start_game-IsRoom name_of find shuffle perm fuel r some_member
              (room_funds-moderate name_of find r moderate (omega arith)) h)))

  -- With a shuffle that permutes the cards, and accounts of at most 2^27 chips: when a connection asks
  -- to start the game in a lobby with the invariant, nothing is thrown, whatever the fuel; and a lobby
  -- that the call returns has the invariant and the same next number.
  pub start_game-IsLobby :
      (c : ℕ) (l : Lobby)
      → IsLobby l
      → NeverThrows
          (λ (done : Lobby × Option ErrorCode).
            IsLobby done.0 × (done.0.next_room_id ≡ l.next_room_id))
          (start_game name_of find shuffle fuel c l)
  unfolding start_game keep_room
  start_game-IsLobby c l h = elim (Option-cases (l.player_rooms c)) [
    | inl e ↦ rw (e, start_game) (h, refl)
    | inr (id, e) ↦ elim (Option-cases (room_of id l.rooms)) [
      | inl nowhere ↦ rw (e, nowhere, start_game) (h, refl)
      | inr (r, there) ↦
          let lobby = λ (done : Lobby × Option ErrorCode).
            IsLobby done.0 × (done.0.next_room_id ≡ l.next_room_id) in
          let same = room_of-id id l.rooms r there in
          let at_id : room_of r.id l.rooms ≡ some r =
            ap (λ (k : ℕ). room_of k l.rooms) same ∙ there in
          let listed = subst IsListed there (h.sound id) in
          let start = in_lobby l r in
          rw (e, there, start_game)
            (NeverThrows->>=
              (λ (done : Room × Option ErrorCode). IsRoom done.0 × IsRoster r r.players done.0)
              lobby (try_start_game name_of find shuffle fuel c start) _
              (NeverThrows-and (λ (done : Room × Option ErrorCode). IsRoom done.0)
                (λ (done : Room × Option ErrorCode). IsRoster r r.players done.0)
                (try_start_game name_of find shuffle fuel c start)
                (try_start_game-IsRoom c start listed.1 (IsRoom-in_lobby l r listed.0))
                (try_start_game-IsRoster shuffle fuel name_of find c start))
              (λ done k.
                let kept = changed-IsLobby l r done.0 h at_id k.0 k.1 in
                answered (keep_room l done.0) done.1 kept (next_kept done.0)))
    ]
  ]
    where
      next_kept : (r : Room) → (keep_room l r).next_room_id ≡ l.next_room_id
      next_kept r = refl

      answered :
          (kept : Lobby) (error : Option ErrorCode)
          → IsLobby kept
          → kept.next_room_id ≡ l.next_room_id
          → NeverThrows
              (λ (done : Lobby × Option ErrorCode).
                IsLobby done.0 × (done.0.next_room_id ≡ l.next_room_id))
              (returns (elim error as (λ _. Lobby × Option ErrorCode) [
                | some e ↦ (kept, some e)
                | none ↦ (broadcast_room_list kept, none)
              ]))
      answered kept none k n =
          (broadcast_room_list-IsLobby kept k, (broadcast_room_list-same kept).1 ∙ n)
      answered kept (some e) k n = (k, n)
