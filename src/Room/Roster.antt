-- ===== src/Room/Roster.antt =====
-- What the operations of room.cpp make of the members of a room.
use Prim.Native.String.{String}
use ascii_poker.Prelude.{
  ℕ, ◌≡◌, refl, ap, ◌∙◌, inl, inr, Bool, true, false, List, [], ◌∷◌, ◌++◌, Option, none, some,
  length, leb, ltb, ◌==◌, not, Option-cases, if_elim,
}
use ascii_poker.Card.{Card}
use ascii_poker.Protocol.{ErrorCode, Action}
use ascii_poker.GameSession.State.{returns}
use ascii_poker.GameSession.Phases.{start, ask_current_player}
use ascii_poker.GameSession.Seats.{has_enough_players}
use ascii_poker.GameSession.Moves.{index_of, erase_at, apply_action}
use ascii_poker.GameSession.Moves
use ascii_poker.GameSession.Outcomes.{
  OnReturn, OnReturn-if, OnReturn-else, OnReturn->>=, OnReturn-any,
}
use ascii_poker.Room.{
  Room, in_room, is_game_started, notify_all_about_joined, load_player_bankrolls, room_session,
  start_game, try_start_game, on_player_action, add_player, leave_session, leave_members,
  remove_player,
}

-- The same room, with these members.
abbrev pub IsRoster : Room → List ℕ → Room → Type 0
IsRoster r players t = (t.id ≡ r.id) × (t.players ≡ players)

module _ (shuffle : ℕ → List Card → List Card) (fuel : ℕ) where
  -- An action changes no members.
  pub on_player_action-IsRoster :
      (c : ℕ) (action : Action) (amount : Option ℕ) (r : Room)
      → OnReturn (IsRoster r r.players) (on_player_action shuffle fuel c action amount r)
  unfolding on_player_action
  on_player_action-IsRoster c action amount r = elim (Option-cases r.game_session) [
    | inl e ↦ rw (e, on_player_action) (refl, refl)
    | inr (s, e) ↦
        rw (e, on_player_action)
          (OnReturn-any (IsRoster r r.players)
            (apply_action shuffle fuel c action amount (in_room r s)) _ (λ s'. (refl, refl)))
  ]

module _ (shuffle : ℕ → List Card → List Card) (fuel : ℕ) (name_of : ℕ → String) where
  leave_session-IsRoster :
      (c : ℕ) (r : Room) → OnReturn (IsRoster r r.players) (leave_session shuffle fuel c r)
  unfolding leave_session
  leave_session-IsRoster c r = elim (Option-cases r.game_session) [
    | inl e ↦ rw (e, leave_session) (refl, refl)
    | inr (s, e) ↦
        rw (e, leave_session)
          (OnReturn-any (IsRoster r r.players) (Moves.remove_player shuffle fuel c (in_room r s)) _
            (λ s'.
              if_elim (IsRoster r r.players) (has_enough_players s') (refl, refl) (refl, refl)))
  ]

  leave_members-IsRoster :
      (c index : ℕ) (r : Room)
      → IsRoster r (erase_at index r.players) (leave_members name_of c index r)
  unfolding leave_members notify_all_about_joined
  leave_members-IsRoster c index r =
      if_elim (IsRoster r (erase_at index r.players)) (length (erase_at index r.players) == 0)
        (refl, refl) (refl, refl)

  -- A member that leaves is taken out of the members.
  pub remove_player-IsRoster :
      (c index : ℕ) (r : Room)
      → index_of c r.players ≡ some index
      → OnReturn
          (λ (done : Room × Bool). IsRoster r (erase_at index r.players) done.0)
          (remove_player shuffle fuel name_of c r)
  unfolding remove_player
  remove_player-IsRoster c index r e =
      let gone = λ (done : Room × Bool). IsRoster r (erase_at index r.players) done.0 in
      rw (e, remove_player)
        (OnReturn->>= (IsRoster r r.players) gone (leave_session shuffle fuel c r) _
          (leave_session-IsRoster c r)
          (λ t same.
            let left = leave_members-IsRoster c index t in
            (left.0 ∙ same.0, left.1 ∙ ap (erase_at index) same.1)))

  module _ (find : String → Option ℕ) where
    pub start_game-IsRoster :
        (r : Room)
        → OnReturn
            (λ (done : Room × Option ErrorCode). IsRoster r r.players done.0)
            (start_game name_of find shuffle fuel r)
    unfolding start_game
    start_game-IsRoster r = elim (Option-cases r.game_session) [
      | inr (s, e) ↦ rw (e, start_game) (refl, refl)
      | inl e ↦
          elim (Option-cases
            (load_player_bankrolls name_of find r.has_repository r.players (λ n. none))) [
              | inl poor ↦ rw (e, poor, start_game) (refl, refl)
              | inr (bankrolls, rich) ↦
                  rw (e, rich, start_game)
                    (OnReturn-any (λ (done : Room × Option ErrorCode). IsRoster r r.players done.0)
                      (start shuffle (ask_current_player shuffle fuel)
                        (room_session name_of r bankrolls))
                      _ (λ s. (refl, refl)))
            ]
    ]

    -- A connection that joins a room with a place left, where no game is on, comes last.
    pub add_player-IsRoster :
        (c : ℕ) (r : Room)
        → is_game_started r ≡ false
        → leb r.max_players (length r.players) ≡ false
        → OnReturn
            (λ (done : Room × Bool). (done.1 ≡ true) × IsRoster r (r.players ++ (c ∷ [])) done.0)
            (add_player name_of find shuffle fuel c r)
    unfolding add_player notify_all_about_joined
    add_player-IsRoster c r idle place =
        let r' = notify_all_about_joined name_of (record r { players = r.players ++ (c ∷ []) }) in
        let joined =
          λ (done : Room × Bool). (done.1 ≡ true) × IsRoster r (r.players ++ (c ∷ [])) done.0 in
        OnReturn-else joined (is_game_started r) (returns (r, false)) _ idle (
          OnReturn-else joined (leb r.max_players (length r.players)) (returns (r, false)) _ place (
            OnReturn-if joined (length r'.players == r.max_players) _ (returns (r', true))
              (OnReturn->>= (λ (done : Room × Option ErrorCode). IsRoster r' r'.players done.0)
                joined (start_game name_of find shuffle fuel r') _ (start_game-IsRoster r')
                (λ done same. (refl, same)))
              (refl, (refl, refl))))

    -- A start asked for by a member changes no members.
    pub try_start_game-IsRoster :
        (requester : ℕ) (r : Room)
        → OnReturn
            (λ (done : Room × Option ErrorCode). IsRoster r r.players done.0)
            (try_start_game name_of find shuffle fuel requester r)
    unfolding try_start_game
    try_start_game-IsRoster requester r =
        let same = λ (done : Room × Option ErrorCode). IsRoster r r.players done.0 in
        OnReturn-if same (is_game_started r) _ _ (refl, refl)
          (OnReturn-if same (not (requester == r.host)) _ _ (refl, refl)
            (OnReturn-if same (ltb (length r.players) 2) _ (start_game name_of find shuffle fuel r)
              (refl, refl) (start_game-IsRoster r)))
