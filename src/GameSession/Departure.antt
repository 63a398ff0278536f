-- ===== src/GameSession/Departure.antt =====
-- How a call of `remove_player` ends.
use ascii_poker.Prelude.{
  ℕ, ◌+◌, ◌≤◌, ◌≡◌, refl, inl, inr, ◌⊎◌, Bool, true, false, not, List, some, length, arith, ◌==◌,
  if◌then◌else◌, Bool-cases, Option-cases, assign, ℕ_discrete,
}
use ascii_poker.Card.{Card}
use ascii_poker.Deck.{IsShuffle}
use ascii_poker.GameSession.State.{GameSession, Outcome, returns, ◌>>=◌}
use ascii_poker.GameSession.Seats.{
  player_at, count_active_players, is_round_complete, has_enough_players,
}
use ascii_poker.GameSession.Chips.{persist_player_chips}
use ascii_poker.GameSession.Notify.{broadcast_state}
use ascii_poker.GameSession.Award.{award_all_pots}
use ascii_poker.GameSession.Phases.{try_start_new_hand, ask_current_player}
use ascii_poker.GameSession.Moves.{
  index_of, erase_at, erase_player_state, fix_indices_after_removal, continue_after_player_left,
  unseat, remove_player,
}
use ascii_poker.GameSession.Outcomes.{Returns, Returns-weaken}
use ascii_poker.GameSession.Seated.{SameTable, broadcast_state-Returns}
use ascii_poker.GameSession.Sound.{is_round_complete-Returns}
use ascii_poker.GameSession.Opening.{SoundWithin, persist_player-SoundWithin}
use ascii_poker.GameSession.Calls.{SoundWithin-SameTable, award-players}
use ascii_poker.GameSession.Turns.{SoundWithin-bets}
use ascii_poker.GameSession.Removal.{persist-players, vacated, vacated-SoundWithin}
use ascii_poker.GameSession.Course.{
  Settles, Settles->>=, next_phase-Settles, fuel_for-le, Returns-cases,
}
use ascii_poker.GameSession.Ending.{asks}

-- The call returns a session without players, or settles.
abbrev pub EmptiesOrSettles : (ℕ → List Card → List Card) → ℕ → ℕ → Outcome GameSession → Type 0
EmptiesOrSettles shuffle spare n m =
    Returns (λ t. length t.players ≡ 0) m ⊎ Settles shuffle spare n m

module _ (shuffle : ℕ → List Card → List Card) (perm : IsShuffle shuffle) (spare fuel : ℕ)
    (enough : spare + 8 ≤ fuel) where
  continue-Settles :
      (n : ℕ) (was_current : Bool) (s : GameSession)
      → SoundWithin n s
      → Settles shuffle spare n (continue_after_player_left shuffle fuel was_current s)
  unfolding continue_after_player_left
  continue-Settles n was_current s h =
      Settles->>= shuffle perm spare (λ _. Unit {0}) n (is_round_complete s) _
        (is_round_complete-Returns s h.0.seated)
        λ complete _. elim (Bool-cases complete) [
          | inl e ↦ rw e (
              next_phase-Settles shuffle perm spare fuel (omega arith)
                (λ m u _. asks shuffle perm spare fuel enough m u) n s
                (omega (arith, fuel_for-le s.phase)) h)
          | inr e ↦ elim (Bool-cases was_current) [
            | inl now ↦ rw (e, now) (asks shuffle perm spare fuel enough n s h)
            | inr later ↦
                rw (e, later)
                  (inl (
                    Returns-weaken (SameTable s) (SoundWithin n) (broadcast_state s)
                      (λ t same. SoundWithin-SameTable n s t same h)
                      (broadcast_state-Returns s h.0.seated)))
          ]
        ]

  seats_left-Settles :
      (n : ℕ) (was_current : Bool) (s : GameSession)
      → SoundWithin n s
      → Settles shuffle spare n (
          if not (has_enough_players s) then returns s else (elim (count_active_players s == 1) [
            | true ↦ try_start_new_hand shuffle (ask_current_player shuffle fuel) s
            | false ↦ continue_after_player_left shuffle fuel was_current s
          ]))
  seats_left-Settles n was_current s h = elim (Bool-cases (not (has_enough_players s))) [
    | inl e ↦ rw e (inl h)
    | inr e ↦ elim (Bool-cases (count_active_players s == 1)) [
      | inl one_left ↦ rw (e, one_left) (inr (s, fuel, omega arith, h, refl))
      | inr more ↦ rw (e, more) (continue-Settles n was_current s h)
    ]
  ]

  unseat-Settles :
      (n player connection index : ℕ) (was_current : Bool) (s : GameSession)
      → index_of player s.players ≡ some index
      → SoundWithin n s
      → EmptiesOrSettles shuffle spare n (unseat shuffle fuel player connection index was_current s)
  unfolding unseat erase_player_state fix_indices_after_removal
  unseat-Settles n player connection index was_current s found h =
      let t = persist_player_chips player s in
      let sound = persist_player-SoundWithin n player s h in
      let same = persist-players player s in
      let found' : index_of player t.players ≡ some index = rw same found in
      elim (ℕ_discrete (length (erase_at index t.players)) 0) [
        | yes empty ↦
            let none_left : (length (erase_at index t.players) == 0) ≡ true = ground arith in
            rw none_left (inl empty)
        | no some_left ↦
            let left : (length (erase_at index t.players) == 0) ≡ false = ground arith in
            let keeps =
              vacated-SoundWithin n player connection index t found' (omega arith) sound in
            rw left
              (inr (seats_left-Settles n was_current (vacated player connection index t) keeps))
      ]

  -- With a shuffle that permutes the cards: when a connection leaves a sound session with at most
  -- `n` chips, the call ends. With `spare + 8` or more fuel it returns a session without players,
  -- or the call returns a sound session with at most `n` chips, or comes to the end of the hand,
  -- where a sound session with at most those chips is left, and what remains is the call of
  -- `try_start_new_hand` on it with at least `spare` fuel.
  pub remove_player-EmptiesOrSettles :
      (n connection : ℕ) (s : GameSession)
      → SoundWithin n s
      → EmptiesOrSettles shuffle spare n (remove_player shuffle fuel connection s)
  unfolding remove_player
  remove_player-EmptiesOrSettles n connection s h =
      elim (Option-cases (s.connection_map connection)) [
        | inl e ↦ rw (e, remove_player) (inr (inl h))
        | inr (player, e) ↦ elim (Option-cases (index_of player s.players)) [
          | inl e' ↦ rw (e, e', remove_player) (inr (inl h))
          | inr (index, found) ↦ rw (e, found, remove_player) (leave player index found)
        ]
      ]
    where
      leave :
          (player index : ℕ)
          → index_of player s.players ≡ some index
          → let t = record s { folded_players = assign s.folded_players player true } in
            let was_current = player_at s s.current_player_index == player in
            EmptiesOrSettles shuffle spare n (elim (count_active_players t == 1) [
              | true ↦ award_all_pots t >>= unseat shuffle fuel player connection index was_current
              | false ↦ unseat shuffle fuel player connection index was_current t
            ])
      leave player index found =
          let t = record s { folded_players = assign s.folded_players player true } in
          let was_current = player_at s s.current_player_index == player in
          let sound : SoundWithin n t =
            SoundWithin-bets n s s.current_bet s.last_raise_increment _ s.players_acted h in
          elim (Bool-cases (count_active_players t == 1)) [
            | inl e ↦
                let (u, paid, (keeps, same)) =
                  Returns-cases (λ u. SoundWithin n u × (u.players ≡ t.players)) (award_all_pots t)
                    (award-players n t sound) in
                rw (e, paid)
                  (unseat-Settles n player connection index was_current u (rw same found) keeps)
            | inr e ↦ rw e (unseat-Settles n player connection index was_current t found sound)
          ]
