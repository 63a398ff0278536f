-- ===== src/GameSession/Leaving.antt =====
-- `remove_player`, and the invariant of a session.
use ascii_poker.Prelude.{
  ℕ, ◌≡◌, inl, inr, ◌⊎◌, Bool, true, false, not, List, some, length, arith, ◌==◌, if◌then◌else◌,
  Bool-cases, Option-cases, assign, ℕ_discrete,
}
use ascii_poker.Card.{Card}
use ascii_poker.Deck.{IsShuffle}
use ascii_poker.GameSession.State.{GameSession, returns, ◌>>=◌}
use ascii_poker.GameSession.Seats.{player_at, count_active_players, has_enough_players}
use ascii_poker.GameSession.Chips.{persist_player_chips}
use ascii_poker.GameSession.Notify.{broadcast_state}
use ascii_poker.GameSession.Award.{award_all_pots}
use ascii_poker.GameSession.Phases.{try_start_new_hand, ask_current_player}
use ascii_poker.GameSession.Moves.{
  index_of, erase_at, erase_player_state, fix_indices_after_removal, continue_after_player_left,
  unseat, remove_player,
}
use ascii_poker.GameSession.Outcomes.{
  NeverThrows, Returns-NeverThrows->>=, Returns-NeverThrows, NeverThrows-weaken, NeverThrows-if,
}
use ascii_poker.GameSession.Seated.{SameTable, broadcast_state-Returns}
use ascii_poker.GameSession.Opening.{SoundWithin, persist_player-SoundWithin}
use ascii_poker.GameSession.Calls.{SoundWithin-SameTable, award-players}
use ascii_poker.GameSession.Hand.{
  try_start_new_hand-SoundWithin, end_turn-SoundWithin, ask_current_player-SoundWithin,
}
use ascii_poker.GameSession.Turns.{SoundWithin-bets}
use ascii_poker.GameSession.Removal.{persist-players, vacated, vacated-SoundWithin}

-- Nobody is left, or the session is sound and has at most `n` chips.
abbrev pub EmptyOrSound : ℕ → GameSession → Type 0
EmptyOrSound n t = (length t.players ≡ 0) ⊎ SoundWithin n t

module _ (shuffle : ℕ → List Card → List Card) (perm : IsShuffle shuffle) (fuel : ℕ) where
  continue-SoundWithin :
      (n : ℕ) (was_current : Bool) (s : GameSession)
      → SoundWithin n s
      → NeverThrows (SoundWithin n) (continue_after_player_left shuffle fuel was_current s)
  unfolding continue_after_player_left
  continue-SoundWithin n was_current s h =
      let ask = ask_current_player shuffle fuel in
      let keeps = ask_current_player-SoundWithin shuffle perm fuel in
      end_turn-SoundWithin shuffle perm ask keeps n s
        (λ t. elim was_current [ true ↦ ask t | false ↦ broadcast_state t ])
        (λ t sound. elim (Bool-cases was_current) [
          | inl e ↦ rw e (keeps n t sound)
          | inr e ↦ rw e (broadcasts t sound)
        ])
        h
    where
      broadcasts :
          (t : GameSession) → SoundWithin n t → NeverThrows (SoundWithin n) (broadcast_state t)
      broadcasts t sound =
          Returns-NeverThrows (SameTable t) (SoundWithin n) (broadcast_state t)
            (λ u same. SoundWithin-SameTable n t u same sound)
            (broadcast_state-Returns t sound.0.seated)

  unseat-EmptyOrSound :
      (n player connection index : ℕ) (was_current : Bool) (s : GameSession)
      → index_of player s.players ≡ some index
      → SoundWithin n s
      → NeverThrows (EmptyOrSound n) (unseat shuffle fuel player connection index was_current s)
  unfolding unseat erase_player_state fix_indices_after_removal
  unseat-EmptyOrSound n player connection index was_current s found h =
      let t = persist_player_chips player s in
      let sound = persist_player-SoundWithin n player s h in
      let same = persist-players player s in
      let found' : index_of player t.players ≡ some index = rw same found in
      let fixed = vacated player connection index t in
      elim (ℕ_discrete (length (erase_at index t.players)) 0) [
        | yes empty ↦
            let none_left : (length (erase_at index t.players) == 0) ≡ true = ground arith in
            rw none_left (inl empty)
        | no some_left ↦
            let left : (length (erase_at index t.players) == 0) ≡ false = ground arith in
            let keeps =
              vacated-SoundWithin n player connection index t found' (omega arith) sound in
            rw left (
              NeverThrows-weaken (SoundWithin n) (EmptyOrSound n) _ (λ u k. inr k)
                (go_on fixed keeps))
      ]
    where
      go_on :
          (fixed : GameSession)
          → SoundWithin n fixed
          → NeverThrows (SoundWithin n) (
              if not (has_enough_players fixed)
              then returns fixed
              else (elim (count_active_players fixed == 1) [
                | true ↦ try_start_new_hand shuffle (ask_current_player shuffle fuel) fixed
                | false ↦ continue_after_player_left shuffle fuel was_current fixed
              ]))
      go_on fixed keeps =
          NeverThrows-if (SoundWithin n) (not (has_enough_players fixed)) (returns fixed) _ keeps
            (elim (Bool-cases (count_active_players fixed == 1)) [
              | inl e ↦ rw e (
                  try_start_new_hand-SoundWithin shuffle perm (ask_current_player shuffle fuel)
                    (ask_current_player-SoundWithin shuffle perm fuel) n fixed keeps)
              | inr e ↦ rw e (continue-SoundWithin n was_current fixed keeps)
            ])

  -- With a shuffle that permutes the cards: when a connection leaves a sound session with at most
  -- `n` chips, nothing is thrown, whatever the fuel; and in a session that the call returns either
  -- no player is left, or it is sound with at most `n` chips.
  pub remove_player-EmptyOrSound :
      (n connection : ℕ) (s : GameSession)
      → SoundWithin n s
      → NeverThrows (EmptyOrSound n) (remove_player shuffle fuel connection s)
  unfolding remove_player
  remove_player-EmptyOrSound n connection s h = elim (Option-cases (s.connection_map connection)) [
    | inl e ↦ rw (e, remove_player) (inr h)
    | inr (player, e) ↦ elim (Option-cases (index_of player s.players)) [
      | inl e' ↦ rw (e, e', remove_player) (inr h)
      | inr (index, found) ↦ rw (e, found, remove_player) (leave player index found)
    ]
  ]
    where
      leave :
          (player index : ℕ)
          → index_of player s.players ≡ some index
          → let t = record s { folded_players = assign s.folded_players player true } in
            let was_current = player_at s s.current_player_index == player in
            NeverThrows (EmptyOrSound n) (elim (count_active_players t == 1) [
              | true ↦ award_all_pots t >>= unseat shuffle fuel player connection index was_current
              | false ↦ unseat shuffle fuel player connection index was_current t
            ])
      leave player index found =
          let t = record s { folded_players = assign s.folded_players player true } in
          let was_current = player_at s s.current_player_index == player in
          let sound : SoundWithin n t =
            SoundWithin-bets n s s.current_bet s.last_raise_increment _ s.players_acted h in
          elim (Bool-cases (count_active_players t == 1)) [
            | inl e ↦ rw e (
                Returns-NeverThrows->>= (λ u. SoundWithin n u × (u.players ≡ t.players))
                  (EmptyOrSound n) (award_all_pots t) _ (award-players n t sound)
                  (λ u (k, same).
                    unseat-EmptyOrSound n player connection index was_current u (rw same found) k))
            | inr e ↦ rw e (unseat-EmptyOrSound n player connection index was_current t found sound)
          ]
