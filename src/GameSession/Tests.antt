-- ===== src/GameSession/Tests.antt =====
-- Runs of the session at concrete tables.
use ascii_poker.Prelude.{
  ◌⊎◌, ℕ, zero, suc, List, ◌≡◌, refl, true, false, [], ◌∷◌, Option, none, some, empty_map, at_key,
  assign, arith,
}
use ascii_poker.Deck.{deal}
use ascii_poker.Protocol.{Action, pre_flop, turn, check, call, raise, GamePhase}
use ascii_poker.GameSession.State.{GameSession, Outcome, returns, out_of_range, ◌>>=◌}
use ascii_poker.GameSession.Phases.{start, ask_current_player}
use ascii_poker.GameSession.Moves.{
  Attempt, refused, accepted, apply_action, remove_player, perform, raise_to,
}
use ascii_poker.GameSession.Award.{award_all_pots}
use ascii_poker.GameSession.Seats.{player_at, can_player_act, advance_to_next_player}
use ascii_poker.GameSession.Betting.{
  Conserves, perform-Conserves, raise_to_lem, IsAllowedRaise, RaisesTo, IsRefused,
}
use ascii_poker.GameSession.Outcomes.{Returns, NeverThrows}
use ascii_poker.GameSession.Pots.{IsPaidOut, payable, award_all_pots-IsPaidOut}
use ascii_poker.GameSession.Opening.{IsTable, SoundWithin}
use ascii_poker.GameSession.Turn.{advance-acts}
use ascii_poker.GameSession.Turns.{apply_action-SoundWithin}
use ascii_poker.GameSession.Leaving.{EmptyOrSound, remove_player-EmptyOrSound}
use ascii_poker.GameSession.Course.{Settles}
use ascii_poker.GameSession.Ending.{start-Settles, apply_action-Settles}
use ascii_poker.GameSession.Setup.{new_session, new_session-Settles}
use ascii_poker.GameSession.Departure.{EmptiesOrSettles, remove_player-EmptiesOrSettles}
use ascii_poker.GameSession.Samples.{
  no_shuffle, table, no_shuffle-IsShuffle, heads_up, heads_up-IsBalanced, heads_up-SoundWithin,
}

-- The stacks of the players 1, 2 and 3, the pot, the phase, and whose turn it is.
abbrev view : Outcome GameSession → Option (ℕ × ℕ × ℕ × ℕ × GamePhase × ℕ)
view (returns s) =
    some
      (at_key s.chips 1, at_key s.chips 2, at_key s.chips 3, s.pot, s.phase, s.current_player_index)
view _ = none

abbrev begin : GameSession → Outcome GameSession
begin s = start no_shuffle (ask_current_player no_shuffle 20) s

abbrev act : ℕ → Action → Option ℕ → GameSession → Outcome GameSession
act connection action amount s = apply_action no_shuffle 20 connection action amount s

-- Heads-up, the dealer posts the small blind and acts first.
blinds_posted : view (begin (table (1 ∷ 2 ∷ []) empty_map)) ≡ some (990, 980, 0, 30, pre_flop, 0)
unfolding start ask_current_player at_key deal assign
blinds_posted = refl

-- A raise, a call, and two checks on the flop lead to the turn.
hand_to_the_turn :
    view (
      begin (table (1 ∷ 2 ∷ []) empty_map)
      >>= act 11 raise (some 100)
      >>= act 12 call none
      >>= act 12 check none
      >>= act 11 check none)
    ≡ some (900, 900, 0, 200, turn, 1)
unfolding start ask_current_player apply_action at_key deal assign
hand_to_the_turn = refl

abbrev increment_after : Attempt → ℕ
increment_after (refused code) = 0
increment_after (accepted s) = s.last_raise_increment

-- Ann, who has bet 10 and has 15 left, is all in for 25: the increment drops from 20 to 5.
short_all_in :
    increment_after (perform raise (some 25) 1 (record heads_up { chips = λ p. some 15 })) ≡ 5
unfolding perform at_key assign
short_all_in = refl

abbrev up_to : ℕ → List ℕ
up_to zero = []
up_to (suc n) = suc n ∷ up_to n

-- The deck does not have the hands of 27 players.
too_many_players : begin (table (up_to 27) empty_map) ≡ out_of_range
unfolding start deal
too_many_players = refl

newcomers-IsTable : IsTable (table (1 ∷ 2 ∷ []) empty_map)
newcomers-IsTable = record {
  distinct = (refl, (refl, tt));
  funded = omega arith;
  nonempty = omega arith;
  few = omega arith;
  dealer = omega arith;
  current = omega arith;
}

apply_action-SoundWithin_example :
    NeverThrows (SoundWithin 2000) (apply_action no_shuffle 20 11 raise (some 100) heads_up)
apply_action-SoundWithin_example =
    apply_action-SoundWithin no_shuffle no_shuffle-IsShuffle 20 2000 11 raise (some 100) heads_up
      heads_up-SoundWithin

apply_action-Settles_example :
    Settles no_shuffle 12 2000 (apply_action no_shuffle 20 11 call none heads_up)
apply_action-Settles_example =
    apply_action-Settles no_shuffle no_shuffle-IsShuffle 12 20 (omega arith) 2000 11 call none
      heads_up heads_up-SoundWithin

remove_player-EmptyOrSound_example :
    NeverThrows (EmptyOrSound 2000) (remove_player no_shuffle 20 12 heads_up)
remove_player-EmptyOrSound_example =
    remove_player-EmptyOrSound no_shuffle no_shuffle-IsShuffle 20 2000 12 heads_up
      heads_up-SoundWithin

remove_player-EmptiesOrSettles_example :
    EmptiesOrSettles no_shuffle 12 2000 (remove_player no_shuffle 20 12 heads_up)
remove_player-EmptiesOrSettles_example =
    remove_player-EmptiesOrSettles no_shuffle no_shuffle-IsShuffle 12 20 (omega arith) 2000 12
      heads_up heads_up-SoundWithin

start-Settles_example :
    Settles no_shuffle 12 2000
      (start no_shuffle (ask_current_player no_shuffle 20) (table (1 ∷ 2 ∷ []) empty_map))
start-Settles_example =
    start-Settles no_shuffle no_shuffle-IsShuffle 12 20 (omega arith) 2000
      (table (1 ∷ 2 ∷ []) empty_map) newcomers-IsTable (omega arith)

award_all_pots-IsPaidOut_example :
    Returns (IsPaidOut heads_up (payable heads_up)) (award_all_pots heads_up)
award_all_pots-IsPaidOut_example =
    award_all_pots-IsPaidOut heads_up heads_up-IsBalanced
      ((refl, refl, refl), ((refl, refl, refl), tt)) (λ e. absurd (omega arith))

perform-Conserves_example : Conserves heads_up (perform raise (some 100) 1 heads_up)
perform-Conserves_example = perform-Conserves raise (some 100) 1 heads_up refl heads_up-IsBalanced

raise_to_lem_example :
    (IsAllowedRaise 100 1 heads_up × RaisesTo 100 1 heads_up (raise_to 100 1 heads_up))
    ⊎ ((¬ IsAllowedRaise 100 1 heads_up) × IsRefused (raise_to 100 1 heads_up))
unfolding at_key
raise_to_lem_example =
    raise_to_lem 100 1 heads_up (omega arith) (omega arith) (omega arith) (omega arith)

advance-acts_example :
    let t = advance_to_next_player heads_up in
    can_player_act t (player_at t t.current_player_index) ≡ true
advance-acts_example =
    advance-acts heads_up 1 (omega arith) (omega arith) (λ e. absurd (omega arith)) refl

new_session-Settles_example : Settles no_shuffle 12 2000 (
    start no_shuffle
      (ask_current_player no_shuffle 20)
      (new_session (1 ∷ 2 ∷ []) (λ p. "ann") empty_map false (λ name. none) 0))
new_session-Settles_example =
    new_session-Settles no_shuffle no_shuffle-IsShuffle 12 20 (1 ∷ 2 ∷ []) (λ p. "ann") empty_map
      false (λ name. none) 0 (omega arith) (omega arith) (omega arith) (refl, (refl, tt))
      (omega arith)
