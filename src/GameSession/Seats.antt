-- ===== src/GameSession/Seats.antt =====
-- Positions at the table and the tests on players. `players_` has at least two players whenever
-- these are called; with none, `% players_.size()` is undefined in C++.
use ascii_poker.Prelude.{
  ℕ, zero, suc, ◌+◌, ◌%◌, Bool, true, false, not, ◌&&◌, List, [], ◌∷◌, length, get_or, keep_if, ltb,
  leb, ◌==◌, if◌then◌else◌, at_key,
}
use ascii_poker.GameSession.State.{GameSession, Outcome, returns, ◌>>=◌, at}

unfoldable pub sb_index : GameSession → ℕ
sb_index s =
    if length s.players == 2 then s.dealer_index else (s.dealer_index + 1) % length s.players

unfoldable pub bb_index : GameSession → ℕ
bb_index s =
    if length s.players == 2
    then (s.dealer_index + 1) % length s.players
    else (s.dealer_index + 2) % length s.players

unfoldable pub first_to_act_preflop : GameSession → ℕ
unfolding bb_index
first_to_act_preflop s =
    if length s.players == 2 then s.dealer_index else (bb_index s + 1) % length s.players

-- `players_[index].get()`.
abbrev pub player_at : GameSession → ℕ → ℕ
player_at s index = get_or s.players index 0

abbrev pub can_player_act : GameSession → ℕ → Bool
can_player_act s player = not (s.folded_players player) && not (s.all_in_players player)

-- The `do … while` loop, with a round for each player.
unfoldable pub postflop_loop : GameSession → ℕ → ℕ → ℕ → ℕ
postflop_loop s start zero idx = s.dealer_index
postflop_loop s start (suc rounds) idx =
    let next = (idx + 1) % length s.players in
    let rest = postflop_loop s start rounds next in
    if can_player_act s (player_at s idx)
    then idx
    else if next == start
    then s.dealer_index
    else rest

unfoldable pub first_to_act_postflop : GameSession → ℕ
unfolding postflop_loop
first_to_act_postflop s =
    let start = (s.dealer_index + 1) % length s.players in
    postflop_loop s start (length s.players) start

abbrev pub live_players : GameSession → List ℕ
live_players s = keep_if (λ p. not (s.folded_players p)) s.players

unfoldable pub count_active_players : GameSession → ℕ
count_active_players s = length (live_players s)

-- The `while` loop, with a round for each player.
unfoldable pub next_active_loop : GameSession → ℕ → ℕ → ℕ
next_active_loop s zero idx = idx
next_active_loop s (suc rounds) idx =
    let rest = next_active_loop s rounds ((idx + 1) % length s.players) in
    if not (can_player_act s (player_at s idx)) && not (idx == s.current_player_index)
    then rest
    else idx

unfoldable pub find_next_active_player : GameSession → ℕ
unfolding next_active_loop
find_next_active_player s =
    if length s.players == 0
    then 0
    else next_active_loop s (length s.players) ((s.current_player_index + 1) % length s.players)

unfoldable pub advance_to_next_player : GameSession → GameSession
unfolding find_next_active_player
advance_to_next_player s = record s { current_player_index = find_next_active_player s }

-- The loop of `is_round_complete` over the players.
unfoldable pub round_complete_loop : GameSession → List ℕ → Outcome Bool
round_complete_loop s [] = returns true
round_complete_loop s (p ∷ ps) =
    let rest = round_complete_loop s ps in
    if s.folded_players p
    then rest
    else (at (s.round_bets p) >>= λ player_bet.
        if ltb player_bet s.current_bet && not (s.all_in_players p)
        then returns false
        else if can_player_act s p && not (s.players_acted p)
        then returns false
        else rest)

unfoldable pub is_round_complete : GameSession → Outcome Bool
unfolding count_active_players round_complete_loop
is_round_complete s =
    if leb (count_active_players s) 1 then returns true else round_complete_loop s s.players

abbrev pub has_enough_players : GameSession → Bool
has_enough_players s = leb 2 (length s.players)

unfoldable pub count_players_with_chips : GameSession → ℕ
count_players_with_chips s = length (keep_if (λ p. ltb 0 (at_key s.chips p)) s.players)
