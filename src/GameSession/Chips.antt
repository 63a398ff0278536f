-- ===== src/GameSession/Chips.antt =====
-- Chips between the stacks and the pot, and the repository. Amounts are uint32_t; `chips_[player] -=
-- actual` takes at most what is there.
use ascii_poker.Prelude.{
  ℕ, ◌+◌, ◌-◌, true, List, [], ◌∷◌, Option, none, some, ◌==◌, if◌then◌else◌, at_key, assign, min,
  u32, empty_set,
}
use text.Mathlib.Text.{◌==◌ as str_eq}
use ascii_poker.Protocol.{Action, raise}
use ascii_poker.GameSession.State.{
  GameSession, update_chips, emit, small_blind_size, big_blind_size,
}
use ascii_poker.GameSession.Seats.{sb_index, bb_index, player_at}

unfoldable pub mark_all_in_if_needed : ℕ → GameSession → GameSession
mark_all_in_if_needed player s =
    if at_key s.chips player == 0
    then record s { all_in_players = assign s.all_in_players player true }
    else s

-- The new state, and the amount returned.
unfoldable pub contribute : ℕ → ℕ → GameSession → GameSession × ℕ
unfolding mark_all_in_if_needed
contribute player amount s =
    let actual = min amount (at_key s.chips player) in
    (
      mark_all_in_if_needed player (record s {
        chips = assign s.chips player (some (at_key s.chips player - actual));
        round_bets = assign s.round_bets player (some (u32 (at_key s.round_bets player + actual)));
        total_contributed =
            assign s.total_contributed player
              (some (u32 (at_key s.total_contributed player + actual)));
        pot = u32 (s.pot + actual);
      }),
      actual,
    )

unfoldable pub post_blinds : GameSession → GameSession
unfolding sb_index bb_index contribute
post_blinds s =
    let small_blind = player_at s (sb_index s) in
    let big_blind = player_at s (bb_index s) in
    let s₁ = (contribute small_blind small_blind_size s).0 in
    let s₂ = (contribute big_blind big_blind_size s₁).0 in
    record s₂ { current_bet = at_key s₂.round_bets big_blind }

abbrev pub begin_betting_round : GameSession → GameSession
begin_betting_round s = record s { players_acted = empty_set }

unfoldable pub record_player_action : ℕ → Action → GameSession → GameSession
record_player_action player raise s = record s { players_acted = assign empty_set player true }
record_player_action player action s = record s {
  players_acted = assign s.players_acted player true;
}

-- `persist_player_chips` for the result of `chips_.find(player)`.
unfoldable pub persist_found : ℕ → Option ℕ → GameSession → GameSession
persist_found player none s = s
persist_found player (some amount) s =
    let name = s.name_of player in
    emit (update_chips name amount)
      (record s { bankrolls = λ n. if str_eq n name then some amount else s.bankrolls n })

unfoldable pub persist_player_chips : ℕ → GameSession → GameSession
unfolding persist_found
persist_player_chips player s =
    if s.has_repository then persist_found player (s.chips player) s else s

-- `persist_all_chips`; the total that it adds up is only logged.
unfoldable pub persist_chips_of : List ℕ → GameSession → GameSession
unfolding persist_player_chips
persist_chips_of [] s = s
persist_chips_of (p ∷ ps) s = persist_chips_of ps (persist_player_chips p s)

unfoldable pub persist_all_chips : GameSession → GameSession
unfolding persist_chips_of
persist_all_chips s = persist_chips_of s.players s
