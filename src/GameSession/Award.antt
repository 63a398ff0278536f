-- ===== src/GameSession/Award.antt =====
-- Who wins each pot, and the payment of the pots.
use Prim.Native.String.{String}
use text.Mathlib.Text.{◌==◌ as str_eq}
use ascii_poker.Prelude.{
  ℕ, ◌+◌, ◌/◌, ◌%◌, Bool, false, ◌||◌, List, [], ◌∷◌, ◌++◌, map, some, length, ltb, leb, ◌==◌,
  if◌then◌else◌, at_key, assign, u32, empty_map,
}
use ascii_poker.Card.{Card}
use ascii_poker.HandEvaluator.{
  HandValue, evaluate_best, value_gt, value_eq, no_value, hand_category_label,
}
use ascii_poker.SidePots.{PotPlayerState, SidePot, compute_side_pots}
use ascii_poker.GameSession.State.{GameSession, Outcome, returns, ◌>>=◌, at}
use ascii_poker.GameSession.Seats.{player_at}
use ascii_poker.GameSession.Chips.{persist_all_chips}
use ascii_poker.GameSession.Notify.{broadcast_state, broadcast_hand_result}

-- The cards that a player's hand is made of.
unfoldable pub cards_of : GameSession → ℕ → Outcome (List Card)
cards_of s player = do hand ← at (s.hands player); returns (hand ++ s.community_cards)

-- The loop of `find_winners_among`.
unfoldable pub winners_loop : GameSession → HandValue → List ℕ → List ℕ → Outcome (List ℕ)
unfolding cards_of value_gt value_eq evaluate_best
winners_loop s best winners [] = returns winners
winners_loop s best winners (p ∷ ps) = do
  cards ← cards_of s p
  let value = evaluate_best cards
  let better = leb (length winners) 0 || value_gt value best
  winners_loop s (if better then value else best)
      (if better then p ∷ [] else if value_eq value best then winners ++ p ∷ [] else winners) ps

unfoldable pub find_winners_among : GameSession → List ℕ → Outcome (List ℕ)
unfolding winners_loop
find_winners_among s [] = returns []
find_winners_among s (p ∷ []) = returns (p ∷ [])
find_winners_among s (p ∷ q ∷ ps) = winners_loop s no_value [] (p ∷ q ∷ ps)

-- `std::find` in the list of names.
abbrev pub has_name : String → List String → Bool
has_name name [] = false
has_name name (n ∷ ns) = str_eq name n || has_name name ns

-- The session and the local variables of `award_all_pots`.
pub record Payout : Type 0 where
  pub session : GameSession
  pub winner_names : List String
  pub winner_hand_labels : List String
  pub total_awarded : ℕ

abbrev pub add_chips : ℕ → ℕ → GameSession → GameSession
add_chips player amount s = record s {
  chips = assign s.chips player (some (u32 (at_key s.chips player + amount)));
}

-- The label of a winner's hand, empty before the flop.
unfoldable pub winner_label : GameSession → ℕ → Outcome String
unfolding cards_of evaluate_best hand_category_label
winner_label s winner =
    if leb 3 (length s.community_cards)
    then (cards_of s winner >>= λ cards.
        returns (hand_category_label (evaluate_best cards).category))
    else returns ""

-- The loop over the winners of a pot.
unfoldable pub pay_winners : ℕ → List ℕ → Payout → Outcome Payout
unfolding winner_label
pay_winners share [] pay = returns pay
pay_winners share (w ∷ ws) pay =
    let s = add_chips w share pay.session in
    let name = s.name_of w in
    if has_name name pay.winner_names
    then pay_winners share ws (record pay { session = s })
    else (winner_label s w >>= λ label. pay_winners share ws (record pay {
      session = s;
      winner_names = pay.winner_names ++ name ∷ [];
      winner_hand_labels = pay.winner_hand_labels ++ label ∷ [];
    }))

-- The rest of a pot that does not divide goes to the first winner.
unfoldable pub pay_pot : SidePot → List ℕ → Payout → Outcome Payout
unfolding pay_winners
pay_pot pot [] pay = returns pay
pay_pot pot (w ∷ ws) pay =
    let n = length (w ∷ ws) in
    if pot.amount == 0
    then returns pay
    else (pay_winners (pot.amount / n) (w ∷ ws) pay >>= λ paid. returns (record paid {
      session =
          if ltb 0 (pot.amount % n)
          then add_chips w (pot.amount % n) paid.session
          else paid.session;
      total_awarded = u32 (paid.total_awarded + pot.amount);
    }))

-- The loop over the side pots.
unfoldable pub pay_pots : List SidePot → Payout → Outcome Payout
unfolding find_winners_among pay_pot
pay_pots [] pay = returns pay
pay_pots (pot ∷ pots) pay = do
  let s = pay.session
  let contenders = map (player_at s) pot.eligible_player_indices
  winners ← find_winners_among s contenders
  paid ← pay_pot pot winners pay
  pay_pots pots paid

abbrev pub pot_states : GameSession → List PotPlayerState
pot_states s =
    map (λ p. record { contributed = at_key s.total_contributed p; folded = s.folded_players p })
      s.players

-- The messages after the payment, and the repository; none if nobody has won.
unfoldable pub announce : Payout → Outcome GameSession
unfolding persist_all_chips broadcast_state broadcast_hand_result
announce pay = elim pay.winner_names [
  | [] ↦ returns pay.session
  | name ∷ names ↦ broadcast_state (persist_all_chips pay.session) >>= λ s.
      returns (broadcast_hand_result pay.winner_names pay.winner_hand_labels pay.total_awarded s)
]

unfoldable pub award_all_pots : GameSession → Outcome GameSession
unfolding compute_side_pots pay_pots announce
award_all_pots s =
    let start : Payout = record {
      session = s;
      winner_names = [];
      winner_hand_labels = [];
      total_awarded = 0;
    } in
    if s.pot == 0
    then returns s
    else (pay_pots (compute_side_pots (pot_states s)) start >>= λ pay.
        announce pay >>= λ s'. returns (record s' { pot = 0; total_contributed = empty_map }))
