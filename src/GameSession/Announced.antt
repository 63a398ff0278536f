-- ===== src/GameSession/Announced.antt =====
-- What a raise changes, and whom it is told (`contribute`, `broadcast_action_event` and the end of
-- `apply_action` of game_session.cpp).
use ascii_poker.Prelude.{
  ℕ, suc, ◌+◌, ◌≡◌, refl, sym, ap, ◌∙◌, subst, true, false, List, [], ◌∷◌, some, arith, ◌==◌,
  at_key, assign, empty_set, Set, assign_lem, sub32, if_elim,
}
use Prim.Native.String.{String}
use ascii_poker.Card.{Card}
use ascii_poker.Protocol.{raise, ServerMessage, action_event, your_turn}
use ascii_poker.GameSession.State.{GameSession, Effect, returns, send_message}
use ascii_poker.GameSession.Seats.{
  player_at, can_player_act, count_active_players, advance_to_next_player,
}
use ascii_poker.GameSession.Chips.{contribute, mark_all_in_if_needed, record_player_action}
use ascii_poker.GameSession.Notify.{send_each, turn_offer, broadcast_action_event}
use ascii_poker.GameSession.Phases.{ask_current_player}
use ascii_poker.GameSession.Moves.{Attempt, refused, accepted, raise_to, pass_turn, after_action}
use ascii_poker.GameSession.Table.{table_total}
use ascii_poker.GameSession.Betting.{RaisesTo}
use ascii_poker.GameSession.Seated.{SameTable, send_each_effects}
use ascii_poker.GameSession.Opening.{SoundWithin-effects}
use ascii_poker.GameSession.Turns.{SoundWithin-bets}
use ascii_poker.GameSession.Waiting.{IsOpen, two_live, next_acts, not_complete, asked}

-- A message to each player in turn, before earlier effects.
abbrev pub told : ServerMessage → List ℕ → List Effect → List Effect
told msg [] es = es
told msg (p ∷ ps) es = told msg ps (send_message p msg ∷ es)

send_each-told :
    (msg : ServerMessage) (ps : List ℕ) (s : GameSession)
    → (send_each (λ _. msg) ps s).effects ≡ told msg ps s.effects
unfolding send_each
send_each-told msg [] s = refl
send_each-told msg (p ∷ ps) s = send_each-told msg ps _

-- What a raise of player `p` leaves as it was.
abbrev pub LeavesOthers : ℕ → GameSession → GameSession → Type 0
LeavesOthers p s t =
    (t.players ≡ s.players)
    × (t.folded_players ≡ s.folded_players)
    × (t.current_player_index ≡ s.current_player_index)
    × (t.name_of ≡ s.name_of)
    × (t.effects ≡ s.effects)
    × ((q : ℕ)
        → (q == p) ≡ false
        → (t.all_in_players q ≡ s.all_in_players q) × (t.round_bets q ≡ s.round_bets q))

abbrev pub AcceptedLeaves : ℕ → GameSession → Attempt → Type 0
AcceptedLeaves p s (refused code) = Unit
AcceptedLeaves p s (accepted t) = LeavesOthers p s t

contribute-LeavesOthers :
    (p amount : ℕ) (s : GameSession) → LeavesOthers p s (contribute p amount s).0
unfolding contribute mark_all_in_if_needed
contribute-LeavesOthers p amount s =
    if_elim (LeavesOthers p s) _
      (
        refl,
        refl,
        refl,
        refl,
        refl,
        λ q e. (
          assign_lem s.all_in_players p true q ∙ rw e refl,
          assign_lem s.round_bets p _ q ∙ rw e refl,
        ),
      )
      (refl, refl, refl, refl, refl, λ q e. (refl, assign_lem s.round_bets p _ q ∙ rw e refl))

pub raise_to-LeavesOthers :
    (amount p : ℕ) (s : GameSession) → AcceptedLeaves p s (raise_to amount p s)
unfolding raise_to
raise_to-LeavesOthers amount p s =
    ground (arith, contribute-LeavesOthers p (sub32 amount (at_key s.round_bets p)) s)

abbrev raise_event : String → ℕ → ServerMessage
raise_event name amount =
    action_event (record { player_name = name; action = raise; amount = some amount })

-- A raise to `amount` by player `p`: the bets and the stack, the chips on the table, the next turn, and
-- the messages sent, which are the raise to every player, and the offer to the next one.
pub record IsRaised (amount p : ℕ) (s t : GameSession) : Type 0 where
  pub bet : t.current_bet ≡ amount
  pub increment : t.last_raise_increment + s.current_bet ≡ amount
  pub placed : at_key t.round_bets p ≡ amount
  pub paid : at_key t.chips p + amount ≡ at_key s.chips p + at_key s.round_bets p
  pub kept : table_total t ≡ table_total s
  pub next_acts : can_player_act t (player_at t t.current_player_index) ≡ true
  pub sent :
      let next = player_at t t.current_player_index in
      t.effects
      ≡ send_message next (your_turn (turn_offer t next))
        ∷ told (raise_event (s.name_of p) amount) s.players s.effects

-- The session when the raise has been made known.
abbrev pub announced : ℕ → ℕ → GameSession → GameSession
announced amount p s =
    broadcast_action_event (s.name_of p) raise (some amount) (record_player_action p raise s)

announced-same :
    (amount p : ℕ) (s : GameSession)
    → SameTable (record_player_action p raise s) (announced amount p s)
unfolding broadcast_action_event
announced-same amount p s =
    let raised = record_player_action p raise s in
    send_each_effects (λ _. raise_event (s.name_of p) amount) raised.players raised

announced-told :
    (amount p : ℕ) (s : GameSession)
    → (announced amount p s).effects ≡ told (raise_event (s.name_of p) amount) s.players s.effects
unfolding broadcast_action_event record_player_action
announced-told amount p s = send_each-told (raise_event (s.name_of p) amount) s.players _

IsOpen-announced :
    (p q j n : ℕ) (acted : Set) (es : List Effect) (s : GameSession)
    → IsOpen p q j n s
    → IsOpen p q j n (record s { players_acted = acted; effects = es })
IsOpen-announced p q j n acted es s h = record {
  sound =
      SoundWithin-effects n _ s.bankrolls es
        (SoundWithin-bets n s s.current_bet s.last_raise_increment s.folded_players acted h.sound);
  seated = h.seated;
  at_seat = h.at_seat;
  seat = h.seat;
  differs = h.differs;
  in_turn = h.in_turn;
  live = h.live;
  acts = h.acts;
  behind = h.behind;
}

module _ (p q j n amount : ℕ) (s t : GameSession) (h : IsOpen p q j n t)
    (raised : RaisesTo amount p s (accepted t)) (total : table_total t ≡ table_total s)
    (others : LeavesOthers p s t) where
  announced-IsOpen : IsOpen p q j n (announced amount p t)
  unfolding record_player_action
  announced-IsOpen =
      subst (IsOpen p q j n) (sym (announced-same amount p t)) (IsOpen-announced p q j n _ _ t h)

  pub asked-IsRaised : IsRaised amount p s (asked (advance_to_next_player (announced amount p t)))
  unfolding record_player_action advance_to_next_player turn_offer
  asked-IsRaised =
      let es = (announced amount p t).effects in
      let acted = assign empty_set p true in
      let w = record t { players_acted = acted; effects = es } in
      let u = advance_to_next_player w in
      let next = player_at u u.current_player_index in
      let known : es ≡ told (raise_event (s.name_of p) amount) s.players s.effects =
        announced-told amount p t ∙ rw (others.0, others.3, others.4) refl in
      subst (λ w. IsRaised amount p s (asked (advance_to_next_player w)))
        (sym (announced-same amount p t))
        (record {
          bet = raised.0;
          increment = raised.1;
          placed = raised.2;
          paid = raised.3;
          kept = total;
          next_acts = next_acts p q j n w (IsOpen-announced p q j n acted es t h);
          sent = ap (λ earlier. send_message next (your_turn (turn_offer u next)) ∷ earlier) known;
        })

  module _ (shuffle : ℕ → List Card → List Card) (fuel : ℕ) where
    pass_turn-asked :
        (w : GameSession)
        → IsOpen p q j n w
        → pass_turn shuffle (suc fuel) w ≡ returns (asked (advance_to_next_player w))
    unfolding pass_turn ask_current_player
    pass_turn-asked w k =
        rw (not_complete p q j n w k, pass_turn)
          (rw (next_acts p q j n w k, ask_current_player) refl)

    pub after_action-asked :
        after_action shuffle (suc fuel) raise (some amount) p t
        ≡ returns (asked (advance_to_next_player (announced amount p t)))
    unfolding after_action
    after_action-asked =
        let many = two_live p q j n (announced amount p t) announced-IsOpen in
        let several : (count_active_players (announced amount p t) == 1) ≡ false = ground arith in
        rw (several, after_action) (pass_turn-asked (announced amount p t) announced-IsOpen)
