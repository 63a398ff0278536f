-- ===== src/GameSession/Course.antt =====
-- The course of a hand through `next_phase` and `ask_current_player`, and the fuel that it takes.
use ascii_poker.Prelude.{
  ℕ, zero, suc, ◌+◌, ◌≤◌, ◌<◌, ◌≡◌, refl, ap, ◌∙◌, sym, subst, inl, inr, ◌⊎◌, true, false, List,
  length, arith, ◌==◌, Bool-cases, List-cases,
}
use ascii_poker.Card.{Card}
use ascii_poker.Deck.{IsShuffle}
use ascii_poker.Protocol.{GamePhase, pre_flop, flop, turn, river, showdown}
use ascii_poker.GameSession.State.{GameSession, Outcome, returns, out_of_range, out_of_fuel, ◌>>=◌}
use ascii_poker.GameSession.Seats.{
  player_at, can_player_act, first_to_act_postflop, live_players, count_active_players,
  advance_to_next_player, is_round_complete,
}
use ascii_poker.GameSession.Chips.{begin_betting_round}
use ascii_poker.GameSession.Notify.{broadcast_state}
use ascii_poker.GameSession.Award.{award_all_pots}
use ascii_poker.GameSession.Phases.{
  deal_community, clear_bets, try_start_new_hand, handle_single_winner, do_showdown, open_phase,
  deal_next_phase, next_phase, ask_current_player,
}
use ascii_poker.GameSession.Outcomes.{Returns}
use ascii_poker.GameSession.Seated.{SameTable, broadcast_state-Returns}
use ascii_poker.GameSession.Sound.{
  cards_needed, is_round_complete-Returns, first_to_act_postflop-lt,
}
use ascii_poker.GameSession.Opening.{SoundWithin, SoundWithin-effects}
use ascii_poker.GameSession.Calls.{
  SoundWithin-SameTable, award-SoundWithin, enter_phase, clear_bets-SoundWithin,
  deal_community-SoundWithin,
}
use ascii_poker.GameSession.Hand.{advance-SoundWithin}
use ascii_poker.GameSession.Turn.{is_round_complete-waits, advance-acts}

-- The rounds of fuel that are enough for the rest of a hand.
abbrev pub fuel_for : GamePhase → ℕ
fuel_for pre_flop = 8
fuel_for flop = 6
fuel_for turn = 4
fuel_for river = 2
fuel_for showdown = 2

pub fuel_for-le : (p : GamePhase) → fuel_for p ≤ 8
fuel_for-le pre_flop = omega arith
fuel_for-le flop = omega arith
fuel_for-le turn = omega arith
fuel_for-le river = omega arith
fuel_for-le showdown = omega arith

pub Returns-cases {ℓ} :
    {A : Type ℓ} (P : A → Type 0) (m : Outcome A) → Returns P m → (a : A) × (m ≡ returns a) × P a
Returns-cases P (returns a) h = (a, refl, h)
Returns-cases P out_of_range h = absurd h
Returns-cases P out_of_fuel h = absurd h

-- The call returns a sound session with at most `n` chips, or comes to the end of the hand: then
-- the pots of a sound session have been paid, and what is left to do is the call of
-- `try_start_new_hand`, with at least the spare fuel.
abbrev pub Settles : (ℕ → List Card → List Card) → ℕ → ℕ → Outcome GameSession → Type 0
Settles shuffle spare n m =
    Returns (SoundWithin n) m
    ⊎ ((t : GameSession) × (k : ℕ) × (spare ≤ k)
        × SoundWithin n t
        × (m ≡ try_start_new_hand shuffle (ask_current_player shuffle k) t))

module _ (shuffle : ℕ → List Card → List Card) (perm : IsShuffle shuffle) (spare : ℕ) where
  pub Settles->>= {ℓ} :
      {A : Type ℓ} (P : A → Type 0) (n : ℕ) (m : Outcome A) (f : A → Outcome GameSession)
      → Returns P m
      → ((a : A) → P a → Settles shuffle spare n (f a))
      → Settles shuffle spare n (m >>= f)
  Settles->>= P n m f h k =
      let (a, e, pa) = Returns-cases P m h in
      subst (λ (x : Outcome _). Settles shuffle spare n (x >>= f)) (sym e) (k a pa)

  module _ (k : ℕ) (enough : spare ≤ k)
      (asks : (n : ℕ) (s : GameSession)
        → spare + fuel_for s.phase ≤ k
        → SoundWithin n s
        → Settles shuffle spare n (ask_current_player shuffle k s)) where
    pub single_winner-Settles :
        (n : ℕ) (s : GameSession)
        → SoundWithin n s
        → Settles shuffle spare n (handle_single_winner shuffle (ask_current_player shuffle k) s)
    unfolding handle_single_winner
    single_winner-Settles n s h =
        Settles->>= (SoundWithin n) n (award_all_pots s) _ (award-SoundWithin n s h)
          (λ t sound. inr (t, k, enough, sound, refl))

    do_showdown-Settles :
        (n : ℕ) (s : GameSession)
        → SoundWithin n s
        → Settles shuffle spare n (do_showdown shuffle (ask_current_player shuffle k) s)
    unfolding do_showdown handle_single_winner
    do_showdown-Settles n s h =
        let shown = record s { phase = showdown } in
        let sound = enter_phase n s showdown s.current_player_index (omega arith) h.0.current h in
        Settles->>= (SameTable shown) n (broadcast_state shown) _
          (broadcast_state-Returns shown sound.0.seated)
          λ t same.
            let sound' = SoundWithin-SameTable n shown t same sound in
            elim (List-cases (live_players t)) [
              | inl e ↦ rw e (inr (t, k, enough, sound', refl))
              | inr (p, ps, e) ↦ elim (List-cases ps) [
                | inl e' ↦ rw (e, e') (single_winner-Settles n t sound')
                | inr (q, qs, e') ↦ rw (e, e') (single_winner-Settles n t sound')
              ]
            ]

    deal_and_open-Settles :
        (n c : ℕ) (s : GameSession) (p : GamePhase)
        → c + cards_needed p ≤ length s.deck.cards
        → spare + fuel_for p ≤ k
        → SoundWithin n s
        → Settles shuffle spare n (
            deal_community c s >>= λ t.
            open_phase shuffle (ask_current_player shuffle k) (record t { phase = p }))
    unfolding open_phase
    deal_and_open-Settles n c s p cards fuel h =
        Settles->>= (λ t. SoundWithin n (record t { phase = p })) n (deal_community c s) _
          (deal_community-SoundWithin n c s p cards h)
          λ t sound.
            let u = record t { phase = p } in
            let v =
              begin_betting_round (record u { current_player_index = first_to_act_postflop u }) in
            let (ready, le) =
              enter_phase n u p (first_to_act_postflop u) sound.0.stocked
                (first_to_act_postflop-lt u sound.0.dealer) sound in
            let opened : SoundWithin n v = (ground arith, le) in
            Settles->>= (SameTable v) n (broadcast_state v) _
              (broadcast_state-Returns v opened.0.seated)
              λ w same.
                let phase = ap (λ (x : GameSession). x.phase) same in
                asks n w (rw phase fuel) (SoundWithin-SameTable n v w same opened)

    pub next_phase-Settles :
        (n : ℕ) (s : GameSession)
        → spare + fuel_for s.phase ≤ k + 1
        → SoundWithin n s
        → Settles shuffle spare n (next_phase shuffle (ask_current_player shuffle k) s)
    unfolding next_phase deal_next_phase
    next_phase-Settles n s fuel h = elim (Bool-cases (count_active_players s == 1)) [
      | inl e ↦ rw (e, next_phase) (single_winner-Settles n s h)
      | inr e ↦ rw (e, next_phase) (for_phase s.phase cleared.0.stocked fuel)
    ]
      where
        cleared : SoundWithin n (clear_bets s)
        cleared = clear_bets-SoundWithin n s h

        for_phase :
            (p : GamePhase)
            → cards_needed p ≤ length s.deck.cards
            → spare + fuel_for p ≤ k + 1
            → let t = clear_bets s in
              Settles shuffle spare n (elim p [
                | pre_flop ↦ deal_community 3 t >>= λ u.
                    open_phase shuffle (ask_current_player shuffle k) (record u { phase = flop })
                | flop ↦ deal_community 1 t >>= λ u.
                    open_phase shuffle (ask_current_player shuffle k) (record u { phase = turn })
                | turn ↦ deal_community 1 t >>= λ u.
                    open_phase shuffle (ask_current_player shuffle k) (record u { phase = river })
                | river ↦ do_showdown shuffle (ask_current_player shuffle k) t
                | showdown ↦ returns t
              ])
        for_phase pre_flop cards fuel = deal_and_open-Settles n 3 _ flop cards (omega arith) cleared
        for_phase flop cards fuel = deal_and_open-Settles n 1 _ turn cards (omega arith) cleared
        for_phase turn cards fuel = deal_and_open-Settles n 1 _ river cards (omega arith) cleared
        for_phase river cards fuel = do_showdown-Settles n _ cleared
        for_phase showdown cards fuel = inl cleared

  -- After the turn has passed in a round that is not complete, the player in turn can act.
  waits-able :
      (s : GameSession)
      → s.current_player_index < length s.players
      → can_player_act s (player_at s s.current_player_index) ≡ false
      → is_round_complete (advance_to_next_player s) ≡ returns false
      → let t = advance_to_next_player s in
        can_player_act t (player_at t t.current_player_index) ≡ true
  unfolding advance_to_next_player
  waits-able s lt unable e =
      let (j, inside, acts) = is_round_complete-waits (advance_to_next_player s) e in
      advance-acts s j inside lt
        (λ same.
          let acts' : can_player_act s (player_at s s.current_player_index) ≡ true =
            subst (λ i. can_player_act s (player_at s i) ≡ true) same acts in
          absurd (cc))
        acts

  advance-phase : (s : GameSession) → (advance_to_next_player s).phase ≡ s.phase
  unfolding advance_to_next_player
  advance-phase s = refl

  -- A player who can act is asked at once.
  ask_able :
      (n fuel : ℕ) (s : GameSession)
      → can_player_act s (player_at s s.current_player_index) ≡ true
      → SoundWithin n s
      → Returns (SoundWithin n) (ask_current_player shuffle (suc fuel) s)
  unfolding ask_current_player
  ask_able n fuel s able h = rw (able, ask_current_player) (SoundWithin-effects n s s.bankrolls _ h)

  pub fuel_for-pos : (p : GamePhase) → 2 ≤ fuel_for p
  fuel_for-pos pre_flop = omega arith
  fuel_for-pos flop = omega arith
  fuel_for-pos turn = omega arith
  fuel_for-pos river = omega arith
  fuel_for-pos showdown = omega arith

  -- With the fuel for the rest of the hand, the call ends.
  pub ask_current_player-Settles :
      (fuel n : ℕ) (s : GameSession)
      → spare + fuel_for s.phase ≤ fuel
      → SoundWithin n s
      → Settles shuffle spare n (ask_current_player shuffle fuel s)
  unfolding ask_current_player
  ask_current_player-Settles zero n s fuel h = absurd (omega (arith, fuel_for-pos s.phase))
  ask_current_player-Settles (suc zero) n s fuel h = absurd (omega (arith, fuel_for-pos s.phase))
  ask_current_player-Settles (suc (suc k)) n s fuel h =
      let t = advance_to_next_player s in
      let sound = advance-SoundWithin shuffle perm n s h in
      let phase = advance-phase s in
      let two = fuel_for-pos s.phase in
      elim (Bool-cases (can_player_act s (player_at s s.current_player_index))) [
        | inl able ↦ inl (ask_able n (suc k) s able h)
        | inr unable ↦
            let (complete, e, _) =
              Returns-cases (λ _. Unit {0}) (is_round_complete t)
                (is_round_complete-Returns t sound.0.seated) in
            rw (unable, e, ask_current_player)
              (elim (Bool-cases complete) [
                | inl done ↦ rw done (
                    next_phase-Settles (suc k) (omega arith) (ask_current_player-Settles (suc k)) n
                      t (rw phase (omega arith)) sound)
                | inr waits ↦ rw waits (
                    inl (
                      ask_able n k t (waits-able s h.0.current unable (e ∙ ap returns waits))
                        sound))
              ])
      ]
