-- ===== src/GameSession/Betting.antt =====
-- The chips that an action moves from a stack to the pot (`apply_action` of game_session.cpp).
use ascii_poker.Prelude.{
  inl, inr, dec_lt, ℕ_discrete, ℕ, ◌+◌, ◌-◌, ◌≤◌, ◌<◌, ◌≡◌, at_key-assign_self, ◌⊎◌, true, Option,
  none, some, elem, at_key, min, u32, sub32, u32_max, arith,
}
use ascii_poker.Protocol.{Action, fold, check, call, raise}
use ascii_poker.GameSession.State.{GameSession}
use ascii_poker.GameSession.Chips.{contribute}
use ascii_poker.GameSession.Moves.{Attempt, refused, accepted, raise_to, perform}
use ascii_poker.GameSession.Table.{sum_at, sum_at-assign, at_key-le-sum_at, table_total, IsBalanced}

-- What has been put in grows with the pot.
abbrev pub PotFollows : GameSession → GameSession → Type 0
PotFollows s t =
    sum_at t.total_contributed t.players + s.pot ≡ sum_at s.total_contributed s.players + t.pot

-- A contribution keeps the balance and the chips on the table.
pub contribute-IsBalanced :
    (player amount : ℕ) (s : GameSession)
    → elem player s.players ≡ true
    → IsBalanced s
    → IsBalanced (contribute player amount s).0
      × (table_total (contribute player amount s).0 ≡ table_total s)
      × PotFollows s (contribute player amount s).0
unfolding contribute
contribute-IsBalanced player amount s here b =
    let actual = min amount (at_key s.chips player) in
    ground (
      arith,
      b,
      at_key-le-sum_at s.chips player s.players here,
      at_key-le-sum_at s.total_contributed player s.players here,
      sum_at-assign s.chips player (at_key s.chips player - actual) s.players b.distinct here,
      sum_at-assign s.total_contributed player (at_key s.total_contributed player + actual)
          s.players b.distinct here,
    )

pub contribute-players :
    (player amount : ℕ) (s : GameSession) → (contribute player amount s).0.players ≡ s.players
unfolding contribute
contribute-players player amount s = ground arith

-- What an accepted action leaves; a refused one leaves the session as it was.
abbrev pub Conserves : GameSession → Attempt → Type 0
Conserves s (refused code) = Unit
Conserves s (accepted s') =
    IsBalanced s' × (table_total s' ≡ table_total s) × (s'.players ≡ s.players) × PotFollows s s'

raise_to-Conserves :
    (amount current : ℕ) (s : GameSession)
    → elem current s.players ≡ true
    → IsBalanced s
    → Conserves s (raise_to amount current s)
unfolding raise_to
raise_to-Conserves amount current s here b = ground (
  arith,
  contribute-IsBalanced current (sub32 amount (at_key s.round_bets current)) s here b,
  contribute-players current (sub32 amount (at_key s.round_bets current)) s,
)

-- An action of a seated player in a balanced session, if it is accepted, of whatever kind and amount,
-- keeps the players, the sum of all stacks and the pot, and the balance, and the pot grows by as
-- much as the players' contributions.
pub perform-Conserves :
    (action : Action) (amount : Option ℕ) (current : ℕ) (s : GameSession)
    → elem current s.players ≡ true
    → IsBalanced s
    → Conserves s (perform action amount current s)
unfolding perform
perform-Conserves fold amount current s here b = ground arith
perform-Conserves check amount current s here b = ground arith
perform-Conserves call amount current s here b = ground (
  arith,
  contribute-IsBalanced current (sub32 s.current_bet (at_key s.round_bets current)) s here b,
  contribute-players current (sub32 s.current_bet (at_key s.round_bets current)) s,
)
perform-Conserves raise none current s here b = tt
perform-Conserves raise (some amount) current s here b = raise_to-Conserves amount current s here b

-- What the server asks of a raise to `amount`: more than the bet to match, at least by the last
-- increment unless it is all that the player has, and no more than the player has.
abbrev pub IsAllowedRaise : ℕ → ℕ → GameSession → Type 0
IsAllowedRaise amount current s =
    let total = at_key s.round_bets current + at_key s.chips current in
    (s.current_bet < amount)
    × ((s.current_bet + s.last_raise_increment ≤ amount) ⊎ (amount ≡ total))
    × (amount ≤ total)

IsAllowedRaise-cases :
    (amount current : ℕ) (s : GameSession)
    → IsAllowedRaise amount current s ⊎ (¬ IsAllowedRaise amount current s)
IsAllowedRaise-cases amount current s =
    let total = at_key s.round_bets current + at_key s.chips current in
    elim (dec_lt s.current_bet amount) [
      | no low ↦ inr (λ allowed. absurd (omega arith))
      | yes above ↦ elim (dec_lt total amount) [
        | yes beyond ↦ inr (λ allowed. absurd (omega arith))
        | no within ↦ elim (dec_lt amount (s.current_bet + s.last_raise_increment)) [
          | no enough ↦ inl (above, inl (omega arith), omega arith)
          | yes short ↦ elim (ℕ_discrete amount total) [
            | yes all ↦ inl (above, inr all, omega arith)
            | no less ↦ inr (λ allowed. absurd (ground arith))
          ]
        ]
      ]
    ]

contribute_effect :
    (player amount : ℕ) (s : GameSession)
    → amount ≤ at_key s.chips player
    → at_key s.round_bets player + amount < 4294967296
    → (at_key (contribute player amount s).0.round_bets player
        ≡ at_key s.round_bets player + amount)
      × (at_key (contribute player amount s).0.chips player + amount ≡ at_key s.chips player)
      × ((contribute player amount s).0.current_bet ≡ s.current_bet)
unfolding contribute
contribute_effect player amount s h k =
    let paid = min amount (at_key s.chips player) in
    ground (
      arith,
      at_key-assign_self s.round_bets player (u32 (at_key s.round_bets player + paid)),
      at_key-assign_self s.chips player (at_key s.chips player - paid),
    )

-- Accepted, with these numbers.
abbrev pub RaisesTo : ℕ → ℕ → GameSession → Attempt → Type 0
RaisesTo amount current s (refused code) = ⊥
RaisesTo amount current s (accepted s') =
    (s'.current_bet ≡ amount)
    × (s'.last_raise_increment + s.current_bet ≡ amount)
    × (at_key s'.round_bets current ≡ amount)
    × (at_key s'.chips current + amount ≡ at_key s.chips current + at_key s.round_bets current)

abbrev pub IsRefused : Attempt → Type 0
IsRefused (refused code) = Unit
IsRefused (accepted s') = ⊥

-- For a player whose bet is at most the bet to match, and whose bet and stack, like the bet to match
-- and the last increment, add up to less than 2^32 - 1: a raise to a uint32_t amount above the bet to
-- match, by at least the last increment or of all that the player has, and not above that, is
-- accepted, so that the player's bet and the bet to match become the amount, the player pays the
-- difference, and the increment becomes what the bet to match rose by, also when an all-in raised it
-- by less than the increment before; any other raise is refused.
pub raise_to_lem :
    (amount current : ℕ) (s : GameSession)
    → amount ≤ u32_max
    → at_key s.round_bets current + at_key s.chips current < u32_max
    → s.current_bet + s.last_raise_increment < u32_max
    → at_key s.round_bets current ≤ s.current_bet
    → (IsAllowedRaise amount current s × RaisesTo amount current s (raise_to amount current s))
      ⊎ ((¬ IsAllowedRaise amount current s) × IsRefused (raise_to amount current s))
unfolding raise_to
raise_to_lem amount current s word small room within =
    let paid = contribute_effect current (sub32 amount (at_key s.round_bets current)) s in
    elim (IsAllowedRaise-cases amount current s) [
      | inl allowed ↦ inl (allowed, ground (arith, paid))
      | inr barred ↦ inr (barred, ground arith)
    ]
