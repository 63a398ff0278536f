-- ===== src/GameSession/Turn.antt =====
-- To whom `advance_to_next_player` passes the turn.
use native.Mathlib.Nat.{mod-eq_of_lt, mod_self}
use ascii_poker.Prelude.{
  dec_lt, ℕ, zero, suc, ◌+◌, ◌%◌, ◌≤◌, ◌<◌, ◌≡◌, ◌≢◌, ap, subst, inl, inr, ◌⊎◌, true, false, List,
  [], ◌∷◌, length, get_or, arith, leb, ◌==◌, Bool-cases, ℕ_discrete,
}
use ascii_poker.GameSession.State.{GameSession, returns}
use ascii_poker.GameSession.Seats.{
  player_at, can_player_act, count_active_players, next_active_loop, find_next_active_player,
  advance_to_next_player, round_complete_loop, is_round_complete,
}

-- A round that is not complete waits for a player who can act.
round_complete_loop-waits :
    (s : GameSession) (ps : List ℕ)
    → round_complete_loop s ps ≡ returns false
    → (i : ℕ) × (i < length ps) × (can_player_act s (get_or ps i 0) ≡ true)
unfolding round_complete_loop
round_complete_loop-waits s [] h = absurd (cc)
round_complete_loop-waits s (p ∷ ps) h = elim (Bool-cases (can_player_act s p)) [
  | inl acts ↦ (0, omega arith, acts)
  | inr waits ↦
      let rest : round_complete_loop s ps ≡ returns false = ground arith in
      let (i, lt, acts) = round_complete_loop-waits s ps rest in (suc i, omega arith, acts)
]

pub is_round_complete-waits :
    (s : GameSession)
    → is_round_complete s ≡ returns false
    → (i : ℕ) × (i < length s.players) × (can_player_act s (player_at s i) ≡ true)
unfolding is_round_complete
is_round_complete-waits s h = elim (Bool-cases (leb (count_active_players s) 1)) [
  | inl few ↦ absurd (ground arith)
  | inr more ↦ round_complete_loop-waits s s.players (ground arith)
]

next_index :
    (n i : ℕ) → i < n → ((i + 1 < n) × ((i + 1) % n ≡ i + 1)) ⊎ ((i + 1 ≡ n) × ((i + 1) % n ≡ 0))
next_index n i h = elim (dec_lt (i + 1) n) [
  | yes inside ↦ inl (inside, mod-eq_of_lt inside)
  | no outside ↦
      let last : i + 1 ≡ n = omega arith in
      inr (last, subst (λ m. (i + 1) % m ≡ 0) last (mod_self (i + 1)))
]

-- On the way from `idx` around the table the seat `j` comes before the seat `cur`, and within
-- `rounds` steps.
abbrev IsAhead : ℕ → ℕ → ℕ → ℕ → ℕ → Type 0
IsAhead n cur j rounds idx =
    ((idx ≤ j) × ((cur < idx) ⊎ (j < cur)) × (j < idx + rounds))
    ⊎ ((j < cur) × (cur < idx) × (n + j < idx + rounds))

next_active_loop-acts :
    (s : GameSession) (j rounds idx : ℕ)
    → idx < length s.players
    → j < length s.players
    → can_player_act s (player_at s j) ≡ true
    → IsAhead (length s.players) s.current_player_index j rounds idx
    → can_player_act s (player_at s (next_active_loop s rounds idx)) ≡ true
unfolding next_active_loop
next_active_loop-acts s j zero idx h lt acts ahead = absurd (omega arith)
next_active_loop-acts s j (suc rounds) idx h lt acts ahead =
    let n = length s.players in
    let step = next_index n idx h in
    let next = (idx + 1) % n in
    elim (Bool-cases (can_player_act s (player_at s idx))) [
      | inl here ↦ rw here here
      | inr waits ↦ elim (ℕ_discrete idx j) [
        | yes same ↦ absurd (ground (arith, ap (player_at s) same))
        | no other ↦
            let differs : (idx == s.current_player_index) ≡ false = ground arith in
            rw (waits, differs)
              (next_active_loop-acts s j rounds next (ground arith) lt acts (ground arith))
      ]
    ]

-- If a player at the table other than the one whose turn it is, who is at an index of the table,
-- can act, the turn passes to one who can.
pub advance-acts :
    (s : GameSession) (j : ℕ)
    → j < length s.players
    → s.current_player_index < length s.players
    → j ≢ s.current_player_index
    → can_player_act s (player_at s j) ≡ true
    → let t = advance_to_next_player s in
      can_player_act t (player_at t t.current_player_index) ≡ true
unfolding advance_to_next_player find_next_active_player
advance-acts s j lt current other acts =
    let n = length s.players in
    let cur = s.current_player_index in
    let some_players : (n == 0) ≡ false = ground arith in
    let step = next_index n cur current in
    rw some_players
      (next_active_loop-acts s j n ((cur + 1) % n) (ground arith) lt acts (ground arith))
