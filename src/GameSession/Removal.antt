-- ===== src/GameSession/Removal.antt =====
-- What is left of a session when a player is erased from it.
use ascii_poker.Prelude.{
  ℕ, zero, suc, ◌+◌, ◌≤◌, ◌<◌, ◌≡◌, refl, subst, inl, inr, true, false, List, [], ◌∷◌, none, some,
  length, elem, All, arith, ◌==◌, Bool-cases, Option-cases, at_key, assign, Map, ℕ_discrete,
}
use ascii_poker.GameSession.State.{GameSession}
use ascii_poker.GameSession.Chips.{persist_player_chips}
use ascii_poker.GameSession.Moves.{index_of, erase_at, index_after_removal}
use ascii_poker.GameSession.Table.{Distinct, sum_at}
use ascii_poker.GameSession.Seated.{HasSeat, IsSeated, All_elem}
use ascii_poker.GameSession.NewHand.{assign_other}
use ascii_poker.GameSession.Opening.{SoundWithin, All-intro}

elem-erase_at : (i q : ℕ) (ps : List ℕ) → elem q (erase_at i ps) ≡ true → elem q ps ≡ true
elem-erase_at i q [] h = absurd (cc)
elem-erase_at zero q (p ∷ ps) h = ground arith
elem-erase_at (suc i) q (p ∷ ps) h = ground (arith, elem-erase_at i q ps)

not_elem-erase_at : (i q : ℕ) (ps : List ℕ) → elem q ps ≡ false → elem q (erase_at i ps) ≡ false
not_elem-erase_at i q [] h = refl
not_elem-erase_at zero q (p ∷ ps) h = ground arith
not_elem-erase_at (suc i) q (p ∷ ps) h = ground (arith, not_elem-erase_at i q ps)

pub Distinct-erase_at : (i : ℕ) (ps : List ℕ) → Distinct ps → Distinct (erase_at i ps)
Distinct-erase_at i [] d = tt
Distinct-erase_at zero (p ∷ ps) d = d.1
Distinct-erase_at (suc i) (p ∷ ps) d = (not_elem-erase_at i p ps d.0, Distinct-erase_at i ps d.1)

sum_at-erase_at : (m : Map ℕ) (i : ℕ) (ps : List ℕ) → sum_at m (erase_at i ps) ≤ sum_at m ps
sum_at-erase_at m i [] = omega arith
sum_at-erase_at m zero (p ∷ ps) = omega arith
sum_at-erase_at m (suc i) (p ∷ ps) = omega (arith, sum_at-erase_at m i ps)

-- The player found is at the table, and once erased no more.
pub index_of_lem :
    (p : ℕ) (ps : List ℕ) (i : ℕ)
    → Distinct ps
    → index_of p ps ≡ some i
    → (elem p (erase_at i ps) ≡ false) × (length (erase_at i ps) + 1 ≡ length ps)
index_of_lem p [] i d e = absurd (cc)
index_of_lem p (q ∷ qs) i d e = elim (ℕ_discrete q p) [
  | yes same ↦
      let first : zero ≡ i = ground arith in
      subst
        (λ k.
          (elem p (erase_at k (q ∷ qs)) ≡ false)
          × (length (erase_at k (q ∷ qs)) + 1 ≡ suc (length qs)))
        first (subst (λ x. elem x qs ≡ false) same d.0, omega arith)
  | no other ↦ elim (Option-cases (index_of p qs)) [
    | inl gone ↦ absurd (ground arith)
    | inr (j, found) ↦
        let later : suc j ≡ i = ground arith in
        let (out, size) = index_of_lem p qs j d.1 found in
        subst
          (λ k.
            (elem p (erase_at k (q ∷ qs)) ≡ false)
            × (length (erase_at k (q ∷ qs)) + 1 ≡ suc (length qs)))
          later (ground arith, omega arith)
  ]
]

sum_at-assign-none :
    (m : Map ℕ) (k : ℕ) (ps : List ℕ)
    → elem k ps ≡ false
    → sum_at (assign m k none) ps ≡ sum_at m ps
unfolding at_key
sum_at-assign-none m k [] h = refl
sum_at-assign-none m k (p ∷ ps) h =
    ground (arith, assign_other m k none p, sum_at-assign-none m k ps)

pub persist-players : (p : ℕ) (s : GameSession) → (persist_player_chips p s).players ≡ s.players
unfolding persist_player_chips
persist-players p s = elim (Bool-cases s.has_repository) [
  | inl yes_has ↦ elim (Option-cases (s.chips p)) [
    | inl e ↦ rw (yes_has, e) refl
    | inr (c, e) ↦ rw (yes_has, e) refl
  ]
  | inr no_has ↦ rw no_has refl
]

-- What `erase_player_state`, `erase` and `fix_indices_after_removal` make of the persisted state.
abbrev pub vacated : ℕ → ℕ → ℕ → GameSession → GameSession
vacated player connection index t =
    let players = erase_at index t.players in
    record t {
      hands = assign t.hands player none;
      chips = assign t.chips player none;
      round_bets = assign t.round_bets player none;
      total_contributed = assign t.total_contributed player none;
      folded_players = assign t.folded_players player false;
      all_in_players = assign t.all_in_players player false;
      players_acted = assign t.players_acted player false;
      connection_map = assign t.connection_map connection none;
      players = players;
      dealer_index = index_after_removal index (length players) t.dealer_index;
      current_player_index = index_after_removal index (length players) t.current_player_index;
    }

seats_of_others :
    (t : GameSession) (player index : ℕ)
    → elem player (erase_at index t.players) ≡ false
    → IsSeated t
    → All
        (HasSeat
          (assign t.chips player none)
          (assign t.round_bets player none)
          (assign t.hands player none))
        (erase_at index t.players)
seats_of_others t player index gone h = All-intro _ (erase_at index t.players) λ q here.
    let seat =
      All_elem (HasSeat t.chips t.round_bets t.hands) t.players q
        (elem-erase_at index q t.players here) h in
    let other : (q == player) ≡ false = elim (ℕ_discrete q player) [
      | yes same ↦ absurd (cc)
      | no differs ↦ ground arith
    ] in
    (
      rw (assign_other t.chips player none q other) seat.0,
      rw (assign_other t.round_bets player none q other) seat.1,
      rw (assign_other t.hands player none q other) seat.2,
    )

index_after_removal-lt :
    (removed n index : ℕ) → 0 < n → index < n + 1 → index_after_removal removed n index < n
index_after_removal-lt removed n index some_left h = ground arith

pub vacated-SoundWithin :
    (n player connection index : ℕ) (t : GameSession)
    → index_of player t.players ≡ some index
    → 0 < length (erase_at index t.players)
    → SoundWithin n t
    → SoundWithin n (vacated player connection index t)
vacated-SoundWithin n player connection index t found left (h, le) =
    let ps = erase_at index t.players in
    let (gone, size) = index_of_lem player t.players index h.balanced.distinct found in
    let few = h.few in
    let bounded = h.balanced.bounded in
    let within = h.balanced.contributed_within in
    let chips = sum_at-assign-none t.chips player ps gone in
    let put_in = sum_at-assign-none t.total_contributed player ps gone in
    let chips-le = sum_at-erase_at t.chips index t.players in
    let put_in-le = sum_at-erase_at t.total_contributed index t.players in
    let dealer = h.dealer in
    let current = h.current in
    (
      record {
        balanced = record {
          distinct = Distinct-erase_at index t.players h.balanced.distinct;
          bounded = omega arith;
          contributed_within = omega arith;
        };
        seated = seats_of_others t player index gone h.seated;
        nonempty = left;
        few = omega arith;
        dealer = index_after_removal-lt index (length ps) t.dealer_index left (omega arith);
        current =
            index_after_removal-lt index (length ps) t.current_player_index left (omega arith);
        stocked = h.stocked;
      },
      omega arith,
    )
