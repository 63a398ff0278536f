-- ===== src/GameSession/Winners.antt =====
-- Whom `find_winners_among` finds.
use ascii_poker.Prelude.{
  ℕ, ◌<◌, ◌≡◌, Bool, true, false, ◌||◌, List, [], ◌∷◌, ◌++◌, length, elem, All, arith, leb,
  if◌then◌else◌,
}
use ascii_poker.HandEvaluator.{HandValue, value_gt, value_eq, evaluate_best, no_value}
use ascii_poker.GameSession.State.{GameSession}
use ascii_poker.GameSession.Award.{cards_of, winners_loop, find_winners_among}
use ascii_poker.GameSession.Outcomes.{Returns, Returns->>=}
use ascii_poker.GameSession.Seated.{All_elem}
use ascii_poker.GameSession.Payment.{InTable}
use ascii_poker.GameSession.Seated.{is_some}

-- Winners that sit at the table.
abbrev pub AreWinners : GameSession → List ℕ → Type 0
AreWinners s ws = InTable s ws × (0 < length ws)

InTable-append :
    (s : GameSession) (ws : List ℕ) (p : ℕ)
    → InTable s ws
    → elem p s.players ≡ true
    → InTable s (ws ++ p ∷ [])
InTable-append s [] p h e = (e, tt)
InTable-append s (w ∷ ws) p h e = (h.0, InTable-append s ws p h.1 e)

length-append-pos : (ws : List ℕ) (p : ℕ) → 0 < length (ws ++ p ∷ [])
length-append-pos [] p = omega arith
length-append-pos (w ∷ ws) p = omega arith

-- Every player at the table has a hand.
abbrev pub HaveHands : GameSession → GameSession → Type 0
HaveHands s t = All (λ p. is_some (t.hands p) ≡ true) s.players

module _ (s t : GameSession) (hands : HaveHands s t) where
  cards_of-Returns : (p : ℕ) → elem p s.players ≡ true → Returns (λ _. Unit {0}) (cards_of t p)
  unfolding cards_of
  cards_of-Returns p here =
      let has = All_elem (λ q. is_some (t.hands q) ≡ true) s.players p here hands in ground arith

  winners_loop-AreWinners :
      (best : HandValue) (ws ps : List ℕ)
      → InTable s ps
      → AreWinners s ws
      → Returns (AreWinners s) (winners_loop t best ws ps)
  unfolding winners_loop
  winners_loop-AreWinners best ws [] ps_here h = h
  winners_loop-AreWinners best ws (p ∷ ps) ps_here h =
      Returns->>= (λ _. Unit {0}) (AreWinners s) (cards_of t p) _ (cards_of-Returns p ps_here.0)
        λ cards _.
          let value = evaluate_best cards in
          let better = leb (length ws) 0 || value_gt value best in
          winners_loop-AreWinners (if better then value else best)
            (if better then p ∷ [] else if value_eq value best then ws ++ p ∷ [] else ws) ps
            ps_here.1 (keeps better (value_eq value best))
    where
      keeps :
          (better tied : Bool)
          → AreWinners s (if better then p ∷ [] else if tied then ws ++ p ∷ [] else ws)
      keeps true tied = ((ps_here.0, tt), omega arith)
      keeps false true = (InTable-append s ws p h.0 ps_here.0, length-append-pos ws p)
      keeps false false = h

  winners_loop_first :
      (p : ℕ) (ps : List ℕ)
      → InTable s (p ∷ ps)
      → Returns (AreWinners s) (winners_loop t no_value [] (p ∷ ps))
  unfolding winners_loop
  winners_loop_first p ps here =
      Returns->>= (λ _. Unit {0}) (AreWinners s) (cards_of t p) _ (cards_of-Returns p here.0)
        (λ cards _.
          winners_loop-AreWinners (evaluate_best cards) (p ∷ []) ps here.1
            ((here.0, tt), omega arith))

  pub find_winners_among-AreWinners :
      (p : ℕ) (ps : List ℕ)
      → InTable s (p ∷ ps)
      → Returns (AreWinners s) (find_winners_among t (p ∷ ps))
  unfolding find_winners_among
  find_winners_among-AreWinners p [] here = (here, omega arith)
  find_winners_among-AreWinners p (q ∷ qs) here = winners_loop_first p (q ∷ qs) here
