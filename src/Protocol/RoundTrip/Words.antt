-- ===== src/Protocol/RoundTrip/Words.antt =====
-- Cards, actions, phases and amounts, read back.
use Prim.Native.String.{String}
use native.Mathlib.Nat.{mod-eq_of_lt}
use ascii_poker.Prelude.{ℕ, ◌≡◌, refl, ap, Option, none, some, List, map}
use ascii_poker.Card.{Suit, clubs, diamonds, hearts, spades, Rank, two, Card}
use ascii_poker.Protocol.{
  Action, fold, check, call, raise, GamePhase, pre_flop, flop, turn, river, showdown,
}
use ascii_poker.Protocol.Json.{
  JsonLibrary, optional_number, optional_amount, read_all-map_total, get_vector,
}
use ascii_poker.Protocol.Words.{
  codes, card_to_string, card_from_codes, card_to_json, card_from_json, cards_from_json,
  action_name, action_from_json, phase_name, phase_from_json,
}
use ascii_poker.Protocol.Fits.{AmountFits}

card_from_codes-card_to_string :
    (s : Suit) (r : Rank)
    → card_from_codes (codes (card_to_string (record { suit = s; rank = r })))
      ≡ some (record { suit = s; rank = r })
unfolding card_from_codes card_to_string
card_from_codes-card_to_string clubs two = refl
card_from_codes-card_to_string clubs _ = refl
card_from_codes-card_to_string diamonds two = refl
card_from_codes-card_to_string diamonds _ = refl
card_from_codes-card_to_string hearts two = refl
card_from_codes-card_to_string hearts _ = refl
card_from_codes-card_to_string spades two = refl
card_from_codes-card_to_string spades _ = refl

module _ (library : JsonLibrary) where
  open library use {
    Json, at, string, array, get_string, elements-array, get_items-array, at-object, set_key-object,
    set_key-null, get_string-string, get_word-number, is_null-null, is_null-number,
  }

  pub action_round : (a : Action) → action_from_json library (string (action_name a)) ≡ a
  unfolding action_from_json
  action_round fold = simp (action_from_json, get_string-string)
  action_round check = simp (action_from_json, get_string-string)
  action_round call = simp (action_from_json, get_string-string)
  action_round raise = simp (action_from_json, get_string-string)

  pub amount_round :
      (n : Option ℕ) (j : Json)
      → AmountFits n
      → at "amount" j ≡ some (optional_number library n)
      → optional_amount library j ≡ some n
  unfolding AmountFits
  amount_round none j h e = simp (optional_amount, e, is_null-null)
  amount_round (some n) j h e =
      simp (optional_amount, e, is_null-number, get_word-number, mod-eq_of_lt)

  pub actions_round :
      (actions : List Action)
      → get_vector library
          (λ v. some (action_from_json library v))
          (array (map (λ a. string (action_name a)) actions))
        ≡ some actions
  actions_round actions = simp (
    get_vector,
    get_items-array,
    read_all-map_total (λ v. some (action_from_json library v)) (λ a. string (action_name a))
        (λ a. ap some (action_round a)),
  )

  pub phase_round : (p : GamePhase) → phase_from_json library (string (phase_name p)) ≡ p
  unfolding phase_from_json
  phase_round pre_flop = simp (phase_from_json, get_string-string)
  phase_round flop = simp (phase_from_json, get_string-string)
  phase_round turn = simp (phase_from_json, get_string-string)
  phase_round river = simp (phase_from_json, get_string-string)
  phase_round showdown = simp (phase_from_json, get_string-string)

  -- A card is read back from its JSON form.
  pub card_from_json-card_to_json :
      (c : Card) → card_from_json library (card_to_json library c) ≡ some c
  unfolding card_from_json card_to_json
  card_from_json-card_to_json c =
      simp (get_string-string) (card_from_codes-card_to_string c.suit c.rank)

  pub cards_round :
      (cs : List Card) → cards_from_json library (array (map (card_to_json library) cs)) ≡ some cs
  unfolding cards_from_json
  cards_round cs = simp (
    elements-array,
    read_all-map_total (card_from_json library) (card_to_json library) card_from_json-card_to_json,
  )

  pub strings_round :
      (ss : List String) → get_vector library get_string (array (map string ss)) ≡ some ss
  strings_round ss =
      simp (get_vector, get_items-array, read_all-map_total get_string string get_string-string)
