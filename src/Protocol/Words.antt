-- ===== src/Protocol/Words.antt =====
-- Actions, phases and cards as JSON: common/include/poker/protocol.h and card.h.
use Prim.Native.Char.{code}
use Prim.Native.String.{String, ◌++◌}
use text.Mathlib.Text.{◌==◌ as str_eq}
use ascii_poker.Prelude.{ℕ, List, [], ◌∷◌, Option, none, some, ◌==◌, if◌then◌else◌}
use ascii_poker.Card.{
  Suit, clubs, diamonds, hearts, spades, Rank, two, three, four, five, six, seven, eight, nine, ten,
  jack, queen, king, ace, Card,
}
use ascii_poker.Protocol.{
  Action, fold, check, call, raise, GamePhase, pre_flop, flop, turn, river, showdown,
}
use ascii_poker.Protocol.Json.{JsonLibrary, ◌>>=◌, read_all}

-- The code points of a text: its bytes, if it is ASCII.
abbrev pub codes : String → List ℕ
codes String.[] = []
codes (String.◌∷◌ c s) = code c ∷ codes s

abbrev pub suit_symbol : Suit → String
suit_symbol clubs = "C"
suit_symbol diamonds = "D"
suit_symbol hearts = "H"
suit_symbol spades = "S"

abbrev pub rank_symbol : Rank → String
rank_symbol two = "2"
rank_symbol three = "3"
rank_symbol four = "4"
rank_symbol five = "5"
rank_symbol six = "6"
rank_symbol seven = "7"
rank_symbol eight = "8"
rank_symbol nine = "9"
rank_symbol ten = "10"
rank_symbol jack = "J"
rank_symbol queen = "Q"
rank_symbol king = "K"
rank_symbol ace = "A"

-- `Card::to_string`.
unfoldable pub card_to_string : Card → String
card_to_string c = rank_symbol c.rank ++ suit_symbol c.suit

-- The `switch` on the last character.
abbrev pub suit_from_code : ℕ → Option Suit
suit_from_code c =
    if c == b'C'
    then some clubs
    else if c == b'D'
    then some diamonds
    else if c == b'H'
    then some hearts
    else if c == b'S'
    then some spades
    else none

-- The `switch` on a rank of one character.
unfoldable pub rank_from_code : ℕ → Option Rank
rank_from_code c =
    if c == b'2'
    then some two
    else if c == b'3'
    then some three
    else if c == b'4'
    then some four
    else if c == b'5'
    then some five
    else if c == b'6'
    then some six
    else if c == b'7'
    then some seven
    else if c == b'8'
    then some eight
    else if c == b'9'
    then some nine
    else if c == b'J'
    then some jack
    else if c == b'Q'
    then some queen
    else if c == b'K'
    then some king
    else if c == b'A'
    then some ace
    else none

-- The rank before the last character: one character, or `10`.
unfoldable pub rank_from_codes : List ℕ → Option Rank
unfolding rank_from_code
rank_from_codes [] = none
rank_from_codes (c ∷ []) = rank_from_code c
rank_from_codes (c ∷ d ∷ []) = if c == b'1' then (if d == b'0' then some ten else none) else none
rank_from_codes (c ∷ d ∷ e ∷ cs) = none

-- A non-empty list as what is before its last element, and that.
abbrev pub split_last : ℕ → List ℕ → List ℕ × ℕ
split_last c [] = ([], c)
split_last c (d ∷ cs) = let (before, last) = split_last d cs in (c ∷ before, last)

-- The text of `from_json` for a card; `none` stands for its exceptions.
unfoldable pub card_from_codes : List ℕ → Option Card
unfolding rank_from_codes
card_from_codes [] = none
card_from_codes (c ∷ []) = none
card_from_codes (c ∷ d ∷ cs) =
    let (before, last) = split_last c (d ∷ cs) in
    suit_from_code last >>= λ s.
    rank_from_codes before >>= λ r. some (record { suit = s; rank = r })

-- The names that `NLOHMANN_JSON_SERIALIZE_ENUM` gives the actions and the phases.
abbrev pub action_name : Action → String
action_name fold = "fold"
action_name check = "check"
action_name call = "call"
action_name raise = "raise"

abbrev pub phase_name : GamePhase → String
phase_name pre_flop = "preflop"
phase_name flop = "flop"
phase_name turn = "turn"
phase_name river = "river"
phase_name showdown = "showdown"

-- A value that is none of the names is read as the first of the enumeration.
abbrev pub action_named : String → Action
action_named s =
    if str_eq s "fold"
    then fold
    else if str_eq s "check"
    then check
    else if str_eq s "call"
    then call
    else if str_eq s "raise"
    then raise
    else fold

abbrev pub phase_named : String → GamePhase
phase_named s =
    if str_eq s "preflop"
    then pre_flop
    else if str_eq s "flop"
    then flop
    else if str_eq s "turn"
    then turn
    else if str_eq s "river"
    then river
    else if str_eq s "showdown"
    then showdown
    else pre_flop

module _ (library : JsonLibrary) where
  open library use {Json, string, array, get_string, elements, get_string-string, elements-array}

  unfoldable pub card_to_json : Card → Json
  unfolding card_to_string
  card_to_json c = string (card_to_string c)

  unfoldable pub card_from_json : Json → Option Card
  unfolding card_from_codes
  card_from_json j = get_string j >>= λ s. card_from_codes (codes s)

  -- `from_json` for a vector of cards.
  unfoldable pub cards_from_json : Json → Option (List Card)
  unfolding card_from_json
  cards_from_json j = read_all card_from_json (elements j)

  unfoldable pub action_from_json : Json → Action
  action_from_json j = elim (get_string j) [ none ↦ fold | some s ↦ action_named s ]

  unfoldable pub phase_from_json : Json → GamePhase
  phase_from_json j = elim (get_string j) [ none ↦ pre_flop | some s ↦ phase_named s ]
