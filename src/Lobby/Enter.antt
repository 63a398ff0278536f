-- ===== src/Lobby/Enter.antt =====
-- What entering a room changes: the ends of `create_room` and `join_room` of lobby.cpp.
use Prim.Native.String.{String}
use ascii_poker.Prelude.{
  ℕ, ◌*◌, ◌≤◌, ◌<◌, ◌≡◌, refl, sym, ap, ◌∙◌, subst, ◌↔◌, ◌⊎◌, Bool, true, false, List, [], ◌∷◌,
  ◌++◌, Option, none, some, length, length-append, elem, sum_of, arith, Map, ◌==◌, if◌then◌else◌,
  ==_iff, Bool-cases, inl, inr, u32_max,
}
use ascii_poker.GameSession.Table.{Distinct}
use ascii_poker.GameSession.Sound.{most_players}
use ascii_poker.Room.{Room, bankroll_of}
use ascii_poker.Room.Members.{IsRoom, room_funds}
use ascii_poker.Room.Roster.{IsRoster}
use ascii_poker.Lobby.{Lobby, room_of, enter, keep_room}
use ascii_poker.Lobby.Lookup.{ids, room_of-changed, fresh-put_room, ids-put_room, enter_lem}
use ascii_poker.Lobby.Invariant.{IsLobby, change-IsLobby}

elem-append_last :
    (q c : ℕ) (ps : List ℕ)
    → (elem q (ps ++ (c ∷ [])) ≡ true) ↔ ((elem q ps ≡ true) ⊎ ((q == c) ≡ true))
elem-append_last q c [] = ground arith
elem-append_last q c (p ∷ ps) = ground (arith, elem-append_last q c ps)

entry_iff :
    (b x y : Bool) (e o : Option ℕ) (k : ℕ)
    → e ≡ (if b then some k else o)
    → (y ≡ true) ↔ ((x ≡ true) ⊎ (b ≡ true))
    → (o ≡ some k) ↔ (x ≡ true)
    → (e ≡ some k) ↔ (y ≡ true)
entry_iff true x y e o k h ends before = ground arith
entry_iff false x y e o k h ends before = ground arith

other_iff :
    (b : Bool) (e o : Option ℕ) (k id : ℕ)
    → e ≡ (if b then some k else o)
    → (b ≡ true → o ≡ none)
    → (id == k) ≡ false
    → (e ≡ some id) ↔ (o ≡ some id)
other_iff true e o k id h out differs = ground (arith, out refl)
other_iff false e o k id h out differs = ground arith

-- The map with a new entry agrees with the members and the one who enters.
module _ (c k : ℕ) (m : Map ℕ) (out : m c ≡ none) where
  pub enter_members :
      (ps : List ℕ)
      → ((q : ℕ) → (m q ≡ some k) ↔ (elem q ps ≡ true))
      → (q : ℕ) → (enter c k m q ≡ some k) ↔ (elem q (ps ++ (c ∷ [])) ≡ true)
  enter_members ps before q =
      entry_iff (q == c) (elem q ps) (elem q (ps ++ (c ∷ []))) (enter c k m q) (m q) k
        (enter_lem c k m q out) (elem-append_last q c ps) (before q)

  pub enter_others : (q id : ℕ) → (id == k) ≡ false → (enter c k m q ≡ some id) ↔ (m q ≡ some id)
  enter_others q id differs =
      other_iff (q == c) (enter c k m q) (m q) k id (enter_lem c k m q out)
        (λ same. ap m ((==_iff q c).0 same) ∙ out) differs

-- A room where the one who enters has become the last member.
module _ (c : ℕ) (l listed : Lobby) (r joined : Room) (h : IsLobby l)
    (distinct : Distinct (ids listed.rooms))
    (fresh : (id : ℕ) → listed.next_room_id ≤ id → room_of id listed.rooms ≡ none)
    (there : room_of r.id listed.rooms ≡ some r)
    (others : (id : ℕ) → (id == r.id) ≡ false → room_of id listed.rooms ≡ room_of id l.rooms)
    (out : l.player_rooms c ≡ none)
    (before : (q : ℕ) → (l.player_rooms q ≡ some r.id) ↔ (elem q r.players ≡ true))
    (room : IsRoom joined) (roster : IsRoster r (r.players ++ (c ∷ [])) joined) where
  abbrev pub entered : Lobby
  entered = record (keep_room listed joined) { player_rooms = enter c r.id l.player_rooms }

  pub entered-IsLobby : IsLobby entered
  unfolding keep_room
  entered-IsLobby =
      change-IsLobby l entered r.id (some joined) h
        (subst Distinct (sym (ids-put_room joined listed.rooms)) distinct)
        (λ id k. fresh-put_room id joined listed.rooms (fresh id k))
        (λ id. room_of-changed r joined listed.rooms roster.0 there id ∙ unchanged id)
        (room, nonempty)
        (λ q.
          subst (λ ps. (enter c r.id l.player_rooms q ≡ some r.id) ↔ (elem q ps ≡ true))
            (sym roster.1) (enter_members c r.id l.player_rooms out r.players before q))
        (enter_others c r.id l.player_rooms out)
    where
      unchanged :
          (id : ℕ)
          → (if id == r.id then some joined else room_of id listed.rooms)
            ≡ (if id == r.id then some joined else room_of id l.rooms)
      unchanged id = elim (Bool-cases (id == r.id)) [
        | inl same ↦ rw same refl
        | inr differs ↦ rw differs (others id differs)
      ]

      nonempty : 0 < length joined.players
      nonempty =
          let size = ap length roster.1 in omega (arith, size, length-append r.players (c ∷ []))

  pub entered_map :
      (entered.player_rooms c ≡ some r.id)
      × ((q : ℕ) → (q == c) ≡ false → entered.player_rooms q ≡ l.player_rooms q)
  entered_map = (
    enter_lem c r.id l.player_rooms c out ∙ rw ((==_iff c c).1 refl) refl,
    λ q differs. enter_lem c r.id l.player_rooms q out ∙ rw differs refl,
  )

module _ (name_of : ℕ → String) (find : String → Option ℕ) where
  -- No account has more than 2^27 chips: a table of them fits a uint32_t.
  abbrev pub Moderate : Type 0
  Moderate = (has : Bool) (c : ℕ) → bankroll_of name_of find has c ≤ 134217728

  sum_of-moderate :
      (has : Bool)
      → Moderate
      → (ps : List ℕ) → sum_of (bankroll_of name_of find has) ps ≤ length ps * 134217728
  sum_of-moderate has h [] = omega arith
  sum_of-moderate has h (p ∷ ps) = omega (arith, h has p, sum_of-moderate has h ps)

  pub room_funds-moderate :
      (r : Room) → Moderate → length r.players ≤ most_players → room_funds name_of find r < u32_max
  room_funds-moderate r h few = omega (arith, sum_of-moderate r.has_repository h r.players)
