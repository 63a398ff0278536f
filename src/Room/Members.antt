-- ===== src/Room/Members.antt =====
-- The invariant of a room, and `add_player` and `start_game` of room.cpp.
use Prim.Native.String.{String}
use ascii_poker.Prelude.{
  ℕ, ◌≤◌, ◌<◌, ◌≡◌, refl, inl, inr, ◌⊎◌, Bool, true, false, List, [], ◌∷◌, ◌++◌, Option, none, some,
  length, length-append, elem, sum_of, arith, leb, ◌==◌, Option-cases, u32_max,
}
use ascii_poker.Card.{Card}
use ascii_poker.Deck.{IsShuffle}
use ascii_poker.Protocol.{ErrorCode}
use ascii_poker.GameSession.State.{GameSession, returns, ◌>>=◌}
use ascii_poker.GameSession.Phases.{start, ask_current_player, stack_of}
use ascii_poker.GameSession.Table.{Distinct, table_total}
use ascii_poker.GameSession.Outcomes.{
  NeverThrows, NeverThrows->>=, NeverThrows-if, NeverThrows-unless,
}
use ascii_poker.GameSession.Sound.{IsSound, most_players}
use ascii_poker.GameSession.Opening.{IsTable, SoundWithin}
use ascii_poker.GameSession.Hand.{start_at_table, ask_current_player-SoundWithin}
use ascii_poker.GameSession.Setup.{new_session}
use ascii_poker.Room.{
  Room, in_room, keep_session, is_game_started, notify_all_about_joined, bankroll_of,
  load_player_bankrolls, room_session, start_game, add_player,
}
use ascii_poker.Room.Bankrolls.{load_player_bankrolls_lem}

-- The session, if there is one, is sound.
abbrev pub IsPlaying : Option GameSession → Type 0
IsPlaying none = Unit
IsPlaying (some s) = IsSound s

-- The members differ, are no more than the room holds, and have the host among them; the room holds
-- at most 23; and the session, if there is one, is sound.
pub record IsRoom (r : Room) : Type 0 where
  pub distinct : Distinct r.players
  pub fits : length r.players ≤ r.max_players
  pub few : r.max_players ≤ most_players
  pub hosted : (length r.players ≡ 0) ⊎ (elem r.host r.players ≡ true)
  pub playing : IsPlaying r.game_session

pub SoundWithin-in_room :
    (r : Room) (s : GameSession) → IsSound s → SoundWithin (table_total s) (in_room r s)
SoundWithin-in_room r s h = (ground arith, omega arith)

pub IsRoom-keep_session :
    (r : Room) (s : GameSession) → IsSound s → IsRoom r → IsRoom (keep_session r s)
IsRoom-keep_session r s sound h = record {
  distinct = h.distinct;
  fits = h.fits;
  few = h.few;
  hosted = h.hosted;
  playing = sound;
}

elem-append :
    (q c : ℕ) (ps : List ℕ) → elem q ps ≡ false → (q == c) ≡ false → elem q (ps ++ c ∷ []) ≡ false
elem-append q c [] h e = ground arith
elem-append q c (p ∷ ps) h e = ground (arith, elem-append q c ps)

pub Distinct-append :
    (c : ℕ) (ps : List ℕ) → elem c ps ≡ false → Distinct ps → Distinct (ps ++ c ∷ [])
Distinct-append c [] new d = (refl, tt)
Distinct-append c (p ∷ ps) new d =
    (elem-append p c ps d.0 (ground arith), Distinct-append c ps (ground arith) d.1)

module _ (name_of : ℕ → String) (find : String → Option ℕ) where
  -- The chips that all members would bring.
  abbrev pub room_funds : Room → ℕ
  room_funds r = sum_of (bankroll_of name_of find r.has_repository) r.players

  brings :
      (r : Room) (ps : List ℕ) (bankrolls : String → Option ℕ)
      → ((p : ℕ)
          → elem p ps ≡ true
          → bankrolls (name_of p) ≡ some (bankroll_of name_of find r.has_repository p))
      → sum_of (stack_of (room_session name_of r bankrolls)) ps
        ≡ sum_of (bankroll_of name_of find r.has_repository) ps
  unfolding room_session new_session
  brings r [] bankrolls h = refl
  brings r (p ∷ ps) bankrolls h =
      let rest = brings r ps bankrolls (λ q e. h q (ground arith)) in
      ground (arith, h p (ground arith))

  room_session-IsTable :
      (r : Room) (bankrolls : String → Option ℕ)
      → 0 < length r.players
      → sum_of (stack_of (room_session name_of r bankrolls)) r.players < u32_max
      → IsRoom r
      → IsTable (room_session name_of r bankrolls)
  unfolding room_session new_session
  room_session-IsTable r bankrolls some_member funded h =
      let few = h.few in
      let fits = h.fits in
      record {
        distinct = h.distinct;
        funded = funded;
        nonempty = some_member;
        few = omega arith;
        dealer = some_member;
        current = some_member;
      }

  module _ (shuffle : ℕ → List Card → List Card) (perm : IsShuffle shuffle) (fuel : ℕ) where
    -- A start throws nothing.
    pub start_game-IsRoom :
        (r : Room)
        → 0 < length r.players
        → room_funds r < u32_max
        → IsRoom r
        → NeverThrows
            (λ (done : Room × Option ErrorCode). IsRoom done.0)
            (start_game name_of find shuffle fuel r)
    unfolding start_game
    start_game-IsRoom r some_member funded h = elim (Option-cases r.game_session) [
      | inr (s, e) ↦ rw (e, start_game) h
      | inl e ↦
          elim (Option-cases
            (load_player_bankrolls name_of find r.has_repository r.players (λ n. none))) [
              | inl poor ↦ rw (e, poor, start_game) h
              | inr (bankrolls, rich) ↦ rw (e, rich, start_game) (begins bankrolls rich)
            ]
    ]
      where
        begins :
            (bankrolls : String → Option ℕ)
            → load_player_bankrolls name_of find r.has_repository r.players (λ n. none)
              ≡ some bankrolls
            → NeverThrows
                (λ (done : Room × Option ErrorCode). IsRoom done.0)
                (start shuffle (ask_current_player shuffle fuel) (room_session name_of r bankrolls)
                  >>= λ s. returns (keep_session r s, none))
        begins bankrolls rich =
            let funds = room_funds r in
            let total = brings r r.players bankrolls (λ p e.
              (load_player_bankrolls_lem name_of find r.has_repository r.players (λ n. none)
                bankrolls p rich e).0) in
            let table = room_session-IsTable r bankrolls some_member (omega arith) h in
            NeverThrows->>= (SoundWithin funds) (λ (done : Room × Option ErrorCode). IsRoom done.0)
              (start shuffle (ask_current_player shuffle fuel) (room_session name_of r bankrolls)) _
              (start_at_table shuffle perm (ask_current_player shuffle fuel)
                (ask_current_player-SoundWithin shuffle perm fuel) funds
                (room_session name_of r bankrolls) table (omega arith))
              (λ s sound. IsRoom-keep_session r s sound.0 h)

    -- A member is added to a room with a place left: the message changes nothing of the room.
    joined-IsRoom :
        (c : ℕ) (r : Room)
        → elem c r.players ≡ false
        → elem r.host (r.players ++ c ∷ []) ≡ true
        → length r.players < r.max_players
        → IsRoom r
        → IsRoom (notify_all_about_joined name_of (record r { players = r.players ++ c ∷ [] }))
    unfolding notify_all_about_joined
    joined-IsRoom c r new host room h = record {
      distinct = Distinct-append c r.players new h.distinct;
      fits = omega (arith, length-append r.players (c ∷ []));
      few = h.few;
      hosted = inr host;
      playing = h.playing;
    }

    -- With a shuffle that permutes the cards: when a connection that is no member joins a room with
    -- the invariant, the host is among the members with it, and the chips of all these add up to
    -- less than 2^32 - 1, nothing is thrown, whatever the fuel for a game that starts; and a room
    -- that the call returns has the invariant.
    pub add_player-IsRoom :
        (c : ℕ) (r : Room)
        → elem c r.players ≡ false
        → elem r.host (r.players ++ c ∷ []) ≡ true
        → room_funds (record r { players = r.players ++ c ∷ [] }) < u32_max
        → IsRoom r
        → NeverThrows
            (λ (done : Room × Bool). IsRoom done.0)
            (add_player name_of find shuffle fuel c r)
    unfolding add_player notify_all_about_joined
    add_player-IsRoom c r new host funded h =
        let joined = notify_all_about_joined name_of (record r { players = r.players ++ c ∷ [] }) in
        let done_room = λ (done : Room × Bool). IsRoom done.0 in
        let size = length-append r.players (c ∷ []) in
        NeverThrows-if done_room (is_game_started r) (returns (r, false)) _ h (
          NeverThrows-unless done_room (leb r.max_players (length r.players)) (returns (r, false)) _
            h
            λ room.
              let kept = joined-IsRoom c r new host (ground arith) h in
              NeverThrows-if done_room (length joined.players == r.max_players) _
                (returns (joined, true))
                (NeverThrows->>= (λ (done : Room × Option ErrorCode). IsRoom done.0) done_room
                  (start_game name_of find shuffle fuel joined) _
                  (start_game-IsRoom joined (omega arith) funded kept) (λ done k. k))
                kept)
