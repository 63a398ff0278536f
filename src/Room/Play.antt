-- ===== src/Room/Play.antt =====
-- The game in a room: `on_player_action` and `remove_player` of room.cpp.
use Prim.Native.String.{String}
use ascii_poker.Prelude.{
  ℕ, zero, suc, ◌≡◌, ◌≢◌, refl, subst, inl, inr, ◌⊎◌, Bool, true, false, not, ◌&&◌, List, [], ◌∷◌,
  Option, none, some, length, elem, get_or, arith, ◌==◌, if◌then◌else◌, if_elim, Bool-cases,
  Option-cases, ℕ_discrete,
}
use ascii_poker.Card.{Card}
use ascii_poker.Deck.{IsShuffle}
use ascii_poker.Protocol.{Action}
use ascii_poker.GameSession.State.{GameSession}
use ascii_poker.GameSession.Seats.{has_enough_players}
use ascii_poker.GameSession.Moves.{index_of, erase_at, apply_action}
use ascii_poker.GameSession.Moves
use ascii_poker.GameSession.Table.{table_total}
use ascii_poker.GameSession.Outcomes.{NeverThrows, NeverThrows->>=}
use ascii_poker.GameSession.Seated.{elem-get_or}
use ascii_poker.GameSession.Sound.{IsSound}
use ascii_poker.GameSession.Opening.{SoundWithin}
use ascii_poker.GameSession.Turns.{apply_action-SoundWithin}
use ascii_poker.GameSession.Removal.{index_of_lem, Distinct-erase_at}
use ascii_poker.GameSession.Leaving.{EmptyOrSound, remove_player-EmptyOrSound}
use ascii_poker.Room.{
  Room, in_room, keep_session, notify_all_about_joined, on_player_action, leave_session,
  leave_members, remove_player,
}
use ascii_poker.Room.Members.{IsRoom, IsPlaying, SoundWithin-in_room, IsRoom-keep_session}

pub still_elem :
    (q c : ℕ) (ps : List ℕ) (i : ℕ)
    → index_of c ps ≡ some i
    → (q == c) ≡ false
    → elem q ps ≡ true
    → elem q (erase_at i ps) ≡ true
still_elem q c [] i e other here = absurd (cc)
still_elem q c (p ∷ ps) i e other here = elim (ℕ_discrete p c) [
  | yes same ↦
      let first : zero ≡ i = ground arith in
      subst (λ k. elem q (erase_at k (p ∷ ps)) ≡ true) first (ground arith)
  | no differs ↦ elim (Option-cases (index_of c ps)) [
    | inl gone ↦ absurd (ground arith)
    | inr (j, found) ↦
        let later : suc j ≡ i = ground arith in
        let rest = still_elem q c ps j found other in
        subst (λ k. elem q (erase_at k (p ∷ ps)) ≡ true) later (ground arith)
  ]
]

-- The host who stays, or the first member when the host leaves, is a member.
next_host :
    (c index : ℕ) (r : Room)
    → index_of c r.players ≡ some index
    → IsRoom r
    → let ps = erase_at index r.players in
      let host = (if c == r.host && not (length ps == 0) then get_or ps 0 0 else r.host) in
      (length ps ≡ 0) ⊎ (elem host ps ≡ true)
next_host c index r found h =
    let ps = erase_at index r.players in
    elim (ℕ_discrete (length ps) 0) [
      | yes empty ↦ inl empty
      | no some_left ↦
          let left : (length ps == 0) ≡ false = ground arith in
          elim (Bool-cases (c == r.host)) [
            | inl leaves ↦ inr (rw (left, leaves) (elem-get_or ps 0 (omega arith)))
            | inr stays ↦ inr (rw (left, stays) (host_left stays h.hosted some_left))
          ]
    ]
  where
    host_left :
        (c == r.host) ≡ false
        → (length r.players ≡ 0) ⊎ (elem r.host r.players ≡ true)
        → length (erase_at index r.players) ≢ 0
        → elem r.host (erase_at index r.players) ≡ true
    host_left stays (inl nobody) some_left =
        let (gone, size) = index_of_lem c r.players index h.distinct found in absurd (omega arith)
    host_left stays (inr here) some_left =
        still_elem r.host c r.players index found (ground arith) here

module _ (name_of : ℕ → String) where
  leave_members-IsRoom :
      (c index : ℕ) (r : Room)
      → index_of c r.players ≡ some index
      → IsRoom r
      → IsRoom (leave_members name_of c index r)
  unfolding leave_members notify_all_about_joined
  leave_members-IsRoom c index r found h =
      let ps = erase_at index r.players in
      let (gone, size) = index_of_lem c r.players index h.distinct found in
      let fits = h.fits in
      let host = (if c == r.host && not (length ps == 0) then get_or ps 0 0 else r.host) in
      let left = record r { players = ps; host = host } in
      let hosted : (length ps ≡ 0) ⊎ (elem host ps ≡ true) = next_host c index r found h in
      let kept : IsRoom left = record {
        distinct = Distinct-erase_at index r.players h.distinct;
        fits = omega arith;
        few = h.few;
        hosted = hosted;
        playing = h.playing;
      } in
      let sent : IsRoom (notify_all_about_joined name_of left) = record {
        distinct = kept.distinct;
        fits = kept.fits;
        few = h.few;
        hosted = hosted;
        playing = h.playing;
      } in
      if_elim IsRoom (length ps == 0) kept sent

module _ (shuffle : ℕ → List Card → List Card) (perm : IsShuffle shuffle) (fuel : ℕ) where
  -- With a shuffle that permutes the cards: an action in a room with the invariant throws nothing,
  -- whatever the fuel; and a room that the call returns has the invariant.
  pub on_player_action-IsRoom :
      (c : ℕ) (action : Action) (amount : Option ℕ) (r : Room)
      → IsRoom r
      → NeverThrows IsRoom (on_player_action shuffle fuel c action amount r)
  unfolding on_player_action
  on_player_action-IsRoom c action amount r h = elim (Option-cases r.game_session) [
    | inl e ↦ rw (e, on_player_action) h
    | inr (s, e) ↦
        let sound : IsSound s = subst IsPlaying e h.playing in
        rw (e, on_player_action)
          (NeverThrows->>= (SoundWithin (table_total s)) IsRoom
            (apply_action shuffle fuel c action amount (in_room r s)) _
            (apply_action-SoundWithin shuffle perm fuel (table_total s) c action amount
              (in_room r s) (SoundWithin-in_room r s sound))
            (λ s' k. IsRoom-keep_session r s' k.0 h))
  ]

  leave_session-IsRoom :
      (c : ℕ) (r : Room)
      → IsRoom r
      → NeverThrows (λ t. IsRoom t × (t.players ≡ r.players)) (leave_session shuffle fuel c r)
  unfolding leave_session
  leave_session-IsRoom c r h = elim (Option-cases r.game_session) [
    | inl e ↦ rw (e, leave_session) (h, refl)
    | inr (s, e) ↦
        let sound : IsSound s = subst IsPlaying e h.playing in
        rw (e, leave_session)
          (NeverThrows->>= (EmptyOrSound (table_total s)) (λ t. IsRoom t × (t.players ≡ r.players))
            (Moves.remove_player shuffle fuel c (in_room r s)) _
            (remove_player-EmptyOrSound shuffle perm fuel (table_total s) c (in_room r s)
              (SoundWithin-in_room r s sound))
            (λ s' left. kept (table_total s) s' left))
  ]
    where
      kept :
          (n : ℕ) (s' : GameSession)
          → EmptyOrSound n s'
          → let k = keep_session r s' in
            let t = (if has_enough_players s' then k else record k { game_session = none }) in
            IsRoom t × (t.players ≡ r.players)
      kept n s' (inl empty) =
          let few : has_enough_players s' ≡ false = ground arith in
          rw few (
            record {
              distinct = h.distinct;
              fits = h.fits;
              few = h.few;
              hosted = h.hosted;
              playing = tt;
            },
            refl,
          )
      kept n s' (inr (sound, le)) =
          if_elim (λ (t : Room). IsRoom t × (t.players ≡ r.players)) (has_enough_players s')
            (IsRoom-keep_session r s' sound h, refl)
            (
              record {
                distinct = h.distinct;
                fits = h.fits;
                few = h.few;
                hosted = h.hosted;
                playing = tt;
              },
              refl,
            )

  module _ (name_of : ℕ → String) where
    -- With a shuffle that permutes the cards: when a connection leaves a room with the invariant,
    -- nothing is thrown, whatever the fuel; and a room that the call returns has the invariant.
    pub remove_player-IsRoom :
        (c : ℕ) (r : Room)
        → IsRoom r
        → NeverThrows
            (λ (done : Room × Bool). IsRoom done.0)
            (remove_player shuffle fuel name_of c r)
    unfolding remove_player
    remove_player-IsRoom c r h = elim (Option-cases (index_of c r.players)) [
      | inl e ↦ rw (e, remove_player) h
      | inr (index, e) ↦
          rw (e, remove_player)
            (NeverThrows->>= (λ t. IsRoom t × (t.players ≡ r.players))
              (λ (done : Room × Bool). IsRoom done.0) (leave_session shuffle fuel c r) _
              (leave_session-IsRoom c r h)
              (λ t (k, same). leave_members-IsRoom name_of c index t (rw same e) k))
    ]
