-- ===== src/Lobby/Leave.antt =====
-- `leave_room` of lobby.cpp.
use Prim.Native.String.{String}
use ascii_poker.Prelude.{
  ℕ, ◌<◌, ◌≡◌, refl, sym, ap, ◌∙◌, subst, ◌↔◌, Bool, true, false, List, Option, none, some, length,
  elem, arith, Map, ◌==◌, if◌then◌else◌, if_elim, if_elim_known, ==_iff, Bool-cases, Option-cases,
  inl, inr,
}
use ascii_poker.Card.{Card}
use ascii_poker.Deck.{IsShuffle}
use ascii_poker.GameSession.Moves.{index_of, erase_at}
use ascii_poker.GameSession.Table.{Distinct}
use ascii_poker.GameSession.Outcomes.{NeverThrows, NeverThrows->>=, NeverThrows-and}
use ascii_poker.Room.{Room, remove_player}
use ascii_poker.Room.Members.{IsRoom}
use ascii_poker.Room.Play.{remove_player-IsRoom}
use ascii_poker.Room.Roster.{IsRoster, remove_player-IsRoster}
use ascii_poker.Lobby.Departed.{no_member, out_already, elem-index_of, stays_iff}
use ascii_poker.Lobby.{
  Lobby, room_of, put_room, drop_room, forget, in_lobby, keep_room, broadcast_room_list, leave_room,
}
use ascii_poker.Lobby.Lookup.{
  room_of-changed, room_of-emptied, fresh-put_room, fresh-drop_room, room_of-id, ids-put_room,
  Distinct-ids-drop_room,
}
use ascii_poker.Lobby.Invariant.{
  IsRoom-in_lobby, IsLobby, IsListed, HasMember, change-IsLobby, broadcast_room_list-IsLobby,
  broadcast_room_list-same,
}

-- The lobby has the invariant, the connection is in no room, every other one is where it was, and no
-- number has been given out.
abbrev pub IsOut : ℕ → Lobby → Lobby → Type 0
IsOut c l l' =
    IsLobby l'
    × ((q : ℕ) → l'.player_rooms q ≡ (if q == c then none else l.player_rooms q))
    × (l'.next_room_id ≡ l.next_room_id)

module _ (c index : ℕ) (l : Lobby) (r room_left : Room) (h : IsLobby l)
    (there : room_of r.id l.rooms ≡ some r) (inside : l.player_rooms c ≡ some r.id)
    (found : index_of c r.players ≡ some index) (room : IsRoom room_left)
    (same : IsRoster r (erase_at index r.players) room_left) where
  IsRoom-before : IsRoom r
  IsRoom-before = (subst IsListed there (h.sound r.id)).0

  routed_before : (q : ℕ) → (l.player_rooms q ≡ some r.id) ↔ (elem q r.players ≡ true)
  routed_before q =
      subst (λ o. (l.player_rooms q ≡ some r.id) ↔ HasMember q o) there (h.routed q r.id)

  -- The map agrees with the members that stay.
  stay_routed :
      (q : ℕ) → (forget c l.player_rooms q ≡ some r.id) ↔ (elem q room_left.players ≡ true)
  unfolding forget
  stay_routed q =
      let (stays, stayed) = stays_iff c q r.players index IsRoom-before.distinct found in
      (
        λ e. (elim (Bool-cases (q == c)) [
          | inl leaves ↦ absurd (not_gone (q == c) (l.player_rooms q) leaves e)
          | inr other ↦
              subst (λ ps. elem q ps ≡ true) (sym same.1)
                (stays other ((routed_before q).0 (kept_entry (q == c) (l.player_rooms q) e)))
        ]),
        λ e.
            let (other, member) = stayed (subst (λ ps. elem q ps ≡ true) same.1 e) in
            rw other ((routed_before q).1 member),
      )
    where
      not_gone : (b : Bool) (o : Option ℕ) → b ≡ true → (if b then none else o) ≡ some r.id → ⊥
      not_gone b o t e = ground arith

      kept_entry : (b : Bool) (o : Option ℕ) → (if b then none else o) ≡ some r.id → o ≡ some r.id
      kept_entry b o e = ground arith

  -- Nothing else changes in the map.
  others_routed :
      (q id : ℕ)
      → (id == r.id) ≡ false
      → (forget c l.player_rooms q ≡ some id) ↔ (l.player_rooms q ≡ some id)
  unfolding forget
  others_routed q id differs = elim (Bool-cases (q == c)) [
    | inr other ↦ rw other ((λ e. e), (λ e. e))
    | inl leaves ↦
        let was : l.player_rooms q ≡ some r.id =
          subst (λ t. l.player_rooms t ≡ some r.id) (sym ((==_iff q c).0 leaves)) inside in
        rw leaves (
          (λ e. absurd (ground arith)),
          (λ e. absurd (two_rooms id (l.player_rooms q) differs was e)),
        )
  ]
    where
      two_rooms : (id : ℕ) (o : Option ℕ) → (id == r.id) ≡ false → o ≡ some r.id → o ≡ some id → ⊥
      two_rooms id o differs was now = ground arith

  abbrev stayed : Lobby
  stayed = record (keep_room l room_left) { player_rooms = forget c l.player_rooms }

  stayed-IsLobby : 0 < length room_left.players → IsLobby stayed
  unfolding keep_room
  stayed-IsLobby some_left =
      change-IsLobby l stayed r.id (some room_left) h
        (subst Distinct (sym (ids-put_room room_left l.rooms)) h.distinct)
        (λ id k. fresh-put_room id room_left l.rooms (h.fresh id k))
        (room_of-changed r room_left l.rooms same.0 there) (room, some_left) stay_routed
        others_routed

  emptied-IsLobby :
      length room_left.players ≡ 0
      → IsLobby (record stayed { rooms = drop_room room_left.id stayed.rooms })
  unfolding keep_room
  emptied-IsLobby empty =
      change-IsLobby l (record stayed { rooms = drop_room room_left.id stayed.rooms }) r.id none h
        (Distinct-ids-drop_room room_left.id (put_room room_left l.rooms)
          (subst Distinct (sym (ids-put_room room_left l.rooms)) h.distinct))
        (λ id k.
          fresh-drop_room id room_left.id (put_room room_left l.rooms)
            (fresh-put_room id room_left l.rooms (h.fresh id k)))
        (room_of-emptied r room_left l.rooms same.0 there) tt
        (λ q. ((λ e. no_member q room_left.players empty ((stay_routed q).0 e)), absurd))
        others_routed

  -- The lobby when the member has left.
  abbrev left : Lobby
  left =
      if length room_left.players == 0
      then record stayed { rooms = drop_room room_left.id stayed.rooms }
      else stayed

  left-IsLobby : IsLobby left
  left-IsLobby =
      if_elim_known IsLobby (length room_left.players == 0)
        (record stayed { rooms = drop_room room_left.id stayed.rooms }) stayed
        (λ e. emptied-IsLobby (ground arith)) (λ e. stayed-IsLobby (ground arith))

  left_map : (q : ℕ) → left.player_rooms q ≡ (if q == c then none else l.player_rooms q)
  unfolding forget
  left_map q =
      if_elim (λ (t : Lobby). t.player_rooms q ≡ (if q == c then none else l.player_rooms q))
        (length room_left.players == 0) refl refl

  left_next : left.next_room_id ≡ l.next_room_id
  unfolding keep_room
  left_next =
      if_elim (λ (t : Lobby). t.next_room_id ≡ l.next_room_id) (length room_left.players == 0) refl
        refl

  left-IsOut : IsOut c l (broadcast_room_list left)
  left-IsOut =
      let (map_same, next_same) = broadcast_room_list-same left in
      (
        broadcast_room_list-IsLobby left left-IsLobby,
        (λ q. ap (λ (m : Map ℕ). m q) map_same ∙ left_map q),
        next_same ∙ left_next,
      )

module _ (name_of : ℕ → String) (find : String → Option ℕ) (shuffle : ℕ → List Card → List Card)
    (perm : IsShuffle shuffle) (fuel : ℕ) where
  -- With a shuffle that permutes the cards: when a connection leaves the room that it is in, if any, in
  -- a lobby with the invariant, nothing is thrown, whatever the fuel; and when the call returns, the
  -- lobby has the invariant, the connection is in no room, every other one is in the room where it was,
  -- and the next number of a room is the same.
  pub leave_room-IsOut :
      (c : ℕ) (l : Lobby)
      → IsLobby l
      → NeverThrows (IsOut c l) (leave_room name_of find shuffle fuel c l)
  unfolding leave_room
  leave_room-IsOut c l h = elim (Option-cases (l.player_rooms c)) [
    | inl e ↦ rw (e, leave_room) (h, (λ q. out_already c l.player_rooms q e), refl)
    | inr (id, e) ↦ elim (Option-cases (room_of id l.rooms)) [
      | inl nowhere ↦ absurd (subst (HasMember c) nowhere ((h.routed c id).0 e))
      | inr (r, there) ↦
          let id_same = room_of-id id l.rooms r there in
          let inside : l.player_rooms c ≡ some r.id = e ∙ ap some (sym id_same) in
          let listed : room_of r.id l.rooms ≡ some r =
            ap (λ (k : ℕ). room_of k l.rooms) id_same ∙ there in
          let member = subst (HasMember c) there ((h.routed c id).0 e) in
          let (index, found) = elem-index_of c r.players member in
          let room = IsRoom-in_lobby l r (subst IsListed there (h.sound id)).0 in
          let gone =
            λ (done : Room × Bool). IsRoom done.0 × IsRoster r (erase_at index r.players) done.0 in
          rw (e, there, leave_room)
            (NeverThrows->>= gone (IsOut c l) (remove_player shuffle fuel name_of c (in_lobby l r))
              _
              (NeverThrows-and (λ (done : Room × Bool). IsRoom done.0)
                (λ (done : Room × Bool). IsRoster r (erase_at index r.players) done.0)
                (remove_player shuffle fuel name_of c (in_lobby l r))
                (remove_player-IsRoom shuffle perm fuel name_of c (in_lobby l r) room)
                (remove_player-IsRoster shuffle fuel name_of c index (in_lobby l r) found))
              (λ done k. left-IsOut c index l r done.0 h listed inside found k.0 k.1))
    ]
  ]
