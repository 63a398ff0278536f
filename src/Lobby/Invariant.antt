-- ===== src/Lobby/Invariant.antt =====
-- The invariant of a lobby, and what a change of one room has to keep of it.
use ascii_poker.Prelude.{
  ℕ, ◌≤◌, ◌<◌, ◌≡◌, refl, sym, subst, ◌↔◌, true, false, List, Option, none, some, length, elem,
  ◌==◌, if◌then◌else◌, if_elim, ==_iff, Bool-cases, Option-cases, inl, inr,
}
use ascii_poker.GameSession.Table.{Distinct}
use ascii_poker.GameSession.State.{Effect}
use ascii_poker.Room.{Room}
use ascii_poker.Room.Members.{IsRoom}
use ascii_poker.Lobby.{Lobby, in_lobby, room_of, broadcast_room_list}
use ascii_poker.Lobby.Lookup.{ids}

-- A room that is listed has the invariant of a room, and a member.
abbrev pub IsListed : Option Room → Type 0
IsListed none = Unit
IsListed (some r) = IsRoom r × (0 < length r.players)

abbrev pub HasMember : ℕ → Option Room → Type 0
HasMember c none = ⊥
HasMember c (some r) = elem c r.players ≡ true

-- The numbers of the rooms differ, and those from the next one on are free; a listed room has the
-- invariant of a room and a member; and a connection is in the room that the map has for it, and in no
-- other.
pub record IsLobby (l : Lobby) : Type 0 where
  pub distinct : Distinct (ids l.rooms)
  pub fresh : (id : ℕ) → l.next_room_id ≤ id → room_of id l.rooms ≡ none
  pub sound : (id : ℕ) → IsListed (room_of id l.rooms)
  pub routed : (c id : ℕ) → (l.player_rooms c ≡ some id) ↔ HasMember c (room_of id l.rooms)

pub IsRoom-in_lobby : (l : Lobby) (r : Room) → IsRoom r → IsRoom (in_lobby l r)
IsRoom-in_lobby l r h = record {
  distinct = h.distinct;
  fits = h.fits;
  few = h.few;
  hosted = h.hosted;
  playing = h.playing;
}

-- The room of one number is another one, or none, and the map agrees with it.
module _ (l l' : Lobby) (k : ℕ) (x : Option Room) where
  pub change-IsLobby :
      IsLobby l
      → Distinct (ids l'.rooms)
      → ((id : ℕ) → l'.next_room_id ≤ id → room_of id l'.rooms ≡ none)
      → ((id : ℕ) → room_of id l'.rooms ≡ (if id == k then x else room_of id l.rooms))
      → IsListed x
      → ((c : ℕ) → (l'.player_rooms c ≡ some k) ↔ HasMember c x)
      → ((c id : ℕ)
          → (id == k) ≡ false
          → (l'.player_rooms c ≡ some id) ↔ (l.player_rooms c ≡ some id))
      → IsLobby l'
  change-IsLobby h distinct fresh changed ok here others = record {
    distinct = distinct;
    fresh = fresh;
    sound = λ id. subst IsListed (sym (changed id)) (if_elim IsListed (id == k) ok (h.sound id));
    routed = λ c id.
        subst (λ o. (l'.player_rooms c ≡ some id) ↔ HasMember c o) (sym (changed id)) (route c id);
  }
    where
      route :
          (c id : ℕ)
          → (l'.player_rooms c ≡ some id) ↔ HasMember c (if id == k then x else room_of id l.rooms)
      route c id = elim (Bool-cases (id == k)) [
        | inl same ↦ rw same (
            subst (λ j. (l'.player_rooms c ≡ some j) ↔ HasMember c x) (sym ((==_iff id k).0 same))
              (here c))
        | inr differs ↦
            let other = others c id differs in
            let before = h.routed c id in
            rw differs ((λ e. before.0 (other.0 e)), (λ m. other.1 (before.1 m)))
      ]

-- What is sent changes nothing of the lobby.
sent-IsLobby : (l : Lobby) (es : List Effect) → IsLobby l → IsLobby (record l { effects = es })
sent-IsLobby l es h = record {
  distinct = h.distinct;
  fresh = h.fresh;
  sound = h.sound;
  routed = h.routed;
}

pub broadcast_room_list-IsLobby : (l : Lobby) → IsLobby l → IsLobby (broadcast_room_list l)
unfolding broadcast_room_list
broadcast_room_list-IsLobby l h = elim (Option-cases l.connection_registry) [
  | inl e ↦ rw (e, broadcast_room_list) h
  | inr (connections, e) ↦ rw (e, broadcast_room_list) (sent-IsLobby l _ h)
]

pub broadcast_room_list-same :
    (l : Lobby)
    → ((broadcast_room_list l).player_rooms ≡ l.player_rooms)
      × ((broadcast_room_list l).next_room_id ≡ l.next_room_id)
unfolding broadcast_room_list
broadcast_room_list-same l = elim (Option-cases l.connection_registry) [
  | inl e ↦ rw (e, broadcast_room_list) (refl, refl)
  | inr (connections, e) ↦ rw (e, broadcast_room_list) (refl, refl)
]
