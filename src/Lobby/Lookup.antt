-- ===== src/Lobby/Lookup.antt =====
-- `room_of`, `put_room`, `drop_room`, `enter` and `forget`.
use mathlib.Core.Option.{some-injective}
use ascii_poker.Prelude.{
  ℕ, ◌≡◌, refl, Bool, true, false, List, [], ◌∷◌, ◌++◌, Option, none, some, arith, elem, Map, ◌==◌,
  if◌then◌else◌, Bool-cases, if_elim, inl, inr, ==_iff, ap, ◌∙◌, sym,
}
use ascii_poker.GameSession.Table.{Distinct}
use ascii_poker.Room.{Room}
use ascii_poker.Room.Members.{Distinct-append}
use ascii_poker.Lobby.{room_of, put_room, drop_room, enter, forget}

abbrev pub ids : List Room → List ℕ
ids [] = []
ids (r ∷ rs) = r.id ∷ ids rs

-- The room itself where there was one.
abbrev pub instead_of : Option Room → Room → Option Room
instead_of none r = none
instead_of (some old) r = some r

same_id :
    (id : ℕ) (b : Bool) (q : Room) (rest : Option Room) (r : Room)
    → (b ≡ true → q.id ≡ id)
    → (rest ≡ some r → r.id ≡ id)
    → (if b then some q else rest) ≡ some r
    → r.id ≡ id
same_id id true q rest r here other h =
    ap (λ (t : Room). t.id) (sym (some-injective q r h)) ∙ here refl
same_id id false q rest r here other h = other h

pub room_of-id : (id : ℕ) (rs : List Room) (r : Room) → room_of id rs ≡ some r → r.id ≡ id
unfolding room_of
room_of-id id [] r h = ground arith
room_of-id id (q ∷ rs) r h =
    same_id id (q.id == id) q (room_of id rs) r (λ e. (==_iff q.id id).0 e) (room_of-id id rs r) h

pub room_of-put_room :
    (id : ℕ) (changed : Room) (rs : List Room)
    → room_of id (put_room changed rs)
      ≡ (if id == changed.id then instead_of (room_of id rs) changed else room_of id rs)
unfolding room_of put_room
room_of-put_room id changed [] = ground arith
room_of-put_room id changed (r ∷ rs) = ground (arith, room_of-put_room id changed rs)

-- The rooms when a listed room has changed.
pub room_of-changed :
    (r changed : Room) (rs : List Room)
    → changed.id ≡ r.id
    → room_of r.id rs ≡ some r
    → (id : ℕ)
    → room_of id (put_room changed rs) ≡ (if id == r.id then some changed else room_of id rs)
room_of-changed r changed rs same there id =
    room_of-put_room id changed rs
    ∙ ap (λ (k : ℕ). if id == k then instead_of (room_of id rs) changed else room_of id rs) same
    ∙ elim (Bool-cases (id == r.id)) [
      | inl here ↦
          let listed : room_of id rs ≡ some r =
            ap (λ (k : ℕ). room_of k rs) ((==_iff id r.id).0 here) ∙ there in
          rw here (ap (λ (o : Option Room). instead_of o changed) listed)
      | inr other ↦ rw other refl
    ]

-- No number is given anew.
pub fresh-put_room :
    (id : ℕ) (changed : Room) (rs : List Room)
    → room_of id rs ≡ none
    → room_of id (put_room changed rs) ≡ none
fresh-put_room id changed rs h = ground (arith, room_of-put_room id changed rs)

pub room_of-drop_room :
    (id gone : ℕ) (rs : List Room)
    → room_of id (drop_room gone rs) ≡ (if id == gone then none else room_of id rs)
unfolding room_of drop_room
room_of-drop_room id gone [] = ground arith
room_of-drop_room id gone (r ∷ rs) = ground (arith, room_of-drop_room id gone rs)

pub room_of-append :
    (id : ℕ) (r : Room) (rs : List Room)
    → room_of r.id rs ≡ none
    → room_of id (rs ++ (r ∷ [])) ≡ (if id == r.id then some r else room_of id rs)
unfolding room_of
room_of-append id r [] h = ground arith
room_of-append id r (q ∷ rs) h = ground (arith, room_of-append id r rs)

pub ids-put_room : (changed : Room) (rs : List Room) → ids (put_room changed rs) ≡ ids rs
unfolding put_room
ids-put_room changed [] = refl
ids-put_room changed (r ∷ rs) = ground (arith, ids-put_room changed rs)

elem-ids : (id : ℕ) (rs : List Room) → room_of id rs ≡ none → elem id (ids rs) ≡ false
unfolding room_of
elem-ids id [] h = refl
elem-ids id (r ∷ rs) h = ground (arith, elem-ids id rs)

ids-append : (rs : List Room) (r : Room) → ids (rs ++ (r ∷ [])) ≡ ids rs ++ (r.id ∷ [])
ids-append [] r = refl
ids-append (q ∷ rs) r = ap (λ (t : List ℕ). q.id ∷ t) (ids-append rs r)

pub Distinct-ids-append :
    (r : Room) (rs : List Room)
    → room_of r.id rs ≡ none
    → Distinct (ids rs)
    → Distinct (ids (rs ++ (r ∷ [])))
unfolding room_of
Distinct-ids-append r rs h d =
    rw (ids-append rs r) (Distinct-append r.id (ids rs) (elem-ids r.id rs h) d)

elem-ids-drop_room :
    (id gone : ℕ) (rs : List Room)
    → elem id (ids rs) ≡ false
    → elem id (ids (drop_room gone rs)) ≡ false
unfolding drop_room
elem-ids-drop_room id gone [] h = refl
elem-ids-drop_room id gone (r ∷ rs) h = ground (arith, elem-ids-drop_room id gone rs)

pub Distinct-ids-drop_room :
    (gone : ℕ) (rs : List Room) → Distinct (ids rs) → Distinct (ids (drop_room gone rs))
unfolding drop_room
Distinct-ids-drop_room gone [] d = d
Distinct-ids-drop_room gone (r ∷ rs) d =
    if_elim (λ (t : List Room). Distinct (ids t)) (r.id == gone)
      (Distinct-ids-drop_room gone rs d.1)
      (elem-ids-drop_room r.id gone rs d.0, Distinct-ids-drop_room gone rs d.1)

pub fresh-drop_room :
    (id gone : ℕ) (rs : List Room) → room_of id rs ≡ none → room_of id (drop_room gone rs) ≡ none
fresh-drop_room id gone rs h = ground (arith, room_of-drop_room id gone rs)

-- The rooms when a room has changed, and is dropped.
pub room_of-emptied :
    (r changed : Room) (rs : List Room)
    → changed.id ≡ r.id
    → room_of r.id rs ≡ some r
    → (id : ℕ)
    → room_of id (drop_room changed.id (put_room changed rs))
      ≡ (if id == r.id then none else room_of id rs)
room_of-emptied r changed rs same there id =
    room_of-drop_room id changed.id (put_room changed rs)
    ∙ ap (λ (k : ℕ). if id == k then none else room_of id (put_room changed rs)) same
    ∙ elim (Bool-cases (id == r.id)) [
      | inl here ↦ rw here refl
      | inr other ↦ rw other (room_of-changed r changed rs same there id ∙ rw other refl)
    ]

pub enter_lem :
    (c id : ℕ) (rooms : Map ℕ) (q : ℕ)
    → rooms c ≡ none
    → enter c id rooms q ≡ (if q == c then some id else rooms q)
unfolding enter
enter_lem c id rooms q h = rw (h, enter) refl

pub forget_lem :
    (c : ℕ) (rooms : Map ℕ) (q : ℕ) → forget c rooms q ≡ (if q == c then none else rooms q)
unfolding forget
forget_lem c rooms q = refl
