-- ===== src/Lobby/Departed.antt =====
-- The members of a room, and the map, when one has left: `remove_player` of room.cpp and `leave_room` of
-- lobby.cpp.
use ascii_poker.Prelude.{
  ℕ, zero, suc, ◌≡◌, refl, ap, ◌∙◌, subst, Bool, true, false, List, [], ◌∷◌, none, some, length,
  elem, arith, Map, ◌==◌, if◌then◌else◌, ==_iff, Bool-cases, inl, inr,
}
use ascii_poker.GameSession.Moves.{index_of, erase_at}
use ascii_poker.GameSession.Table.{Distinct}
use ascii_poker.GameSession.Removal.{index_of_lem}
use ascii_poker.Room.Play.{still_elem}

pub no_member : (q : ℕ) (ps : List ℕ) → length ps ≡ 0 → elem q ps ≡ true → ⊥
no_member q [] e h = ground arith
no_member q (p ∷ ps) e h = omega arith

pub out_already : (c : ℕ) (m : Map ℕ) (q : ℕ) → m c ≡ none → m q ≡ (if q == c then none else m q)
out_already c m q e = elim (Bool-cases (q == c)) [
  | inl same ↦ rw same (ap m ((==_iff q c).0 same) ∙ e)
  | inr other ↦ rw other refl
]

was_elem : (q : ℕ) (ps : List ℕ) (i : ℕ) → elem q (erase_at i ps) ≡ true → elem q ps ≡ true
was_elem q [] i h = h
was_elem q (p ∷ ps) zero h = ground arith
was_elem q (p ∷ ps) (suc i) h = ground (arith, was_elem q ps i)

pub elem-index_of : (c : ℕ) (ps : List ℕ) → elem c ps ≡ true → (i : ℕ) × (index_of c ps ≡ some i)
elem-index_of c [] h = absurd (cc)
elem-index_of c (p ∷ ps) h = elim (Bool-cases (p == c)) [
  | inl here ↦ (0, ground arith)
  | inr other ↦ let (i, found) = elem-index_of c ps (ground arith) in (suc i, ground arith)
]

-- The members that stay are those other than the one that leaves.
pub stays_iff :
    (c q : ℕ) (ps : List ℕ) (i : ℕ)
    → Distinct ps
    → index_of c ps ≡ some i
    → ((q == c) ≡ false → elem q ps ≡ true → elem q (erase_at i ps) ≡ true)
      × (elem q (erase_at i ps) ≡ true → ((q == c) ≡ false) × (elem q ps ≡ true))
stays_iff c q ps i d e =
    let (gone, size) = index_of_lem c ps i d e in
    (
      (λ other h. still_elem q c ps i e other h),
      λ h. (
        elim (Bool-cases (q == c)) [
          | inr other ↦ other
          | inl same ↦ absurd (
              no_both (elem c (erase_at i ps))
                (subst (λ t. elem t (erase_at i ps) ≡ true) ((==_iff q c).0 same) h) gone)
        ],
        was_elem q ps i h,
      ),
    )
  where
    no_both : (b : Bool) → b ≡ true → b ≡ false → ⊥
    no_both b h k = ground arith

-- A map that differs from another one at one connection only.
pub elsewhere :
    (c : ℕ) (m m' : Map ℕ)
    → ((q : ℕ) → (q == c) ≡ false → m' q ≡ m q)
    → (q : ℕ) → m' q ≡ (if q == c then m' c else m q)
elsewhere c m m' same q = elim (Bool-cases (q == c)) [
  | inl here ↦ rw here (ap m' ((==_iff q c).0 here))
  | inr other ↦ rw other (same q other)
]
