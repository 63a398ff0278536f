-- ===== src/Room/Bankrolls.antt =====
-- `load_player_bankrolls` of room.cpp.
use Prim.Native.String.{String}
use text.Mathlib.Text.{◌==◌ as str_eq}
use text.Mathlib.TextEquality.{eq_iff}
use ascii_poker.Prelude.{
  ℕ, ◌≤◌, ◌≡◌, refl, ap, ◌∙◌, sym, subst, inl, inr, Bool, true, false, List, [], ◌∷◌, Option, none,
  some, elem, arith, ltb, if◌then◌else◌, Bool-cases, ℕ_discrete,
}
use ascii_poker.GameSession.State.{big_blind_size}
use ascii_poker.Room.{bankroll_of, load_player_bankrolls}

-- A test that did not end the loop.
not_refused {ℓ} :
    {A : Type ℓ} (b : Bool) (rest : Option A) (a : A)
    → (if b then none else rest) ≡ some a
    → (b ≡ false) × (rest ≡ some a)
not_refused true rest a e = absurd (cc)
not_refused false rest a e = (refl, e)

module _ (name_of : ℕ → String) (find : String → Option ℕ) (has_repository : Bool) where
  -- The chips of a connection depend on its name alone.
  same_name :
      (p c : ℕ)
      → str_eq (name_of p) (name_of c) ≡ true
      → bankroll_of name_of find has_repository c ≡ bankroll_of name_of find has_repository p
  same_name p c e =
      ap
        (λ (n : String).
          if has_repository then (elim (find n) [ none ↦ 0 | some chips ↦ chips ]) else 1000)
        (sym ((eq_iff (name_of p) (name_of c)).0 e))

  -- What the loop goes on with, once a member's chips are enough.
  abbrev entered : ℕ → (String → Option ℕ) → String → Option ℕ
  entered c given n =
      if str_eq n (name_of c) then some (bankroll_of name_of find has_repository c) else given n

  load_cons :
      (c : ℕ) (cs : List ℕ) (given bankrolls : String → Option ℕ)
      → load_player_bankrolls name_of find has_repository (c ∷ cs) given ≡ some bankrolls
      → (big_blind_size ≤ bankroll_of name_of find has_repository c)
        × (load_player_bankrolls name_of find has_repository cs (entered c given) ≡ some bankrolls)
  unfolding load_player_bankrolls
  load_cons c cs given bankrolls e =
      let (rich, rest) =
        not_refused (ltb (bankroll_of name_of find has_repository c) big_blind_size) _ bankrolls
          e in
      (ground arith, rest)

  entered-right :
      (p c : ℕ) (given : String → Option ℕ)
      → given (name_of p) ≡ some (bankroll_of name_of find has_repository p)
      → entered c given (name_of p) ≡ some (bankroll_of name_of find has_repository p)
  entered-right p c given h = elim (Bool-cases (str_eq (name_of p) (name_of c))) [
    | inl same ↦ rw same (ap some (same_name p c same))
    | inr other ↦ rw other h
  ]

  entered_self :
      (c : ℕ) (given : String → Option ℕ)
      → entered c given (name_of c) ≡ some (bankroll_of name_of find has_repository c)
  entered_self c given = rw ((eq_iff (name_of c) (name_of c)).1 refl) refl

  -- An entry that is right stays right.
  load-keeps :
      (p : ℕ) (cs : List ℕ) (given bankrolls : String → Option ℕ)
      → given (name_of p) ≡ some (bankroll_of name_of find has_repository p)
      → load_player_bankrolls name_of find has_repository cs given ≡ some bankrolls
      → bankrolls (name_of p) ≡ some (bankroll_of name_of find has_repository p)
  unfolding load_player_bankrolls
  load-keeps p [] given bankrolls h e =
      sym (
        ap
          (λ (o : Option (String → Option ℕ)). elim o [
            | none ↦ given (name_of p)
            | some b ↦ b (name_of p)
          ])
          e)
      ∙ h
  load-keeps p (c ∷ cs) given bankrolls h e =
      load-keeps p cs (entered c given) bankrolls (entered-right p c given h)
        (load_cons c cs given bankrolls e).1

  -- When the bankrolls can be loaded, every member's is there, and is at least the big blind.
  pub load_player_bankrolls_lem :
      (cs : List ℕ) (given bankrolls : String → Option ℕ) (p : ℕ)
      → load_player_bankrolls name_of find has_repository cs given ≡ some bankrolls
      → elem p cs ≡ true
      → (bankrolls (name_of p) ≡ some (bankroll_of name_of find has_repository p))
        × (big_blind_size ≤ bankroll_of name_of find has_repository p)
  unfolding load_player_bankrolls
  load_player_bankrolls_lem [] given bankrolls p e here = absurd (cc)
  load_player_bankrolls_lem (c ∷ cs) given bankrolls p e here =
      let (rich, rest) = load_cons c cs given bankrolls e in
      elim (ℕ_discrete p c) [
        | yes same ↦
            subst
              (λ (q : ℕ).
                (bankrolls (name_of q) ≡ some (bankroll_of name_of find has_repository q))
                × (big_blind_size ≤ bankroll_of name_of find has_repository q))
              (sym same)
              (load-keeps c cs (entered c given) bankrolls (entered_self c given) rest, rich)
        | no other ↦ load_player_bankrolls_lem cs (entered c given) bankrolls p rest (ground arith)
      ]
