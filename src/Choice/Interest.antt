-- ===== src/Choice/Interest.antt =====
-- What the write of one choice does to who is interested in whom.
use rolling_api.Prelude.{
  ℕ, ◌≡◌, ◌≢◌, ◌⊎◌, inl, inr, refl, ap, Bool, true, false, ◌&&◌, Option, some, List, map, arith,
  ◌==◌, find, find_matches, find-none, All, All-at, Member, Member-find, Member-append,
  Member-append_right, Member-save_ne, Member-save_self, map-save, IsDistinct, IsDistinct-eq,
  Option-cases,
}
use rolling_api.Model.{ParticipantChoice, choice_row}
use rolling_api.Choice.{
  ChoiceItem, Work, choice_of, interest_of, new_choice, changed_choice, put_choice, is_interested,
  was_interested,
}

abbrev pub choice_key : ParticipantChoice → ℕ × ℕ × ℕ
choice_key c = (c.room_id, c.chooser_id, c.chosen_id)

abbrev pub choice_id : ParticipantChoice → ℕ
choice_id c = c.id

-- `a` has chosen `b` with INTERESTED, in a row that is stored or added.
abbrev pub Interest : Work → ℕ → ℕ → ℕ → Type 0
Interest w room_id a b =
    (c : ParticipantChoice) × (Member c w.choices ⊎ Member c w.added_choices)
    × (interest_of room_id a b c ≡ true)

-- The stored choices keep the primary key and the unique constraint.
pub record IsKeyed (choices : List ParticipantChoice) : Type 0 where
  pub ids : IsDistinct (map choice_id choices)
  pub keys : IsDistinct (map choice_key choices)

module _ (w : Work) (room_id user_id : ℕ) (item : ChoiceItem) where
  abbrev pub is_triple : ℕ → ℕ → ℕ → Bool
  is_triple r a b = r == room_id && (a == user_id && b == item.chosen_id)

  abbrev pub stored : Option ParticipantChoice
  stored = find (choice_of room_id user_id item.chosen_id) w.choices

  abbrev pub written : Work
  written = put_choice w room_id user_id item stored

  -- The write changes nobody else's interest, and none in anyone else.
  pub others-Interest :
      (r a b : ℕ)
      → IsKeyed w.choices
      → is_triple r a b ≡ false
      → Interest w r a b
      → Interest written r a b
  unfolding put_choice
  others-Interest r a b keyed other (c, there, i) = elim (Option-cases stored) [
    | inl absent ↦
        rw absent
          (c, elim there [ inl m ↦ inl m | inr m ↦ inr (Member-append c w.added_choices _ m) ], i)
    | inr (e, found) ↦ rw found (
      c,
      elim there [
        | inl m ↦ inl (Member-save_ne (changed_choice e item) c w.choices m (apart e found m))
        | inr m ↦ inr m
      ],
      i,
    )
  ]
    where
      apart : (e : ParticipantChoice) → stored ≡ some e → Member c w.choices → c.id ≢ e.id
      apart e found m q =
          let same =
            IsDistinct-eq choice_id c e w.choices keyed.ids m (Member-find _ w.choices e found) q in
          let hit = find_matches _ w.choices e found in
          ground (arith, i, other, hit, ap choice_key same)

  -- An INTERESTED item is an interest.
  pub own-Interest :
      is_interested item.choice_type ≡ true → Interest written room_id user_id item.chosen_id
  unfolding put_choice
  own-Interest yes_it = elim (Option-cases stored) [
    | inl absent ↦ rw absent (
      new_choice room_id user_id item,
      inr (Member-append_right _ w.added_choices _ (inl refl)),
      ground (arith, yes_it),
    )
    | inr (e, found) ↦
        let hit = find_matches _ w.choices e found in
        rw found (
          changed_choice e item,
          inl (Member-save_self _ e w.choices (Member-find _ w.choices e found) refl),
          ground (arith, yes_it, hit),
        )
  ]

  -- The constraints on the stored rows are kept.
  pub written-IsKeyed : IsKeyed w.choices → IsKeyed written.choices
  unfolding put_choice
  written-IsKeyed keyed = elim (Option-cases stored) [
    | inl absent ↦ rw absent keyed
    | inr (e, found) ↦
        let m = Member-find _ w.choices e found in
        let same : (y : ParticipantChoice) → Member y w.choices → y.id ≡ e.id → y ≡ e =
          λ y n q. IsDistinct-eq choice_id y e w.choices keyed.ids n m q in
        rw found (record {
          ids = rw (map-save choice_id (changed_choice e item) w.choices (λ y n q. q)) keyed.ids;
          keys =
              rw
                (map-save choice_key (changed_choice e item) w.choices
                  (λ y n q. ap choice_key (same y n q)))
                keyed.keys;
        })
  ]

  -- Where no added row is for this pair, a stored interest is what the query has found.
  pub Interest-was :
      IsKeyed w.choices
      → All (λ c. choice_of room_id user_id item.chosen_id c ≡ false) w.added_choices
      → Interest w room_id user_id item.chosen_id
      → was_interested stored ≡ true
  Interest-was keyed new (c, inr m, i) =
      let n = All-at _ w.added_choices c new m in absurd (ground (arith, n, i))
  Interest-was keyed new (c, inl m, i) = elim (Option-cases stored) [
    | inl absent ↦ let n = find-none _ w.choices c absent m in absurd (ground (arith, n, i))
    | inr (e, found) ↦
        let hit = find_matches _ w.choices e found in
        let same =
          IsDistinct-eq choice_key c e w.choices keyed.keys m (Member-find _ w.choices e found)
            (key_eq c e i hit) in
        rw (found, ← same) (ground (arith, i))
  ]
    where
      key_eq :
          (c e : ParticipantChoice)
          → interest_of room_id user_id item.chosen_id c ≡ true
          → choice_of room_id user_id item.chosen_id e ≡ true
          → choice_key c ≡ choice_key e
      key_eq c e i hit = ground (arith, i, hit)
