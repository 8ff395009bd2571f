-- ===== src/Choice/Submission.antt =====
-- A submission keeps every current match backed by the interest of both sides.
use rolling_api.Prelude.{
  ℕ, ◌≡◌, ◌<◌, ◌⊎◌, inl, inr, true, false, map, arith, ltb, All, IsDistinct, Bool-cases,
}
use rolling_api.Model.{MatchResult, choice_row, match_row}
use rolling_api.Choice.{
  ChoiceItem, Work, choice_of, match_of, canonical_pair, is_interested, was_interested, is_current,
}
use rolling_api.Choice.Interest.{
  Interest, IsKeyed, is_triple, stored, written, others-Interest, own-Interest, Interest-was,
}

abbrev pub match_key : MatchResult → ℕ × ℕ × ℕ
match_key m = (m.room_id, m.user_a_id, m.user_b_id)

abbrev pub match_id : MatchResult → ℕ
match_id m = m.id

-- A match is for an ordered pair, and while it is MUTUAL or AFTER_PROPOSED each of the two is
-- interested in the other.
abbrev pub IsBacked : Work → MatchResult → Type 0
IsBacked w m =
    (m.user_a_id < m.user_b_id)
    × ((is_current m.status ≡ false)
        ⊎ (Interest w m.room_id m.user_a_id m.user_b_id
            × Interest w m.room_id m.user_b_id m.user_a_id))

pub record IsSettled (w : Work) : Type 0 where
  pub keyed : IsKeyed w.choices
  pub ids : IsDistinct (map match_id w.matches)
  pub keys : IsDistinct (map match_key w.matches)
  pub backed : All (IsBacked w) w.matches
  pub added : All (IsBacked w) w.added_matches

-- Nothing was added yet for the pair of an item.
pub record IsNew (w : Work) (room_id user_id : ℕ) (item : ChoiceItem) : Type 0 where
  pub choice : All (λ c. choice_of room_id user_id item.chosen_id c ≡ false) w.added_choices
  pub pair :
      All (λ m. match_of room_id (canonical_pair user_id item.chosen_id) m ≡ false) w.added_matches

module _ (w : Work) (room_id user_id : ℕ) (item : ChoiceItem) (keyed : IsKeyed w.choices) where
  abbrev pub pair : ℕ × ℕ
  pair = canonical_pair user_id item.chosen_id

  all-Interest :
      (r a b : ℕ)
      → is_interested item.choice_type ≡ true
      → Interest w r a b
      → Interest (written w room_id user_id item) r a b
  all-Interest r a b likes i = elim (Bool-cases (is_triple w room_id user_id item r a b)) [
    | inr other ↦ others-Interest w room_id user_id item r a b keyed other i
    | inl same ↦
        let er : r ≡ room_id = ground (arith, same) in
        let ea : a ≡ user_id = ground (arith, same) in
        let eb : b ≡ item.chosen_id = ground (arith, same) in
        rw (er, ea, eb) (own-Interest w room_id user_id item likes)
  ]

  -- An INTERESTED item takes no support from any match.
  pub liked-Backed :
      (m : MatchResult)
      → is_interested item.choice_type ≡ true
      → IsBacked w m
      → IsBacked (written w room_id user_id item) m
  liked-Backed m likes k = (
    k.0,
    elim k.1 [
      | inl over ↦ inl over
      | inr (i, j) ↦ inr (all-Interest _ _ _ likes i, all-Interest _ _ _ likes j)
    ],
  )

  -- No item takes support from the match of another pair.
  pub apart-Backed :
      (m : MatchResult)
      → match_of room_id pair m ≡ false
      → IsBacked w m
      → IsBacked (written w room_id user_id item) m
  apart-Backed m apart k =
      let lt = k.0 in
      (
        k.0,
        elim k.1 [
          | inl over ↦ inl over
          | inr (i, j) ↦ inr (
            others-Interest w room_id user_id item _ _ _ keyed (ground (arith, apart, lt)) i,
            others-Interest w room_id user_id item _ _ _ keyed (ground (arith, apart, lt)) j,
          )
        ],
      )

  -- Without an earlier interest of the user no match of the pair is current.
  pub unliked-over :
      (m : MatchResult)
      → IsNew w room_id user_id item
      → was_interested (stored w room_id user_id item) ≡ false
      → match_of room_id pair m ≡ true
      → IsBacked w m
      → is_current m.status ≡ false
  unliked-over m new unliked hit k = elim k.1 [
    | inl over ↦ over
    | inr (i, j) ↦ absurd (elim (Bool-cases (ltb user_id item.chosen_id)) [
      | inl first ↦
          let er : m.room_id ≡ room_id = ground (arith, hit) in
          let ea : m.user_a_id ≡ user_id = ground (arith, hit, first) in
          let eb : m.user_b_id ≡ item.chosen_id = ground (arith, hit, first) in
          clash (rw (← er, ← ea, ← eb) i)
      | inr second ↦
          let er : m.room_id ≡ room_id = ground (arith, hit) in
          let ea : m.user_a_id ≡ item.chosen_id = ground (arith, hit, second) in
          let eb : m.user_b_id ≡ user_id = ground (arith, hit, second) in
          clash (rw (← er, ← ea, ← eb) j)
    ])
  ]
    where
      clash : Interest w room_id user_id item.chosen_id → ⊥
      clash i =
          let was = Interest-was w room_id user_id item keyed new.choice i in
          ground (arith, unliked, was)
