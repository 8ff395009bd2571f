-- ===== src/Choice/Mutual.antt =====
-- The invariant of the table of matches along a submission.
use rolling_api.Prelude.{
  ℕ, ◌≡◌, ◌≢◌, ◌⊎◌, inl, inr, ap, true, some, List, [], ◌∷◌, ◌++◌, map, arith, ◌==◌, find, get, All,
  All-at, All-map, All-append, All-of_Member, Member-append, Member-append_right, IsDistinct,
  Option-cases, Bool-cases, Result-cases, ok,
}
use rolling_api.Model.{
  Db, User, Gender, Profile, ParticipantChoice, MatchResult, choice_row, match_row, room_row,
}
use rolling_api.Choice.{
  ChoiceItem, Work, canonical_pair, new_choice, new_match, put_choice, put_match, drop_match,
  settle, take_item, take_items, is_interested, was_interested, is_valid_target, work_on, flush,
  submit_choices, same_choice, same_match, insert_all,
}
use rolling_api.Choice.Interest.{
  Interest, stored, written, own-Interest, written-IsKeyed, choice_id, choice_key,
}
use rolling_api.Choice.Submission.{
  match_key, match_id, IsBacked, IsSettled, IsNew, liked-Backed, apart-Backed, unliked-over,
}
use rolling_api.Choice.Settle.{liked-Settled, unliked-Settled}
use rolling_api.Choice.Flush.{insert-eq-append, insert-IsDistinct}

module _ (w : Work) (room_id user_id : ℕ) (item : ChoiceItem) where
  matches-written : (written w room_id user_id item).matches ≡ w.matches
  unfolding put_choice
  matches-written = ground arith

  added-written : (written w room_id user_id item).added_matches ≡ w.added_matches
  unfolding put_choice
  added-written = ground arith

  -- One item keeps the work settled.
  take-Settled :
      IsSettled w
      → IsNew w room_id user_id item
      → item.chosen_id ≢ user_id
      → IsSettled (take_item w room_id user_id item)
  unfolding take_item
  take-Settled s new differ =
      let w1 = written w room_id user_id item in
      let keyed = written-IsKeyed w room_id user_id item s.keyed in
      let was = was_interested (stored w room_id user_id item) in
      elim (Bool-cases (is_interested item.choice_type)) [
        | inl likes ↦
            let up = λ (m : MatchResult) (k : IsBacked w m).
              liked-Backed w room_id user_id item s.keyed m likes k in
            liked-Settled w1 room_id user_id item differ was likes
              (own-Interest w room_id user_id item likes)
              (record {
                keyed = keyed;
                ids = rw matches-written s.ids;
                keys = rw matches-written s.keys;
                backed =
                    rw matches-written (All-map (IsBacked w) (IsBacked w1) w.matches up s.backed);
                added =
                    rw added-written
                      (All-map (IsBacked w) (IsBacked w1) w.added_matches up s.added);
              })
        | inr dislikes ↦
            let apart = apart-Backed w room_id user_id item s.keyed in
            unliked-Settled w1 room_id user_id item differ was dislikes keyed
              (rw matches-written s.ids) (rw matches-written s.keys)
              (rw added-written (
                All-of_Member (IsBacked w1) w.added_matches (λ m h.
                  apart m (All-at _ w.added_matches m new.pair h)
                    (All-at _ w.added_matches m s.added h))))
              (rw matches-written (All-map (IsBacked w) _ w.matches (λ m k. k.0) s.backed))
              (rw matches-written
                (λ m h miss. apart m miss (All-at (IsBacked w) w.matches m s.backed h)))
              (rw matches-written (λ m h hit never.
                unliked-over w room_id user_id item s.keyed m new never hit
                  (All-at (IsBacked w) w.matches m s.backed h)))
      ]

  -- the rows that an item adds
  added-choices :
      ((take_item w room_id user_id item).added_choices ≡ w.added_choices)
      ⊎ ((take_item w room_id user_id item).added_choices
          ≡ w.added_choices ++ new_choice room_id user_id item ∷ [])
  unfolding take_item put_choice put_match drop_match settle
  added-choices = ground arith

  added-matches :
      ((take_item w room_id user_id item).added_matches ≡ w.added_matches)
      ⊎ ((take_item w room_id user_id item).added_matches
          ≡ w.added_matches ++ new_match room_id (canonical_pair user_id item.chosen_id) item ∷ [])
  unfolding take_item put_choice put_match drop_match settle
  added-matches = ground arith

  -- An item leaves the other items of the submission new.
  still-New :
      (next : ChoiceItem)
      → item.chosen_id ≢ next.chosen_id
      → item.chosen_id ≢ user_id
      → next.chosen_id ≢ user_id
      → IsNew w room_id user_id next
      → IsNew (take_item w room_id user_id item) room_id user_id next
  still-New next apart mine theirs new = record {
    choice = elim added-choices [
      | inl e ↦ rw e new.choice
      | inr e ↦ rw e (All-append _ w.added_choices _ new.choice (ground (arith, apart)))
    ];
    pair = elim added-matches [
      | inl e ↦ rw e new.pair
      | inr e ↦ rw e (All-append _ w.added_matches _ new.pair (ground (arith, apart, mine, theirs)))
    ];
  }

abbrev pub chosen : ChoiceItem → ℕ
chosen item = item.chosen_id

target_differs :
    (db : Db) (user : User) (gender : Gender) (room_id chosen_id : ℕ)
    → is_valid_target db user gender room_id chosen_id ≡ true
    → chosen_id ≢ user.id
unfolding is_valid_target
target_differs db user gender room_id chosen_id h e = ground (arith, h, e)

module _ (db : Db) (user : User) (gender : Gender) (room_id : ℕ) where
  take_items-head :
      (item : ChoiceItem) (items : List ChoiceItem) (w w' : Work)
      → take_items db user gender room_id (item ∷ items) w ≡ ok w'
      → (item.chosen_id ≢ user.id)
        × (take_items db user gender room_id items (take_item w room_id user.id item) ≡ ok w')
  unfolding take_items
  take_items-head item items w w' h =
      elim (Bool-cases (is_valid_target db user gender room_id item.chosen_id)) [
        | inl valid ↦
            (target_differs db user gender room_id item.chosen_id valid, ground (arith, valid, h))
        | inr invalid ↦ absurd (ground (arith, invalid, h))
      ]

  take_items-targets :
      (items : List ChoiceItem) (w w' : Work)
      → take_items db user gender room_id items w ≡ ok w'
      → All (λ (item : ChoiceItem). item.chosen_id ≢ user.id) items
  take_items-targets [] w w' h = tt
  take_items-targets (item ∷ items) w w' h =
      let (differ, rest) = take_items-head item items w w' h in
      (differ, take_items-targets items _ w' rest)

  news :
      (w : Work) (item : ChoiceItem) (items : List ChoiceItem)
      → item.chosen_id ≢ user.id
      → All (λ (next : ChoiceItem). next.chosen_id ≢ user.id) items
      → All (λ k. item.chosen_id ≢ k) (map chosen items)
      → All (IsNew w room_id user.id) items
      → All (IsNew (take_item w room_id user.id item) room_id user.id) items
  news w item [] mine theirs apart new = tt
  news w item (next ∷ items) mine theirs apart new = (
    still-New w room_id user.id item next apart.0 mine theirs.0 new.0,
    news w item items mine theirs.1 apart.1 new.1,
  )

  take_items-Settled :
      (items : List ChoiceItem) (w w' : Work)
      → IsSettled w
      → IsDistinct (map chosen items)
      → All (IsNew w room_id user.id) items
      → take_items db user gender room_id items w ≡ ok w'
      → IsSettled w'
  unfolding take_items
  take_items-Settled [] w w' s u new h = let e : w ≡ w' = ground (arith, h) in rw (← e) s
  take_items-Settled (item ∷ items) w w' s u new h =
      let (differ, rest) = take_items-head item items w w' h in
      let theirs = take_items-targets items _ w' rest in
      take_items-Settled items (take_item w room_id user.id item) w'
        (take-Settled w room_id user.id item s new.0 differ) u.1
        (news w item items differ theirs u.0 new.1) rest

all-IsNew :
    (db : Db) (room_id user_id : ℕ) (items : List ChoiceItem)
    → All (IsNew (work_on db) room_id user_id) items
all-IsNew db room_id user_id [] = tt
all-IsNew db room_id user_id (item ∷ items) =
    (record { choice = tt; pair = tt }, all-IsNew db room_id user_id items)

flush_parts :
    (db : Db) (w : Work) (db' : Db)
    → flush db w ≡ ok db'
    → (insert_all same_choice w.choices w.added_choices ≡ some db'.choices)
      × (insert_all same_match w.matches w.added_matches ≡ some db'.matches)
unfolding flush
flush_parts db w db' h = elim (Option-cases (insert_all same_choice w.choices w.added_choices)) [
  | inl refused ↦ absurd (ground (arith, refused, h))
  | inr (cs, first) ↦ elim (Option-cases (insert_all same_match w.matches w.added_matches)) [
    | inl refused ↦ absurd (ground (arith, first, refused, h))
    | inr (ms, second) ↦ (ground (arith, first, second, h), ground (arith, first, second, h))
  ]
]

All-join :
    (P : MatchResult → Type 0) (xs ys : List MatchResult) → All P xs → All P ys → All P (xs ++ ys)
All-join P [] ms left right = right
All-join P (m ∷ ns) ms left right = (left.0, All-join P ns ms left.1 right)

flush-Settled :
    (db : Db) (w : Work) (db' : Db) → IsSettled w → flush db w ≡ ok db' → IsSettled (work_on db')
flush-Settled db w db' s h =
    let (first, second) = flush_parts db w db' h in
    let cs = insert-eq-append same_choice w.choices w.added_choices db'.choices first in
    let ms = insert-eq-append same_match w.matches w.added_matches db'.matches second in
    record {
      keyed = record {
        ids =
            insert-IsDistinct same_choice choice_id w.choices _ _ (λ x y e. ground (arith, e))
              s.keyed.ids first;
        keys =
            insert-IsDistinct same_choice choice_key w.choices _ _ choice_same s.keyed.keys first;
      };
      ids =
          insert-IsDistinct same_match match_id w.matches _ _ (λ x y e. ground (arith, e)) s.ids
            second;
      keys = insert-IsDistinct same_match match_key w.matches _ _ match_same s.keys second;
      backed = rw ms (
          All-join (IsBacked (work_on db')) w.matches w.added_matches
            (All-map _ _ w.matches (lift cs) s.backed)
            (All-map _ _ w.added_matches (lift cs) s.added));
      added = tt;
    }
  where
    choice_same : (x y : ParticipantChoice) → choice_key y ≡ choice_key x → same_choice x y ≡ true
    choice_same x y e =
        let e0 : y.room_id ≡ x.room_id = ap (λ k. k.0) e in
        let e1 : y.chooser_id ≡ x.chooser_id = ap (λ k. k.1) e in
        let e2 : y.chosen_id ≡ x.chosen_id = ap (λ k. k.2) e in ground (arith, e0, e1, e2)

    match_same : (x y : MatchResult) → match_key y ≡ match_key x → same_match x y ≡ true
    match_same x y e =
        let e0 : y.room_id ≡ x.room_id = ap (λ k. k.0) e in
        let e1 : y.user_a_id ≡ x.user_a_id = ap (λ k. k.1) e in
        let e2 : y.user_b_id ≡ x.user_b_id = ap (λ k. k.2) e in ground (arith, e0, e1, e2)

    carry :
        db'.choices ≡ w.choices ++ w.added_choices
        → (r a b : ℕ) → Interest w r a b
        → Interest (work_on db') r a b
    carry cs r a b (c, inl m, i) = (c, inl (rw cs (Member-append c w.choices w.added_choices m)), i)
    carry cs r a b (c, inr m, i) =
        (c, inl (rw cs (Member-append_right c w.choices w.added_choices m)), i)

    lift :
        db'.choices ≡ w.choices ++ w.added_choices
        → (m : MatchResult) → IsBacked w m
        → IsBacked (work_on db') m
    lift cs m k = (
      k.0,
      elim k.1 [ inl over ↦ inl over | inr (i, j) ↦ inr (carry cs _ _ _ i, carry cs _ _ _ j) ],
    )

-- what a submission that returned has done
submit_parts :
    (db : Db) (user : User) (room_id : ℕ) (items : List ChoiceItem) (n : ℕ × ℕ) (db' : Db)
    → submit_choices db user room_id items ≡ ok (n, db')
    → (gender : Gender) × (w : Work) × (take_items db user gender room_id items (work_on db) ≡ ok w)
      × (flush db w ≡ ok db')
unfolding submit_choices
submit_parts db user room_id items n db' h = elim (Option-cases (get room_id db.rooms)) [
  | inl absent ↦ absurd (ground (arith, absent, h))
  | inr (room, found) ↦
      elim (Option-cases (find (λ (p : Profile). p.user_id == user.id) db.profiles)) [
        | inl absent ↦ absurd (ground (arith, found, absent, h))
        | inr (me, there) ↦
            elim (Result-cases (take_items db user me.gender room_id items (work_on db))) [
              | inr (e, bad) ↦ absurd (ground (arith, found, there, bad, h))
              | inl (w, took) ↦ elim (Result-cases (flush db w)) [
                | inr (e, bad) ↦ absurd (ground (arith, found, there, took, bad, h))
                | inl (db1, done) ↦
                    (me.gender, w, took, ground (arith, found, there, took, done, h))
              ]
            ]
      ]
]

-- In a database whose choices and matches keep their keys, where every match is for an ordered pair
-- and every match that is MUTUAL or AFTER_PROPOSED has the interest of both sides, a submission
-- that returns leaves all this true, if no user stands in it twice.
pub matches_stay_mutual :
    (db : Db) (user : User) (room_id : ℕ) (items : List ChoiceItem) (n : ℕ × ℕ) (db' : Db)
    → IsSettled (work_on db)
    → IsDistinct (map chosen items)
    → submit_choices db user room_id items ≡ ok (n, db')
    → IsSettled (work_on db')
matches_stay_mutual db user room_id items n db' s u h =
    let (gender, w, took, done) = submit_parts db user room_id items n db' h in
    flush-Settled db w db'
      (take_items-Settled db user gender room_id items (work_on db) w s u
        (all-IsNew db room_id user.id items) took)
      done
