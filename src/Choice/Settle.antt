-- ===== src/Choice/Settle.antt =====
-- What the two branches of the loop do to the matches.
use rolling_api.Prelude.{
  ℕ, ◌≡◌, ◌≢◌, ◌<◌, inl, inr, refl, ap, ◌∙◌, Bool, true, false, some, map, arith, ltb, find,
  find_matches, find-none, save, All, All-at, All-append, All-of_Member, Member, Member-find,
  Member-save_cases, map-save, IsDistinct, IsDistinct-eq, Option-cases, Bool-cases,
}
use rolling_api.Model.{MatchResult, choice_row, match_row}
use rolling_api.Choice.{
  ChoiceItem, Work, interest_of, match_of, canonical_pair, new_match, revived, dropped, put_match,
  drop_match, settle, is_interested, is_current, is_no_match,
}
use rolling_api.Choice.Interest.{Interest, IsKeyed}
use rolling_api.Choice.Submission.{match_key, match_id, IsBacked, IsSettled}

module _ (w : Work) (room_id user_id : ℕ) (item : ChoiceItem)
    (differ : item.chosen_id ≢ user_id) where
  abbrev pair : ℕ × ℕ
  pair = canonical_pair user_id item.chosen_id

  pair-Backed :
      (m : MatchResult)
      → match_of room_id pair m ≡ true
      → Interest w room_id user_id item.chosen_id
      → Interest w room_id item.chosen_id user_id
      → IsBacked w m
  pair-Backed m hit own back = elim (Bool-cases (ltb user_id item.chosen_id)) [
    | inl first ↦
        let er : m.room_id ≡ room_id = ground (arith, hit) in
        let ea : m.user_a_id ≡ user_id = ground (arith, hit, first) in
        let eb : m.user_b_id ≡ item.chosen_id = ground (arith, hit, first) in
        (ground (arith, hit, first), inr (rw (er, ea, eb) own, rw (er, ea, eb) back))
    | inr second ↦
        let er : m.room_id ≡ room_id = ground (arith, hit) in
        let ea : m.user_a_id ≡ item.chosen_id = ground (arith, hit, second) in
        let eb : m.user_b_id ≡ user_id = ground (arith, hit, second) in
        (ground (arith, hit, second, differ), inr (rw (er, ea, eb) back, rw (er, ea, eb) own))
  ]

  -- the columns of a table of matches in which one row was written
  saved-ids :
      (m n : MatchResult)
      → n.id ≡ m.id
      → IsDistinct (map match_id w.matches)
      → IsDistinct (map match_id (save n w.matches))
  saved-ids m n e u = rw (map-save match_id n w.matches (λ y h q. q)) u

  saved-keys :
      (m n : MatchResult)
      → Member m w.matches
      → n.id ≡ m.id
      → match_key m ≡ match_key n
      → IsDistinct (map match_id w.matches)
      → IsDistinct (map match_key w.matches)
      → IsDistinct (map match_key (save n w.matches))
  saved-keys m n there e k u v =
      rw
        (map-save match_key n w.matches
          (λ y h q. ap match_key (IsDistinct-eq match_id y m w.matches u h there (q ∙ e)) ∙ k))
        v

  saved-Backed :
      (n : MatchResult)
      → IsBacked w n
      → ((x : MatchResult) → Member x w.matches → x.id ≢ n.id → IsBacked w x)
      → All (IsBacked w) (save n w.matches)
  saved-Backed n b old = All-of_Member (IsBacked w) (save n w.matches) λ x there.
      elim (Member-save_cases n x w.matches there) [
        | inl same ↦ rw same b
        | inr (here, ne) ↦ old x here ne
      ]

  -- the interested branch
  pub liked-Settled :
      (was : Bool)
      → is_interested item.choice_type ≡ true
      → Interest w room_id user_id item.chosen_id
      → IsSettled w
      → IsSettled (settle w room_id user_id item was)
  unfolding settle put_match drop_match
  liked-Settled was likes own s =
      elim (Option-cases (find (interest_of room_id item.chosen_id user_id) w.choices)) [
        | inl absent ↦ rw (likes, absent) s
        | inr (c, reverse) ↦
            let back : Interest w room_id item.chosen_id user_id =
              (c, inl (Member-find _ w.choices c reverse), find_matches _ w.choices c reverse) in
            elim (Option-cases (find (match_of room_id pair) w.matches)) [
              | inl no_match ↦
                  let fresh = pair-Backed (new_match room_id pair item) (ground arith) own back in
                  rw (likes, reverse, no_match)
                    (record {
                      keyed = s.keyed;
                      ids = s.ids;
                      keys = s.keys;
                      backed = s.backed;
                      added = All-append (IsBacked w) w.added_matches _ s.added fresh;
                    })
              | inr (m, found) ↦ elim (Bool-cases (is_no_match m.status)) [
                | inr standing ↦ rw (likes, reverse, found, standing) s
                | inl ended ↦
                    let hit = find_matches _ w.matches m found in
                    let there = Member-find _ w.matches m found in
                    rw (likes, reverse, found, ended)
                      (record {
                        keyed = s.keyed;
                        ids = saved-ids m (revived m item) refl s.ids;
                        keys = saved-keys m (revived m item) there refl refl s.ids s.keys;
                        backed =
                            saved-Backed (revived m item)
                              (pair-Backed (revived m item) hit own back)
                              (λ x h ne. All-at (IsBacked w) w.matches x s.backed h);
                        added = s.added;
                      })
              ]
            ]
      ]

  same_key :
      (x m : MatchResult)
      → match_of room_id pair x ≡ true
      → match_of room_id pair m ≡ true
      → match_key x ≡ match_key m
  same_key x m hx hm =
      let e0 : x.room_id ≡ m.room_id = ground (arith, hx, hm) in
      let e1 : x.user_a_id ≡ m.user_a_id = ground (arith, hx, hm) in
      let e2 : x.user_b_id ≡ m.user_b_id = ground (arith, hx, hm) in rw (e0, e1, e2) refl

  -- the other branch, where the write of the choice has left the pair's match without support
  pub unliked-Settled :
      (was : Bool)
      → is_interested item.choice_type ≡ false
      → IsKeyed w.choices
      → IsDistinct (map match_id w.matches)
      → IsDistinct (map match_key w.matches)
      → All (IsBacked w) w.added_matches
      → All (λ (m : MatchResult). m.user_a_id < m.user_b_id) w.matches
      → ((m : MatchResult) → Member m w.matches → match_of room_id pair m ≡ false → IsBacked w m)
      → ((m : MatchResult)
          → Member m w.matches
          → match_of room_id pair m ≡ true
          → was ≡ false
          → is_current m.status ≡ false)
      → IsSettled (settle w room_id user_id item was)
  unfolding settle put_match drop_match
  unliked-Settled was dislikes keyed ids keys added ordered apart over = elim (Bool-cases was) [
    | inr never ↦
        rw (dislikes, never)
          (record {
            keyed = keyed;
            ids = ids;
            keys = keys;
            backed = kept (λ x h hit. over x h hit never);
            added = added;
          })
    | inl liked ↦ elim (Option-cases (find (match_of room_id pair) w.matches)) [
      | inl absent ↦
          rw (dislikes, liked, absent)
            (record {
              keyed = keyed;
              ids = ids;
              keys = keys;
              backed =
                  kept (λ x h hit. absurd (ground (arith, hit, find-none _ w.matches x absent h)));
              added = added;
            })
      | inr (m, found) ↦ elim (Bool-cases (is_current m.status)) [
        | inr over_already ↦
            rw (dislikes, liked, found, over_already)
              (record {
                keyed = keyed;
                ids = ids;
                keys = keys;
                backed = kept (λ x h hit.
                    ap (λ (y : MatchResult). is_current y.status) (one m found x h hit)
                    ∙ over_already);
                added = added;
              })
        | inl current ↦
            let there = Member-find _ w.matches m found in
            let first =
              All-at (λ (y : MatchResult). y.user_a_id < y.user_b_id) w.matches m ordered there in
            rw (dislikes, liked, found, current)
              (record {
                keyed = keyed;
                ids = saved-ids m (dropped m) refl ids;
                keys = saved-keys m (dropped m) there refl refl ids keys;
                backed =
                    saved-Backed (dropped m) (first, inl refl)
                      (λ x h ne. elim (Bool-cases (match_of room_id pair x)) [
                        | inl hit ↦ absurd (ne (ap match_id (one m found x h hit)))
                        | inr miss ↦ apart x h miss
                      ]);
                added = added;
              })
      ]
    ]
  ]
    where
      -- the constraint leaves one match for the pair
      one :
          (m : MatchResult)
          → find (match_of room_id pair) w.matches ≡ some m
          → (x : MatchResult) → Member x w.matches
          → match_of room_id pair x ≡ true
          → x ≡ m
      one m found x h hit =
          let there = find_matches _ w.matches m found in
          IsDistinct-eq match_key x m w.matches keys h (Member-find _ w.matches m found)
            (same_key x m hit there)

      kept :
          ((x : MatchResult)
            → Member x w.matches
            → match_of room_id pair x ≡ true
            → is_current x.status ≡ false)
          → All (IsBacked w) w.matches
      kept ends = All-of_Member (IsBacked w) w.matches λ x h.
          elim (Bool-cases (match_of room_id pair x)) [
            | inl hit ↦ (
              All-at (λ (y : MatchResult). y.user_a_id < y.user_b_id) w.matches x ordered h,
              inl (ends x h hit),
            )
            | inr miss ↦ apart x h miss
          ]
