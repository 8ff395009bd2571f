-- ===== src/Guest/Once.antt =====
-- One feedback and one profile for a user.
use rolling_api.Prelude.{
  ℕ, ◌≡◌, ◌∙◌, refl, none, [], ◌∷◌, arith, ==_refl, find, find_one, find-append, find-save,
  find_matches, get, Option-cases, inl, inr, ok, err, ErrorCode, conflict,
}
use rolling_api.Model.{Db, User, Profile, Feedback, room_row, profile_row}
use rolling_api.Guest.{
  submit_feedback, FeedbackCreate, feedback_of, new_feedback, get_my_profile, upsert_my_profile,
  put_profile, profile_of, upserted, new_profile,
}

-- Feedback is taken once: after a feedback that was accepted a second one of the same user on the
-- same room is refused as a conflict, whatever it says.
feedback_once :
    (db : Db) (user : User) (room_id id id' : ℕ) (body body' : FeedbackCreate) (f : Feedback)
    (db' : Db)
    → submit_feedback db user room_id body id ≡ ok (f, db')
    → submit_feedback db' user room_id body' id'
      ≡ err (conflict ErrorCode.feedback_already_submitted)
unfolding submit_feedback
feedback_once db user room_id id id' body body' f db' h =
    elim (Option-cases (get room_id db.rooms)) [
      | inl absent ↦ absurd (ground (arith, absent, h))
      | inr (room, found) ↦
          let fb = new_feedback room_id user.id body id in
          let p = feedback_of room_id user.id in
          let new : find p db.feedbacks ≡ none = ground (arith, found, h) in
          let there = find-append p db.feedbacks (fb ∷ []) new ∙ find_one p fb (ground arith) in
          ground (arith, found, h, there)
    ]

-- A profile that was written is the one that is read back, with the columns of the body, and a
-- user who had a profile keeps its identifier and verification level.
profile_round_trip :
    (db : Db) (user : User) (body : Profile) (id : ℕ)
    → let (p, db') = upsert_my_profile db user body id in
      (get_my_profile db' user ≡ ok p) × (p ≡ upserted p body) × (p.user_id ≡ user.id)
unfolding upsert_my_profile put_profile get_my_profile
profile_round_trip db user body id = elim (Option-cases (find (profile_of user.id) db.profiles)) [
  | inl absent ↦
      let p = new_profile user body id in
      let there =
        find-append (profile_of user.id) db.profiles (p ∷ []) absent
        ∙ find_one (profile_of user.id) p (==_refl user.id) in
      (ground (arith, absent, there), ground (arith, absent), ground (arith, absent))
  | inr (old, found) ↦
      let mine = find_matches (profile_of user.id) db.profiles old found in
      let p = upserted old body in
      let there = find-save (profile_of user.id) p old db.profiles found refl mine in
      (ground (arith, found, there), ground (arith, found), ground (arith, found, mine))
]
