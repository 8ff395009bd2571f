-- ===== src/Guest.antt =====
-- What a guest writes besides applications and choices: app/services/feedback_service.py,
-- report_service.py and profile_service.py.
pub mod Once
pub mod Reporting
use rolling_api.Prelude.{
  ℕ, String, Bool, true, false, ◌&&◌, ◌||◌, not, Option, none, some, List, [], ◌∷◌, ◌++◌, ◌==◌,
  if◌then◌else◌, is_some, find, get, save, Result, ok, err, ErrorCode, api_error, conflict,
  forbidden, not_found, invalid_state_transition, ◌>>=◌, ◌>>◌, require, raise_if, or_raise,
}
use rolling_api.Model.{
  Db, User, Profile, Gender, Room, RoomStatus, RoomApplication, ApplicationStatus, CheckIn,
  CheckInStatus, Feedback, Report, ReportStatus, room_row, profile_row, user_row,
}

abbrev pub is_open_for_feedback : RoomStatus → Bool
is_open_for_feedback RoomStatus.in_progress = true
is_open_for_feedback RoomStatus.completed = true
is_open_for_feedback _ = false

abbrev pub is_present : CheckInStatus → Bool
is_present CheckInStatus.checked_in = true
is_present _ = false

abbrev pub check_in_of : ℕ → ℕ → CheckIn → Bool
check_in_of room_id user_id c = c.room_id == room_id && c.user_id == user_id

abbrev pub presence_of : ℕ → ℕ → CheckIn → Bool
presence_of room_id user_id c = check_in_of room_id user_id c && is_present c.status

abbrev pub feedback_of : ℕ → ℕ → Feedback → Bool
feedback_of room_id user_id f = f.room_id == room_id && f.user_id == user_id

pub record FeedbackCreate : Type 0 where
  pub rating : ℕ
  pub comment : Option String
  pub safety_rating : Option ℕ
  pub planner_rating : Option ℕ
  pub would_join_again : Option Bool

abbrev pub new_feedback : ℕ → ℕ → FeedbackCreate → ℕ → Feedback
new_feedback room_id user_id body id = record {
  id = id;
  room_id = room_id;
  user_id = user_id;
  rating = body.rating;
  comment = body.comment;
  safety_rating = body.safety_rating;
  planner_rating = body.planner_rating;
  would_join_again = body.would_join_again;
}

unfoldable pub submit_feedback : Db → User → ℕ → FeedbackCreate → ℕ → Result (Feedback × Db)
submit_feedback db user room_id body id = do
  room ← or_raise (get room_id db.rooms) (not_found ErrorCode.room_not_found)
  require (is_open_for_feedback room.status) invalid_state_transition
  require (is_some (find (presence_of room_id user.id) db.check_ins)) forbidden
  raise_if (is_some (find (feedback_of room_id user.id) db.feedbacks))
      (conflict ErrorCode.feedback_already_submitted)
  let fb = new_feedback room_id user.id body id
  ok (fb, record db { feedbacks = db.feedbacks ++ fb ∷ [] })

pub record ReportCreate : Type 0 where
  pub reason : String
  pub description : Option String
  pub reported_user_id : Option ℕ
  pub room_id : Option ℕ

-- `reported_user_id is not None and reported_user_id == user.id`
abbrev pub is_self : Option ℕ → User → Bool
is_self none user = false
is_self (some k) user = k == user.id

abbrev pub applied : ℕ → ℕ → RoomApplication → Bool
applied room_id user_id a = a.room_id == room_id && a.user_id == user_id

-- `status.in_((CONFIRMED, PAID, APPROVED))`
abbrev pub is_accepted : ApplicationStatus → Bool
is_accepted ApplicationStatus.confirmed = true
is_accepted ApplicationStatus.paid = true
is_accepted ApplicationStatus.approved = true
is_accepted _ = false

-- the reporter has applied to the room, or has a check-in there
unfoldable pub took_part : Db → ℕ → ℕ → Bool
took_part db room_id user_id =
    is_some (find (check_in_of room_id user_id) db.check_ins)
    || is_some (find (applied room_id user_id) db.applications)

-- the reported user is in the room
unfoldable pub is_guest : Db → ℕ → ℕ → Bool
is_guest db room_id user_id =
    is_some (find (presence_of room_id user_id) db.check_ins)
    || is_some (
        find (λ (a : RoomApplication). applied room_id user_id a && is_accepted a.status)
          db.applications)

-- `if body.reported_user_id is not None`, within the block on the room
unfoldable pub check_reported : Db → ℕ → Option ℕ → Result (Unit {0})
check_reported db room_id none = ok tt
check_reported db room_id (some k) =
    require (is_guest db room_id k) (api_error ErrorCode.invalid_report_target 409)

-- `if body.room_id is not None`
unfoldable pub check_room : Db → User → Option ℕ → Option ℕ → Result (Unit {0})
unfolding check_reported
check_room db user none reported = ok tt
check_room db user (some room_id) reported = do
  _ ← or_raise (get room_id db.rooms) (not_found ErrorCode.room_not_found)
  require (took_part db room_id user.id) forbidden
  check_reported db room_id reported

abbrev pub new_report : User → ReportCreate → ℕ → Report
new_report user body id = record {
  id = id;
  reporter_id = user.id;
  reported_user_id = body.reported_user_id;
  room_id = body.room_id;
  reason = body.reason;
  description = body.description;
  status = ReportStatus.opened;
}

-- the foreign key of `reported_user_id`, which the flush checks
abbrev pub known_user : Db → Option ℕ → Bool
known_user db none = true
known_user db (some k) = is_some (get k db.users)

unfoldable pub submit_report : Db → User → ReportCreate → ℕ → Result (Report × Db)
submit_report db user body id = do
  raise_if (is_self body.reported_user_id user) (api_error ErrorCode.invalid_report_target 409)
  _ ← check_room db user body.room_id body.reported_user_id
  require (known_user db body.reported_user_id) (api_error ErrorCode.integrity_error 500)
  let report = new_report user body id
  ok (report, record db { reports = db.reports ++ report ∷ [] })

abbrev pub profile_of : ℕ → Profile → Bool
profile_of user_id p = p.user_id == user_id

unfoldable pub get_my_profile : Db → User → Result Profile
get_my_profile db user =
    or_raise (find (profile_of user.id) db.profiles) (not_found ErrorCode.profile_not_found)

-- The body's columns are those of the profile `body`; its other three columns are not read.
abbrev pub upserted : Profile → Profile → Profile
upserted p body = record body {
  id = p.id;
  user_id = p.user_id;
  verification_level = p.verification_level;
}

abbrev pub new_profile : User → Profile → ℕ → Profile
new_profile user body id = record body { id = id; user_id = user.id; verification_level = 0 }

unfoldable pub put_profile : Db → User → Profile → ℕ → Option Profile → Profile × Db
put_profile db user body id none =
    let p = new_profile user body id in (p, record db { profiles = db.profiles ++ p ∷ [] })
put_profile db user body id (some old) =
    let p = upserted old body in (p, record db { profiles = save p db.profiles })

unfoldable pub upsert_my_profile : Db → User → Profile → ℕ → Profile × Db
unfolding put_profile
upsert_my_profile db user body id =
    put_profile db user body id (find (profile_of user.id) db.profiles)
