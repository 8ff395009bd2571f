-- ===== src/Application.antt =====
-- Applications: app/services/application_service.py, and the host's side of them in
-- app/services/host_service.py with the referral bonus that a confirmation pays.
pub mod Operations
pub mod Final
pub mod Rights
pub mod Referral
use text.Mathlib.Text.{◌==◌ as str_eq}
use rolling_api.Prelude.{
  ℕ, String, Bool, true, false, ◌&&◌, ◌||◌, not, Option, none, some, List, [], ◌∷◌, ◌++◌, ltb, leb,
  ◌==◌, if◌then◌else◌, find, get, save, Result, ok, err, ErrorCode, api_error, forbidden, not_found,
  conflict, invalid_state_transition, ◌>>=◌, ◌>>◌, require, raise_if, or_raise,
}
use rolling_api.Model.{
  Db, User, Profile, Room, RoomStatus, RoomApplication, ApplicationStatus, user_row, room_row,
  application_row,
}
use rolling_api.Credit.{PairDraw, issue_referral_pair}
use rolling_api.Viability.{PromoteDraw, maybe_promote_to_viable}

-- APPLICATION_OPEN_STATUSES
abbrev pub is_open_for_applications : RoomStatus → Bool
is_open_for_applications RoomStatus.published = true
is_open_for_applications RoomStatus.recruiting = true
is_open_for_applications RoomStatus.viable = true
is_open_for_applications RoomStatus.assigned = true
is_open_for_applications _ = false

-- `room.application_deadline and now > room.application_deadline`
abbrev pub deadline_passed : Option ℕ → ℕ → Bool
deadline_passed none now = false
deadline_passed (some t) now = ltb t now

-- a text column used as a test: neither NULL nor empty
abbrev pub is_filled : Option String → Bool
is_filled none = false
is_filled (some t) = not (str_eq t "")

-- `profile_service.is_profile_complete`; the gender is one of three non-empty words
unfoldable pub is_profile_complete : Option Profile → Bool
is_profile_complete none = false
is_profile_complete (some p) =
    is_filled (some p.display_name) && (not (p.birth_year == 0) && is_filled p.region)

abbrev pub is_cancelled : ApplicationStatus → Bool
is_cancelled ApplicationStatus.cancelled = true
is_cancelled _ = false

abbrev pub application_of : ℕ → ℕ → RoomApplication → Bool
application_of room_id user_id a = a.room_id == room_id && a.user_id == user_id

abbrev pub new_application : ℕ → ℕ → Option String → ℕ → RoomApplication
new_application room_id user_id message id = record {
  id = id;
  room_id = room_id;
  user_id = user_id;
  status = ApplicationStatus.submitted;
  applicant_message = message;
  planner_note = none;
  approved_at = none;
  rejected_at = none;
  cancelled_at = none;
}

abbrev pub reactivated : RoomApplication → Option String → RoomApplication
reactivated a message = record a {
  status = ApplicationStatus.submitted;
  applicant_message = message;
  cancelled_at = none;
}

-- what follows the search for an earlier application of this user
unfoldable pub submit :
    Db → ℕ → ℕ → Option String → ℕ → Option RoomApplication → Result (RoomApplication × Db)
submit db room_id user_id message id none =
    let a = new_application room_id user_id message id in
    ok (a, record db { applications = db.applications ++ a ∷ [] })
submit db room_id user_id message id (some existing) =
    if is_cancelled existing.status
    then (let a = reactivated existing message in
        ok (a, record db { applications = save a db.applications }))
    else err (conflict ErrorCode.application_already_exists)

unfoldable pub apply_to_room : Db → User → ℕ → Option String → ℕ → ℕ → Result (RoomApplication × Db)
unfolding submit
apply_to_room db user room_id message now id = do
  room ← or_raise (get room_id db.rooms) (not_found ErrorCode.room_not_found)
  require (is_open_for_applications room.status)
      (api_error ErrorCode.room_not_accepting_applications 409)
  raise_if (deadline_passed room.application_deadline now)
      (api_error ErrorCode.application_deadline_passed 409)
  require (is_profile_complete (find (λ (p : Profile). p.user_id == user.id) db.profiles))
      (api_error ErrorCode.profile_incomplete 409)
  submit db room_id user.id message id (find (application_of room_id user.id) db.applications)

-- `cancellable_from`
abbrev pub is_cancellable : ApplicationStatus → Bool
is_cancellable ApplicationStatus.submitted = true
is_cancellable ApplicationStatus.waitlisted = true
is_cancellable ApplicationStatus.approved = true
is_cancellable ApplicationStatus.payment_pending = true
is_cancellable _ = false

unfoldable pub cancel_my_application : Db → User → ℕ → ℕ → Result (RoomApplication × Db)
cancel_my_application db user application_id now = do
  app ← or_raise (get application_id db.applications) (not_found ErrorCode.application_not_found)
  require (app.user_id == user.id) forbidden
  require (is_cancellable app.status) invalid_state_transition
  let a = record app { status = ApplicationStatus.cancelled; cancelled_at = some now }
  ok (a, record db { applications = save a db.applications })

-- `room is None or room.host_user_id != user.id`, denied
abbrev pub is_host : Option Room → User → Bool
is_host none user = false
is_host (some room) user = room.host_user_id == user.id

-- `_get_owned_application`
unfoldable pub owned_application : Db → User → ℕ → Result RoomApplication
owned_application db user application_id = do
  app ← or_raise (get application_id db.applications) (not_found ErrorCode.application_not_found)
  require (is_host (get app.room_id db.rooms) user) forbidden
  ok app

-- `if note is not None: app.planner_note = note`
abbrev pub noted : Option String → Option String → Option String
noted none old = old
noted (some text) old = some text

abbrev pub is_approvable : ApplicationStatus → Bool
is_approvable ApplicationStatus.submitted = true
is_approvable ApplicationStatus.waitlisted = true
is_approvable _ = false

unfoldable pub approve_application :
    Db → User → ℕ → Option String → ℕ → Result (RoomApplication × Db)
approve_application db user application_id note now = do
  app ← owned_application db user application_id
  require (is_approvable app.status) invalid_state_transition
  let a = record app {
    status = ApplicationStatus.approved;
    planner_note = noted note app.planner_note;
    approved_at = some now;
  }
  ok (a, record db { applications = save a db.applications })

abbrev pub is_rejectable : ApplicationStatus → Bool
is_rejectable ApplicationStatus.submitted = true
is_rejectable ApplicationStatus.waitlisted = true
is_rejectable ApplicationStatus.approved = true
is_rejectable ApplicationStatus.payment_pending = true
is_rejectable _ = false

unfoldable pub reject_application :
    Db → User → ℕ → Option String → ℕ → Result (RoomApplication × Db)
reject_application db user application_id note now = do
  app ← owned_application db user application_id
  require (is_rejectable app.status) invalid_state_transition
  let a = record app {
    status = ApplicationStatus.rejected;
    planner_note = noted note app.planner_note;
    rejected_at = some now;
  }
  ok (a, record db { applications = save a db.applications })

abbrev pub is_submitted : ApplicationStatus → Bool
is_submitted ApplicationStatus.submitted = true
is_submitted _ = false

unfoldable pub waitlist_application : Db → User → ℕ → Option String → Result (RoomApplication × Db)
waitlist_application db user application_id note = do
  app ← owned_application db user application_id
  require (is_submitted app.status) invalid_state_transition
  let a = record app {
    status = ApplicationStatus.waitlisted;
    planner_note = noted note app.planner_note;
  }
  ok (a, record db { applications = save a db.applications })

-- the payment and the flag, for an applicant who was referred and has not been counted yet
abbrev pub pay_referral : Db → User → ℕ → PairDraw → Db
pay_referral db applicant referrer d =
    let db' = (issue_referral_pair db referrer applicant.id d).1 in
    record db' { users = save (record applicant { referral_bonus_emitted = true }) db'.users }

unfoldable pub emit_for : Db → User → Option ℕ → PairDraw → Db
emit_for db applicant none d = db
emit_for db applicant (some referrer) d =
    if applicant.referral_bonus_emitted then db else pay_referral db applicant referrer d

-- `_maybe_emit_referral_bonus`
unfoldable pub maybe_emit_referral_bonus : Db → ℕ → PairDraw → Db
unfolding emit_for
maybe_emit_referral_bonus db user_id d = elim (get user_id db.users) [
  | none ↦ db
  | some applicant ↦ emit_for db applicant applicant.referred_by_user_id d
]

abbrev pub is_payable : ApplicationStatus → Bool
is_payable ApplicationStatus.approved = true
is_payable ApplicationStatus.payment_pending = true
is_payable ApplicationStatus.paid = true
is_payable _ = false

unfoldable pub mark_application_paid :
    Db → User → ℕ → PromoteDraw → PairDraw → Result (RoomApplication × Db)
mark_application_paid db user application_id d e = do
  app ← owned_application db user application_id
  require (is_payable app.status) invalid_state_transition
  let a = record app { status = ApplicationStatus.confirmed }
  let flushed = record db { applications = save a db.applications }
  let promoted = (maybe_promote_to_viable flushed a.room_id d).1
  ok (a, maybe_emit_referral_bonus promoted a.user_id e)
