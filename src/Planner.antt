-- ===== src/Planner.antt =====
-- app/services/planner_service.py: the planner of an account, the assigned rooms and their
-- confirmation, and the dashboard.
pub mod Confirm
use rolling_api.Prelude.{
  ℕ, ◌+◌, ◌-◌, ◌*◌, ◌%◌, Bool, true, false, ◌&&◌, not, Option, none, some, List, [], ◌∷◌, ltb, leb,
  ◌==◌, opt_eq, if◌then◌else◌, any, find, select, count, get, save, Result, ok, err, ErrorCode,
  api_error, forbidden, not_found, invalid_state_transition, ◌>>=◌, ◌>>◌, require, raise_if,
  or_raise,
}
use rolling_api.Model.{
  Db, User, Planner, PlannerStatus, Room, RoomStatus, RoomApplication, CheckIn, CheckInStatus,
  room_row,
}
use rolling_api.Viability.{get_capacity_summary, RoomCapacitySummary}

abbrev pub is_approved : PlannerStatus → Bool
is_approved PlannerStatus.approved = true
is_approved _ = false

unfoldable pub get_planner_for_user : Db → User → Result Planner
get_planner_for_user db user = do
  planner ← or_raise (find (λ (p : Planner). p.user_id == user.id) db.planners) forbidden
  require (is_approved planner.status) forbidden
  ok planner

-- `_get_assigned_room`, which `get_assigned_room` returns; app/services/checkin_service.py writes
-- it out once more
unfoldable pub assigned_room : Db → Planner → ℕ → Result Room
assigned_room db planner room_id = do
  room ← or_raise (get room_id db.rooms) (not_found ErrorCode.room_not_found)
  require (opt_eq room.planner_id planner.id) forbidden
  ok room

-- CONFIRMABLE_FROM
abbrev pub is_confirmable : RoomStatus → Bool
is_confirmable RoomStatus.assigned = true
is_confirmable _ = false

unfoldable pub confirm_room : Db → Planner → ℕ → Result (Room × Db)
confirm_room db planner room_id = do
  room ← assigned_room db planner room_id
  require (is_confirmable room.status) invalid_state_transition
  let summary = get_capacity_summary db room.id room
  raise_if (summary.male_confirmed + summary.female_confirmed == 0)
      (api_error ErrorCode.room_not_ready 409)
  raise_if (ltb summary.male_capacity summary.male_confirmed)
      (api_error ErrorCode.over_capacity 409)
  raise_if (ltb summary.female_capacity summary.female_confirmed)
      (api_error ErrorCode.over_capacity 409)
  let room' = record room { status = RoomStatus.confirmed }
  ok (room', record db { rooms = save room' db.rooms })

unfoldable pub get_room_summary_counts : Db → Room → RoomCapacitySummary × ℕ × ℕ
get_room_summary_counts db room =
    let summary = get_capacity_summary db room.id room in
    (
      summary,
      summary.male_confirmed + summary.female_confirmed,
      count (λ (a : RoomApplication). a.room_id == room.id) db.applications,
    )

pub record PlannerDashboard : Type 0 where
  pub upcoming_rooms : ℕ
  pub in_progress_rooms : ℕ
  pub pending_applications : ℕ
  pub today_checkins : ℕ
  pub completed_rooms : ℕ

abbrev pub is_upcoming : RoomStatus → Bool
is_upcoming RoomStatus.assigned = true
is_upcoming RoomStatus.confirmed = true
is_upcoming _ = false

abbrev pub is_in_progress : RoomStatus → Bool
is_in_progress RoomStatus.in_progress = true
is_in_progress _ = false

abbrev pub is_completed : RoomStatus → Bool
is_completed RoomStatus.completed = true
is_completed _ = false

abbrev pub of_planner : Planner → Room → Bool
of_planner planner room = opt_eq room.planner_id planner.id

-- microseconds of a second and of a day
abbrev pub second : ℕ
second = 1_000_000

abbrev pub day : ℕ
day = 86_400 * second

-- `now.replace(hour=0, minute=0, second=0, microsecond=0)`, and 23:59:59 of that day
abbrev pub today_start : ℕ → ℕ
today_start now = now - now % day

abbrev pub today_end : ℕ → ℕ
today_end now = today_start now + 86_399 * second

abbrev pub between : ℕ → ℕ → Option ℕ → Bool
between lo hi none = false
between lo hi (some t) = leb lo t && leb t hi

abbrev pub attended : CheckInStatus → Bool
attended CheckInStatus.checked_in = true
attended _ = false

-- the number of rows of the join of check-ins with rooms
unfoldable pub count_today : List CheckIn → List Room → Planner → ℕ → ℕ
count_today [] rooms planner now = 0
count_today (c ∷ cs) rooms planner now =
    let rest = count_today cs rooms planner now in
    if attended c.status && between (today_start now) (today_end now) c.checked_in_at
    then count (λ (r : Room). r.id == c.room_id && of_planner planner r) rooms + rest
    else rest

unfoldable pub dashboard_counts : Db → Planner → ℕ → PlannerDashboard
dashboard_counts db planner now = record {
  upcoming_rooms =
      count (λ (r : Room). of_planner planner r && (is_upcoming r.status && leb now r.starts_at))
        db.rooms;
  in_progress_rooms =
      count (λ (r : Room). of_planner planner r && is_in_progress r.status) db.rooms;
  pending_applications =
      count (λ (r : Room). of_planner planner r && is_confirmable r.status) db.rooms;
  today_checkins = count_today db.check_ins db.rooms planner now;
  completed_rooms = count (λ (r : Room). of_planner planner r && is_completed r.status) db.rooms;
}
