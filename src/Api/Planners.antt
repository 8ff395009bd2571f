-- ===== src/Api/Planners.antt =====
-- app/api/v1/planner.py: an approved planner runs the rooms that were assigned to it.
use rolling_api.Prelude.{ℤ, ℕ, String, Option, none, some, List, map, ◌==◌, find, length}
use rolling_api.Model.{
  Db, User, Profile, Gender, Room, CheckIn, CheckInStatus, AuditAction, EntityType, Snapshot,
}
use rolling_api.Viability.{RoomCapacitySummary}
use rolling_api.Planner.{
  PlannerDashboard, get_planner_for_user, assigned_room, confirm_room, get_room_summary_counts,
  dashboard_counts,
}
use rolling_api.Checkin.{OpenDraw, open_checkin, confirm_checkin_by_id, mark_no_show}
use rolling_api.Rotation.{StartDraw, start_session, next_round, end_session}
use rolling_api.Rotation.Views.{RotationSessionView, get_session_view}
use rolling_api.Readings
use rolling_api.Readings.{column, nullable, list_assigned_rooms}
use rolling_api.Api.{Tx, ◌>>=◌, ◌>>◌, return, query, read, call, commit, Http, log}

unfoldable pub dashboard : User → ℕ → Tx PlannerDashboard
dashboard user now = do
  planner ← query (λ db. get_planner_for_user db user)
  read (λ db. dashboard_counts db planner now)

unfoldable pub list_assigned : User → Tx (List Room)
list_assigned user = do
  planner ← query (λ db. get_planner_for_user db user)
  read (λ db. list_assigned_rooms db planner)

pub record PlannerRoomDetail : Type 0 where
  pub room : Room
  pub capacity_summary : RoomCapacitySummary
  pub pending_application_count : ℕ
  pub submitted_application_count : ℕ

unfoldable pub get_assigned_room : User → ℕ → Tx PlannerRoomDetail
get_assigned_room user room_id = do
  planner ← query (λ db. get_planner_for_user db user)
  room ← query (λ db. assigned_room db planner room_id)
  (summary, confirmed, submitted) ← read (λ db. get_room_summary_counts db room)
  return (record {
    room = room;
    capacity_summary = summary;
    pending_application_count = confirmed;
    submitted_application_count = submitted;
  })

unfoldable pub confirm_assigned_room : Http → User → ℕ → Tx Room
confirm_assigned_room http user room_id = do
  planner ← query (λ db. get_planner_for_user db user)
  room ← call (λ db. confirm_room db planner room_id)
  log http user AuditAction.room_confirmed EntityType.room_entity room.id
      (some (Snapshot.status_snapshot room.status))
  commit
  return room

-- check-in

pub record CheckInPlannerItem : Type 0 where
  pub id : ℕ
  pub user_id : ℕ
  pub application_id : ℕ
  pub status : CheckInStatus
  pub checked_in_at : Option ℕ
  pub check_in_code : Option String
  pub display_name : Option String
  pub gender : Option Gender
  pub birth_year : Option ℕ
  pub region : Option String

-- `_checkin_item`
abbrev pub checkin_item : CheckIn × Option Profile → CheckInPlannerItem
checkin_item (c, p) = record {
  id = c.id;
  user_id = c.user_id;
  application_id = c.application_id;
  status = c.status;
  checked_in_at = c.checked_in_at;
  check_in_code = c.check_in_code;
  display_name = column (λ (x : Profile). x.display_name) p;
  gender = column (λ (x : Profile). x.gender) p;
  birth_year = column (λ (x : Profile). x.birth_year) p;
  region = nullable (λ (x : Profile). x.region) p;
}

-- the item of one check-in, with the profile that its route reads
abbrev pub with_profile : CheckIn → Db → CheckInPlannerItem
with_profile c db = checkin_item (c, find (λ (p : Profile). p.user_id == c.user_id) db.profiles)

unfoldable pub open_room_checkin : Http → User → ℕ → OpenDraw → Tx (List CheckInPlannerItem)
open_room_checkin http user room_id d = do
  planner ← query (λ db. get_planner_for_user db user)
  _ ← query (λ db. assigned_room db planner room_id)
  checkins ← call (λ db. open_checkin db planner room_id d)
  log http user AuditAction.checkin_opened EntityType.room_entity room_id
      (some (Snapshot.count_snapshot (length checkins)))
  commit
  rows ← query (λ db. Readings.list_room_checkins db planner room_id)
  return (map checkin_item rows)

unfoldable pub list_room_checkins : User → ℕ → Tx (List CheckInPlannerItem)
list_room_checkins user room_id = do
  planner ← query (λ db. get_planner_for_user db user)
  _ ← query (λ db. assigned_room db planner room_id)
  rows ← query (λ db. Readings.list_room_checkins db planner room_id)
  return (map checkin_item rows)

unfoldable pub confirm_checkin : User → ℕ → ℕ → Tx CheckInPlannerItem
confirm_checkin user checkin_id now = do
  planner ← query (λ db. get_planner_for_user db user)
  ck ← call (λ db. confirm_checkin_by_id db planner checkin_id now)
  commit
  read (with_profile ck)

unfoldable pub mark_checkin_no_show : User → ℕ → Tx CheckInPlannerItem
mark_checkin_no_show user checkin_id = do
  planner ← query (λ db. get_planner_for_user db user)
  ck ← call (λ db. mark_no_show db planner checkin_id)
  commit
  read (with_profile ck)

-- rotation

unfoldable pub start_rotation : Http → User → ℕ → ℤ → StartDraw → Tx RotationSessionView
start_rotation http user room_id minutes d = do
  planner ← query (λ db. get_planner_for_user db user)
  session ← call (λ db. start_session db planner room_id minutes d)
  log http user AuditAction.rotation_started EntityType.session_entity session.id
      (some (Snapshot.duration_snapshot minutes))
  commit
  query (λ db. get_session_view db planner room_id)

unfoldable pub advance_rotation : User → ℕ → ℕ → ℕ → Tx RotationSessionView
advance_rotation user room_id now now' = do
  planner ← query (λ db. get_planner_for_user db user)
  _ ← call (λ db. next_round db planner room_id now now')
  commit
  query (λ db. get_session_view db planner room_id)

unfoldable pub finish_rotation : Http → User → ℕ → ℕ → Tx RotationSessionView
finish_rotation http user room_id now = do
  planner ← query (λ db. get_planner_for_user db user)
  session ← call (λ db. end_session db planner room_id now)
  log http user AuditAction.rotation_completed EntityType.session_entity session.id none
  commit
  query (λ db. get_session_view db planner room_id)

unfoldable pub get_rotation : User → ℕ → Tx RotationSessionView
get_rotation user room_id = do
  planner ← query (λ db. get_planner_for_user db user)
  query (λ db. get_session_view db planner room_id)
