-- ===== src/Admin.antt =====
-- app/services/admin_service.py: the operations that write, each with the audit row that
-- app/services/audit_service.py appends, and the assignment queue.
pub mod Trail
pub mod Lists
pub mod Queue
use Prim.Native.String.{◌++◌ as str_append}
use rolling_api.Prelude.{
  ℕ, String, Bool, true, false, ◌&&◌, not, Option, none, some, List, [], ◌∷◌, ◌++◌, ltb, leb, ◌==◌,
  if◌then◌else◌, any, select, get, save, Result, ok, err, ErrorCode, api_error, not_found,
  invalid_state_transition, ◌>>=◌, ◌>>◌, require, raise_if, or_raise,
}
use rolling_api.Model.{
  Db, User, UserStatus, Planner, PlannerStatus, Room, RoomStatus, Report, ReportStatus, AuditLog,
  AuditAction, EntityType, Snapshot, user_row, planner_row, room_row, report_row,
}

-- who acts and from where, with the identifier that the audit row takes
pub record Actor : Type 0 where
  pub user : User
  pub ip : Option String
  pub ua : Option String
  pub log_id : ℕ

abbrev pub new_log :
    Actor → AuditAction → EntityType → ℕ → Option Snapshot → Option Snapshot → AuditLog
new_log actor action entity_type entity_id before after = record {
  id = actor.log_id;
  actor_user_id = some actor.user.id;
  action = action;
  entity_type = entity_type;
  entity_id = some entity_id;
  before = before;
  after = after;
  ip_address = actor.ip;
  user_agent = actor.ua;
}

-- `audit_service.log_action`, for an actor that is there
unfoldable pub log_action :
    Db → Actor → AuditAction → EntityType → ℕ → Option Snapshot → Option Snapshot → Db
log_action db actor action entity_type entity_id before after = record db {
  audit_logs = db.audit_logs ++ new_log actor action entity_type entity_id before after ∷ [];
}

unfoldable pub set_user_status : Db → Actor → ℕ → UserStatus → Result (User × Db)
set_user_status db actor user_id new_status = do
  user ← or_raise (get user_id db.users) (not_found ErrorCode.user_not_found)
  raise_if (user.id == actor.user.id) (api_error ErrorCode.invalid_target 409)
  let user' = record user { status = new_status }
  let flushed = record db { users = save user' db.users }
  ok (
    user',
    log_action flushed actor (AuditAction.user_set new_status) EntityType.user_entity user.id
        (some (Snapshot.user_snapshot user.status)) (some (Snapshot.user_snapshot new_status)),
  )

unfoldable pub set_planner_status : Db → Actor → ℕ → PlannerStatus → Result (Planner × Db)
set_planner_status db actor planner_id new_status = do
  planner ← or_raise (get planner_id db.planners) (not_found ErrorCode.planner_not_found)
  let planner' = record planner { status = new_status }
  let flushed = record db { planners = save planner' db.planners }
  ok (
    planner',
    log_action flushed actor (AuditAction.planner_set new_status) EntityType.planner_entity
        planner.id (some (Snapshot.planner_snapshot planner.status))
        (some (Snapshot.planner_snapshot new_status)),
  )

abbrev pub is_assignable : RoomStatus → Bool
is_assignable RoomStatus.viable = true
is_assignable RoomStatus.assigned = true
is_assignable _ = false

abbrev pub is_approved : PlannerStatus → Bool
is_approved PlannerStatus.approved = true
is_approved _ = false

unfoldable pub assign_planner_to_room : Db → Actor → ℕ → ℕ → Result (Room × Db)
assign_planner_to_room db actor room_id planner_id = do
  room ← or_raise (get room_id db.rooms) (not_found ErrorCode.room_not_found)
  require (is_assignable room.status) invalid_state_transition
  planner ← or_raise (get planner_id db.planners) (not_found ErrorCode.planner_not_found)
  require (is_approved planner.status) (api_error ErrorCode.planner_not_approved 409)
  let room' = record room { planner_id = some planner.id; status = RoomStatus.assigned }
  let flushed = record db { rooms = save room' db.rooms }
  ok (
    room',
    log_action flushed actor AuditAction.room_assigned EntityType.room_entity room.id
        (some (Snapshot.room_snapshot room.planner_id room.status))
        (some (Snapshot.room_snapshot (some planner.id) RoomStatus.assigned)),
  )

abbrev pub is_undecided : ReportStatus → Bool
is_undecided ReportStatus.opened = true
is_undecided ReportStatus.investigating = true
is_undecided _ = false

-- `report.description or ""`
abbrev pub text_or_empty : Option String → String
text_or_empty none = ""
text_or_empty (some text) = text

-- `if note is not None: report.description = (report.description or "") + f"\n[admin] {note}"`
abbrev pub annotated : Option String → Option String → Option String
annotated none description = description
annotated (some text) description =
    some (str_append (text_or_empty description) (str_append "\n[admin] " text))

unfoldable pub set_report_status :
    Db → Actor → ℕ → ReportStatus → Option String → Result (Report × Db)
set_report_status db actor report_id new_status note = do
  report ← or_raise (get report_id db.reports) (not_found ErrorCode.report_not_found)
  require (is_undecided report.status) invalid_state_transition
  let report' = record report {
    status = new_status;
    description = annotated note report.description;
  }
  let flushed = record db { reports = save report' db.reports }
  ok (
    report',
    log_action flushed actor (AuditAction.report_set new_status) EntityType.report_entity report.id
        (some (Snapshot.report_snapshot report.status report.description))
        (some (Snapshot.report_snapshot new_status (annotated note report.description))),
  )
