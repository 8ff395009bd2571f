-- ===== src/Model/Audit.antt =====
-- app/models/audit_log.py, and the snapshots that the services store in `before` and `after`.
use rolling_api.Prelude.{ℤ, ℕ, String, Option}
use rolling_api.Model.Enums.{UserStatus, PlannerStatus, RoomStatus, ReportStatus, ApplicationStatus}

-- the JSON objects that `before` and `after` hold
pub data Snapshot : Type 0 where
  user_snapshot : UserStatus → Snapshot
  planner_snapshot : PlannerStatus → Snapshot
  report_snapshot : ReportStatus → Option String → Snapshot
  room_snapshot : Option ℕ → RoomStatus → Snapshot
  status_snapshot : RoomStatus → Snapshot
  application_snapshot : ApplicationStatus → Snapshot
  count_snapshot : ℕ → Snapshot
  duration_snapshot : ℤ → Snapshot

-- the values of `action`; `user_set s` is f"user.{s}"
pub data AuditAction : Type 0 where
  user_set : UserStatus → AuditAction
  planner_set : PlannerStatus → AuditAction
  report_set : ReportStatus → AuditAction
  room_assigned room_confirmed room_published application_mark_paid : AuditAction
  checkin_opened rotation_started rotation_completed : AuditAction

pub data EntityType : Type 0 where
  user_entity planner_entity report_entity room_entity application_entity : EntityType
  session_entity : EntityType

pub record AuditLog : Type 0 where
  pub id : ℕ
  pub actor_user_id : Option ℕ
  pub action : AuditAction
  pub entity_type : EntityType
  pub entity_id : Option ℕ
  pub before : Option Snapshot
  pub after : Option Snapshot
  pub ip_address : Option String
  pub user_agent : Option String
