-- ===== src/Model.antt =====
-- app/models: the enumerations, the rows and the database as the list of its tables.
mod Enums
mod Rows
mod Audit
pub use Enums.{
  UserRole, UserStatus, PlannerStatus, RoomStatus, RoomType, RoomVisibility, ApplicationStatus,
  CheckInStatus, RotationSessionStatus, RotationRoundStatus, ChoiceType, MatchStatus,
  AfterDateProposalStatus, ReportStatus, Gender, CreditKind, CreditStatus, CreditSource,
}
pub use Rows.*
pub use Audit.*
use rolling_api.Prelude.{ℕ, List}

pub record Db : Type 0 where
  pub users : List User
  pub profiles : List Profile
  pub planners : List Planner
  pub rooms : List Room
  pub applications : List RoomApplication
  pub check_ins : List CheckIn
  pub sessions : List RotationSession
  pub rounds : List RotationRound
  pub seats : List SeatAssignment
  pub choices : List ParticipantChoice
  pub matches : List MatchResult
  pub proposals : List AfterDateProposal
  pub feedbacks : List Feedback
  pub reports : List Report
  pub credits : List Credit
  pub tokens : List RefreshToken
  pub audit_logs : List AuditLog
