-- ===== src/Model/Enums.antt =====
-- app/models/_enums.py: the enumerations that the status and kind columns hold.
-- `open`, `mutual` and `none` are spelled `opened`, `mutual_match` and `no_match`.

pub data UserRole : Type 0 where
  participant planner admin : UserRole

pub data UserStatus : Type 0 where
  active blocked withdrawn : UserStatus

pub data PlannerStatus : Type 0 where
  pending approved suspended : PlannerStatus

pub data RoomStatus : Type 0 where
  draft published recruiting viable assigned confirmed in_progress completed cancelled : RoomStatus

pub data RoomType : Type 0 where
  three_by_three four_by_four six_by_six offline_party theme_based : RoomType

pub data RoomVisibility : Type 0 where
  public private : RoomVisibility

pub data ApplicationStatus : Type 0 where
  submitted approved rejected waitlisted payment_pending paid confirmed cancelled :
      ApplicationStatus

pub data CheckInStatus : Type 0 where
  not_open opened checked_in no_show : CheckInStatus

pub data RotationSessionStatus : Type 0 where
  pending running paused completed : RotationSessionStatus

pub data RotationRoundStatus : Type 0 where
  pending active completed : RotationRoundStatus

pub data ChoiceType : Type 0 where
  interested not_interested maybe : ChoiceType

pub data MatchStatus : Type 0 where
  pending mutual_match one_sided no_match after_proposed after_confirmed closed : MatchStatus

pub data AfterDateProposalStatus : Type 0 where
  proposed accepted declined cancelled : AfterDateProposalStatus

pub data ReportStatus : Type 0 where
  opened investigating resolved dismissed : ReportStatus

pub data Gender : Type 0 where
  male female other : Gender

pub data CreditKind : Type 0 where
  fixed_amount percent : CreditKind

pub data CreditStatus : Type 0 where
  active used expired voided : CreditStatus

pub data CreditSource : Type 0 where
  viable_host_bonus referral_host referral_friend manual_grant : CreditSource
