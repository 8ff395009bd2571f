-- ===== src/Model/Rows.antt =====
-- The tables' columns (app/models/*.py). A UUID is a number, compared as its text is; a `datetime`
-- is a number of microseconds; NULL is `none`. `created_at` and `updated_at`, which the database
-- fills in, are not columns here: a table lists its rows in the order of their creation.
use rolling_api.Prelude.{ℤ, ℕ, String, Bool, Option, Row}
use rolling_api.Model.Enums.{
  UserRole, UserStatus, PlannerStatus, RoomStatus, RoomType, RoomVisibility, ApplicationStatus,
  CheckInStatus, RotationSessionStatus, RotationRoundStatus, ChoiceType, MatchStatus,
  AfterDateProposalStatus, ReportStatus, Gender, CreditKind, CreditStatus, CreditSource,
}

-- app/models/user.py
pub record User : Type 0 where
  pub id : ℕ
  pub email : Option String
  pub phone : Option String
  pub password_hash : Option String
  pub role : UserRole
  pub status : UserStatus
  pub last_login_at : Option ℕ
  pub referral_code : Option String
  pub referred_by_user_id : Option ℕ
  pub referral_bonus_emitted : Bool

-- app/models/profile.py
pub record Profile : Type 0 where
  pub id : ℕ
  pub user_id : ℕ
  pub display_name : String
  pub gender : Gender
  pub birth_year : ℕ
  pub region : Option String
  pub job_title : Option String
  pub company_name : Option String
  pub education : Option String
  pub height_cm : Option ℕ
  pub smoking : Option String
  pub drinking : Option String
  pub religion : Option String
  pub relationship_intent : Option String
  pub intro : Option String
  pub friend_intro : Option String
  pub verification_level : ℕ
  pub profile_image_url : Option String

-- app/models/planner.py, without `rating`, which no service writes or tests
pub record Planner : Type 0 where
  pub id : ℕ
  pub user_id : ℕ
  pub name : String
  pub bio : Option String
  pub region : Option String
  pub status : PlannerStatus
  pub total_rooms : ℕ

-- app/models/room.py
pub record Room : Type 0 where
  pub id : ℕ
  pub host_user_id : ℕ
  pub planner_id : Option ℕ
  pub title : String
  pub subtitle : Option String
  pub description : Option String
  pub room_type : RoomType
  pub status : RoomStatus
  pub region : String
  pub venue_name : Option String
  pub venue_address : Option String
  pub starts_at : ℕ
  pub ends_at : ℕ
  pub min_age : Option ℕ
  pub max_age : Option ℕ
  pub male_capacity : ℕ
  pub female_capacity : ℕ
  pub price_amount : ℕ
  pub deposit_amount : ℕ
  pub currency : String
  pub application_deadline : Option ℕ
  pub visibility : RoomVisibility
  pub viable_at : Option ℕ
  pub payment_instructions : Option String

-- app/models/room_application.py
pub record RoomApplication : Type 0 where
  pub id : ℕ
  pub room_id : ℕ
  pub user_id : ℕ
  pub status : ApplicationStatus
  pub applicant_message : Option String
  pub planner_note : Option String
  pub approved_at : Option ℕ
  pub rejected_at : Option ℕ
  pub cancelled_at : Option ℕ

-- app/models/checkin.py
pub record CheckIn : Type 0 where
  pub id : ℕ
  pub room_id : ℕ
  pub user_id : ℕ
  pub application_id : ℕ
  pub status : CheckInStatus
  pub checked_in_at : Option ℕ
  pub check_in_code : Option String

-- app/models/rotation_session.py
pub record RotationSession : Type 0 where
  pub id : ℕ
  pub room_id : ℕ
  pub status : RotationSessionStatus
  pub current_round : ℕ
  pub round_duration_minutes : ℤ
  pub started_at : Option ℕ
  pub ended_at : Option ℕ

-- app/models/rotation_round.py
pub record RotationRound : Type 0 where
  pub id : ℕ
  pub session_id : ℕ
  pub room_id : ℕ
  pub round_number : ℕ
  pub starts_at : Option ℕ
  pub ends_at : Option ℕ
  pub status : RotationRoundStatus

-- app/models/seat_assignment.py
pub record SeatAssignment : Type 0 where
  pub id : ℕ
  pub room_id : ℕ
  pub session_id : ℕ
  pub round_id : ℕ
  pub participant_a_id : ℕ
  pub participant_b_id : ℕ
  pub table_number : ℕ

-- app/models/participant_choice.py
pub record ParticipantChoice : Type 0 where
  pub id : ℕ
  pub room_id : ℕ
  pub chooser_id : ℕ
  pub chosen_id : ℕ
  pub choice_type : ChoiceType
  pub note : Option String

-- app/models/match_result.py
pub record MatchResult : Type 0 where
  pub id : ℕ
  pub room_id : ℕ
  pub user_a_id : ℕ
  pub user_b_id : ℕ
  pub status : MatchStatus
  pub visible_at : Option ℕ

-- app/models/after_date_proposal.py
pub record AfterDateProposal : Type 0 where
  pub id : ℕ
  pub match_result_id : ℕ
  pub proposer_id : ℕ
  pub proposed_date : Option ℕ
  pub proposed_place : Option String
  pub status : AfterDateProposalStatus

-- app/models/feedback.py
pub record Feedback : Type 0 where
  pub id : ℕ
  pub room_id : ℕ
  pub user_id : ℕ
  pub rating : ℕ
  pub comment : Option String
  pub safety_rating : Option ℕ
  pub planner_rating : Option ℕ
  pub would_join_again : Option Bool

-- app/models/report.py
pub record Report : Type 0 where
  pub id : ℕ
  pub reporter_id : ℕ
  pub reported_user_id : Option ℕ
  pub room_id : Option ℕ
  pub reason : String
  pub description : Option String
  pub status : ReportStatus

-- app/models/credit.py
pub record Credit : Type 0 where
  pub id : ℕ
  pub user_id : ℕ
  pub kind : CreditKind
  pub amount_krw : Option ℕ
  pub percent_off : Option ℕ
  pub max_discount_krw : Option ℕ
  pub status : CreditStatus
  pub source : CreditSource
  pub source_room_id : Option ℕ
  pub source_user_id : Option ℕ
  pub expires_at : ℕ
  pub used_at : Option ℕ
  pub used_on_application_id : Option ℕ
  pub description : Option String

-- app/models/refresh_token.py
pub record RefreshToken : Type 0 where
  pub id : ℕ
  pub user_id : ℕ
  pub token_hash : String
  pub expires_at : ℕ
  pub revoked : Bool
  pub revoked_at : Option ℕ
  pub user_agent : Option String
  pub ip_address : Option String

instance abbrev pub user_row : Row User
user_row = record { key = λ x. x.id }

instance abbrev pub profile_row : Row Profile
profile_row = record { key = λ x. x.id }

instance abbrev pub planner_row : Row Planner
planner_row = record { key = λ x. x.id }

instance abbrev pub room_row : Row Room
room_row = record { key = λ x. x.id }

instance abbrev pub application_row : Row RoomApplication
application_row = record { key = λ x. x.id }

instance abbrev pub checkin_row : Row CheckIn
checkin_row = record { key = λ x. x.id }

instance abbrev pub session_row : Row RotationSession
session_row = record { key = λ x. x.id }

instance abbrev pub choice_row : Row ParticipantChoice
choice_row = record { key = λ x. x.id }

instance abbrev pub match_row : Row MatchResult
match_row = record { key = λ x. x.id }

instance abbrev pub report_row : Row Report
report_row = record { key = λ x. x.id }

instance abbrev pub token_row : Row RefreshToken
token_row = record { key = λ x. x.id }

instance abbrev pub round_row : Row RotationRound
round_row = record { key = λ x. x.id }
