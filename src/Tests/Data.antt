-- ===== src/Tests/Data.antt =====
-- The data of the runs: a host, two guests, a planner and an administrator, and one room.
use rolling_api.Prelude.{ℕ, String, false, Option, none, some, [], ◌∷◌, Result, ok, err}
use rolling_api.Model.{
  Db, User, UserRole, UserStatus, Profile, Gender, Planner, PlannerStatus, Room, RoomStatus,
  RoomType, RoomVisibility, RoomApplication, ApplicationStatus, CheckIn, CheckInStatus,
}

-- the value of a call that returned, and else a given one
abbrev pub value_or {ℓ} : {A : Type ℓ} → A → Result A → A
value_or a (ok b) = b
value_or a (err e) = a

abbrev pub user : ℕ → String → UserRole → Option ℕ → User
user id email role referrer = record {
  id = id;
  email = some email;
  phone = none;
  password_hash = none;
  role = role;
  status = UserStatus.active;
  last_login_at = none;
  referral_code = none;
  referred_by_user_id = referrer;
  referral_bonus_emitted = false;
}

abbrev pub host : User
host = user 1 "host" UserRole.participant none

-- a guest whom the host has referred
abbrev pub anna : User
anna = user 2 "anna" UserRole.participant (some 1)

abbrev pub ben : User
ben = user 3 "ben" UserRole.participant none

abbrev pub operator : User
operator = user 8 "operator" UserRole.planner none

abbrev pub chief : User
chief = user 9 "chief" UserRole.admin none

abbrev pub profile : ℕ → ℕ → String → Gender → Profile
profile id user_id name gender = record {
  id = id;
  user_id = user_id;
  display_name = name;
  gender = gender;
  birth_year = 1990;
  region = some "Seoul";
  job_title = none;
  company_name = none;
  education = none;
  height_cm = none;
  smoking = none;
  drinking = none;
  religion = none;
  relationship_intent = none;
  intro = none;
  friend_intro = none;
  verification_level = 0;
  profile_image_url = none;
}

abbrev pub planner : Planner
planner = record {
  id = 7;
  user_id = 8;
  name = "planner";
  bio = none;
  region = none;
  status = PlannerStatus.approved;
  total_rooms = 0;
}

abbrev pub room_in : RoomStatus → Option ℕ → Room
room_in status planner_id = record {
  id = 10;
  host_user_id = 1;
  planner_id = planner_id;
  title = "room";
  subtitle = none;
  description = none;
  room_type = RoomType.three_by_three;
  status = status;
  region = "Seoul";
  venue_name = none;
  venue_address = none;
  starts_at = 1_000;
  ends_at = 2_000;
  min_age = none;
  max_age = none;
  male_capacity = 1;
  female_capacity = 1;
  price_amount = 30_000;
  deposit_amount = 0;
  currency = "KRW";
  application_deadline = none;
  visibility = RoomVisibility.public;
  viable_at = none;
  payment_instructions = none;
}

abbrev pub application : ℕ → ℕ → ApplicationStatus → RoomApplication
application id user_id status = record {
  id = id;
  room_id = 10;
  user_id = user_id;
  status = status;
  applicant_message = none;
  planner_note = none;
  approved_at = none;
  rejected_at = none;
  cancelled_at = none;
}

abbrev pub check_in : ℕ → ℕ → ℕ → CheckIn
check_in id user_id application_id = record {
  id = id;
  room_id = 10;
  user_id = user_id;
  application_id = application_id;
  status = CheckInStatus.checked_in;
  checked_in_at = some 900;
  check_in_code = some "A1B2C3";
}

-- anna has an approved application, and ben a confirmed one
abbrev pub db_with : Room → Db
db_with room = record {
  users = host ∷ anna ∷ ben ∷ operator ∷ chief ∷ [];
  profiles = profile 21 2 "anna" Gender.female ∷ profile 31 3 "ben" Gender.male ∷ [];
  planners = planner ∷ [];
  rooms = room ∷ [];
  applications =
      application 102 2 ApplicationStatus.approved
      ∷ application 103 3 ApplicationStatus.confirmed
      ∷ [];
  check_ins = check_in 202 2 102 ∷ check_in 203 3 103 ∷ [];
  sessions = [];
  rounds = [];
  seats = [];
  choices = [];
  matches = [];
  proposals = [];
  feedbacks = [];
  reports = [];
  credits = [];
  tokens = [];
  audit_logs = [];
}
