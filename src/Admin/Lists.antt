-- ===== src/Admin/Lists.antt =====
-- The lists of app/services/admin_service.py, of accounts, planners, rooms and reports, and the
-- dashboard. The list of payments is left out with its table.
use mathlib.Core.List.{reverse}
use rolling_api.Prelude.{
  ℕ, String, Bool, true, ◌&&◌, Option, none, some, List, map, leb, ◌==◌, opt_eq, length, count,
  select, order_by, page, join, outer_join,
}
use rolling_api.Model.{
  Db, User, UserRole, UserStatus, Profile, Planner, PlannerStatus, Room, RoomStatus, RoomType,
  Report, ReportStatus, user_row,
}

-- the places of the values in their enumerations, by which a column is compared

abbrev pub role_place : UserRole → ℕ
role_place UserRole.participant = 0
role_place UserRole.planner = 1
role_place UserRole.admin = 2

abbrev pub user_place : UserStatus → ℕ
user_place UserStatus.active = 0
user_place UserStatus.blocked = 1
user_place UserStatus.withdrawn = 2

abbrev pub planner_place : PlannerStatus → ℕ
planner_place PlannerStatus.pending = 0
planner_place PlannerStatus.approved = 1
planner_place PlannerStatus.suspended = 2

abbrev pub report_place : ReportStatus → ℕ
report_place ReportStatus.opened = 0
report_place ReportStatus.investigating = 1
report_place ReportStatus.resolved = 2
report_place ReportStatus.dismissed = 3

abbrev pub room_place : RoomStatus → ℕ
room_place RoomStatus.draft = 0
room_place RoomStatus.published = 1
room_place RoomStatus.recruiting = 2
room_place RoomStatus.viable = 3
room_place RoomStatus.assigned = 4
room_place RoomStatus.confirmed = 5
room_place RoomStatus.in_progress = 6
room_place RoomStatus.completed = 7
room_place RoomStatus.cancelled = 8

-- `if wanted: q.where(column == wanted.value)`
abbrev pub if_wanted : {E : Type 0} → (E → ℕ) → Option E → E → Bool
if_wanted place none value = true
if_wanted place (some wanted) value = place value == place wanted

pub record AdminUserItem : Type 0 where
  pub id : ℕ
  pub email : Option String
  pub phone : Option String
  pub role : UserRole
  pub status : UserStatus
  pub last_login_at : Option ℕ
  pub display_name : Option String

abbrev pub name_of : Option Profile → Option String
name_of none = none
name_of (some p) = some p.display_name

abbrev pub user_item : User × Option Profile → AdminUserItem
user_item (u, p) = record {
  id = u.id;
  email = u.email;
  phone = u.phone;
  role = u.role;
  status = u.status;
  last_login_at = u.last_login_at;
  display_name = name_of p;
}

abbrev pub profile_on : User → Profile → Bool
profile_on u p = p.user_id == u.id

unfoldable pub list_users : Db → Option UserRole → Option UserStatus → ℕ → ℕ → List AdminUserItem
list_users db role status limit offset = map user_item (
    page limit offset (
      outer_join profile_on
        (select
          (λ (u : User). if_wanted role_place role u.role && if_wanted user_place status u.status)
          (reverse db.users))
        db.profiles))

pub record AdminPlannerItem : Type 0 where
  pub id : ℕ
  pub user_id : ℕ
  pub user_email : Option String
  pub name : String
  pub bio : Option String
  pub region : Option String
  pub status : PlannerStatus
  pub total_rooms : ℕ

abbrev pub planner_item : Planner × User → AdminPlannerItem
planner_item (p, u) = record {
  id = p.id;
  user_id = p.user_id;
  user_email = u.email;
  name = p.name;
  bio = p.bio;
  region = p.region;
  status = p.status;
  total_rooms = p.total_rooms;
}

unfoldable pub list_planners : Db → Option PlannerStatus → ℕ → ℕ → List AdminPlannerItem
list_planners db status limit offset = map planner_item (
    page limit offset (
      join (λ (p : Planner) (u : User). u.id == p.user_id)
        (select (λ (p : Planner). if_wanted planner_place status p.status) (reverse db.planners))
        db.users))

pub record AdminRoomItem : Type 0 where
  pub id : ℕ
  pub title : String
  pub status : RoomStatus
  pub room_type : RoomType
  pub region : String
  pub starts_at : ℕ
  pub ends_at : ℕ
  pub male_capacity : ℕ
  pub female_capacity : ℕ
  pub price_amount : ℕ
  pub deposit_amount : ℕ
  pub planner_id : Option ℕ
  pub planner_name : Option String

abbrev pub room_item : Room × Planner → AdminRoomItem
room_item (r, p) = record {
  id = r.id;
  title = r.title;
  status = r.status;
  room_type = r.room_type;
  region = r.region;
  starts_at = r.starts_at;
  ends_at = r.ends_at;
  male_capacity = r.male_capacity;
  female_capacity = r.female_capacity;
  price_amount = r.price_amount;
  deposit_amount = r.deposit_amount;
  planner_id = r.planner_id;
  planner_name = some p.name;
}

abbrev pub planner_on : Room → Planner → Bool
planner_on r p = opt_eq r.planner_id p.id

abbrev pub starts_last : Room → Room → Bool
starts_last a b = leb b.starts_at a.starts_at

-- `list_rooms`
unfoldable pub list_all_rooms : Db → Option RoomStatus → ℕ → ℕ → List AdminRoomItem
list_all_rooms db status limit offset = map room_item (
    page limit offset (
      join planner_on
        (order_by starts_last
          (select (λ (r : Room). if_wanted room_place status r.status) db.rooms))
        db.planners))

pub record AdminReportItem : Type 0 where
  pub id : ℕ
  pub reporter_id : ℕ
  pub reporter_email : Option String
  pub reported_user_id : Option ℕ
  pub reported_email : Option String
  pub room_id : Option ℕ
  pub reason : String
  pub description : Option String
  pub status : ReportStatus

abbrev pub email_of : Option User → Option String
email_of none = none
email_of (some u) = u.email

abbrev pub report_item : (Report × User) × Option User → AdminReportItem
report_item ((r, reporter), reported) = record {
  id = r.id;
  reporter_id = r.reporter_id;
  reporter_email = reporter.email;
  reported_user_id = r.reported_user_id;
  reported_email = email_of reported;
  room_id = r.room_id;
  reason = r.reason;
  description = r.description;
  status = r.status;
}

abbrev pub reported_on : Report × User → User → Bool
reported_on (r, _) u = opt_eq r.reported_user_id u.id

unfoldable pub list_reports : Db → Option ReportStatus → ℕ → ℕ → List AdminReportItem
list_reports db status limit offset = map report_item (
    page limit offset (
      outer_join reported_on
        (join (λ (r : Report) (u : User). u.id == r.reporter_id)
          (select (λ (r : Report). if_wanted report_place status r.status) (reverse db.reports))
          db.users)
        db.users))

pub record AdminDashboard : Type 0 where
  pub total_users : ℕ
  pub active_users : ℕ
  pub blocked_users : ℕ
  pub total_planners : ℕ
  pub pending_planners : ℕ
  pub rooms_by_status : RoomStatus → ℕ
  pub open_reports : ℕ

-- without the two counts that read payments and `updated_at`; a status that the answer's
-- `rooms_by_status` leaves out counts 0 here
unfoldable pub dashboard : Db → AdminDashboard
dashboard db = record {
  total_users = length db.users;
  active_users = count (λ (u : User). user_place u.status == 0) db.users;
  blocked_users = count (λ (u : User). user_place u.status == 1) db.users;
  total_planners = length db.planners;
  pending_planners = count (λ (p : Planner). planner_place p.status == 0) db.planners;
  rooms_by_status = λ s. count (λ (r : Room). room_place r.status == room_place s) db.rooms;
  open_reports = count (λ (r : Report). report_place r.status == 0) db.reports;
}
