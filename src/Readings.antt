-- ===== src/Readings.antt =====
-- The service functions that list rows and write nothing: of host_service.py, planner_service.py,
-- checkin_service.py and application_service.py in app/services.
use mathlib.Core.List.{reverse}
use rolling_api.Prelude.{
  ℕ, String, Bool, ◌&&◌, Option, none, some, List, map, leb, ◌==◌, opt_eq, select, get, order_by,
  join, outer_join, Result, ok, ◌>>=◌,
}
use rolling_api.Model.{
  Db, User, Profile, Gender, Planner, Room, RoomApplication, ApplicationStatus, CheckIn, room_row,
}
use rolling_api.Viability.{is_confirmed}
use rolling_api.Host.{host_room}
use rolling_api.Planner.{assigned_room}

abbrev pub latest_start : Room → Room → Bool
latest_start a b = leb b.starts_at a.starts_at

abbrev pub earliest_start : Room → Room → Bool
earliest_start a b = leb a.starts_at b.starts_at

-- `host_service.list_my_rooms`
unfoldable pub list_my_rooms : Db → User → List Room
list_my_rooms db user =
    order_by latest_start (select (λ (r : Room). r.host_user_id == user.id) db.rooms)

pub record ApplicantBrief : Type 0 where
  pub id : ℕ
  pub user_id : ℕ
  pub status : ApplicationStatus
  pub applicant_message : Option String
  pub planner_note : Option String
  pub display_name : Option String
  pub gender : Option Gender
  pub birth_year : Option ℕ
  pub region : Option String
  pub job_title : Option String
  pub intro : Option String
  pub profile_image_url : Option String

-- `profile.column if profile else None`
abbrev pub column {ℓ} : {A : Type ℓ} → (Profile → A) → Option Profile → Option A
column f none = none
column f (some p) = some (f p)

-- the same for a column that may be NULL
abbrev pub nullable {ℓ} : {A : Type ℓ} → (Profile → Option A) → Option Profile → Option A
nullable f none = none
nullable f (some p) = f p

abbrev pub applicant_brief : RoomApplication × Option Profile → ApplicantBrief
applicant_brief (a, p) = record {
  id = a.id;
  user_id = a.user_id;
  status = a.status;
  applicant_message = a.applicant_message;
  planner_note = a.planner_note;
  display_name = column (λ (x : Profile). x.display_name) p;
  gender = column (λ (x : Profile). x.gender) p;
  birth_year = column (λ (x : Profile). x.birth_year) p;
  region = nullable (λ (x : Profile). x.region) p;
  job_title = nullable (λ (x : Profile). x.job_title) p;
  intro = nullable (λ (x : Profile). x.intro) p;
  profile_image_url = nullable (λ (x : Profile). x.profile_image_url) p;
}

-- `host_service.list_room_applications`
unfoldable pub list_room_applications : Db → User → ℕ → Result (List ApplicantBrief)
list_room_applications db user room_id = do
  _ ← host_room db user room_id
  ok (
      map applicant_brief (
        outer_join (λ (a : RoomApplication) (p : Profile). p.user_id == a.user_id)
          (reverse (select (λ (a : RoomApplication). a.room_id == room_id) db.applications))
          db.profiles))

-- `planner_service.list_assigned_rooms`
unfoldable pub list_assigned_rooms : Db → Planner → List Room
list_assigned_rooms db planner =
    order_by earliest_start (select (λ (r : Room). opt_eq r.planner_id planner.id) db.rooms)

-- `checkin_service.list_room_checkins`
unfoldable pub list_room_checkins : Db → Planner → ℕ → Result (List (CheckIn × Option Profile))
list_room_checkins db planner room_id = do
  _ ← assigned_room db planner room_id
  ok (
      outer_join (λ (c : CheckIn) (p : Profile). p.user_id == c.user_id)
        (select (λ (c : CheckIn). c.room_id == room_id) db.check_ins) db.profiles)

-- `application_service.list_my_applications`; the relationship `room` is loaded with each
unfoldable pub list_my_applications : Db → User → List (RoomApplication × Option Room)
list_my_applications db user =
    map (λ (a : RoomApplication). (a, get a.room_id db.rooms))
      (reverse (select (λ (a : RoomApplication). a.user_id == user.id) db.applications))

-- the room of a row of the join
abbrev pub room_of : Room × RoomApplication → Room
room_of (r, _) = r

-- `application_service.list_my_confirmed_rooms`
unfoldable pub list_my_confirmed_rooms : Db → User → List Room
list_my_confirmed_rooms db user = map room_of (
    join (λ (r : Room) (a : RoomApplication). a.room_id == r.id) (order_by earliest_start db.rooms)
      (select (λ (a : RoomApplication). a.user_id == user.id && is_confirmed a.status)
        db.applications))
