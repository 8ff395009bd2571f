-- ===== src/Admin/Queue.antt =====
-- `list_queue` of app/services/admin_service.py: the rooms that wait for a planner.
pub mod Members
use rolling_api.Prelude.{
  ℕ, String, Bool, true, false, Option, none, some, List, map, ltb, leb, ◌==◌, if◌then◌else◌,
  select, order_by, page, join, outer_join,
}
use rolling_api.Model.{Db, User, Profile, Planner, Room, RoomStatus}
use rolling_api.Viability.{get_capacity_summary}
use rolling_api.Admin.Lists.{name_of, planner_on}

-- the statuses of the queue
abbrev pub is_queued : Bool → RoomStatus → Bool
is_queued include_assigned RoomStatus.viable = true
is_queued include_assigned RoomStatus.assigned = include_assigned
is_queued include_assigned _ = false

-- a row of the query of `list_queue`
abbrev pub QueueRow : Type 0
QueueRow = ((Room × User) × Option Profile) × Option Planner

-- `viable_at ASC NULLS LAST`, where `tie` settles equal times
abbrev pub earlier : Option ℕ → Option ℕ → Bool → Bool
earlier none none tie = tie
earlier none (some u) tie = false
earlier (some t) none tie = true
earlier (some t) (some u) tie = if t == u then tie else ltb t u

abbrev pub waits_longer : Room → Room → Bool
waits_longer a b = earlier a.viable_at b.viable_at (leb a.starts_at b.starts_at)

pub record AdminQueueItem : Type 0 where
  pub id : ℕ
  pub title : String
  pub region : String
  pub starts_at : ℕ
  pub male_capacity : ℕ
  pub female_capacity : ℕ
  pub male_confirmed : ℕ
  pub female_confirmed : ℕ
  pub viable_at : Option ℕ
  pub host_user_id : ℕ
  pub host_email : Option String
  pub host_display_name : Option String
  pub planner_id : Option ℕ
  pub planner_name : Option String
  pub status : RoomStatus

abbrev pub planner_name_of : Option Planner → Option String
planner_name_of none = none
planner_name_of (some p) = some p.name

unfoldable pub queue_item : Db → QueueRow → AdminQueueItem
queue_item db (((r, host), profile), planner) =
    let summary = get_capacity_summary db r.id r in
    record {
      id = r.id;
      title = r.title;
      region = r.region;
      starts_at = r.starts_at;
      male_capacity = r.male_capacity;
      female_capacity = r.female_capacity;
      male_confirmed = summary.male_confirmed;
      female_confirmed = summary.female_confirmed;
      viable_at = r.viable_at;
      host_user_id = r.host_user_id;
      host_email = host.email;
      host_display_name = name_of profile;
      planner_id = r.planner_id;
      planner_name = planner_name_of planner;
      status = r.status;
    }

-- the rows before the page is cut
unfoldable pub queue_rows : Db → Bool → List QueueRow
queue_rows db include_assigned =
    outer_join (λ (x : (Room × User) × Option Profile) (p : Planner). planner_on x.0.0 p)
      (outer_join (λ (x : Room × User) (p : Profile). p.user_id == x.0.host_user_id)
        (join (λ (r : Room) (u : User). u.id == r.host_user_id)
          (order_by waits_longer
            (select (λ (r : Room). is_queued include_assigned r.status) db.rooms))
          db.users)
        db.profiles)
      db.planners

unfoldable pub list_queue : Db → Bool → ℕ → ℕ → List AdminQueueItem
unfolding queue_item queue_rows
list_queue db include_assigned limit offset =
    map (queue_item db) (page limit offset (queue_rows db include_assigned))
