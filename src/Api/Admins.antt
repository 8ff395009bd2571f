-- ===== src/Api/Admins.antt =====
-- app/api/v1/admin.py. After its commit a route that writes reads a list for the answer; the list
-- of payments is left out with its table.
pub mod Answers
use rolling_api.Prelude.{
  ℕ, String, Bool, true, Option, none, some, List, [], ◌∷◌, ◌==◌, find, Result, ok, err, ApiError,
  ErrorCode, api_error, not_found, or_raise,
}
use rolling_api.Model.{
  Db, User, UserRole, UserStatus, Planner, PlannerStatus, RoomStatus, Report, ReportStatus,
}
use rolling_api.Admin.{
  set_user_status, set_planner_status, assign_planner_to_room, set_report_status,
}
use rolling_api.Admin.Lists
use rolling_api.Admin.Lists.{
  AdminUserItem, AdminPlannerItem, AdminRoomItem, AdminReportItem, AdminDashboard, user_item,
}
use rolling_api.Admin.Queue
use rolling_api.Admin.Queue.{AdminQueueItem}
use rolling_api.Api.{Tx, ◌>>=◌, ◌>>◌, return, query, read, call, commit, Http, actor_of}

-- `items[0]`: on an empty list an `IndexError`, which is answered by 500
abbrev pub first_item : {A : Type 0} → List A → Result A
first_item [] = err (api_error ErrorCode.internal_error 500)
first_item (x ∷ xs) = ok x

-- `found or items[0]`
abbrev pub found_or_first : {A : Type 0} → Option A → List A → Result A
found_or_first none items = first_item items
found_or_first (some x) items = ok x

unfoldable pub dashboard : Tx AdminDashboard
dashboard = read Lists.dashboard

unfoldable pub list_users : Option UserRole → Option UserStatus → ℕ → ℕ → Tx (List AdminUserItem)
list_users role status limit offset = read (λ db. Lists.list_users db role status limit offset)

unfoldable pub block_user : Http → User → ℕ → Tx AdminUserItem
block_user http user user_id = do
  u ← call (λ db. set_user_status db (actor_of http user) user_id UserStatus.blocked)
  commit
  items ← read (λ db. Lists.list_users db none none 1 0)
  let found = find (λ (x : AdminUserItem). x.id == u.id) items
  query (λ _. found_or_first found items)

unfoldable pub unblock_user : Http → User → ℕ → Tx AdminUserItem
unblock_user http user user_id = do
  u ← call (λ db. set_user_status db (actor_of http user) user_id UserStatus.active)
  commit
  return (user_item (u, none))

unfoldable pub list_planners : Option PlannerStatus → ℕ → ℕ → Tx (List AdminPlannerItem)
list_planners status limit offset = read (λ db. Lists.list_planners db status limit offset)

-- `approve_planner` and `suspend_planner`, which differ in the status alone
unfoldable pub put_planner_status : Http → User → ℕ → PlannerStatus → Tx AdminPlannerItem
put_planner_status http user planner_id status = do
  p ← call (λ db. set_planner_status db (actor_of http user) planner_id status)
  commit
  items ← read (λ db. Lists.list_planners db none 200 0)
  let found = find (λ (x : AdminPlannerItem). x.id == p.id) items
  query (λ _. found_or_first found items)

unfoldable pub list_rooms : Option RoomStatus → ℕ → ℕ → Tx (List AdminRoomItem)
list_rooms status limit offset = read (λ db. Lists.list_all_rooms db status limit offset)

unfoldable pub list_reports : Option ReportStatus → ℕ → ℕ → Tx (List AdminReportItem)
list_reports status limit offset = read (λ db. Lists.list_reports db status limit offset)

unfoldable pub list_queue : Bool → ℕ → ℕ → Tx (List AdminQueueItem)
list_queue include_assigned limit offset =
    read (λ db. Queue.list_queue db include_assigned limit offset)

unfoldable pub assign_planner : Http → User → ℕ → ℕ → Tx AdminQueueItem
assign_planner http user room_id planner_id = do
  _ ← call (λ db. assign_planner_to_room db (actor_of http user) room_id planner_id)
  commit
  rows ← read (λ db. Queue.list_queue db true 200 0)
  query (λ _.
      or_raise (find (λ (x : AdminQueueItem). x.id == room_id) rows)
        (not_found ErrorCode.room_not_found))

-- `resolve_report` and `dismiss_report`, which differ in the status alone
unfoldable pub put_report_status :
    Http → User → ℕ → ReportStatus → Option String → Tx AdminReportItem
put_report_status http user report_id status text = do
  _ ← call (λ db. set_report_status db (actor_of http user) report_id status text)
  commit
  rows ← read (λ db. Lists.list_reports db none 200 0)
  let found = find (λ (x : AdminReportItem). x.id == report_id) rows
  query (λ _. found_or_first found rows)
