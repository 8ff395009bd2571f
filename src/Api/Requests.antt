-- ===== src/Api/Requests.antt =====
-- app/api/v1/router.py: the requests that the application takes, each with what its handling draws,
-- and the guard under which each is served.
pub mod Denied
pub mod Histories
pub mod Rollback
use rolling_api.Prelude.{ℤ, ℕ, String, Bool, true, false, Option, List, [], ◌∷◌, Result, ok}
use rolling_api.Model.{
  Room, Db, User, UserRole, UserStatus, Profile, PlannerStatus, RoomStatus, ReportStatus,
}
use rolling_api.Credit
use rolling_api.Viability.{PromoteDraw}
use rolling_api.Host.{RoomCreate, RoomUpdate, is_valid_create}
use rolling_api.Guest.{FeedbackCreate, ReportCreate}
use rolling_api.Choice.{ChoiceItem}
use rolling_api.Checkin.{OpenDraw}
use rolling_api.Rotation.{StartDraw}
use rolling_api.Listing.{RoomQuery}
use rolling_api.Auth.{Crypto, PairDraw, RegisterRequest, RegisterDraw}
use rolling_api.Api.{Tx, ◌>>=◌, ◌>>◌, return, Http, as_user, as_role, run, validated}
use rolling_api.Api.Accounts
use rolling_api.Api.Guests
use rolling_api.Api.Hosts
use rolling_api.Api.Planners
use rolling_api.Api.Admins

-- the requests that need no account
pub data Open : Type 0 where
  register : RegisterRequest → RegisterDraw → Open
  login : String → String → ℕ → PairDraw → Open
  refresh : String → ℕ → ℕ → ℕ → PairDraw → Open
  list_rooms : (Room → ℕ) → RoomQuery → ℕ → ℕ → Open
  get_room : ℕ → Open

-- the requests of an account
pub data Own : Type 0 where
  logout : ℕ → Own
  me : Own
  apply_room : ℕ → Option String → ℕ → ℕ → Own
  my_applications : Own
  cancel_application : ℕ → ℕ → Own
  my_credits : ℕ → Own
  my_confirmed_rooms : Own
  get_me : Own
  upsert_me : Profile → ℕ → Own
  submit_feedback : ℕ → FeedbackCreate → ℕ → Own
  submit_report : ReportCreate → ℕ → Own
  list_choice_targets : ℕ → Own
  submit_choices : ℕ → List ChoiceItem → Own
  my_matches : ℕ → ℕ → Own
  propose_after_date : ℕ → Option ℕ → Option String → ℕ → Own
  my_checkin : ℕ → Own
  my_current_round : ℕ → Own
  list_my_rooms : Own
  create_room : RoomCreate → ℕ → Own
  get_my_room : ℕ → Own
  update_my_room : ℕ → RoomUpdate → Own
  publish_my_room : ℕ → Own
  list_room_applications : ℕ → Own
  approve_application : ℕ → Option String → ℕ → Own
  reject_application : ℕ → Option String → ℕ → Own
  waitlist_application : ℕ → Option String → Own
  mark_application_paid : ℕ → PromoteDraw → Credit.PairDraw → Own

-- the requests of a planner
pub data Operation : Type 0 where
  dashboard : ℕ → Operation
  list_assigned : Operation
  get_assigned_room : ℕ → Operation
  confirm_assigned_room : ℕ → Operation
  open_room_checkin : ℕ → OpenDraw → Operation
  list_room_checkins : ℕ → Operation
  confirm_checkin : ℕ → ℕ → Operation
  mark_checkin_no_show : ℕ → Operation
  start_rotation : ℕ → ℤ → StartDraw → Operation
  advance_rotation : ℕ → ℕ → ℕ → Operation
  finish_rotation : ℕ → ℕ → Operation
  get_rotation : ℕ → Operation

-- the requests of an administrator
pub data Order : Type 0 where
  dashboard : Order
  list_users : Option UserRole → Option UserStatus → ℕ → ℕ → Order
  block_user : ℕ → Order
  unblock_user : ℕ → Order
  list_planners : Option PlannerStatus → ℕ → ℕ → Order
  approve_planner : ℕ → Order
  suspend_planner : ℕ → Order
  list_all_rooms : Option RoomStatus → ℕ → ℕ → Order
  list_reports : Option ReportStatus → ℕ → ℕ → Order
  list_queue : Bool → ℕ → ℕ → Order
  assign_planner : ℕ → ℕ → Order
  resolve_report : ℕ → Option String → Order
  dismiss_report : ℕ → Option String → Order

pub data Request : Type 0 where
  open_to_all : Open → Request
  for_account : Own → Request
  for_planner : Operation → Request
  for_admin : Order → Request

-- a route without the content of its answer
abbrev pub done : {A : Type 0} → Tx A → Tx (Unit {0})
done route = route >>= λ _. return tt

module _ (crypto : Crypto) (expire_days : ℕ) (name_le : String → String → Bool) where
  unfoldable pub serve_open : Http → Open → Tx (Unit {0})
  serve_open http (register body d) = done (Accounts.register crypto expire_days body d)
  serve_open http (login email password now d) =
      done (Accounts.login crypto expire_days http email password now d)
  serve_open http (refresh token now now' now'' d) =
      done (Accounts.refresh crypto expire_days http token now now' now'' d)
  serve_open http (list_rooms rank q limit offset) = done (Guests.list_rooms rank q limit offset)
  serve_open http (get_room room_id) = done (Guests.get_room room_id)

  unfoldable pub serve_own : Http → User → Own → Tx (Unit {0})
  serve_own http user (logout now) = Accounts.logout user now
  serve_own http user me = done (Accounts.me user)
  serve_own http user (apply_room k message now id) = done (Guests.apply_room user k message now id)
  serve_own http user my_applications = done (Guests.my_applications user)
  serve_own http user (cancel_application k now) = done (Guests.cancel_application user k now)
  serve_own http user (my_credits now) = done (Guests.my_credits user now)
  serve_own http user my_confirmed_rooms = done (Guests.my_confirmed_rooms user)
  serve_own http user get_me = done (Guests.get_me user)
  serve_own http user (upsert_me body id) = done (Guests.upsert_me user body id)
  serve_own http user (submit_feedback k body id) = done (Guests.submit_feedback user k body id)
  serve_own http user (submit_report body id) = done (Guests.submit_report user body id)
  serve_own http user (list_choice_targets k) = done (Guests.list_choice_targets name_le user k)
  serve_own http user (submit_choices k choices) = done (Guests.submit_choices user k choices)
  serve_own http user (my_matches k now) = done (Guests.my_matches user k now)
  serve_own http user (propose_after_date k date place id) =
      done (Guests.propose_after_date user k date place id)
  serve_own http user (my_checkin k) = done (Guests.my_checkin user k)
  serve_own http user (my_current_round k) = done (Guests.my_current_round user k)
  serve_own http user list_my_rooms = done (Hosts.list_my_rooms user)
  serve_own http user (create_room body id) =
      validated (is_valid_create body) (done (Hosts.create_room user body id))
  serve_own http user (get_my_room k) = done (Hosts.get_my_room user k)
  serve_own http user (update_my_room k body) = done (Hosts.update_my_room user k body)
  serve_own http user (publish_my_room k) = done (Hosts.publish_my_room http user k)
  serve_own http user (list_room_applications k) = done (Hosts.list_room_applications user k)
  serve_own http user (approve_application k text now) =
      done (Hosts.approve_application user k text now)
  serve_own http user (reject_application k text now) =
      done (Hosts.reject_application user k text now)
  serve_own http user (waitlist_application k text) = done (Hosts.waitlist_application user k text)
  serve_own http user (mark_application_paid k d e) =
      done (Hosts.mark_application_paid http user k d e)

  unfoldable pub serve_operation : Http → User → Operation → Tx (Unit {0})
  serve_operation http user (Operation.dashboard now) = done (Planners.dashboard user now)
  serve_operation http user list_assigned = done (Planners.list_assigned user)
  serve_operation http user (get_assigned_room k) = done (Planners.get_assigned_room user k)
  serve_operation http user (confirm_assigned_room k) =
      done (Planners.confirm_assigned_room http user k)
  serve_operation http user (open_room_checkin k d) =
      done (Planners.open_room_checkin http user k d)
  serve_operation http user (list_room_checkins k) = done (Planners.list_room_checkins user k)
  serve_operation http user (confirm_checkin k now) = done (Planners.confirm_checkin user k now)
  serve_operation http user (mark_checkin_no_show k) = done (Planners.mark_checkin_no_show user k)
  serve_operation http user (start_rotation k minutes d) =
      done (Planners.start_rotation http user k minutes d)
  serve_operation http user (advance_rotation k now now') =
      done (Planners.advance_rotation user k now now')
  serve_operation http user (finish_rotation k now) =
      done (Planners.finish_rotation http user k now)
  serve_operation http user (get_rotation k) = done (Planners.get_rotation user k)

  unfoldable pub serve_order : Http → User → Order → Tx (Unit {0})
  serve_order http user Order.dashboard = done Admins.dashboard
  serve_order http user (list_users role status limit offset) =
      done (Admins.list_users role status limit offset)
  serve_order http user (block_user k) = done (Admins.block_user http user k)
  serve_order http user (unblock_user k) = done (Admins.unblock_user http user k)
  serve_order http user (list_planners status limit offset) =
      done (Admins.list_planners status limit offset)
  serve_order http user (approve_planner k) =
      done (Admins.put_planner_status http user k PlannerStatus.approved)
  serve_order http user (suspend_planner k) =
      done (Admins.put_planner_status http user k PlannerStatus.suspended)
  serve_order http user (list_all_rooms status limit offset) =
      done (Admins.list_rooms status limit offset)
  serve_order http user (list_reports status limit offset) =
      done (Admins.list_reports status limit offset)
  serve_order http user (list_queue include_assigned limit offset) =
      done (Admins.list_queue include_assigned limit offset)
  serve_order http user (assign_planner k planner_id) =
      done (Admins.assign_planner http user k planner_id)
  serve_order http user (resolve_report k text) =
      done (Admins.put_report_status http user k ReportStatus.resolved text)
  serve_order http user (dismiss_report k text) =
      done (Admins.put_report_status http user k ReportStatus.dismissed text)

  unfoldable pub serve : Http → Request → Tx (Unit {0})
  serve http (open_to_all q) = serve_open http q
  serve http (for_account q) = as_user crypto expire_days http λ user. serve_own http user q
  serve http (for_planner q) =
      as_role crypto expire_days UserRole.planner http λ user. serve_operation http user q
  serve http (for_admin q) =
      as_role crypto expire_days UserRole.admin http λ user. serve_order http user q

  -- requests one after the other, each on what the former have committed
  unfoldable pub serve_all : List (Http × Request) → Db → Db
  unfolding serve
  serve_all [] db = db
  serve_all ((http, q) ∷ rest) db = serve_all rest (run (serve http q) db).1
