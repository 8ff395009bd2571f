-- ===== src/Api/Requests/Rollback.antt =====
-- An error answer means that nothing was committed.
pub mod Rules
pub mod Checkins
use rolling_api.Prelude.{
  ℤ, ℕ, String, ◌≡◌, refl, sym, ap, ◌∙◌, Bool, true, false, Option, none, some, List, map, length,
  arith, Result, ok, err, ApiError,
}
use rolling_api.Model.{
  Db, User, UserRole, Planner, RotationSession, AuditAction, EntityType, Snapshot,
}
use rolling_api.Admin.{Actor, log_action}
use rolling_api.Rotation.{StartDraw, owned_room}
use rolling_api.Rotation.Views.{
  RotationSessionView, get_session_view, session_view, round_view, seats_of,
}
use rolling_api.Rotation.Views.Shown.{IsShown, started-IsShown, advanced-IsShown, finished-IsShown}
use rolling_api.Auth.{Crypto}
use rolling_api.Host.{is_valid_create, RoomCreate}
use rolling_api.Api.{
  Tx, ◌>>=◌, ◌>>◌, return, raise, query, read, call, commit, validated, Http, run, Conn, log,
  actor_of,
}
use rolling_api.Checkin.{OpenDraw}
use rolling_api.Api.Accounts
use rolling_api.Api.Guests
use rolling_api.Api.Hosts
use rolling_api.Api.Planners
use rolling_api.Api.Admins
use rolling_api.Api.Requests.{
  Request, Open, Own, Operation, Order, done, serve, serve_open, serve_own, serve_operation,
  serve_order,
}
use rolling_api.Api.Requests.Rollback.Checkins.{logged_rows}
use rolling_api.Api.Requests.Rollback.Rules.{
  RollsBack, rollback, RollsBack-bind, RollsBack-then, RollsBack-call, Holds-query, Answers-return,
}

view-logged :
    (db : Db) (actor : Actor) (action : AuditAction) (entity : EntityType) (id : ℕ)
    (before after : Option Snapshot) (planner : Planner) (k : ℕ)
    → get_session_view (log_action db actor action entity id before after) planner k
      ≡ get_session_view db planner k
unfolding log_action get_session_view owned_room session_view round_view seats_of
view-logged db actor action entity id before after planner k = refl

-- The view that follows the audit row and the commit.
logged_view :
    (c : Conn) (http : Http) (user : User) (action : AuditAction) (entity : EntityType) (id : ℕ)
    (after : Option Snapshot) (planner : Planner) (k : ℕ)
    → IsShown c.working planner k
    → (v : RotationSessionView) × (((log http user action entity id after
            >> (commit >> query (λ db. get_session_view db planner k)))
          c).0
        ≡ ok v)
unfolding ◌>>=◌ call commit query
logged_view c http user action entity id after planner k (v, there) =
    (v, view-logged c.working (actor_of http user) action entity id none after planner k ∙ there)

plain_view :
    (c : Conn) (planner : Planner) (k : ℕ)
    → IsShown c.working planner k
    → (v : RotationSessionView) × (((commit >> query (λ db. get_session_view db planner k)) c).0
        ≡ ok v)
unfolding ◌>>=◌ commit query
plain_view c planner k shown = shown

module _ (http : Http) (user : User) (k : ℕ) where
  opened_RollsBack : (d : OpenDraw) → RollsBack (done (Planners.open_room_checkin http user k d))
  unfolding Planners.open_room_checkin
  opened_RollsBack d =
      RollsBack-then
        (RollsBack-bind (Holds-query _) λ planner. RollsBack-bind (Holds-query _) λ room.
          RollsBack-call _ _ λ c cs db h. logged_rows c http user (length cs) planner k d db cs h)
        λ _. Answers-return tt

  start_RollsBack :
      (duration : ℤ) (d : StartDraw)
      → RollsBack (done (Planners.start_rotation http user k duration d))
  unfolding Planners.start_rotation
  start_RollsBack duration d =
      RollsBack-then
        (RollsBack-bind (Holds-query _) λ planner. RollsBack-call _ _ λ c s db h.
          logged_view (record c { working = db }) http user _ _ _ _ planner k
            (started-IsShown c.working db planner k s duration d h))
        λ _. Answers-return tt

  advance_RollsBack : (now now' : ℕ) → RollsBack (done (Planners.advance_rotation user k now now'))
  unfolding Planners.advance_rotation
  advance_RollsBack now now' =
      RollsBack-then
        (RollsBack-bind (Holds-query _) λ planner. RollsBack-call _ _ λ c s db h.
          plain_view (record c { working = db }) planner k
            (advanced-IsShown c.working db planner k s now now' h))
        λ _. Answers-return tt

  finish_RollsBack : (now : ℕ) → RollsBack (done (Planners.finish_rotation http user k now))
  unfolding Planners.finish_rotation
  finish_RollsBack now =
      RollsBack-then
        (RollsBack-bind (Holds-query _) λ planner. RollsBack-call _ _ λ c s db h.
          logged_view (record c { working = db }) http user _ _ _ _ planner k
            (finished-IsShown c.working db planner k s now h))
        λ _. Answers-return tt

-- The requests whose answer is looked up after their commit, where the look-up can fail.
abbrev pub answers_late : Order → Bool
answers_late (Order.block_user k) = true
answers_late (Order.approve_planner k) = true
answers_late (Order.suspend_planner k) = true
answers_late (Order.assign_planner k q) = true
answers_late (Order.resolve_report k text) = true
answers_late (Order.dismiss_report k text) = true
answers_late q = false

abbrev pub is_late : Request → Bool
is_late (Request.for_admin q) = answers_late q
is_late q = false

module _ (crypto : Crypto) (expire_days : ℕ) (name_le : String → String → Bool) (http : Http) where
  open_RollsBack : (q : Open) → RollsBack (serve_open crypto expire_days name_le http q)
  unfolding serve_open Accounts.register Accounts.login Accounts.refresh Guests.list_rooms
      Guests.get_room
  open_RollsBack (Open.register body d) = search rollback
  open_RollsBack (Open.login email password now d) = search rollback
  open_RollsBack (Open.refresh token now now' now'' d) = search rollback
  open_RollsBack (Open.list_rooms rank q limit offset) = search rollback
  open_RollsBack (Open.get_room k) = search rollback

  create_RollsBack :
      (user : User) (body : RoomCreate) (id : ℕ) (valid : Bool)
      → RollsBack (validated valid (done (Hosts.create_room user body id)))
  unfolding Hosts.create_room
  create_RollsBack user body id true = search rollback
  create_RollsBack user body id false = search rollback

  own_RollsBack :
      (user : User) (q : Own) → RollsBack (serve_own crypto expire_days name_le http user q)
  unfolding serve_own Accounts.logout Accounts.me Guests.apply_room Guests.my_applications
      Guests.cancel_application Guests.my_credits Guests.my_confirmed_rooms Guests.get_me
      Guests.upsert_me Guests.submit_feedback Guests.submit_report Guests.list_choice_targets
      Guests.submit_choices Guests.my_matches Guests.propose_after_date Guests.my_checkin
      Guests.my_current_round Hosts.list_my_rooms Hosts.get_my_room Hosts.update_my_room
      Hosts.publish_my_room Hosts.list_room_applications Hosts.approve_application
      Hosts.reject_application Hosts.waitlist_application Hosts.mark_application_paid
  own_RollsBack user (Own.create_room body id) =
      create_RollsBack user body id (is_valid_create body)
  own_RollsBack user q = search rollback

  operation_RollsBack :
      (user : User) (q : Operation)
      → RollsBack (serve_operation crypto expire_days name_le http user q)
  unfolding serve_operation Planners.dashboard Planners.list_assigned Planners.get_assigned_room
      Planners.confirm_assigned_room Planners.list_room_checkins Planners.confirm_checkin
      Planners.mark_checkin_no_show Planners.get_rotation
  operation_RollsBack user (Operation.open_room_checkin k d) = opened_RollsBack http user k d
  operation_RollsBack user (Operation.start_rotation k minutes d) =
      start_RollsBack http user k minutes d
  operation_RollsBack user (Operation.advance_rotation k now now') =
      advance_RollsBack http user k now now'
  operation_RollsBack user (Operation.finish_rotation k now) = finish_RollsBack http user k now
  operation_RollsBack user q = search rollback depth 9

  order_RollsBack :
      (user : User) (q : Order)
      → answers_late q ≡ false
      → RollsBack (serve_order crypto expire_days name_le http user q)
  unfolding serve_order Admins.dashboard Admins.list_users Admins.unblock_user Admins.list_planners
      Admins.list_rooms Admins.list_reports Admins.list_queue
  order_RollsBack user (Order.block_user k) late = cc
  order_RollsBack user (Order.approve_planner k) late = cc
  order_RollsBack user (Order.suspend_planner k) late = cc
  order_RollsBack user (Order.assign_planner k q) late = cc
  order_RollsBack user (Order.resolve_report k text) late = cc
  order_RollsBack user (Order.dismiss_report k text) late = cc
  order_RollsBack user q late = search rollback

  serve-RollsBack :
      (q : Request) → is_late q ≡ false → RollsBack (serve crypto expire_days name_le http q)
  unfolding serve
  serve-RollsBack (Request.open_to_all q) late = open_RollsBack q
  serve-RollsBack (Request.for_account q) late =
      RollsBack-bind (Holds-query _) λ user. own_RollsBack user q
  serve-RollsBack (Request.for_planner q) late =
      RollsBack-bind (Holds-query _) λ user. operation_RollsBack user q
  serve-RollsBack (Request.for_admin q) late =
      RollsBack-bind (Holds-query _) λ user. order_RollsBack user q late

-- A request that is answered by an error has changed nothing that is committed, apart from the six
-- requests of an administrator that look their answer up after the commit.
pub error_changes_nothing :
    (crypto : Crypto) (expire_days : ℕ) (name_le : String → String → Bool) (http : Http)
    (q : Request) (db : Db) (e : ApiError)
    → is_late q ≡ false
    → (run (serve crypto expire_days name_le http q) db).0 ≡ err e
    → (run (serve crypto expire_days name_le http q) db).1 ≡ db
error_changes_nothing crypto expire_days name_le http q db e late failed =
    (serve-RollsBack crypto expire_days name_le http q late).same
      (record { stored = db; working = db }) e failed
