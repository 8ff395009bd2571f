-- ===== src/Api/Requests/Histories/Staff.antt =====
-- What each route of planners and administrators does to rooms.
use rolling_api.Prelude.{ℕ, String, Bool, Option}
use rolling_api.Model.{Db, User, room_row, PlannerStatus, ReportStatus, UserStatus}
use rolling_api.Auth.{Crypto}
use rolling_api.Lifecycle.{RoomStep, RoomHistory}
use rolling_api.Lifecycle.Others
use rolling_api.Api.{Http, actor_of, run}
use rolling_api.Api.Planners
use rolling_api.Api.Admins
use rolling_api.Api.Requests.{Request, Operation, Order, done, serve, serve_operation, serve_order}
use rolling_api.Api.Requests.Histories.Rules.{
  Keeps, routes, Keeps-bind, Keeps-call, Keeps-query, Keeps-return, Keeps-write, Keeps-operation,
}
use rolling_api.Api.Requests.Histories.Routes.{open_Keeps, own_Keeps}

module _ (crypto : Crypto) (expire_days : ℕ) (name_le : String → String → Bool) (start : Db)
    (http : Http) where
  operation_Keeps :
      (user : User) (q : Operation)
      → Keeps start (serve_operation crypto expire_days name_le http user q)
  unfolding serve_operation Planners.dashboard Planners.list_assigned Planners.get_assigned_room
      Planners.confirm_assigned_room Planners.open_room_checkin Planners.list_room_checkins
      Planners.confirm_checkin Planners.mark_checkin_no_show Planners.start_rotation
      Planners.advance_rotation Planners.finish_rotation Planners.get_rotation
  operation_Keeps user (Operation.dashboard now) = search routes
  operation_Keeps user Operation.list_assigned = search routes
  operation_Keeps user (Operation.get_assigned_room k) = search routes
  operation_Keeps user (Operation.confirm_assigned_room k) =
      Keeps-operation _ (λ planner db db' b h. RoomStep.confirm planner k b h)
        λ planner b. search routes
  operation_Keeps user (Operation.open_room_checkin k d) =
      Keeps-bind
        (Keeps-bind (Keeps-query _) λ planner. Keeps-bind (Keeps-query _) λ room.
          Keeps-bind
            (Keeps-call λ db db' cs h. RoomStep.other (Others.rooms-open db db' planner k d cs h))
            λ cs. search routes)
        λ _. Keeps-return tt
  operation_Keeps user (Operation.list_room_checkins k) = search routes
  operation_Keeps user (Operation.confirm_checkin k now) =
      Keeps-operation _
        (λ planner db db' c h. RoomStep.other (Others.rooms-arrival db db' planner k now c h))
        λ planner c. search routes
  operation_Keeps user (Operation.mark_checkin_no_show k) =
      Keeps-operation _
        (λ planner db db' c h. RoomStep.other (Others.rooms-no_show db db' planner k c h))
        λ planner c. search routes
  operation_Keeps user (Operation.start_rotation k minutes d) =
      Keeps-operation _ (λ planner db db' s h. RoomStep.start planner k minutes d s h)
        λ planner s. search routes
  operation_Keeps user (Operation.advance_rotation k now now') =
      Keeps-operation _
        (λ planner db db' s h. RoomStep.other (Others.rooms-next db db' planner k now now' s h))
        λ planner s. search routes
  operation_Keeps user (Operation.finish_rotation k now) =
      Keeps-operation _ (λ planner db db' s h. RoomStep.end planner k now s h)
        λ planner s. search routes
  operation_Keeps user (Operation.get_rotation k) = search routes

  planner_Keeps :
      (user : User) (k : ℕ) (s : PlannerStatus)
      → Keeps start (done (Admins.put_planner_status http user k s))
  unfolding Admins.put_planner_status
  planner_Keeps user k s =
      Keeps-write
        (λ db db' p h.
          RoomStep.other (Others.rooms-set_planner_status db db' (actor_of http user) k s p h))
        λ p. search routes

  report_Keeps :
      (user : User) (k : ℕ) (s : ReportStatus) (text : Option String)
      → Keeps start (done (Admins.put_report_status http user k s text))
  unfolding Admins.put_report_status
  report_Keeps user k s text =
      Keeps-write
        (λ db db' r h.
          RoomStep.other (Others.rooms-set_report_status db db' (actor_of http user) k s text r h))
        λ r. search routes

  order_Keeps :
      (user : User) (q : Order) → Keeps start (serve_order crypto expire_days name_le http user q)
  unfolding serve_order Admins.dashboard Admins.list_users Admins.block_user Admins.unblock_user
      Admins.list_planners Admins.list_rooms Admins.list_reports Admins.list_queue
      Admins.assign_planner
  order_Keeps user Order.dashboard = search routes
  order_Keeps user (Order.list_users role status limit offset) = search routes
  order_Keeps user (Order.block_user k) =
      Keeps-write
        (λ db db' u h.
          RoomStep.other
            (Others.rooms-set_user_status db db' (actor_of http user) k UserStatus.blocked u h))
        λ u. search routes
  order_Keeps user (Order.unblock_user k) =
      Keeps-write
        (λ db db' u h.
          RoomStep.other
            (Others.rooms-set_user_status db db' (actor_of http user) k UserStatus.active u h))
        λ u. search routes
  order_Keeps user (Order.list_planners status limit offset) = search routes
  order_Keeps user (Order.approve_planner k) = planner_Keeps user k PlannerStatus.approved
  order_Keeps user (Order.suspend_planner k) = planner_Keeps user k PlannerStatus.suspended
  order_Keeps user (Order.list_all_rooms status limit offset) = search routes
  order_Keeps user (Order.list_reports status limit offset) = search routes
  order_Keeps user (Order.list_queue include_assigned limit offset) = search routes
  order_Keeps user (Order.assign_planner k q) =
      Keeps-write (λ db db' b h. RoomStep.assign (actor_of http user) k q b h) λ b. search routes
  order_Keeps user (Order.resolve_report k text) = report_Keeps user k ReportStatus.resolved text
  order_Keeps user (Order.dismiss_report k text) = report_Keeps user k ReportStatus.dismissed text

  serve-Keeps : (q : Request) → Keeps start (serve crypto expire_days name_le http q)
  unfolding serve
  serve-Keeps (Request.open_to_all q) = open_Keeps crypto expire_days name_le start http q
  serve-Keeps (Request.for_account q) =
      Keeps-bind (Keeps-query _) λ user. own_Keeps crypto expire_days name_le start http user q
  serve-Keeps (Request.for_planner q) = Keeps-bind (Keeps-query _) λ user. operation_Keeps user q
  serve-Keeps (Request.for_admin q) = Keeps-bind (Keeps-query _) λ user. order_Keeps user q

  -- What one request commits comes about by steps.
  pub serve_history :
      (q : Request) → RoomHistory start (run (serve crypto expire_days name_le http q) start).1
  serve_history q =
      ((serve-Keeps q).after _
        (record { stored = RoomHistory.begin; working = RoomHistory.begin })).stored
