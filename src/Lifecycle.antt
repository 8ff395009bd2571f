-- ===== src/Lifecycle.antt =====
-- A room's life across the services: every operation that writes the table of rooms, as one step.
-- The operations stand in app/services/host_service.py, admin_service.py, planner_service.py and
-- rotation_service.py.
pub mod Machine
pub mod Moves
pub mod Order
pub mod Others
pub mod Runs
pub mod Transitions
use rolling_api.Prelude.{ℤ, ℕ, ◌≡◌, Bool, true, false, ◌||◌, not, ltb, is_some, ok, Option}
use rolling_api.Model.{Db, User, Planner, Room, RoomStatus, RoomApplication, RotationSession}
use rolling_api.Credit.{PairDraw}
use rolling_api.Viability.{PromoteDraw}
use rolling_api.Host.{
  RoomCreate, is_valid_create, create_room, RoomUpdate, update_room, publish_room,
}
use rolling_api.Application.{mark_application_paid}
use rolling_api.Admin.{Actor, assign_planner_to_room}
use rolling_api.Planner.{confirm_room}
use rolling_api.Rotation.{StartDraw, start_session, end_session}

-- A request that returned. `other` is any request that does not write the table of rooms.
pub data RoomStep (db db' : Db) : Type 0 where
  create :
      (user : User) (body : RoomCreate) (id : ℕ) (b : Room)
      → is_valid_create body ≡ true
      → create_room db user body id ≡ ok (b, db')
      → RoomStep db db'
  update :
      (user : User) (k : ℕ) (body : RoomUpdate) (b : Room)
      → update_room db user k body ≡ ok (b, db')
      → RoomStep db db'
  publish :
      (user : User) (k : ℕ) (b : Room) → publish_room db user k ≡ ok (b, db') → RoomStep db db'
  pay :
      (user : User) (k : ℕ) (d : PromoteDraw) (e : PairDraw) (a : RoomApplication)
      → mark_application_paid db user k d e ≡ ok (a, db')
      → RoomStep db db'
  assign :
      (actor : Actor) (k q : ℕ) (b : Room)
      → assign_planner_to_room db actor k q ≡ ok (b, db')
      → RoomStep db db'
  confirm :
      (planner : Planner) (k : ℕ) (b : Room)
      → confirm_room db planner k ≡ ok (b, db')
      → RoomStep db db'
  start :
      (planner : Planner) (k : ℕ) (duration : ℤ) (d : StartDraw) (s : RotationSession)
      → start_session db planner k duration d ≡ ok (s, db')
      → RoomStep db db'
  end :
      (planner : Planner) (k now : ℕ) (s : RotationSession)
      → end_session db planner k now ≡ ok (s, db')
      → RoomStep db db'
  other : db'.rooms ≡ db.rooms → RoomStep db db'

pub data RoomHistory : Db → Db → Type 0 where
  begin : {db : Db} → RoomHistory db db
  and_then : {db db' db'' : Db} → RoomHistory db db' → RoomStep db' db'' → RoomHistory db db''

-- the order of the statuses along a room's life; CANCELLED, which no operation sets, ends it too
abbrev pub rank : RoomStatus → ℕ
rank RoomStatus.draft = 0
rank RoomStatus.published = 1
rank RoomStatus.recruiting = 2
rank RoomStatus.viable = 3
rank RoomStatus.assigned = 4
rank RoomStatus.confirmed = 5
rank RoomStatus.in_progress = 6
rank RoomStatus.completed = 7
rank RoomStatus.cancelled = 7

-- ASSIGNED and what follows it need a planner
abbrev pub is_planned : Room → Bool
is_planned room = ltb (rank room.status) 4 || is_some room.planner_id

abbrev pub lasts : Room → Bool
lasts room = ltb room.starts_at room.ends_at
