-- ===== src/Lifecycle/Machine.antt =====
-- The life of one room as a state machine, without the operations and the other tables: what can
-- become of a room, seen by its host, its status and its planner.
use mathlib.Core.Option
use rolling_api.Prelude.{ℕ, Option, none, some, get}
use rolling_api.Model.{Db, Room, RoomStatus, room_row}

-- the host, the status and the planner
pub record Phase : Type 0 where
  pub host : ℕ
  pub status : RoomStatus
  pub planner : Option ℕ

abbrev pub phase : ℕ → RoomStatus → Option ℕ → Phase
phase host status planner = record { host = host; status = status; planner = planner }

-- One step of a room's life; a room that there is not yet has no phase. The end of a rotation
-- completes a room that has a planner, whatever its status is.
pub data Transition : Option Phase → Option Phase → Type 0 where
  stay : {p : Option Phase} → Transition p p
  create : {h : ℕ} → Transition none (some (phase h RoomStatus.draft none))
  publish :
      {h : ℕ} {p : Option ℕ}
      → Transition (some (phase h RoomStatus.draft p)) (some (phase h RoomStatus.published p))
  promote :
      {h : ℕ} {p : Option ℕ}
      → Transition (some (phase h RoomStatus.published p)) (some (phase h RoomStatus.viable p))
  promote_recruiting :
      {h : ℕ} {p : Option ℕ}
      → Transition (some (phase h RoomStatus.recruiting p)) (some (phase h RoomStatus.viable p))
  assign :
      {h : ℕ} {p : Option ℕ} {q : ℕ}
      → Transition
          (some (phase h RoomStatus.viable p))
          (some (phase h RoomStatus.assigned (some q)))
  reassign :
      {h : ℕ} {p : Option ℕ} {q : ℕ}
      → Transition
          (some (phase h RoomStatus.assigned p))
          (some (phase h RoomStatus.assigned (some q)))
  confirm :
      {h q : ℕ}
      → Transition
          (some (phase h RoomStatus.assigned (some q)))
          (some (phase h RoomStatus.confirmed (some q)))
  start :
      {h q : ℕ}
      → Transition
          (some (phase h RoomStatus.confirmed (some q)))
          (some (phase h RoomStatus.in_progress (some q)))
  finish :
      {h q : ℕ} {s : RoomStatus}
      → Transition (some (phase h s (some q))) (some (phase h RoomStatus.completed (some q)))

-- a row of steps
pub data Life : Option Phase → Option Phase → Type 0 where
  begin : {p : Option Phase} → Life p p
  and_then : {p q r : Option Phase} → Life p q → Transition q r → Life p r

-- what the machine sees of a row
abbrev pub seen : Room → Phase
seen room = phase room.host_user_id room.status room.planner_id

abbrev pub phase_in : Db → ℕ → Option Phase
phase_in db k = Option.map seen (get k db.rooms)
