-- ===== src/Planner/Confirm.antt =====
-- When a planner may confirm a room, and the refusals.
use rolling_api.Prelude.{◌+◌, ◌≤◌}
use rolling_api.Model.{Db, Planner, Room, RoomStatus, room_row}
use rolling_api.Viability.{get_capacity_summary}

-- The confirmed guests of a room fit in: there is one at least, and no gender exceeds its places.
pub record IsReady (db : Db) (room : Room) : Type 0 where
  pub someone :
      1
      ≤ (get_capacity_summary db room.id room).male_confirmed
        + (get_capacity_summary db room.id room).female_confirmed
  pub males : (get_capacity_summary db room.id room).male_confirmed ≤ room.male_capacity
  pub females : (get_capacity_summary db room.id room).female_confirmed ≤ room.female_capacity

abbrev pub confirmed_room : Room → Room
confirmed_room room = record room { status = RoomStatus.confirmed }
