-- ===== src/Api/Requests/Histories.antt =====
-- What requests make of rooms: a history of the steps of Lifecycle.antt, and so a life of every room
-- in the state machine of Lifecycle/Machine.antt.
pub mod Rules
pub mod Routes
pub mod Staff
use rolling_api.Prelude.{
  ℕ, String, ◌≡◌, refl, Bool, true, false, Option, none, some, List, [], ◌∷◌, arith, ◌≤◌, get,
  Result, ok, err, Bool-cases,
}
use rolling_api.Model.{Db, Room, room_row}
use rolling_api.Auth.{Crypto}
use rolling_api.Lifecycle.{RoomStep, RoomHistory}
use rolling_api.Lifecycle.Machine.{Life, phase_in}
use rolling_api.Lifecycle.Runs.{history-Life}
use rolling_api.Lifecycle.Order.{IsLater, room_goes_on}
use rolling_api.Api.{Http, run}
use rolling_api.Api.Requests.{Request, serve, serve_all}
use rolling_api.Api.Requests.Histories.Staff.{serve_history}

join_history : (a b c : Db) → RoomHistory a b → RoomHistory b c → RoomHistory a c
join_history a b c h RoomHistory.begin = h
join_history a b c h (RoomHistory.and_then {db' = middle} k step) =
    RoomHistory.and_then (join_history a b middle h k) step

module _ (crypto : Crypto) (expire_days : ℕ) (name_le : String → String → Bool) where
  -- Requests that are served in a row make a history of the steps that write rooms.
  requests_history :
      (requests : List (Http × Request)) (db : Db)
      → RoomHistory db (serve_all crypto expire_days name_le requests db)
  unfolding serve_all
  requests_history [] db = RoomHistory.begin
  requests_history ((http, q) ∷ rest) db =
      let middle = (run (serve crypto expire_days name_le http q) db).1 in
      join_history db middle _ (serve_history crypto expire_days name_le db http q)
        (requests_history rest middle)

  -- The life of a room as a state machine (Lifecycle/Machine.antt) is what the requests refine:
  -- whatever requests are served in a row, by whomever they are made and however they end, every
  -- room's host, status and planner have gone from what they were to what they are by the
  -- transitions of the machine.
  pub requests_refine-Life :
      (requests : List (Http × Request)) (db : Db) (k : ℕ)
      → Life (phase_in db k) (phase_in (serve_all crypto expire_days name_le requests db) k)
  requests_refine-Life requests db k = history-Life db _ k (requests_history requests db)

  -- A room that is in the database is there after any requests, by whomever they are made and however
  -- they end: its host is the same, its status has not gone back, and if it had a planner it has one.
  pub served_room_goes_on :
      (requests : List (Http × Request)) (db : Db) (k : ℕ) (room : Room)
      → get k db.rooms ≡ some room
      → (later : Room) × (get k (serve_all crypto expire_days name_le requests db).rooms
          ≡ some later)
        × IsLater room later
  served_room_goes_on requests db k room h =
      room_goes_on db _ k room (requests_history requests db) h
