-- ===== src/Api/Hosts.antt =====
-- app/api/v1/host.py: any active account can host a room.
use rolling_api.Prelude.{ℕ, ◌+◌, Bool, true, false, ◌&&◌, Option, some, List, ◌==◌, count}
use rolling_api.Prelude.{String}
use rolling_api.Model.{
  Db, User, Room, RoomApplication, ApplicationStatus, AuditAction, EntityType, Snapshot,
}
use rolling_api.Credit.{PairDraw}
use rolling_api.Viability.{RoomCapacitySummary, PromoteDraw, get_capacity_summary, viable_threshold}
use rolling_api.Host
use rolling_api.Host.{RoomCreate, RoomUpdate, host_room, update_room, publish_room}
use rolling_api.Application
use rolling_api.Readings
use rolling_api.Readings.{ApplicantBrief}
use rolling_api.Api.{Tx, ◌>>=◌, ◌>>◌, return, query, read, call, commit, Http, log}

unfoldable pub list_my_rooms : User → Tx (List Room)
list_my_rooms user = read (λ db. Readings.list_my_rooms db user)

unfoldable pub create_room : User → RoomCreate → ℕ → Tx Room
create_room user body id = do
  room ← call (λ db. Host.create_room db user body id)
  commit
  return room

abbrev pub is_submitted : ApplicationStatus → Bool
is_submitted ApplicationStatus.submitted = true
is_submitted _ = false

pub record HostRoomDetail : Type 0 where
  pub room : Room
  pub capacity_summary : RoomCapacitySummary
  pub viable_threshold : ℕ
  pub submitted_application_count : ℕ
  pub confirmed_application_count : ℕ

unfoldable pub room_detail : Room → Db → HostRoomDetail
room_detail room db =
    let summary = get_capacity_summary db room.id room in
    record {
      room = room;
      capacity_summary = summary;
      viable_threshold = viable_threshold room;
      submitted_application_count =
          count (λ (a : RoomApplication). a.room_id == room.id && is_submitted a.status)
            db.applications;
      confirmed_application_count = summary.male_confirmed + summary.female_confirmed;
    }

unfoldable pub get_my_room : User → ℕ → Tx HostRoomDetail
unfolding room_detail
get_my_room user room_id = do
  room ← query (λ db. host_room db user room_id)
  read (room_detail room)

unfoldable pub update_my_room : User → ℕ → RoomUpdate → Tx Room
update_my_room user room_id body = do
  room ← call (λ db. update_room db user room_id body)
  commit
  return room

unfoldable pub publish_my_room : Http → User → ℕ → Tx Room
publish_my_room http user room_id = do
  room ← call (λ db. publish_room db user room_id)
  log http user AuditAction.room_published EntityType.room_entity room.id
      (some (Snapshot.status_snapshot room.status))
  commit
  return room

unfoldable pub list_room_applications : User → ℕ → Tx (List ApplicantBrief)
list_room_applications user room_id = query (λ db. Readings.list_room_applications db user room_id)

unfoldable pub approve_application : User → ℕ → Option String → ℕ → Tx RoomApplication
approve_application user application_id text now = do
  app ← call (λ db. Application.approve_application db user application_id text now)
  commit
  return app

unfoldable pub reject_application : User → ℕ → Option String → ℕ → Tx RoomApplication
reject_application user application_id text now = do
  app ← call (λ db. Application.reject_application db user application_id text now)
  commit
  return app

unfoldable pub waitlist_application : User → ℕ → Option String → Tx RoomApplication
waitlist_application user application_id text = do
  app ← call (λ db. Application.waitlist_application db user application_id text)
  commit
  return app

unfoldable pub mark_application_paid : Http → User → ℕ → PromoteDraw → PairDraw → Tx RoomApplication
mark_application_paid http user application_id d e = do
  app ← call (λ db. Application.mark_application_paid db user application_id d e)
  log http user AuditAction.application_mark_paid EntityType.application_entity app.id
      (some (Snapshot.application_snapshot app.status))
  commit
  return app
