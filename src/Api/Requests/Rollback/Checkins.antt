-- ===== src/Api/Requests/Rollback/Checkins.antt =====
-- The check-ins that the route which opens them reads after its commit.
use rolling_api.Prelude.{
  ℕ, ◌≡◌, refl, ◌∙◌, Option, none, some, List, map, ◌==◌, select, outer_join, ok, >>=-eq-ok,
}
use rolling_api.Model.{
  Db, User, Profile, Planner, Room, CheckIn, AuditAction, EntityType, Snapshot, room_row,
}
use rolling_api.Admin.{log_action}
use rolling_api.Planner.{assigned_room}
use rolling_api.Checkin.{OpenDraw, open_checkin}
use rolling_api.Readings
use rolling_api.Lifecycle.Others.{rooms-open}
use rolling_api.Api.{◌>>=◌, ◌>>◌, return, query, call, commit, Http, Conn, log, actor_of}
use rolling_api.Api.Planners

-- The check-ins of a room can be read where its owner's guard passes.
rows_read :
    (db : Db) (planner : Planner) (k : ℕ) (room : Room)
    → assigned_room db planner k ≡ ok room
    → (rows : List (CheckIn × Option Profile)) × (Readings.list_room_checkins db planner k
        ≡ ok rows)
unfolding Readings.list_room_checkins
rows_read db planner k room h = (
  outer_join (λ (c : CheckIn) (p : Profile). p.user_id == c.user_id)
      (select (λ (c : CheckIn). c.room_id == k) db.check_ins) db.profiles,
  rw h refl,
)

assigned-eq :
    (db db' : Db) (planner : Planner) (k : ℕ)
    → db'.rooms ≡ db.rooms
    → assigned_room db' planner k ≡ assigned_room db planner k
unfolding assigned_room
assigned-eq db db' planner k e = rw e refl

opened-Owned :
    (db db' : Db) (planner : Planner) (k : ℕ) (d : OpenDraw) (cs : List CheckIn)
    → open_checkin db planner k d ≡ ok (cs, db')
    → (room : Room) × (assigned_room db' planner k ≡ ok room)
unfolding open_checkin
opened-Owned db db' planner k d cs h =
    let (room, owned, _) = >>=-eq-ok (assigned_room db planner k) _ (cs, db') h in
    (room, assigned-eq db db' planner k (rooms-open db db' planner k d cs h) ∙ owned)

-- The check-ins that are read after the audit row and the commit.
pub logged_rows :
    (c : Conn) (http : Http) (user : User) (count : ℕ) (planner : Planner) (k : ℕ) (d : OpenDraw)
    (db' : Db) (cs : List CheckIn)
    → open_checkin c.working planner k d ≡ ok (cs, db')
    → (v : List Planners.CheckInPlannerItem) × (((log http user AuditAction.checkin_opened
              EntityType.room_entity k
              (some (Snapshot.count_snapshot count))
            >> (commit
                >> (query (λ db. Readings.list_room_checkins db planner k) >>= λ rows.
                    return (map Planners.checkin_item rows))))
          (record c { working = db' })).0
        ≡ ok v)
unfolding ◌>>=◌ call commit query return
logged_rows c http user count planner k d db' cs h =
    let (room, owned) = opened-Owned c.working db' planner k d cs h in
    let written =
      log_action db' (actor_of http user) AuditAction.checkin_opened EntityType.room_entity k none
        (some (Snapshot.count_snapshot count)) in
    let (rows, there) =
      rows_read written planner k room
        (assigned-eq db' written planner k (unfold log_action in refl) ∙ owned) in
    (map Planners.checkin_item rows, rw there refl)
