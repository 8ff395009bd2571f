-- ===== src/Admin/Trail.antt =====
-- Every administrative write leaves its one audit row, and what it may write.
use rolling_api.Prelude.{
  ℕ, String, ◌≡◌, ◌≢◌, inl, inr, refl, true, Option, some, [], ◌∷◌, ◌++◌, arith, get, key-get,
  Option-cases, Result, ok, err, get-save_self,
}
use rolling_api.Model.{
  Db, User, UserStatus, Planner, PlannerStatus, Room, RoomStatus, Report, ReportStatus, AuditLog,
  AuditAction, EntityType, Snapshot, user_row, planner_row, room_row, report_row,
}
use rolling_api.Admin.{
  Actor, new_log, log_action, set_user_status, set_planner_status, assign_planner_to_room,
  set_report_status, is_assignable, is_undecided, annotated,
}

-- the requests of an administrator
pub data Command : Type 0 where
  user_status : ℕ → UserStatus → Command
  planner_status : ℕ → PlannerStatus → Command
  assign : ℕ → ℕ → Command
  report_status : ℕ → ReportStatus → Option String → Command

abbrev pub db_of {ℓ} : {A : Type ℓ} → Result (A × Db) → Result Db
db_of (ok (a, db)) = ok db
db_of (err e) = err e

unfoldable pub execute : Db → Actor → Command → Result Db
execute db actor (user_status k s) = db_of (set_user_status db actor k s)
execute db actor (planner_status k s) = db_of (set_planner_status db actor k s)
execute db actor (assign k p) = db_of (assign_planner_to_room db actor k p)
execute db actor (report_status k s text) = db_of (set_report_status db actor k s text)

-- The table's new row names the actor, the entity, the value before and the value after, and these
-- are what the entity's table holds before and after the command.
unfoldable pub IsRecorded : Db → Actor → Command → AuditLog → Db → Type 0
IsRecorded db actor (user_status k s) log db' =
    (u : User) × (get k db.users ≡ some u)
    × (get k db'.users ≡ some (record u { status = s }))
    × (k ≢ actor.user.id)
    × (log.entity_id ≡ some k)
    × (log.before ≡ some (Snapshot.user_snapshot u.status))
    × (log.after ≡ some (Snapshot.user_snapshot s))
IsRecorded db actor (planner_status k s) log db' =
    (p : Planner) × (get k db.planners ≡ some p)
    × (get k db'.planners ≡ some (record p { status = s }))
    × (log.entity_id ≡ some k)
    × (log.before ≡ some (Snapshot.planner_snapshot p.status))
    × (log.after ≡ some (Snapshot.planner_snapshot s))
IsRecorded db actor (assign k q) log db' =
    (r : Room) × (get k db.rooms ≡ some r)
    × (get k db'.rooms ≡ some (record r { planner_id = some q; status = RoomStatus.assigned }))
    × (is_assignable r.status ≡ true)
    × (log.entity_id ≡ some k)
    × (log.before ≡ some (Snapshot.room_snapshot r.planner_id r.status))
    × (log.after ≡ some (Snapshot.room_snapshot (some q) RoomStatus.assigned))
IsRecorded db actor (report_status k s text) log db' =
    (r : Report) × (get k db.reports ≡ some r)
    × (get k db'.reports
        ≡ some (record r { status = s; description = annotated text r.description }))
    × (is_undecided r.status ≡ true)
    × (log.entity_id ≡ some k)
    × (log.before ≡ some (Snapshot.report_snapshot r.status r.description))
    × (log.after ≡ some (Snapshot.report_snapshot s (annotated text r.description)))

-- The command appended `log` and no other row.
pub record IsLogged (db : Db) (actor : Actor) (c : Command) (db' : Db) : Type 0 where
  pub log : AuditLog
  pub appended : db'.audit_logs ≡ db.audit_logs ++ log ∷ []
  pub by : log.actor_user_id ≡ some actor.user.id
  pub recorded : IsRecorded db actor c log db'

module _ (db : Db) (actor : Actor) (k : ℕ) (db' : Db) where
  user-IsLogged :
      (s : UserStatus) (u : User)
      → get k db.users ≡ some u
      → execute db actor (user_status k s) ≡ ok db'
      → IsLogged db actor (user_status k s) db'
  unfolding execute IsRecorded set_user_status log_action
  user-IsLogged s u found h =
      let key = key-get k db.users u found in
      let at_key : get u.id db.users ≡ some u = ground (arith, key, found) in
      let saved = get-save_self (record u { status = s }) db.users u at_key in
      record {
        log =
            new_log actor (AuditAction.user_set s) EntityType.user_entity u.id
              (some (Snapshot.user_snapshot u.status)) (some (Snapshot.user_snapshot s));
        appended = ground (arith, found, h);
        by = refl;
        recorded = (
          u,
          found,
          ground (arith, found, h, saved, key),
          (λ e. ground (arith, found, h, key, e)),
          rw key refl,
          refl,
          refl,
        );
      }

  planner-IsLogged :
      (s : PlannerStatus) (p : Planner)
      → get k db.planners ≡ some p
      → execute db actor (planner_status k s) ≡ ok db'
      → IsLogged db actor (planner_status k s) db'
  unfolding execute IsRecorded set_planner_status log_action
  planner-IsLogged s p found h =
      let key = key-get k db.planners p found in
      let at_key : get p.id db.planners ≡ some p = ground (arith, key, found) in
      let saved = get-save_self (record p { status = s }) db.planners p at_key in
      record {
        log =
            new_log actor (AuditAction.planner_set s) EntityType.planner_entity p.id
              (some (Snapshot.planner_snapshot p.status)) (some (Snapshot.planner_snapshot s));
        appended = ground (arith, found, h);
        by = refl;
        recorded = (p, found, ground (arith, found, h, saved, key), rw key refl, refl, refl);
      }

  report-IsLogged :
      (s : ReportStatus) (text : Option String) (r : Report)
      → get k db.reports ≡ some r
      → execute db actor (report_status k s text) ≡ ok db'
      → IsLogged db actor (report_status k s text) db'
  unfolding execute IsRecorded set_report_status log_action
  report-IsLogged s text r found h =
      let key = key-get k db.reports r found in
      let at_key : get r.id db.reports ≡ some r = ground (arith, key, found) in
      let r' = record r { status = s; description = annotated text r.description } in
      let saved = get-save_self r' db.reports r at_key in
      record {
        log =
            new_log actor (AuditAction.report_set s) EntityType.report_entity r.id
              (some (Snapshot.report_snapshot r.status r.description))
              (some (Snapshot.report_snapshot s (annotated text r.description)));
        appended = ground (arith, found, h);
        by = refl;
        recorded = (
          r,
          found,
          ground (arith, found, h, saved, key),
          ground (arith, found, h),
          rw key refl,
          refl,
          refl,
        );
      }

  assign-IsLogged :
      (q : ℕ) (r : Room) (p : Planner)
      → get k db.rooms ≡ some r
      → get q db.planners ≡ some p
      → execute db actor (assign k q) ≡ ok db'
      → IsLogged db actor (assign k q) db'
  unfolding execute IsRecorded assign_planner_to_room log_action
  assign-IsLogged q r p found there h =
      let key = key-get k db.rooms r found in
      let qkey = key-get q db.planners p there in
      let at_key : get r.id db.rooms ≡ some r = ground (arith, key, found) in
      let r' = record r { planner_id = some q; status = RoomStatus.assigned } in
      let saved = get-save_self r' db.rooms r at_key in
      record {
        log =
            new_log actor AuditAction.room_assigned EntityType.room_entity r.id
              (some (Snapshot.room_snapshot r.planner_id r.status))
              (some (Snapshot.room_snapshot (some q) RoomStatus.assigned));
        appended = ground (arith, found, there, h, qkey);
        by = refl;
        recorded = (
          r,
          found,
          ground (arith, found, there, h, saved, key, qkey),
          ground (arith, found, h),
          rw key refl,
          refl,
          refl,
        );
      }

-- A command that succeeds appends one audit row and no other; the row names its actor and records
-- the change that the entity's table shows.
pub command-IsLogged :
    (db : Db) (actor : Actor) (c : Command) (db' : Db)
    → execute db actor c ≡ ok db'
    → IsLogged db actor c db'
unfolding execute set_user_status set_planner_status assign_planner_to_room set_report_status
command-IsLogged db actor (user_status k s) db' h = elim (Option-cases (get k db.users)) [
  | inl absent ↦ absurd (ground (arith, absent, h))
  | inr (u, found) ↦ user-IsLogged db actor k db' s u found h
]
command-IsLogged db actor (planner_status k s) db' h = elim (Option-cases (get k db.planners)) [
  | inl absent ↦ absurd (ground (arith, absent, h))
  | inr (p, found) ↦ planner-IsLogged db actor k db' s p found h
]
command-IsLogged db actor (assign k q) db' h = elim (Option-cases (get k db.rooms)) [
  | inl absent ↦ absurd (ground (arith, absent, h))
  | inr (r, found) ↦ elim (Option-cases (get q db.planners)) [
    | inl absent ↦ absurd (ground (arith, found, absent, h))
    | inr (p, there) ↦ assign-IsLogged db actor k db' q r p found there h
  ]
]
command-IsLogged db actor (report_status k s text) db' h = elim (Option-cases (get k db.reports)) [
  | inl absent ↦ absurd (ground (arith, absent, h))
  | inr (r, found) ↦ report-IsLogged db actor k db' s text r found h
]
