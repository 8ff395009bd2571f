-- ===== src/Tests/Guests.antt =====
-- Runs of the check-in, the feedback, a report and a profile.
use rolling_api.Prelude.{
  ◌≡◌, ◌↔◌, refl, true, none, some, [], ◌∷◌, ◌++◌, find, get, save, is_some, ok, err,
  invalid_state_transition,
}
use rolling_api.Model.{
  Db, RoomStatus, CheckIn, CheckInStatus, Feedback, room_row, profile_row, checkin_row,
}
use rolling_api.Guest.{
  FeedbackCreate, submit_feedback, ReportCreate, submit_report, new_report, presence_of,
}
use rolling_api.Guest.Reporting.{MayReport, report_iff}
use rolling_api.Checkin.{confirm_checkin_by_id, mark_no_show}
use rolling_api.Checkin.Presence.{arrived, RunBy, IsAwaited, arrival_lem}
use rolling_api.Tests.Data.{value_or, anna, planner, room_in, check_in, db_with}

-- anna has not come yet
abbrev late : CheckIn
late = record (check_in 202 2 102) { status = CheckInStatus.no_show; checked_in_at = none }

abbrev door : Db
door = record (db_with (room_in RoomStatus.confirmed (some 7))) { check_ins = late ∷ [] }

late_there : get 202 door.check_ins ≡ some late
unfolding get find
late_there = refl

arrival_example :
    let db' = record door { check_ins = save (arrived late 950) door.check_ins } in
    ((confirm_checkin_by_id door planner 202 950 ≡ ok (arrived late 950, db'))
      ↔ (RunBy door late planner × IsAwaited late))
    × (RunBy door late planner
        → (is_some (find (presence_of 10 2) db'.check_ins) ≡ true)
          × (confirm_checkin_by_id db' planner 202 960 ≡ err invalid_state_transition)
          × ((d : CheckIn) × (db'' : Db) × (mark_no_show db' planner 202 ≡ ok (d, db''))
              × (d.status ≡ CheckInStatus.no_show)))
arrival_example = arrival_lem door planner 202 950 960 late late_there

abbrev after : Db
after = db_with (room_in RoomStatus.completed (some 7))

abbrev praise : FeedbackCreate
praise = record {
  rating = 5;
  comment = none;
  safety_rating = none;
  planner_rating = none;
  would_join_again = some true;
}

abbrev told : Feedback × Db
told =
    value_or
      (
        record {
          id = 0;
          room_id = 0;
          user_id = 0;
          rating = 0;
          comment = none;
          safety_rating = none;
          planner_rating = none;
          would_join_again = none;
        },
        after,
      )
      (submit_feedback after anna 10 praise 901)

tells : submit_feedback after anna 10 praise 901 ≡ ok told
unfolding submit_feedback get find
tells = refl

abbrev complaint : ReportCreate
complaint = record {
  reason = "rude";
  description = none;
  reported_user_id = some 3;
  room_id = some 10;
}

report_iff_example :
    let r = new_report anna complaint 904 in
    (submit_report after anna complaint 904
      ≡ ok (r, record after { reports = after.reports ++ r ∷ [] }))
    ↔ MayReport after anna complaint.reported_user_id complaint.room_id
report_iff_example = report_iff after anna complaint 904
