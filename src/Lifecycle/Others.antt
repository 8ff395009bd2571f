-- ===== src/Lifecycle/Others.antt =====
-- The operations that leave the table of rooms alone.
use rolling_api.Prelude.{ℕ, String, ◌≡◌, Option, List, arith, ok}
use rolling_api.Model.{
  Db, User, UserStatus, Profile, Planner, PlannerStatus, RoomApplication, CheckIn, Report,
  ReportStatus, RotationSession, Feedback, AfterDateProposal, user_row, planner_row, report_row,
  room_row, application_row, checkin_row, match_row, session_row,
}
use rolling_api.Application.{
  apply_to_room, submit, cancel_my_application, approve_application, reject_application,
  waitlist_application,
}
use rolling_api.Admin.{Actor, log_action, set_user_status, set_planner_status, set_report_status}
use rolling_api.Auth.{
  Crypto, TokenPair, PairDraw, RegisterRequest, RegisterDraw, register, login, refresh,
  issue_token_pair,
}
use rolling_api.Guest.{
  FeedbackCreate, ReportCreate, submit_feedback, submit_report, upsert_my_profile, put_profile,
}
use rolling_api.Checkin.{OpenDraw, open_checkin, confirm_checkin_by_id, mark_no_show}
use rolling_api.Choice.{ChoiceItem, submit_choices, flush}
use rolling_api.Choice.Proposals.{propose_after_date}
use rolling_api.Rotation.{next_round}

module _ (db db' : Db) where
  pub rooms-set_user_status :
      (actor : Actor) (k : ℕ) (s : UserStatus) (u : User)
      → set_user_status db actor k s ≡ ok (u, db')
      → db'.rooms ≡ db.rooms
  unfolding set_user_status log_action
  rooms-set_user_status actor k s u h = ground (arith, h)

  pub rooms-set_planner_status :
      (actor : Actor) (k : ℕ) (s : PlannerStatus) (p : Planner)
      → set_planner_status db actor k s ≡ ok (p, db')
      → db'.rooms ≡ db.rooms
  unfolding set_planner_status log_action
  rooms-set_planner_status actor k s p h = ground (arith, h)

  pub rooms-set_report_status :
      (actor : Actor) (k : ℕ) (s : ReportStatus) (text : Option String) (r : Report)
      → set_report_status db actor k s text ≡ ok (r, db')
      → db'.rooms ≡ db.rooms
  unfolding set_report_status log_action
  rooms-set_report_status actor k s text r h = ground (arith, h)

  pub rooms-apply :
      (user : User) (k : ℕ) (message : Option String) (now id : ℕ) (a : RoomApplication)
      → apply_to_room db user k message now id ≡ ok (a, db')
      → db'.rooms ≡ db.rooms
  unfolding apply_to_room submit
  rooms-apply user k message now id a h = ground (arith, h)

  pub rooms-cancel :
      (user : User) (k now : ℕ) (a : RoomApplication)
      → cancel_my_application db user k now ≡ ok (a, db')
      → db'.rooms ≡ db.rooms
  unfolding cancel_my_application
  rooms-cancel user k now a h = ground (arith, h)

  pub rooms-approve :
      (user : User) (k : ℕ) (text : Option String) (now : ℕ) (a : RoomApplication)
      → approve_application db user k text now ≡ ok (a, db')
      → db'.rooms ≡ db.rooms
  unfolding approve_application
  rooms-approve user k text now a h = ground (arith, h)

  pub rooms-reject :
      (user : User) (k : ℕ) (text : Option String) (now : ℕ) (a : RoomApplication)
      → reject_application db user k text now ≡ ok (a, db')
      → db'.rooms ≡ db.rooms
  unfolding reject_application
  rooms-reject user k text now a h = ground (arith, h)

  pub rooms-waitlist :
      (user : User) (k : ℕ) (text : Option String) (a : RoomApplication)
      → waitlist_application db user k text ≡ ok (a, db')
      → db'.rooms ≡ db.rooms
  unfolding waitlist_application
  rooms-waitlist user k text a h = ground (arith, h)

  pub rooms-feedback :
      (user : User) (k : ℕ) (body : FeedbackCreate) (id : ℕ) (f : Feedback)
      → submit_feedback db user k body id ≡ ok (f, db')
      → db'.rooms ≡ db.rooms
  unfolding submit_feedback
  rooms-feedback user k body id f h = ground (arith, h)

  pub rooms-report :
      (user : User) (body : ReportCreate) (id : ℕ) (r : Report)
      → submit_report db user body id ≡ ok (r, db')
      → db'.rooms ≡ db.rooms
  unfolding submit_report
  rooms-report user body id r h = ground (arith, h)

  pub rooms-choices :
      (user : User) (k : ℕ) (items : List ChoiceItem) (counts : ℕ × ℕ)
      → submit_choices db user k items ≡ ok (counts, db')
      → db'.rooms ≡ db.rooms
  unfolding submit_choices flush
  rooms-choices user k items counts h = ground (arith, h)

  pub rooms-propose :
      (user : User) (k : ℕ) (date : Option ℕ) (place : Option String) (id : ℕ)
      (p : AfterDateProposal)
      → propose_after_date db user k date place id ≡ ok (p, db')
      → db'.rooms ≡ db.rooms
  unfolding propose_after_date
  rooms-propose user k date place id p h = ground (arith, h)

  pub rooms-open :
      (planner : Planner) (k : ℕ) (d : OpenDraw) (cs : List CheckIn)
      → open_checkin db planner k d ≡ ok (cs, db')
      → db'.rooms ≡ db.rooms
  unfolding open_checkin
  rooms-open planner k d cs h = ground (arith, h)

  pub rooms-arrival :
      (planner : Planner) (k now : ℕ) (c : CheckIn)
      → confirm_checkin_by_id db planner k now ≡ ok (c, db')
      → db'.rooms ≡ db.rooms
  unfolding confirm_checkin_by_id
  rooms-arrival planner k now c h = ground (arith, h)

  pub rooms-no_show :
      (planner : Planner) (k : ℕ) (c : CheckIn)
      → mark_no_show db planner k ≡ ok (c, db')
      → db'.rooms ≡ db.rooms
  unfolding mark_no_show
  rooms-no_show planner k c h = ground (arith, h)

  pub rooms-next :
      (planner : Planner) (k now now' : ℕ) (s : RotationSession)
      → next_round db planner k now now' ≡ ok (s, db')
      → db'.rooms ≡ db.rooms
  unfolding next_round
  rooms-next planner k now now' s h = ground (arith, h)

  module _ (crypto : Crypto) (expire_days : ℕ) where
    pub rooms-register :
        (body : RegisterRequest) (d : RegisterDraw) (u : User)
        → register crypto expire_days db body d ≡ ok (u, db')
        → db'.rooms ≡ db.rooms
    unfolding register
    rooms-register body d u h = ground (arith, h)

    pub rooms-login :
        (email password : String) (ua ip : Option String) (now : ℕ) (d : PairDraw)
        (out : User × TokenPair)
        → login crypto expire_days db email password ua ip now d ≡ ok (out, db')
        → db'.rooms ≡ db.rooms
    unfolding login issue_token_pair
    rooms-login email password ua ip now d out h = ground (arith, h)

    pub rooms-refresh :
        (token : String) (ua ip : Option String) (now now' now'' : ℕ) (d : PairDraw)
        (out : TokenPair)
        → refresh crypto expire_days db token ua ip now now' now'' d ≡ ok (out, db')
        → db'.rooms ≡ db.rooms
    unfolding refresh issue_token_pair
    rooms-refresh token ua ip now now' now'' d out h = ground (arith, h)

pub rooms-profile :
    (db : Db) (user : User) (body : Profile) (id : ℕ)
    → (upsert_my_profile db user body id).1.rooms ≡ db.rooms
unfolding upsert_my_profile put_profile
rooms-profile db user body id = ground arith
