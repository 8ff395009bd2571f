-- ===== src/Checkin.antt =====
-- app/services/checkin_service.py. The planner's rooms are looked up as in planner_service.py.
pub mod Presence
use text.Mathlib.Text.{◌==◌ as str_eq}
use rolling_api.Prelude.{
  ℕ, String, Bool, true, false, ◌&&◌, ◌||◌, not, Option, none, some, List, [], ◌∷◌, ◌++◌, ◌==◌,
  opt_eq, if◌then◌else◌, any, find, select, get, save, Result, ok, err, ErrorCode, api_error,
  forbidden, not_found, invalid_state_transition, ◌>>=◌, ◌>>◌, require, raise_if, or_raise,
}
use rolling_api.Model.{
  Db, User, Planner, Room, RoomStatus, RoomApplication, ApplicationStatus, CheckIn, CheckInStatus,
  room_row, checkin_row,
}
use rolling_api.Planner.{assigned_room}

abbrev pub is_confirmed_room : RoomStatus → Bool
is_confirmed_room RoomStatus.confirmed = true
is_confirmed_room _ = false

abbrev pub is_confirmed_guest : ApplicationStatus → Bool
is_confirmed_guest ApplicationStatus.confirmed = true
is_confirmed_guest _ = false

-- what opening draws for an application: the identifier of a new row, and a code
pub record OpenDraw : Type 0 where
  pub row_id : ℕ → ℕ
  pub code : ℕ → String

-- `{c.user_id: c for c in existing}.get(user_id)`: a later row takes the place of an earlier one
unfoldable pub existing_of : List CheckIn → ℕ → ℕ → Option CheckIn
existing_of [] room_id user_id = none
existing_of (c ∷ cs) room_id user_id =
    let later = existing_of cs room_id user_id in
    elim later [
      | some d ↦ some d
      | none ↦ if c.room_id == room_id && c.user_id == user_id then some c else none
    ]

abbrev pub new_check_in : ℕ → RoomApplication → OpenDraw → CheckIn
new_check_in room_id app d = record {
  id = d.row_id app.id;
  room_id = room_id;
  user_id = app.user_id;
  application_id = app.id;
  status = CheckInStatus.opened;
  checked_in_at = none;
  check_in_code = some (d.code app.id);
}

-- `if ck.status == NOT_OPEN: ck.status = OPEN`
abbrev pub opened_status : CheckInStatus → CheckInStatus
opened_status CheckInStatus.not_open = CheckInStatus.opened
opened_status s = s

-- `if not ck.check_in_code: ck.check_in_code = _generate_code()`
abbrev pub code_or : Option String → String → Option String
code_or none fresh = some fresh
code_or (some text) fresh = if str_eq text "" then some fresh else some text

abbrev pub reopened : CheckIn → String → CheckIn
reopened c code = record c {
  status = opened_status c.status;
  check_in_code = code_or c.check_in_code code;
}

-- the row of one application, in the table as the loop has left it
unfoldable pub open_one :
    ℕ → RoomApplication → OpenDraw → Option CheckIn → List CheckIn → CheckIn × List CheckIn
open_one room_id app d none live = let c = new_check_in room_id app d in (c, live ++ c ∷ [])
open_one room_id app d (some old) live = let c = reopened old (d.code app.id) in (c, save c live)

-- The loop. A user has one application to a room, so no row is met twice.
unfoldable pub open_all :
    ℕ → OpenDraw → List CheckIn → List RoomApplication → List CheckIn → List CheckIn × List CheckIn
unfolding open_one existing_of
open_all room_id d existing [] live = ([], live)
open_all room_id d existing (app ∷ apps) live =
    let step = open_one room_id app d (existing_of existing room_id app.user_id) live in
    let rest = open_all room_id d existing apps step.1 in (step.0 ∷ rest.0, rest.1)

abbrev pub is_nil {ℓ} : {A : Type ℓ} → List A → Bool
is_nil [] = true
is_nil (_ ∷ _) = false

abbrev pub same_code : Option String → Option String → Bool
same_code (some s) (some t) = str_eq s t
same_code _ _ = false

-- the unique constraint on `check_in_code`
unfoldable pub codes_clash : List CheckIn → Bool
codes_clash [] = false
codes_clash (c ∷ cs) =
    let rest = codes_clash cs in
    any (λ (d : CheckIn). same_code c.check_in_code d.check_in_code) cs || rest

unfoldable pub open_checkin : Db → Planner → ℕ → OpenDraw → Result (List CheckIn × Db)
open_checkin db planner room_id d = do
  room ← assigned_room db planner room_id
  require (is_confirmed_room room.status) invalid_state_transition
  let apps =
      select (λ (a : RoomApplication). a.room_id == room_id && is_confirmed_guest a.status)
        db.applications
  raise_if (is_nil apps) (api_error ErrorCode.no_confirmed_participants 409)
  let opened = open_all room_id d db.check_ins apps db.check_ins
  raise_if (codes_clash opened.1) (api_error ErrorCode.integrity_error 500)
  ok (opened.0, record db { check_ins = opened.1 })

-- `room is None or room.planner_id != planner.id`, denied
abbrev pub operates : Option Room → Planner → Bool
operates none planner = false
operates (some room) planner = opt_eq room.planner_id planner.id

abbrev pub may_arrive : CheckInStatus → Bool
may_arrive CheckInStatus.opened = true
may_arrive CheckInStatus.no_show = true
may_arrive _ = false

abbrev pub may_miss : CheckInStatus → Bool
may_miss CheckInStatus.opened = true
may_miss CheckInStatus.checked_in = true
may_miss _ = false

unfoldable pub confirm_checkin_by_id : Db → Planner → ℕ → ℕ → Result (CheckIn × Db)
confirm_checkin_by_id db planner checkin_id now = do
  ck ← or_raise (get checkin_id db.check_ins) (not_found ErrorCode.checkin_not_found)
  require (operates (get ck.room_id db.rooms) planner) forbidden
  require (may_arrive ck.status) invalid_state_transition
  let c = record ck { status = CheckInStatus.checked_in; checked_in_at = some now }
  ok (c, record db { check_ins = save c db.check_ins })

unfoldable pub mark_no_show : Db → Planner → ℕ → Result (CheckIn × Db)
mark_no_show db planner checkin_id = do
  ck ← or_raise (get checkin_id db.check_ins) (not_found ErrorCode.checkin_not_found)
  require (operates (get ck.room_id db.rooms) planner) forbidden
  require (may_miss ck.status) invalid_state_transition
  let c = record ck { status = CheckInStatus.no_show }
  ok (c, record db { check_ins = save c db.check_ins })

unfoldable pub get_my_checkin : Db → User → ℕ → Result CheckIn
get_my_checkin db user room_id =
    or_raise (find (λ (c : CheckIn). c.room_id == room_id && c.user_id == user.id) db.check_ins)
      (not_found ErrorCode.checkin_not_found)
