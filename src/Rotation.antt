-- ===== src/Rotation.antt =====
-- app/services/rotation_service.py: the operations that write. A call takes the planner, the clock
-- readings and the identifiers that it draws as arguments.
pub mod Pairs
pub mod Rounds
pub mod Statuses
pub mod Start
pub mod Begin
pub mod Session
pub mod Run
pub mod Seating
pub mod Views
use rolling_api.Prelude.{
  ◌-◌, ℤ, pos, negsuc, fits_integer, ℕ, zero, suc, ◌+◌, ◌*◌, ◌%◌, Bool, true, false, ◌&&◌, ◌||◌,
  not, Option, none, some, List, [], ◌∷◌, ◌++◌, map, ltb, leb, ◌==◌, if◌then◌else◌, opt_eq, is_some,
  length, get_elem?, find, select, count, get, save, Result, ok, err, ApiError, ErrorCode,
  api_error, forbidden, not_found, invalid_state_transition, ◌>>=◌, ◌>>◌, require, raise_if,
  or_raise,
}
use rolling_api.Model.{
  Db, Planner, Room, RoomStatus, CheckIn, CheckInStatus, Profile, Gender, RotationSession,
  RotationSessionStatus, RotationRound, RotationRoundStatus, SeatAssignment, room_row, session_row,
  round_row,
}

-- `_get_owned_room`
unfoldable pub owned_room : Db → Planner → ℕ → Result Room
owned_room db planner room_id = do
  room ← or_raise (get room_id db.rooms) (not_found ErrorCode.room_not_found)
  require (opt_eq room.planner_id planner.id) forbidden
  ok room

-- A seat: the table's number, the man and the woman.
abbrev pub Seat : Type 0
Seat = ℕ × ℕ × ℕ

-- `a ← b` of the list loops: an `IndexError` ends them
abbrev pub push {ℓ} : {A : Type ℓ} → Option A → Option (List A) → Option (List A)
push (some a) (some l) = some (a ∷ l)
push _ _ = none

abbrev pub pair_up : ℕ → Option ℕ → Option ℕ → Option Seat
pair_up i (some m) (some f) = some (i + 1, m, f)
pair_up i _ _ = none

-- the body of the inner loop: `(i + 1, males[i], females[(i + r) % n])`
abbrev pub seat_at : List ℕ → List ℕ → ℕ → ℕ → ℕ → Option Seat
seat_at males females n r i = pair_up i (get_elem? males i) (get_elem? females ((i + r) % n))

-- `for i in range(n)`, with `k` rounds of the loop to go
unfoldable pub seats_from : List ℕ → List ℕ → ℕ → ℕ → ℕ → ℕ → Option (List Seat)
seats_from males females n r i zero = some []
seats_from males females n r i (suc k) =
    push (seat_at males females n r i) (seats_from males females n r (i + 1) k)

-- `for r in range(n)`, with `k` rounds of the loop to go
unfoldable pub rounds_from : List ℕ → List ℕ → ℕ → ℕ → ℕ → Option (List (List Seat))
rounds_from males females n r zero = some []
rounds_from males females n r (suc k) =
    push (seats_from males females n r 0 n) (rounds_from males females n (r + 1) k)

-- `_round_robin_pairs`
unfoldable pub round_robin_pairs : List ℕ → List ℕ → Option (List (List Seat))
unfolding rounds_from seats_from
round_robin_pairs males females = let n = length males in rounds_from males females n 0 n

-- Python's `sorted`
unfoldable pub insert_sorted : ℕ → List ℕ → List ℕ
insert_sorted a [] = a ∷ []
insert_sorted a (x ∷ xs) = if leb a x then a ∷ x ∷ xs else x ∷ insert_sorted a xs

unfoldable pub sorted : List ℕ → List ℕ
unfolding insert_sorted
sorted [] = []
sorted (x ∷ xs) = insert_sorted x (sorted xs)

abbrev pub is_checked_in : CheckInStatus → Bool
is_checked_in CheckInStatus.checked_in = true
is_checked_in _ = false

abbrev pub same_gender : Gender → Gender → Bool
same_gender Gender.male Gender.male = true
same_gender Gender.female Gender.female = true
same_gender Gender.other Gender.other = true
same_gender _ _ = false

-- the rows of the join of check-ins with profiles that the gender test keeps, by user
unfoldable pub attendees : List CheckIn → List Profile → ℕ → Gender → List ℕ
attendees [] profiles room_id g = []
attendees (c ∷ cs) profiles room_id g =
    let rest = attendees cs profiles room_id g in
    if c.room_id == room_id && is_checked_in c.status
    then map (λ (p : Profile). c.user_id)
        (select (λ (p : Profile). p.user_id == c.user_id && same_gender p.gender g) profiles)
      ++ rest
    else rest

abbrev pub is_empty {ℓ} : {A : Type ℓ} → List A → Bool
is_empty [] = true
is_empty (_ ∷ _) = false

abbrev pub is_confirmed_room : RoomStatus → Bool
is_confirmed_room RoomStatus.confirmed = true
is_confirmed_room _ = false

abbrev pub is_running : RotationSessionStatus → Bool
is_running RotationSessionStatus.running = true
is_running _ = false

abbrev pub is_completed_session : RotationSessionStatus → Bool
is_completed_session RotationSessionStatus.completed = true
is_completed_session _ = false

abbrev pub is_completed_round : RotationRoundStatus → Bool
is_completed_round RotationRoundStatus.completed = true
is_completed_round _ = false

-- `now + timedelta(minutes=duration) * k`
unfoldable pub later : ℕ → ℤ → ℕ → ℕ
later now (pos n) k = now + n * 60_000_000 * k
later now (negsuc n) k = now - suc n * 60_000_000 * k

-- the sum is a `datetime`, of the years 1 to 9999
unfoldable pub is_datetime : ℕ → ℤ → ℕ → Bool
is_datetime now (pos n) k = ltb (now + n * 60_000_000 * k) 315_537_897_600_000_000
is_datetime now (negsuc n) k = leb (suc n * 60_000_000 * k) now

-- what a call of `start_session` draws; `seat_id r t` is the seat of round `r` at table `t`
pub record StartDraw : Type 0 where
  pub session_id : ℕ
  pub round_id : ℕ → ℕ
  pub seat_id : ℕ → ℕ → ℕ
  pub now : ℕ

abbrev pub new_session : ℕ → ℤ → StartDraw → RotationSession
new_session room_id duration d = record {
  id = d.session_id;
  room_id = room_id;
  status = RotationSessionStatus.running;
  current_round = 1;
  round_duration_minutes = duration;
  started_at = some d.now;
  ended_at = none;
}

-- the round with index `r_idx`
abbrev pub new_round : ℕ → ℤ → StartDraw → ℕ → RotationRound
new_round room_id duration d r_idx = record {
  id = d.round_id r_idx;
  session_id = d.session_id;
  room_id = room_id;
  round_number = r_idx + 1;
  starts_at = some (later d.now duration r_idx);
  ends_at = some (later d.now duration (r_idx + 1));
  status = if r_idx == 0 then RotationRoundStatus.active else RotationRoundStatus.pending;
}

-- `for r_idx, seats in enumerate(pairs_by_round)`: the rounds that it adds
unfoldable pub round_rows : ℕ → ℤ → StartDraw → ℕ → List (List Seat) → List RotationRound
round_rows room_id duration d r_idx [] = []
round_rows room_id duration d r_idx (_ ∷ rest) =
    new_round room_id duration d r_idx ∷ round_rows room_id duration d (r_idx + 1) rest

-- the seats that it adds for one round
unfoldable pub seat_rows : ℕ → StartDraw → ℕ → List Seat → List SeatAssignment
seat_rows room_id d r_idx [] = []
seat_rows room_id d r_idx ((tbl, male_id, female_id) ∷ rest) =
    record {
      id = d.seat_id r_idx tbl;
      room_id = room_id;
      session_id = d.session_id;
      round_id = d.round_id r_idx;
      participant_a_id = male_id;
      participant_b_id = female_id;
      table_number = tbl;
    }
    ∷ seat_rows room_id d r_idx rest

unfoldable pub all_seat_rows : ℕ → StartDraw → ℕ → List (List Seat) → List SeatAssignment
all_seat_rows room_id d r_idx [] = []
all_seat_rows room_id d r_idx (seats ∷ rest) =
    seat_rows room_id d r_idx seats ++ all_seat_rows room_id d (r_idx + 1) rest

-- `select(RotationSession).where(room_id == room_id)`
abbrev pub session_of : ℕ → RotationSession → Bool
session_of room_id s = s.room_id == room_id

-- The flush of the session fails on a duration that its column cannot hold, and the loop on a round
-- whose start or end is no date: the last end is the farthest from `now`.
unfoldable pub start_session : Db → Planner → ℕ → ℤ → StartDraw → Result (RotationSession × Db)
start_session db planner room_id duration d = do
  room ← owned_room db planner room_id
  require (is_confirmed_room room.status) invalid_state_transition
  raise_if (is_some (find (session_of room_id) db.sessions))
      (api_error ErrorCode.rotation_already_started 409)
  let males = sorted (attendees db.check_ins db.profiles room_id Gender.male)
  let females = sorted (attendees db.check_ins db.profiles room_id Gender.female)
  raise_if (is_empty males || is_empty females) (api_error ErrorCode.no_checked_in_participants 409)
  require (length males == length females) (api_error ErrorCode.rotation_gender_imbalance 409)
  pairs ← or_raise (round_robin_pairs males females) (api_error ErrorCode.integrity_error 500)
  require (fits_integer duration) (api_error ErrorCode.integrity_error 500)
  require (is_datetime d.now duration (length pairs)) (api_error ErrorCode.integrity_error 500)
  let session = new_session room_id duration d
  ok (
    session,
    record db {
      sessions = db.sessions ++ session ∷ [];
      rounds = db.rounds ++ round_rows room_id duration d 0 pairs;
      seats = db.seats ++ all_seat_rows room_id d 0 pairs;
      rooms = save (record room { status = RoomStatus.in_progress }) db.rooms;
    },
  )

abbrev pub round_of : RotationSession → RotationRound → Bool
round_of session r = r.session_id == session.id

abbrev pub round_numbered : RotationSession → ℕ → RotationRound → Bool
round_numbered session k r = r.session_id == session.id && r.round_number == k

-- the writes to `current`
abbrev pub complete_round : Option RotationRound → ℕ → List RotationRound → List RotationRound
complete_round none now rounds = rounds
complete_round (some r) now rounds =
    save (record r { status = RotationRoundStatus.completed; ends_at = some now }) rounds

-- the writes to `next_r`
abbrev pub activate_round : Option RotationRound → ℕ → ℤ → List RotationRound → List RotationRound
activate_round none now duration rounds = rounds
activate_round (some r) now duration rounds =
    save
      (record r {
        status = RotationRoundStatus.active;
        starts_at = some now;
        ends_at = some (later now duration 1);
      })
      rounds

-- Both rounds are picked from the rows that were read before the writes.
unfoldable pub next_round : Db → Planner → ℕ → ℕ → ℕ → Result (RotationSession × Db)
next_round db planner room_id now now' = do
  _ ← owned_room db planner room_id
  session ←
      or_raise (find (session_of room_id) db.sessions) (not_found ErrorCode.rotation_not_started)
  require (is_running session.status) invalid_state_transition
  let total = count (round_of session) db.rounds
  raise_if (leb total session.current_round) (api_error ErrorCode.already_last_round 409)
  let current = find (round_numbered session session.current_round) db.rounds
  let next_r = find (round_numbered session (session.current_round + 1)) db.rounds
  let session' = record session { current_round = session.current_round + 1 }
  ok (
    session',
    record db {
      rounds =
          activate_round next_r now' session.round_duration_minutes
            (complete_round current now db.rounds);
      sessions = save session' db.sessions;
    },
  )

-- `r.ends_at or now`
abbrev pub or_now : Option ℕ → ℕ → Option ℕ
or_now none now = some now
or_now (some t) now = some t

-- the body of the loop of `end_session`
abbrev pub close_round : RotationSession → ℕ → RotationRound → RotationRound
close_round session now r =
    if round_of session r && not (is_completed_round r.status)
    then record r { status = RotationRoundStatus.completed; ends_at = or_now r.ends_at now }
    else r

unfoldable pub end_session : Db → Planner → ℕ → ℕ → Result (RotationSession × Db)
end_session db planner room_id now = do
  room ← owned_room db planner room_id
  session ←
      or_raise (find (session_of room_id) db.sessions) (not_found ErrorCode.rotation_not_started)
  raise_if (is_completed_session session.status) invalid_state_transition
  let session' = record session { status = RotationSessionStatus.completed; ended_at = some now }
  ok (
    session',
    record db {
      rounds = map (close_round session now) db.rounds;
      sessions = save session' db.sessions;
      rooms = save (record room { status = RoomStatus.completed }) db.rooms;
    },
  )
