-- ===== src/Rotation/Views.antt =====
-- What app/services/rotation_service.py shows of a session: `get_session_view` to its planner, and
-- `get_my_current_round` to a guest.
pub mod Opponents
pub mod Shown
use rolling_api.Prelude.{
  ℤ, ℕ, String, Bool, true, false, ◌&&◌, ◌||◌, Option, none, some, List, [], ◌∷◌, leb, ◌==◌,
  if◌then◌else◌, find, select, order_by, length, map, Result, ok, err, ErrorCode, not_found, ◌>>=◌,
  ◌>>◌, or_raise,
}
use rolling_api.Model.{
  Db, User, Planner, Profile, Gender, RotationSession, RotationSessionStatus, RotationRound,
  RotationRoundStatus, SeatAssignment,
}
use rolling_api.Rotation.{owned_room, session_of, round_of}

pub record SeatPair : Type 0 where
  pub table_number : ℕ
  pub participant_a_id : ℕ
  pub participant_b_id : ℕ
  pub participant_a_name : Option String
  pub participant_b_name : Option String

pub record RoundView : Type 0 where
  pub id : ℕ
  pub round_number : ℕ
  pub status : RotationRoundStatus
  pub starts_at : Option ℕ
  pub ends_at : Option ℕ
  pub seats : List SeatPair

pub record RotationSessionView : Type 0 where
  pub id : ℕ
  pub room_id : ℕ
  pub status : RotationSessionStatus
  pub current_round : ℕ
  pub round_duration_minutes : ℤ
  pub started_at : Option ℕ
  pub ended_at : Option ℕ
  pub rounds : List RoundView

-- `name_by_user.get(user_id)`: of two profiles of one user the later one is kept
unfoldable pub name_by_user : List Profile → ℕ → Option String
name_by_user [] user_id = none
name_by_user (p ∷ ps) user_id =
    let later = name_by_user ps user_id in
    elim later [
      | some name ↦ some name
      | none ↦ if p.user_id == user_id then some p.display_name else none
    ]

abbrev pub by_table : SeatAssignment → SeatAssignment → Bool
by_table s t = leb s.table_number t.table_number

abbrev pub by_number : RotationRound → RotationRound → Bool
by_number r s = leb r.round_number s.round_number

abbrev pub seat_pair : List Profile → SeatAssignment → SeatPair
seat_pair profiles s = record {
  table_number = s.table_number;
  participant_a_id = s.participant_a_id;
  participant_b_id = s.participant_b_id;
  participant_a_name = name_by_user profiles s.participant_a_id;
  participant_b_name = name_by_user profiles s.participant_b_id;
}

-- the seats of `seats_by_round.get(rnd.id, [])`, by their table
unfoldable pub seats_of : Db → RotationSession → RotationRound → List SeatAssignment
seats_of db session rnd =
    order_by by_table
      (select (λ (s : SeatAssignment). s.session_id == session.id && s.round_id == rnd.id) db.seats)

unfoldable pub round_view : Db → RotationSession → RotationRound → RoundView
unfolding seats_of
round_view db session rnd = record {
  id = rnd.id;
  round_number = rnd.round_number;
  status = rnd.status;
  starts_at = rnd.starts_at;
  ends_at = rnd.ends_at;
  seats = map (seat_pair db.profiles) (seats_of db session rnd);
}

unfoldable pub session_view : Db → RotationSession → RotationSessionView
unfolding round_view
session_view db session = record {
  id = session.id;
  room_id = session.room_id;
  status = session.status;
  current_round = session.current_round;
  round_duration_minutes = session.round_duration_minutes;
  started_at = session.started_at;
  ended_at = session.ended_at;
  rounds = map (round_view db session) (order_by by_number (select (round_of session) db.rounds));
}

unfoldable pub get_session_view : Db → Planner → ℕ → Result RotationSessionView
get_session_view db planner room_id = do
  _ ← owned_room db planner room_id
  session ←
      or_raise (find (session_of room_id) db.sessions) (not_found ErrorCode.rotation_not_started)
  ok (session_view db session)

pub record OpponentBrief : Type 0 where
  pub user_id : ℕ
  pub display_name : String
  pub gender : Gender
  pub birth_year : ℕ
  pub region : Option String
  pub job_title : Option String
  pub intro : Option String

pub record MyCurrentRoundView : Type 0 where
  pub session_status : RotationSessionStatus
  pub current_round : ℕ
  pub total_rounds : ℕ
  pub round_duration_minutes : ℤ
  pub table_number : Option ℕ
  pub opponent : Option OpponentBrief
  pub round_status : Option RotationRoundStatus

abbrev pub opponent_brief : Profile → OpponentBrief
opponent_brief p = record {
  user_id = p.user_id;
  display_name = p.display_name;
  gender = p.gender;
  birth_year = p.birth_year;
  region = p.region;
  job_title = p.job_title;
  intro = p.intro;
}

abbrev pub brief_of : Option Profile → Option OpponentBrief
brief_of none = none
brief_of (some p) = some (opponent_brief p)

-- a seat of the round at which the user sits
abbrev pub my_seat : RotationRound → ℕ → SeatAssignment → Bool
my_seat rnd user_id s =
    s.round_id == rnd.id && (s.participant_a_id == user_id || s.participant_b_id == user_id)

abbrev pub other_at : SeatAssignment → ℕ → ℕ
other_at s user_id =
    if s.participant_a_id == user_id then s.participant_b_id else s.participant_a_id

abbrev pub table_of : Option SeatAssignment → Option ℕ
table_of none = none
table_of (some s) = some s.table_number

abbrev pub opponent_at : List Profile → ℕ → Option SeatAssignment → Option OpponentBrief
opponent_at profiles user_id none = none
opponent_at profiles user_id (some s) =
    brief_of (find (λ (p : Profile). p.user_id == other_at s user_id) profiles)

-- the answer where the session has a current round, and where it has none
unfoldable pub round_for : Db → ℕ → RotationSession → ℕ → Option RotationRound → MyCurrentRoundView
round_for db user_id session total none = record {
  session_status = session.status;
  current_round = session.current_round;
  total_rounds = total;
  round_duration_minutes = session.round_duration_minutes;
  table_number = none;
  opponent = none;
  round_status = none;
}
round_for db user_id session total (some rnd) =
    let seat = find (my_seat rnd user_id) db.seats in
    record {
      session_status = session.status;
      current_round = session.current_round;
      total_rounds = total;
      round_duration_minutes = session.round_duration_minutes;
      table_number = table_of seat;
      opponent = opponent_at db.profiles user_id seat;
      round_status = some rnd.status;
    }

unfoldable pub get_my_current_round : Db → User → ℕ → Result MyCurrentRoundView
unfolding round_for
get_my_current_round db user room_id = do
  session ←
      or_raise (find (session_of room_id) db.sessions) (not_found ErrorCode.rotation_not_started)
  let rounds = order_by by_number (select (round_of session) db.rounds)
  ok (
      round_for db user.id session (length rounds)
        (find (λ (r : RotationRound). r.round_number == session.current_round) rounds))
