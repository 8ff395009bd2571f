-- ===== src/Tests/Rotations.antt =====
-- Runs of the rotation: two men and two women in one room, seated, started and led to the end.
use rolling_api.Prelude.{
  pos, fits_integer, ◌==◌, get_elem?, ℕ, ◌+◌, ◌≡◌, ◌≢◌, ◌⊎◌, refl, none, some, List, [], ◌∷◌, arith,
  length, count, find, get, save, select, All, IsDistinct, ok, err, api_error, ErrorCode,
  invalid_state_transition,
}
use mathlib.Core.Option
use rolling_api.Model.{
  SeatAssignment, Db, Room, RoomStatus, RotationSession, RotationSessionStatus, RotationRound,
  RotationRoundStatus, Gender, room_row, session_row, round_row,
}
use rolling_api.Rotation.{
  is_datetime, later, Seat, StartDraw, round_robin_pairs, rounds_from, seats_from, start_session,
  next_round, end_session, owned_room, sorted, insert_sorted, attendees, round_rows, seat_rows,
  all_seat_rows, session_of, round_of,
}
use rolling_api.Rotation.Rounds.{has_male, has_female, seated_once}
use rolling_api.Rotation.Statuses.{OnSchedule, UniqueRounds, next_round-OnSchedule}
use rolling_api.Rotation.Start.{males_of, females_of}
use rolling_api.Rotation.Seating.{seat_of, everybody_meets}
use rolling_api.Rotation.Begin.{IsFresh, start_session-OnSchedule}
use rolling_api.Rotation.Run.{advance, rotation_runs, rotation_ends, end_session_lem}
use rolling_api.Tests.Data.{value_or, planner, room_in, db_with, profile, check_in}

abbrev two_rounds : List (List Seat)
two_rounds = ((1, 11, 21) ∷ (2, 12, 22) ∷ []) ∷ ((1, 11, 22) ∷ (2, 12, 21) ∷ []) ∷ []

abbrev men : List ℕ
men = 11 ∷ 12 ∷ []

abbrev women : List ℕ
women = 21 ∷ 22 ∷ []

paired : round_robin_pairs men women ≡ some two_rounds
unfolding round_robin_pairs rounds_from seats_from
paired = refl

men_differ : IsDistinct men
men_differ = ((λ e. ground (arith, e), tt), (tt, tt))

women_differ : IsDistinct women
women_differ = ((λ e. ground (arith, e), tt), (tt, tt))

seated_once_example :
    (count (has_male 12) ((1, 11, 22) ∷ (2, 12, 21) ∷ []) ≡ 1)
    × (count (has_female 21) ((1, 11, 22) ∷ (2, 12, 21) ∷ []) ≡ 1)
seated_once_example =
    seated_once men women 1 0 12 21 1 two_rounds ((1, 11, 22) ∷ (2, 12, 21) ∷ []) refl men_differ
      women_differ refl refl paired refl

-- two men and two women are checked in
abbrev hall : Db
hall = record (db_with (room_in RoomStatus.confirmed (some 7))) {
  profiles =
      profile 21 2 "anna" Gender.female
      ∷ profile 31 3 "ben" Gender.male
      ∷ profile 41 4 "carl" Gender.male
      ∷ profile 51 5 "dora" Gender.female
      ∷ [];
  check_ins =
      check_in 202 2 102 ∷ check_in 203 3 103 ∷ check_in 204 4 104 ∷ check_in 205 5 105 ∷ [];
}

abbrev draw : StartDraw
draw = record { session_id = 60; round_id = λ i. 70 + i; seat_id = λ i t. 80 + i + t; now = 1_000 }

abbrev begun : RotationSession × Db
begun =
    value_or
      (
        record {
          id = 0;
          room_id = 0;
          status = RotationSessionStatus.pending;
          current_round = 0;
          round_duration_minutes = pos 0;
          started_at = none;
          ended_at = none;
        },
        hall,
      )
      (start_session hall planner 10 (pos 15) draw)

begins : start_session hall planner 10 (pos 15) draw ≡ ok begun
unfolding start_session fits_integer is_datetime later owned_room get find sorted insert_sorted
    attendees select round_robin_pairs rounds_from seats_from round_rows seat_rows all_seat_rows
    save
begins = refl

hall-IsFresh : IsFresh hall draw
hall-IsFresh = record {
  session_unused = tt;
  rounds_unused = λ i. tt;
  rounds_differ = λ i j e. omega (arith, e);
}

start_session-OnSchedule_example :
    All (OnSchedule begun.0) begun.1.rounds
    × (begun.0.current_round ≡ 1)
    × (count (round_of begun.0) begun.1.rounds ≡ length (males_of hall 10))
    × UniqueRounds begun.1.rounds
start_session-OnSchedule_example =
    start_session-OnSchedule hall planner 10 (pos 15) draw begun.0 begun.1 hall-IsFresh tt begins

abbrev clock : ℕ → ℕ
clock k = 2_000 + k

rotation_runs_example :
    (s' : RotationSession) × (db'' : Db) × (advance planner 10 clock 1 (begun.0, begun.1)
      ≡ ok (s', db''))
    × (s'.current_round ≡ 2)
unfolding sorted insert_sorted attendees select
rotation_runs_example =
    rotation_runs hall planner 10 (pos 15) draw begun.0 begun.1 clock 1 hall-IsFresh tt begins
      (omega arith)

abbrev second : RotationSession × Db
second = value_or begun (next_round begun.1 planner 10 2_000 2_001)

moves : next_round begun.1 planner 10 2_000 2_001 ≡ ok second
unfolding start_session fits_integer is_datetime later next_round owned_room get find sorted
    insert_sorted attendees select round_robin_pairs rounds_from seats_from round_rows seat_rows
    all_seat_rows save count
moves = refl

begun_at : find (session_of 10) begun.1.sessions ≡ some begun.0
unfolding start_session fits_integer is_datetime later owned_room get find sorted insert_sorted
    attendees select round_robin_pairs rounds_from seats_from round_rows seat_rows all_seat_rows
    save
begun_at = refl

begun_on : All (OnSchedule begun.0) begun.1.rounds
begun_on =
    (start_session-OnSchedule hall planner 10 (pos 15) draw begun.0 begun.1 hall-IsFresh tt
      begins).0

begun_unique : UniqueRounds begun.1.rounds
begun_unique =
    (start_session-OnSchedule hall planner 10 (pos 15) draw begun.0 begun.1 hall-IsFresh tt
      begins).3

next_round-OnSchedule_example :
    (second.0.current_round ≡ begun.0.current_round + 1) × All (OnSchedule second.0) second.1.rounds
next_round-OnSchedule_example =
    next_round-OnSchedule begun.1 planner 10 2_000 2_001 begun.0 second.0 second.1 begun_unique
      begun_at begun_on moves

runs_once : advance planner 10 clock 1 (begun.0, begun.1) ≡ ok second
unfolding start_session fits_integer is_datetime later next_round owned_room get find sorted
    insert_sorted attendees select round_robin_pairs rounds_from seats_from round_rows seat_rows
    all_seat_rows save count advance
runs_once = refl

men_in_hall : 1 + 1 ≡ length (males_of hall 10)
unfolding sorted insert_sorted attendees select
men_in_hall = refl

rotation_ends_example :
    next_round second.1 planner 10 3_000 3_001 ≡ err (api_error ErrorCode.already_last_round 409)
rotation_ends_example =
    rotation_ends hall planner 10 (pos 15) draw begun.0 begun.1 clock 1 3_000 3_001 second.0
      second.1 hall-IsFresh tt begins men_in_hall runs_once

abbrev over : RotationSession × Db
over = value_or begun (end_session second.1 planner 10 4_000)

closes : end_session second.1 planner 10 4_000 ≡ ok over
unfolding start_session fits_integer is_datetime later next_round end_session owned_room get find
    sorted insert_sorted attendees select round_robin_pairs rounds_from seats_from round_rows
    seat_rows all_seat_rows save count
closes = refl

end_session_example :
    (over.0.status ≡ RotationSessionStatus.completed)
    × All
        (λ (r : RotationRound).
          (r.session_id ≢ over.0.id) ⊎ (r.status ≡ RotationRoundStatus.completed))
        over.1.rounds
    × (Option.map (λ (r : Room). r.status) (get 10 over.1.rooms) ≡ some RoomStatus.completed)
    × (end_session over.1 planner 10 5_000 ≡ err invalid_state_transition)
    × (next_round over.1 planner 10 5_000 6_000 ≡ err invalid_state_transition)
end_session_example = end_session_lem second.1 planner 10 4_000 5_000 6_000 over.0 over.1 closes

no_seats : find (λ (t : SeatAssignment). t.session_id == 60) hall.seats ≡ none
unfolding find
no_seats = refl

hall_men : males_of hall 10 ≡ 3 ∷ 4 ∷ []
unfolding sorted insert_sorted attendees select
hall_men = refl

hall_women : females_of hall 10 ≡ 2 ∷ 5 ∷ []
unfolding sorted insert_sorted attendees select
hall_women = refl

hall_men_differ : IsDistinct (males_of hall 10)
hall_men_differ = rw hall_men (((λ e. ground (arith, e)), tt), (tt, tt))

hall_women_differ : IsDistinct (females_of hall 10)
hall_women_differ = rw hall_women (((λ e. ground (arith, e)), tt), (tt, tt))

first_man : get_elem? (males_of hall 10) 0 ≡ some 3
first_man = rw hall_men refl

second_woman : get_elem? (females_of hall 10) 1 ≡ some 5
second_woman = rw hall_women refl

everybody_meets_example :
    (begun.0.id ≡ draw.session_id) × (count (seat_of begun.0.id 3 5) begun.1.seats ≡ 1)
everybody_meets_example =
    everybody_meets hall planner 10 (pos 15) draw begun.0 begun.1 0 1 3 5 begins no_seats
      hall_men_differ hall_women_differ first_man second_woman
