-- ===== src/Tests/Views.antt =====
-- Runs of the lists and views: the public list, the targets of a choice, the rounds that two guests
-- see, and the queue of rooms without a planner.
use rolling_api.Prelude.{
  pos, ◌-◌, if◌then◌else◌, ℕ, String, ◌≡◌, ◌≢◌, ◌↔◌, refl, inl, inr, sym, ◌∙◌, Bool, true, false,
  ◌&&◌, none, some, List, [], ◌∷◌, arith, ◌==◌, any, find, get, save, select, count, All,
  UniqueKeys, IsOrdered, order_by, insert_row, join, pair_all, ok, err, Member,
}
use rolling_api.Model.{
  Db, Room, RoomStatus, Gender, SeatAssignment, RotationSession, RotationRound,
  RotationSessionStatus, RotationRoundStatus, room_row, planner_row,
}
use rolling_api.Application.{is_open_for_applications}
use rolling_api.Listing.{RoomQuery, is_listed, fits, list_public_rooms, starts_first, is_public}
use rolling_api.Listing.Pages.{read_pages, pages_are_complete, public_page-IsOrdered}
use rolling_api.Choice.{submit_choices, ensure_attended}
use rolling_api.Choice.Targets.{
  ChoiceTarget, list_choice_targets, target_rows, my_choice_of, all_listed, invalid_target,
  submission_takes_listed,
}
use rolling_api.Rotation.Views.{MyCurrentRoundView, get_my_current_round, opponent_brief}
use rolling_api.Rotation.Views.Opponents.{SeatedApart, opponents_agree}
use rolling_api.Admin.{Actor, assign_planner_to_room, log_action}
use rolling_api.Admin.Queue.Members.{is_item, whole_queue, has_host, assignment_moves_room}
use rolling_api.Tests.Data.{value_or, anna, ben, chief, profile, room_in, db_with}
use rolling_api.Tests.Choices.{asked, answer}

-- two public rooms that take applications, and a draft
abbrev market : Db
market = record (db_with (room_in RoomStatus.published none)) {
  rooms =
      record (room_in RoomStatus.published none) { starts_at = 1_500 }
      ∷ record (room_in RoomStatus.draft none) { id = 12 }
      ∷ record (room_in RoomStatus.viable none) { id = 11 }
      ∷ [];
}

abbrev anything : RoomQuery
anything = record {
  region = none;
  room_type = none;
  starts_after = none;
  starts_before = some 1_800;
  min_age = none;
  max_age = none;
}

abbrev is_eleven : Room → Bool
is_eleven room = room.id == 11

-- every second query finds the rooms that start together in another order
abbrev turned : ℕ → Room → ℕ
turned i room = if i == 1 then 20 - room.id else room.id

pages_are_complete_example :
    count is_eleven (read_pages turned market anything 1 0 2)
    ≡ count (λ room. is_listed anything room && is_eleven room) market.rooms
unfolding list_public_rooms count select
pages_are_complete_example =
    pages_are_complete turned market anything 1 2 is_eleven ((refl, tt), (tt, tt)) (omega arith)

public_page-IsOrdered_example :
    IsOrdered starts_first (list_public_rooms (turned 1) market anything 2 0).0
    × All
        (λ (room : Room).
          (is_public room.visibility && is_open_for_applications room.status) && fits anything room
          ≡ true)
        (list_public_rooms (turned 1) market anything 2 0).0
public_page-IsOrdered_example = public_page-IsOrdered (turned 1) market anything 2 0

abbrev no_order : String → String → Bool
no_order a b = true

abbrev targets : List ChoiceTarget
targets = value_or [] (list_choice_targets no_order asked anna 10)

lists : list_choice_targets no_order asked anna 10 ≡ ok targets
unfolding list_choice_targets ensure_attended target_rows my_choice_of order_by insert_row join
    pair_all select find get
lists = refl

submission_takes_listed_example :
    (submit_choices asked anna 10 answer ≡ err invalid_target) ↔ (all_listed targets answer ≡ false)
submission_takes_listed_example =
    submission_takes_listed no_order asked anna 10 targets lists answer

-- anna and ben at the one table of the first of two rounds
abbrev first_seat : SeatAssignment
first_seat = record {
  id = 81;
  room_id = 10;
  session_id = 60;
  round_id = 71;
  table_number = 1;
  participant_a_id = 3;
  participant_b_id = 2;
}

abbrev the_session : RotationSession
the_session = record {
  id = 60;
  room_id = 10;
  status = RotationSessionStatus.running;
  current_round = 1;
  round_duration_minutes = pos 15;
  started_at = some 1_000;
  ended_at = none;
}

abbrev the_round : RotationRound
the_round = record {
  id = 71;
  room_id = 10;
  session_id = 60;
  round_number = 1;
  status = RotationRoundStatus.active;
  starts_at = some 1_000;
  ends_at = some 901_000;
}

abbrev seated : Db
seated = record (db_with (room_in RoomStatus.in_progress (some 7))) {
  sessions = the_session ∷ [];
  rounds = the_round ∷ [];
  seats = first_seat ∷ [];
}

the_first : (s : SeatAssignment) → Member s seated.seats → s ≡ first_seat
the_first s (inl e) = e
the_first s (inr m) = elim m [ ]

seated-SeatedApart : SeatedApart seated.seats
seated-SeatedApart s t rnd k in_s in_t _ _ = the_first s in_s ∙ sym (the_first t in_t)

opponents_agree_example :
    (va vb : MyCurrentRoundView) × (get_my_current_round seated anna 10 ≡ ok va)
    × (get_my_current_round seated ben 10 ≡ ok vb)
    × (va.opponent ≡ some (opponent_brief (profile 31 3 "ben" Gender.male)))
    × (vb.opponent ≡ some (opponent_brief (profile 21 2 "anna" Gender.female)))
    × (va.table_number ≡ some 1)
    × (vb.table_number ≡ some 1)
unfolding find select order_by insert_row
opponents_agree_example =
    opponents_agree seated anna ben 10 the_session the_round first_seat
      (profile 21 2 "anna" Gender.female) (profile 31 3 "ben" Gender.male) seated-SeatedApart refl
      refl (inl refl) refl (inr (refl, refl)) refl refl

abbrev waiting : Db
waiting = db_with (room_in RoomStatus.viable none)

abbrev admin : Actor
admin = record { user = chief; ip = none; ua = none; log_id = 900 }

abbrev assigned : Room × Db
assigned =
    value_or (room_in RoomStatus.draft none, waiting) (assign_planner_to_room waiting admin 10 7)

assigns : assign_planner_to_room waiting admin 10 7 ≡ ok assigned
unfolding assign_planner_to_room log_action get find save
assigns = refl

waiting_unique : UniqueKeys waiting.rooms
waiting_unique = (tt, tt)

assignment_moves_room_example :
    (any (is_item 10) (whole_queue assigned.1 false) ≡ false)
    × (any (is_item 10) (whole_queue assigned.1 true) ≡ has_host waiting assigned.0)
    × ((j : ℕ) (include_assigned : Bool)
        → j ≢ 10
        → any (is_item j) (whole_queue assigned.1 include_assigned)
          ≡ any (is_item j) (whole_queue waiting include_assigned))
assignment_moves_room_example =
    assignment_moves_room waiting assigned.1 admin 10 7 assigned.0 waiting_unique assigns
