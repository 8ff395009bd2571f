-- ===== src/Tests/Choices.antt =====
-- Runs of the choices: anna and ben choose each other, and ben lists the match.
use rolling_api.Prelude.{
  ℕ, ◌≡◌, refl, true, none, some, List, [], ◌∷◌, find, get, save, select, any, is_some, All, ok,
}
use rolling_api.Model.{
  Db, Room, RoomStatus, ChoiceType, MatchResult, MatchStatus, room_row, match_row, choice_row,
}
use rolling_api.Choice.{
  ChoiceItem, submit_choices, take_items, take_item, put_choice, put_match, drop_match, settle,
  flush, insert_all, is_valid_target, ensure_attended, work_on, is_attendance,
}
use rolling_api.Choice.Proposals.{list_my_matches, summary_of}
use rolling_api.Choice.Submission.{IsSettled}
use rolling_api.Choice.Mutual.{matches_stay_mutual}
use rolling_api.Choice.Matches.{IsEntitled, listed_matches}
use rolling_api.Tests.Data.{value_or, anna, ben, room_in, db_with}

abbrev room : Room
room = room_in RoomStatus.in_progress (some 7)

-- ben has already chosen anna
abbrev pub asked : Db
asked = record (db_with room) {
  choices =
      record {
        id = 301;
        room_id = 10;
        chooser_id = 3;
        chosen_id = 2;
        choice_type = ChoiceType.interested;
        note = none;
      }
      ∷ [];
}

abbrev pub answer : List ChoiceItem
answer =
    record {
      chosen_id = 3;
      choice_type = ChoiceType.interested;
      note = none;
      choice_id = 302;
      match_id = 401;
      now = 1_500;
    }
    ∷ []

abbrev agreed : (ℕ × ℕ) × Db
agreed = value_or ((0, 0), asked) (submit_choices asked anna 10 answer)

answers : submit_choices asked anna 10 answer ≡ ok agreed
unfolding submit_choices take_items take_item put_choice put_match drop_match settle flush
    insert_all is_valid_target ensure_attended get find save any
answers = refl

asked-IsSettled : IsSettled (work_on asked)
asked-IsSettled = record {
  keyed = record { ids = (tt, tt); keys = (tt, tt) };
  ids = tt;
  keys = tt;
  backed = tt;
  added = tt;
}

matches_stay_mutual_example : IsSettled (work_on agreed.1)
matches_stay_mutual_example =
    matches_stay_mutual asked anna 10 answer agreed.0 agreed.1 asked-IsSettled (tt, tt) answers

abbrev the_match : MatchResult
the_match = record {
  id = 401;
  room_id = 10;
  user_a_id = 2;
  user_b_id = 3;
  status = MatchStatus.mutual_match;
  visible_at = some 86_400_001_500;
}

-- the submission has stored this match
agreed_match : (agreed.0 ≡ (1, 1)) × (agreed.1.matches ≡ the_match ∷ [])
unfolding submit_choices take_items take_item put_choice put_match drop_match settle flush
    insert_all is_valid_target ensure_attended get find save any
agreed_match = (refl, refl)

abbrev matched : Db
matched = record asked { matches = the_match ∷ [] }

listed : list_my_matches matched ben 10 90_000_000_000 ≡ ok (summary_of matched ben the_match ∷ [])
unfolding list_my_matches ensure_attended get find select
listed = refl

here : get 10 matched.rooms ≡ some room
unfolding get find
here = refl

listed_matches_example :
    (is_some (find (is_attendance 10 ben.id) matched.check_ins) ≡ true)
    × All (IsEntitled matched ben room 10 90_000_000_000) (summary_of matched ben the_match ∷ [])
listed_matches_example =
    listed_matches matched ben room 10 90_000_000_000 (summary_of matched ben the_match ∷ []) here
      listed

stored_match : get 401 matched.matches ≡ some the_match
unfolding get find
stored_match = refl
