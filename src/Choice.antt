-- ===== src/Choice.antt =====
-- app/services/choice_service.py. The session has `autoflush=False` (app/core/database.py): a query
-- sees the rows that were there when the request began, with the changes the request has made to
-- them, and not the rows that it has added, which are written when the request flushes.
pub mod Interest
pub mod Submission
pub mod Settle
pub mod Flush
pub mod Mutual
pub mod Matches
pub mod Proposals
pub mod Targets
use rolling_api.Prelude.{
  ℕ, suc, ◌+◌, ◌*◌, String, Bool, true, false, ◌&&◌, ◌||◌, not, Option, none, some, List, [], ◌∷◌,
  ◌++◌, map, ltb, leb, ◌==◌, if◌then◌else◌, is_some, any, find, select, get, save, Result, ok, err,
  ErrorCode, api_error, forbidden, not_found, invalid_state_transition, ◌>>=◌, ◌>>◌, require,
  raise_if, or_raise,
}
use rolling_api.Model.{
  Db, User, Profile, Room, RoomStatus, CheckIn, CheckInStatus, ParticipantChoice, ChoiceType,
  MatchResult, MatchStatus, AfterDateProposal, AfterDateProposalStatus, Gender, room_row,
  choice_row, match_row,
}

-- CHOICE_OPEN_STATUSES
abbrev pub is_open_for_choices : RoomStatus → Bool
is_open_for_choices RoomStatus.in_progress = true
is_open_for_choices RoomStatus.completed = true
is_open_for_choices _ = false

-- `_canonical_pair`
abbrev pub canonical_pair : ℕ → ℕ → ℕ × ℕ
canonical_pair a b = if ltb a b then (a, b) else (b, a)

abbrev pub is_checked_in : CheckInStatus → Bool
is_checked_in CheckInStatus.checked_in = true
is_checked_in _ = false

abbrev pub is_attendance : ℕ → ℕ → CheckIn → Bool
is_attendance room_id user_id c =
    c.room_id == room_id && (c.user_id == user_id && is_checked_in c.status)

-- `_ensure_attended`
unfoldable pub ensure_attended : Db → User → ℕ → Result CheckIn
ensure_attended db user room_id =
    or_raise (find (is_attendance room_id user.id) db.check_ins) forbidden

abbrev pub same_gender : Gender → Gender → Bool
same_gender Gender.male Gender.male = true
same_gender Gender.female Gender.female = true
same_gender Gender.other Gender.other = true
same_gender _ _ = false

-- `chosen_id in valid_targets`: a row of the join of profiles with check-ins has that user
unfoldable pub is_valid_target : Db → User → Gender → ℕ → ℕ → Bool
is_valid_target db user gender room_id chosen_id =
    not (chosen_id == user.id)
    && (any (λ (p : Profile). p.user_id == chosen_id && not (same_gender p.gender gender))
          db.profiles
        && any (is_attendance room_id chosen_id) db.check_ins)

abbrev pub is_interested : ChoiceType → Bool
is_interested ChoiceType.interested = true
is_interested _ = false

-- an item of the submission, with the identifiers and the clock reading that it may draw
pub record ChoiceItem : Type 0 where
  pub chosen_id : ℕ
  pub choice_type : ChoiceType
  pub note : Option String
  pub choice_id : ℕ
  pub match_id : ℕ
  pub now : ℕ

-- the rows that the queries see, with the changes made, and the rows that were added
pub record Work : Type 0 where
  pub choices : List ParticipantChoice
  pub added_choices : List ParticipantChoice
  pub matches : List MatchResult
  pub added_matches : List MatchResult
  pub accepted : ℕ
  pub new_mutual : ℕ

abbrev pub choice_of : ℕ → ℕ → ℕ → ParticipantChoice → Bool
choice_of room_id chooser chosen c =
    c.room_id == room_id && (c.chooser_id == chooser && c.chosen_id == chosen)

abbrev pub interest_of : ℕ → ℕ → ℕ → ParticipantChoice → Bool
interest_of room_id chooser chosen c =
    choice_of room_id chooser chosen c && is_interested c.choice_type

abbrev pub match_of : ℕ → ℕ × ℕ → MatchResult → Bool
match_of room_id pair m = m.room_id == room_id && (m.user_a_id == pair.0 && m.user_b_id == pair.1)

-- 24 hours in microseconds
abbrev pub embargo : ℕ
embargo = 24 * 3_600_000_000

abbrev pub new_choice : ℕ → ℕ → ChoiceItem → ParticipantChoice
new_choice room_id user_id item = record {
  id = item.choice_id;
  room_id = room_id;
  chooser_id = user_id;
  chosen_id = item.chosen_id;
  choice_type = item.choice_type;
  note = item.note;
}

abbrev pub changed_choice : ParticipantChoice → ChoiceItem → ParticipantChoice
changed_choice c item = record c { choice_type = item.choice_type; note = item.note }

abbrev pub new_match : ℕ → ℕ × ℕ → ChoiceItem → MatchResult
new_match room_id pair item = record {
  id = item.match_id;
  room_id = room_id;
  user_a_id = pair.0;
  user_b_id = pair.1;
  status = MatchStatus.mutual_match;
  visible_at = some (item.now + embargo);
}

-- `if match.visible_at is None`
abbrev pub visible_or : Option ℕ → ℕ → Option ℕ
visible_or none t = some t
visible_or (some v) t = some v

abbrev pub revived : MatchResult → ChoiceItem → MatchResult
revived m item = record m {
  status = MatchStatus.mutual_match;
  visible_at = visible_or m.visible_at (item.now + embargo);
}

abbrev pub is_no_match : MatchStatus → Bool
is_no_match MatchStatus.no_match = true
is_no_match _ = false

-- `match.status in (MUTUAL, AFTER_PROPOSED)`
abbrev pub is_current : MatchStatus → Bool
is_current MatchStatus.mutual_match = true
is_current MatchStatus.after_proposed = true
is_current _ = false

abbrev pub dropped : MatchResult → MatchResult
dropped m = record m { status = MatchStatus.no_match }

-- the choice's row is added or changed
unfoldable pub put_choice : Work → ℕ → ℕ → ChoiceItem → Option ParticipantChoice → Work
put_choice w room_id user_id item none = record w {
  added_choices = w.added_choices ++ new_choice room_id user_id item ∷ [];
  accepted = suc w.accepted;
}
put_choice w room_id user_id item (some c) = record w {
  choices = save (changed_choice c item) w.choices;
  accepted = suc w.accepted;
}

-- the match of a mutual interest, which the query has found or not
unfoldable pub put_match : Work → ℕ → ℕ × ℕ → ChoiceItem → Option MatchResult → Work
put_match w room_id pair item none = record w {
  added_matches = w.added_matches ++ new_match room_id pair item ∷ [];
  new_mutual = suc w.new_mutual;
}
put_match w room_id pair item (some m) =
    if is_no_match m.status
    then record w { matches = save (revived m item) w.matches; new_mutual = suc w.new_mutual }
    else w

-- the match that a withdrawn interest ends
unfoldable pub drop_match : Work → Option MatchResult → Work
drop_match w none = w
drop_match w (some m) =
    if is_current m.status then record w { matches = save (dropped m) w.matches } else w

-- `prev_type == INTERESTED`
abbrev pub was_interested : Option ParticipantChoice → Bool
was_interested none = false
was_interested (some c) = is_interested c.choice_type

-- the two branches below the write of the choice
unfoldable pub settle : Work → ℕ → ℕ → ChoiceItem → Bool → Work
unfolding put_match drop_match
settle w room_id user_id item was =
    let pair = canonical_pair user_id item.chosen_id in
    if is_interested item.choice_type
    then (if is_some (find (interest_of room_id item.chosen_id user_id) w.choices)
        then put_match w room_id pair item (find (match_of room_id pair) w.matches)
        else w)
    else if was
    then drop_match w (find (match_of room_id pair) w.matches)
    else w

-- the body of the loop, for a valid target
unfoldable pub take_item : Work → ℕ → ℕ → ChoiceItem → Work
unfolding put_choice settle
take_item w room_id user_id item =
    let existing = find (choice_of room_id user_id item.chosen_id) w.choices in
    settle (put_choice w room_id user_id item existing) room_id user_id item
      (was_interested existing)

unfoldable pub take_items : Db → User → Gender → ℕ → List ChoiceItem → Work → Result Work
take_items db user gender room_id [] w = ok w
take_items db user gender room_id (item ∷ items) w =
    let rest = take_items db user gender room_id items (take_item w room_id user.id item) in
    if is_valid_target db user gender room_id item.chosen_id
    then rest
    else err (api_error ErrorCode.invalid_choice_target 409)

-- the primary key, and `uq_choice_room_chooser_chosen`
abbrev pub same_choice : ParticipantChoice → ParticipantChoice → Bool
same_choice c d = d.id == c.id || choice_of c.room_id c.chooser_id c.chosen_id d

-- the primary key, and `uq_match_room_users`
abbrev pub same_match : MatchResult → MatchResult → Bool
same_match m n = n.id == m.id || match_of m.room_id (m.user_a_id, m.user_b_id) n

-- the insertion of the added rows, which a unique constraint may refuse
unfoldable pub insert_all : {A : Type 0} → (A → A → Bool) → List A → List A → Option (List A)
insert_all same rows [] = some rows
insert_all same rows (x ∷ xs) =
    let rest = insert_all same (rows ++ x ∷ []) xs in if any (same x) rows then none else rest

-- `db.flush()`; a violated constraint is a server error
unfoldable pub flush : Db → Work → Result Db
unfolding insert_all
flush db w = do
  choices ←
      or_raise (insert_all same_choice w.choices w.added_choices)
        (api_error ErrorCode.integrity_error 500)
  matches ←
      or_raise (insert_all same_match w.matches w.added_matches)
        (api_error ErrorCode.integrity_error 500)
  ok (record db { choices = choices; matches = matches })

abbrev pub work_on : Db → Work
work_on db = record {
  choices = db.choices;
  added_choices = [];
  matches = db.matches;
  added_matches = [];
  accepted = 0;
  new_mutual = 0;
}

unfoldable pub submit_choices : Db → User → ℕ → List ChoiceItem → Result ((ℕ × ℕ) × Db)
submit_choices db user room_id items = do
  room ← or_raise (get room_id db.rooms) (not_found ErrorCode.room_not_found)
  require (is_open_for_choices room.status) invalid_state_transition
  me_profile ← or_raise (find (λ (p : Profile). p.user_id == user.id) db.profiles) forbidden
  _ ← ensure_attended db user room.id
  w ← take_items db user me_profile.gender room_id items (work_on db)
  db' ← flush db w
  ok ((w.accepted, w.new_mutual), db')
