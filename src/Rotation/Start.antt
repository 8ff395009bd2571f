-- ===== src/Rotation/Start.antt =====
-- What `start_session` has checked and written when it returns.
use rolling_api.Prelude.{
  ℤ, ℕ, ◌<◌, ◌≡◌, inl, inr, false, none, some, List, [], ◌∷◌, ◌++◌, arith, length, find, save,
  Option-cases, ok, >>=-eq-ok,
}
use rolling_api.Model.{
  Db, Planner, Room, RoomStatus, Gender, RotationSession, round_row, session_row, room_row,
}
use rolling_api.Rotation.{
  Seat, StartDraw, new_session, round_rows, all_seat_rows, session_of, is_empty, start_session,
  owned_room, sorted, attendees, round_robin_pairs,
}

abbrev pub males_of : Db → ℕ → List ℕ
males_of db room_id = sorted (attendees db.check_ins db.profiles room_id Gender.male)

abbrev pub females_of : Db → ℕ → List ℕ
females_of db room_id = sorted (attendees db.check_ins db.profiles room_id Gender.female)

-- A call that returned.
pub record Started (db : Db) (planner : Planner) (room_id : ℕ) (duration : ℤ) (d : StartDraw)
    (s : RotationSession) (db' : Db) : Type 0 where
  pub room : Room
  pub pairs : List (List Seat)
  pub owned : owned_room db planner room_id ≡ ok room
  pub confirmed : room.status ≡ RoomStatus.confirmed
  pub first : find (session_of room_id) db.sessions ≡ none
  pub nonempty : 0 < length (males_of db room_id)
  pub balanced : length (males_of db room_id) ≡ length (females_of db room_id)
  pub paired : round_robin_pairs (males_of db room_id) (females_of db room_id) ≡ some pairs
  pub session_is : s ≡ new_session room_id duration d
  pub sessions_are : db'.sessions ≡ db.sessions ++ s ∷ []
  pub rounds_are : db'.rounds ≡ db.rounds ++ round_rows room_id duration d 0 pairs
  pub seats_are : db'.seats ≡ db.seats ++ all_seat_rows room_id d 0 pairs
  pub rooms_are : db'.rooms ≡ save (record room { status = RoomStatus.in_progress }) db.rooms

nonempty_lem : (xs : List ℕ) → is_empty xs ≡ false → 0 < length xs
nonempty_lem [] h = ground arith
nonempty_lem (x ∷ xs) h = omega arith

module _ (db : Db) (planner : Planner) (room_id : ℕ) (duration : ℤ) (d : StartDraw)
    (s : RotationSession) (db' : Db) where
  Started-with :
      (room : Room) (pairs : List (List Seat))
      → owned_room db planner room_id ≡ ok room
      → round_robin_pairs (males_of db room_id) (females_of db room_id) ≡ some pairs
      → start_session db planner room_id duration d ≡ ok (s, db')
      → Started db planner room_id duration d s db'
  unfolding start_session
  Started-with room pairs owned paired h = record {
    room = room;
    pairs = pairs;
    owned = owned;
    confirmed = ground arith;
    first = ground arith;
    nonempty = nonempty_lem (males_of db room_id) (ground arith);
    balanced = ground arith;
    paired = paired;
    session_is = ground arith;
    sessions_are = ground arith;
    rounds_are = ground arith;
    seats_are = ground arith;
    rooms_are = ground arith;
  }

  pub start_session-Started :
      start_session db planner room_id duration d ≡ ok (s, db')
      → Started db planner room_id duration d s db'
  unfolding start_session
  start_session-Started h =
      let (room, owned, _) = >>=-eq-ok (owned_room db planner room_id) _ (s, db') h in
      elim (Option-cases (round_robin_pairs (males_of db room_id) (females_of db room_id))) [
        | inl unpaired ↦ absurd (ground (arith, owned, unpaired, h))
        | inr (pairs, paired) ↦ Started-with room pairs owned paired h
      ]
