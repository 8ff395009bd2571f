-- ===== src/Rotation/Run.antt =====
-- A whole rotation: how many `next_round`s a session has, and what `end_session` leaves.
use rolling_api.Prelude.{
  ℤ, ℕ, zero, suc, ◌+◌, ◌*◌, ◌≤◌, ◌<◌, ◌≡◌, refl, ap, ◌∙◌, ◌≢◌, ◌⊎◌, inl, inr, none, some, List, [],
  ◌∷◌, map, arith, length, find, count, get, save, All, Result, ok, err, ◌>>=◌, ErrorCode,
  api_error, key-get, get-save_self, find-save, find_matches, Option-cases, >>=-eq-ok,
  invalid_state_transition,
}
use mathlib.Core.Option
use rolling_api.Model.{
  Db, Planner, Room, RoomStatus, RotationSession, RotationSessionStatus, RotationRound,
  RotationRoundStatus, round_row, session_row, room_row,
}
use rolling_api.Rotation.{
  StartDraw, session_of, round_of, next_round, start_session, end_session, close_round, owned_room,
}
use rolling_api.Rotation.Statuses.{UniqueRounds}
use rolling_api.Rotation.Start.{start_session-Started, males_of}
use rolling_api.Rotation.Session.{
  IsLive, moved_session, moved_db, next_round_moves, moved-IsLive, moved-count, next_round_last,
}
use rolling_api.Rotation.Begin.{IsFresh, started-IsLive, started-count, owned_parts}

module _ (planner : Planner) (room_id : ℕ) (clock : ℕ → ℕ) where
  -- `m` calls of `next_round` in a row; the clock is read twice in each
  unfoldable pub advance : ℕ → RotationSession × Db → Result (RotationSession × Db)
  advance zero st = ok st
  advance (suc m) (s, db) = do
    st ← next_round db planner room_id (clock (2 * m)) (clock (2 * m + 1))
    advance m st

  advance_runs :
      (m : ℕ) (s : RotationSession) (db : Db)
      → IsLive db planner room_id s
      → s.current_round + m ≤ count (round_of s) db.rounds
      → (s' : RotationSession) × (db' : Db) × (advance m (s, db) ≡ ok (s', db'))
        × IsLive db' planner room_id s'
        × (s'.current_round ≡ s.current_round + m)
        × (count (round_of s') db'.rounds ≡ count (round_of s) db.rounds)
  unfolding advance
  advance_runs zero s db l h = (s, db, refl, l, omega arith, refl)
  advance_runs (suc m) s db l h =
      let now = clock (2 * m) in
      let now' = clock (2 * m + 1) in
      let s1 = moved_session planner room_id now now' s in
      let db1 = moved_db planner room_id now now' db s in
      let kept = moved-count planner room_id now now' db s l in
      let (s', db', run, l', at, total) =
        advance_runs m s1 db1 (moved-IsLive planner room_id now now' db s l)
          (omega (arith, kept)) in
      (
        s',
        db',
        rw (next_round_moves planner room_id now now' db s l (omega arith)) run,
        l',
        omega (arith, at),
        total ∙ kept,
      )

module _ (db : Db) (planner : Planner) (room_id : ℕ) (duration : ℤ) (d : StartDraw)
    (s : RotationSession) (db' : Db) (clock : ℕ → ℕ) (m : ℕ) (fresh : IsFresh db d)
    (u : UniqueRounds db.rounds) (h : start_session db planner room_id duration d ≡ ok (s, db'))
    (lt : m < length (males_of db room_id)) where
  run_from_start :
      (s' : RotationSession) × (db'' : Db) × (advance planner room_id clock m (s, db')
        ≡ ok (s', db''))
      × IsLive db'' planner room_id s'
      × (s'.current_round ≡ m + 1)
      × (count (round_of s') db''.rounds ≡ length (males_of db room_id))
  run_from_start =
      let st = start_session-Started db planner room_id duration d s db' h in
      let live = started-IsLive db planner room_id duration d s db' st fresh u in
      let total = started-count db planner room_id duration d s db' st fresh u in
      let first : s.current_round ≡ 1 =
        ap (λ (t : RotationSession). t.current_round) st.session_is in
      let (s', db'', run, l', at, kept) =
        advance_runs planner room_id clock m s db' live (omega (arith, total, first)) in
      (s', db'', run, l', omega (arith, at, first), kept ∙ total)

  -- For a session that started with `n` men, from new identifiers and a table of rounds within its
  -- constraints: for every `m` below `n`, `m` calls of `next_round` in a row, at any times, succeed
  -- and bring it to round `m + 1`.
  pub rotation_runs :
      (s' : RotationSession) × (db'' : Db) × (advance planner room_id clock m (s, db')
        ≡ ok (s', db''))
      × (s'.current_round ≡ m + 1)
  rotation_runs = let (s', db'', run, _, at, _) = run_from_start in (s', db'', run, at)

-- With its last round on, `n - 1` calls after the start with `n` men, from new identifiers and a
-- table of rounds within its constraints, the session takes no further `next_round`: the call is
-- refused with ALREADY_LAST_ROUND.
pub rotation_ends :
    (db : Db) (planner : Planner) (room_id : ℕ) (duration : ℤ) (d : StartDraw) (s : RotationSession)
    (db' : Db) (clock : ℕ → ℕ) (m now now' : ℕ) (s' : RotationSession) (db'' : Db)
    → IsFresh db d
    → UniqueRounds db.rounds
    → start_session db planner room_id duration d ≡ ok (s, db')
    → m + 1 ≡ length (males_of db room_id)
    → advance planner room_id clock m (s, db') ≡ ok (s', db'')
    → next_round db'' planner room_id now now' ≡ err (api_error ErrorCode.already_last_round 409)
rotation_ends db planner room_id duration d s db' clock m now now' s' db'' fresh u h last run =
    let (t, dbt, run', live, at, total) =
      run_from_start db planner room_id duration d s db' clock m fresh u h (omega (arith, last)) in
    let same : dbt ≡ db'' = cc (run, run') in
    rw (← same)
      (next_round_last planner room_id now now' dbt t live (omega (arith, at, total, last)))

closed_rounds :
    (s : RotationSession) (now : ℕ) (rs : List RotationRound)
    → All
        (λ (r : RotationRound). (r.session_id ≢ s.id) ⊎ (r.status ≡ RotationRoundStatus.completed))
        (map (close_round s now) rs)
closed_rounds s now [] = tt
closed_rounds s now (r ∷ rs) = (ground arith, closed_rounds s now rs)

abbrev closed_session : RotationSession → ℕ → RotationSession
closed_session t now = record t { status = RotationSessionStatus.completed; ended_at = some now }

abbrev closed_db : Db → Room → RotationSession → ℕ → Db
closed_db db room t now = record db {
  rounds = map (close_round t now) db.rounds;
  sessions = save (closed_session t now) db.sessions;
  rooms = save (record room { status = RoomStatus.completed }) db.rooms;
}

end_session_effect :
    (db : Db) (planner : Planner) (room_id now : ℕ) (s : RotationSession) (db' : Db) (room : Room)
    (t : RotationSession)
    → owned_room db planner room_id ≡ ok room
    → find (session_of room_id) db.sessions ≡ some t
    → end_session db planner room_id now ≡ ok (s, db')
    → (s ≡ closed_session t now) × (db' ≡ closed_db db room t now)
unfolding end_session
end_session_effect db planner room_id now s db' room t o f h = (ground arith, ground arith)

-- the room after the write, still the planner's
closed-owned :
    (db : Db) (planner : Planner) (room_id : ℕ) (room : Room) (t : RotationSession) (now : ℕ)
    → owned_room db planner room_id ≡ ok room
    → (get room_id (closed_db db room t now).rooms
        ≡ some (record room { status = RoomStatus.completed }))
      × (owned_room (closed_db db room t now) planner room_id
          ≡ ok (record room { status = RoomStatus.completed }))
unfolding owned_room
closed-owned db planner room_id room t now o =
    let (found, owner) = owned_parts db planner room_id room o in
    let saved : get room_id (save (record room { status = RoomStatus.completed }) db.rooms)
        ≡ some (record room { status = RoomStatus.completed }) =
      ground (
        arith,
        found,
        key-get room_id db.rooms room found,
        get-save_self (record room { status = RoomStatus.completed }) db.rooms room,
      ) in
    (saved, ground (arith, owner, saved))

closed-refuses :
    (db : Db) (planner : Planner) (room_id now' now'' : ℕ) (room : Room) (t : RotationSession)
    → owned_room db planner room_id ≡ ok room
    → find (session_of room_id) db.sessions ≡ some t
    → t.status ≡ RotationSessionStatus.completed
    → (end_session db planner room_id now' ≡ err invalid_state_transition)
      × (next_round db planner room_id now' now'' ≡ err invalid_state_transition)
unfolding end_session next_round
closed-refuses db planner room_id now' now'' room t o f c = (ground arith, ground arith)

not_started :
    (db : Db) (planner : Planner) (room_id now : ℕ) (s : RotationSession) (db' : Db) (room : Room)
    → owned_room db planner room_id ≡ ok room
    → find (session_of room_id) db.sessions ≡ none
    → end_session db planner room_id now ≢ ok (s, db')
unfolding end_session
not_started db planner room_id now s db' room o f h = ground arith

-- A successful `end_session` leaves every round of the session COMPLETED, and the session and the
-- room too; from then on both `end_session` and `next_round` are refused as invalid transitions.
pub end_session_lem :
    (db : Db) (planner : Planner) (room_id now now' now'' : ℕ) (s : RotationSession) (db' : Db)
    → end_session db planner room_id now ≡ ok (s, db')
    → (s.status ≡ RotationSessionStatus.completed)
      × All
          (λ (r : RotationRound).
            (r.session_id ≢ s.id) ⊎ (r.status ≡ RotationRoundStatus.completed))
          db'.rounds
      × (Option.map (λ (r : Room). r.status) (get room_id db'.rooms) ≡ some RoomStatus.completed)
      × (end_session db' planner room_id now' ≡ err invalid_state_transition)
      × (next_round db' planner room_id now' now'' ≡ err invalid_state_transition)
unfolding end_session
end_session_lem db planner room_id now now' now'' s db' h =
    let (room, owned, rest) = >>=-eq-ok (owned_room db planner room_id) _ (s, db') h in
    elim (Option-cases (find (session_of room_id) db.sessions)) [
      | inl absent ↦ absurd (not_started db planner room_id now s db' room owned absent h)
      | inr (t, found) ↦
          let (es, edb) = end_session_effect db planner room_id now s db' room t owned found h in
          let (saved, owned') = closed-owned db planner room_id room t now owned in
          let found' =
            find-save (session_of room_id) (closed_session t now) t db.sessions found refl
              (find_matches (session_of room_id) db.sessions t found) in
          let (e1, e2) =
            closed-refuses (closed_db db room t now) planner room_id now' now'' _
              (closed_session t now) owned' found' refl in
          rw (es, edb) (refl, closed_rounds t now db.rounds, rw saved refl, e1, e2)
    ]
