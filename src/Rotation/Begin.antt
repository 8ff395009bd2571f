-- ===== src/Rotation/Begin.antt =====
-- From a fresh start: the session is live and its rounds are on schedule.
use rolling_api.Prelude.{
  ℤ, ℕ, ◌+◌, ◌<◌, ◌≡◌, refl, ◌∙◌, ◌≢◌, inl, inr, true, some, List, [], ◌∷◌, ◌++◌, arith, length,
  find, count, get, All, ok, find-append, count-append, key-get, get-save_self, opt_eq, All-map,
}
use rolling_api.Model.{Db, Planner, Room, RoomStatus, RotationSession, RotationRound, room_row}
use rolling_api.Rotation.{
  Seat, StartDraw, new_round, new_session, round_rows, session_of, round_of, start_session,
  owned_room,
}
use rolling_api.Rotation.Rounds.{round_robin_total}
use rolling_api.Rotation.Start.{Started, start_session-Started, males_of, females_of}
use rolling_api.Rotation.Statuses.{Apart, UniqueRounds, OnSchedule}
use rolling_api.Rotation.Session.{IsLive}

-- The identifiers that the call draws are new: `uuid4` does not repeat itself.
pub record IsFresh (db : Db) (d : StartDraw) : Type 0 where
  pub session_unused : All (λ (r : RotationRound). r.session_id ≢ d.session_id) db.rounds
  pub rounds_unused : (i : ℕ) → All (λ (r : RotationRound). r.id ≢ d.round_id i) db.rounds
  pub rounds_differ : (i j : ℕ) → d.round_id i ≡ d.round_id j → i ≡ j

module _ (room_id : ℕ) (duration : ℤ) (d : StartDraw) where
  abbrev s0 : RotationSession
  s0 = new_session room_id duration d

  rows-OnSchedule :
      (i : ℕ) (pairs : List (List Seat))
      → All (OnSchedule s0) (round_rows room_id duration d i pairs)
  unfolding round_rows
  rows-OnSchedule i [] = tt
  rows-OnSchedule i (_ ∷ pairs) = (ground arith, rows-OnSchedule (i + 1) pairs)

  count-rows :
      (i : ℕ) (pairs : List (List Seat))
      → count (round_of s0) (round_rows room_id duration d i pairs) ≡ length pairs
  unfolding round_rows count
  count-rows i [] = refl
  count-rows i (_ ∷ pairs) = ground (arith, count-rows (i + 1) pairs)

  count-others :
      (rs : List RotationRound)
      → All (λ (r : RotationRound). r.session_id ≢ d.session_id) rs
      → count (round_of s0) rs ≡ 0
  unfolding count
  count-others [] h = refl
  count-others (r ∷ rs) h = ground (arith, count-others rs h.1)

  module _ (differ : (i j : ℕ) → d.round_id i ≡ d.round_id j → i ≡ j) where
    rows-Apart :
        (j i : ℕ) (pairs : List (List Seat))
        → j < i
        → All (Apart (new_round room_id duration d j)) (round_rows room_id duration d i pairs)
    unfolding round_rows
    rows-Apart j i [] h = tt
    rows-Apart j i (_ ∷ pairs) h = (
      ((λ e. absurd (omega (arith, differ j i e))), inr (omega arith)),
      rows-Apart j (i + 1) pairs (omega arith),
    )

    rows-UniqueRounds :
        (i : ℕ) (pairs : List (List Seat)) → UniqueRounds (round_rows room_id duration d i pairs)
    unfolding round_rows
    rows-UniqueRounds i [] = tt
    rows-UniqueRounds i (_ ∷ pairs) =
        (rows-Apart i (i + 1) pairs (omega arith), rows-UniqueRounds (i + 1) pairs)

  old-Apart :
      (r : RotationRound) (i : ℕ) (pairs : List (List Seat))
      → r.session_id ≢ d.session_id
      → ((j : ℕ) → r.id ≢ d.round_id j)
      → All (Apart r) (round_rows room_id duration d i pairs)
  unfolding round_rows
  old-Apart r i [] hs hr = tt
  old-Apart r i (_ ∷ pairs) hs hr = ((hr i, inl hs), old-Apart r (i + 1) pairs hs hr)

All-append {κ} :
    {A : Type 0} (P : A → Type κ) (xs ys : List A) → All P xs → All P ys → All P (xs ++ ys)
All-append P [] ys hx hy = hy
All-append P (x ∷ xs) ys hx hy = (hx.0, All-append P xs ys hx.1 hy)

append-UniqueRounds :
    (room_id : ℕ) (duration : ℤ) (d : StartDraw) (rs : List RotationRound)
    (pairs : List (List Seat))
    → UniqueRounds rs
    → All (λ (r : RotationRound). r.session_id ≢ d.session_id) rs
    → ((i : ℕ) → All (λ (r : RotationRound). r.id ≢ d.round_id i) rs)
    → UniqueRounds (round_rows room_id duration d 0 pairs)
    → UniqueRounds (rs ++ round_rows room_id duration d 0 pairs)
append-UniqueRounds room_id duration d [] pairs u hs hr new = new
append-UniqueRounds room_id duration d (r ∷ rs) pairs u hs hr new = (
  All-append (Apart r) rs _ u.0 (old-Apart room_id duration d r 0 pairs hs.0 (λ j. (hr j).0)),
  append-UniqueRounds room_id duration d rs pairs u.1 hs.1 (λ i. (hr i).1) new,
)

pub owned_parts :
    (db : Db) (planner : Planner) (room_id : ℕ) (room : Room)
    → owned_room db planner room_id ≡ ok room
    → (get room_id db.rooms ≡ some room) × (opt_eq room.planner_id planner.id ≡ true)
unfolding owned_room
owned_parts db planner room_id room h = ground arith

module _ (db : Db) (planner : Planner) (room_id : ℕ) (duration : ℤ) (d : StartDraw)
    (s : RotationSession) (db' : Db) (st : Started db planner room_id duration d s db')
    (fresh : IsFresh db d) (u : UniqueRounds db.rounds) where
  started-OnSchedule : All (OnSchedule s) db'.rounds
  started-OnSchedule =
      rw (st.session_is, st.rounds_are)
        (All-append _ db.rounds _ (All-map _ _ db.rounds (λ r h. inl h) fresh.session_unused)
          (rows-OnSchedule room_id duration d 0 st.pairs))

  pairs-length : length st.pairs ≡ length (males_of db room_id)
  pairs-length =
      let (rounds, e, n) =
        round_robin_total (males_of db room_id) (females_of db room_id) st.balanced in
      cc (e, n, st.paired)

  started-owned :
      owned_room db' planner room_id ≡ ok (record st.room { status = RoomStatus.in_progress })
  unfolding owned_room
  started-owned =
      let (found, owner) = owned_parts db planner room_id st.room st.owned in
      rw st.rooms_are (
        ground (
          arith,
          owner,
          found,
          key-get room_id db.rooms st.room found,
          get-save_self (record st.room { status = RoomStatus.in_progress }) db.rooms st.room,
        ))

  pub started-count : count (round_of s) db'.rounds ≡ length (males_of db room_id)
  started-count =
      rw (st.session_is, st.rounds_are)
        (count-append (round_of (new_session room_id duration d)) db.rounds _
          ∙ omega (
            arith,
            count-others room_id duration d db.rounds fresh.session_unused,
            count-rows room_id duration d 0 st.pairs,
            pairs-length,
          ))

  pub started-IsLive : IsLive db' planner room_id s
  unfolding find
  started-IsLive = record {
    room = record st.room { status = RoomStatus.in_progress };
    owned = started-owned;
    session = rw st.sessions_are (
        find-append (session_of room_id) db.sessions (s ∷ []) st.first
        ∙ rw st.session_is (ground arith));
    running = rw st.session_is refl;
    unique = rw st.rounds_are (
        append-UniqueRounds room_id duration d db.rounds st.pairs u fresh.session_unused
          fresh.rounds_unused
          (rows-UniqueRounds room_id duration d fresh.rounds_differ 0 st.pairs));
  }

-- After a start, from new identifiers and a table of rounds within its constraints, round 1 of the session is ACTIVE and the later rounds are
-- PENDING, there are as many rounds as men, and the table's constraints still hold.
pub start_session-OnSchedule :
    (db : Db) (planner : Planner) (room_id : ℕ) (duration : ℤ) (d : StartDraw) (s : RotationSession)
    (db' : Db)
    → IsFresh db d
    → UniqueRounds db.rounds
    → start_session db planner room_id duration d ≡ ok (s, db')
    → All (OnSchedule s) db'.rounds
      × (s.current_round ≡ 1)
      × (count (round_of s) db'.rounds ≡ length (males_of db room_id))
      × UniqueRounds db'.rounds
start_session-OnSchedule db planner room_id duration d s db' fresh u h =
    let st = start_session-Started db planner room_id duration d s db' h in
    (
      started-OnSchedule db planner room_id duration d s db' st fresh u,
      rw st.session_is refl,
      started-count db planner room_id duration d s db' st fresh u,
      (started-IsLive db planner room_id duration d s db' st fresh u).unique,
    )
