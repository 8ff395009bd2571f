-- ===== src/Rotation/Views/Shown.antt =====
-- After each of the operations on a session, its view can be read.
use rolling_api.Prelude.{
  ℤ, ℕ, ◌≡◌, ap, sym, ◌∙◌, inl, inr, true, some, [], ◌∷◌, arith, ==_refl, opt_eq, find, find_one,
  find-append, find-save, find_matches, get, save, key-get, get-save_self, Option-cases, ok,
  >>=-eq-ok,
}
use rolling_api.Model.{Db, Planner, Room, RoomStatus, RotationSession, room_row, session_row}
use rolling_api.Rotation.{StartDraw, session_of, owned_room, start_session, next_round, end_session}
use rolling_api.Rotation.Start.{start_session-Started}
use rolling_api.Rotation.Begin.{owned_parts}
use rolling_api.Rotation.Views.{RotationSessionView, session_view, get_session_view}

-- The view of the room's session can be read.
abbrev pub IsShown : Db → Planner → ℕ → Type 0
IsShown db planner k = (v : RotationSessionView) × (get_session_view db planner k ≡ ok v)

shown :
    (db : Db) (planner : Planner) (k : ℕ) (room : Room) (s : RotationSession)
    → get k db.rooms ≡ some room
    → opt_eq room.planner_id planner.id ≡ true
    → find (session_of k) db.sessions ≡ some s
    → IsShown db planner k
unfolding get_session_view owned_room
shown db planner k room s found mine there = (session_view db s, ground (arith, found, mine, there))

module _ (db db' : Db) (planner : Planner) (k : ℕ) (s : RotationSession) where
  -- a room with another status is found as the room was
  moved :
      (room : Room) (status : RoomStatus)
      → get k db.rooms ≡ some room
      → db'.rooms ≡ save (record room { status = status }) db.rooms
      → get k db'.rooms ≡ some (record room { status = status })
  moved room status found rooms =
      let key = key-get k db.rooms room found in
      let there : get room.id db.rooms ≡ some room = ap (λ j. get j db.rooms) key ∙ found in
      ap (get k) rooms
      ∙ ap (λ j. get j (save (record room { status = status }) db.rooms)) (sym key)
      ∙ get-save_self (record room { status = status }) db.rooms room there

  pub started-IsShown :
      (duration : ℤ) (d : StartDraw)
      → start_session db planner k duration d ≡ ok (s, db')
      → IsShown db' planner k
  started-IsShown duration d h =
      let st = start_session-Started db planner k duration d s db' h in
      let (found, mine) = owned_parts db planner k st.room st.owned in
      let here : session_of k s ≡ true = rw st.session_is (==_refl k) in
      shown db' planner k (record st.room { status = RoomStatus.in_progress }) s
        (moved st.room RoomStatus.in_progress found st.rooms_are) mine
        (ap (find (session_of k)) st.sessions_are
          ∙ find-append (session_of k) db.sessions (s ∷ []) st.first
          ∙ find_one (session_of k) s here)

  -- what `next_round` and `end_session` have in common: the room's session was there
  session_parts :
      (t : RotationSession)
      → find (session_of k) db.sessions ≡ some t
      → s.id ≡ t.id
      → s.room_id ≡ t.room_id
      → db'.sessions ≡ save s db.sessions
      → find (session_of k) db'.sessions ≡ some s
  session_parts t there id room_id sessions =
      ap (find (session_of k)) sessions
      ∙ find-save (session_of k) s t db.sessions there (sym id)
          (rw room_id (find_matches (session_of k) db.sessions t there))

  pub advanced-IsShown :
      (now now' : ℕ) → next_round db planner k now now' ≡ ok (s, db') → IsShown db' planner k
  unfolding next_round
  advanced-IsShown now now' h =
      let (room, owned, rest) = >>=-eq-ok (owned_room db planner k) _ (s, db') h in
      let (found, mine) = owned_parts db planner k room owned in
      elim (Option-cases (find (session_of k) db.sessions)) [
        | inl absent ↦ absurd (ground (arith, absent, rest))
        | inr (t, there) ↦ shown db' planner k room s (ground (arith, found, there, rest)) mine (
            session_parts t there (ground (arith, there, rest)) (ground (arith, there, rest))
              (ground (arith, there, rest)))
      ]

  pub finished-IsShown :
      (now : ℕ) → end_session db planner k now ≡ ok (s, db') → IsShown db' planner k
  unfolding end_session
  finished-IsShown now h =
      let (room, owned, rest) = >>=-eq-ok (owned_room db planner k) _ (s, db') h in
      let (found, mine) = owned_parts db planner k room owned in
      elim (Option-cases (find (session_of k) db.sessions)) [
        | inl absent ↦ absurd (ground (arith, absent, rest))
        | inr (t, there) ↦
            shown db' planner k (record room { status = RoomStatus.completed }) s
              (moved room RoomStatus.completed found (ground (arith, there, rest))) mine
              (session_parts t there (ground (arith, there, rest)) (ground (arith, there, rest))
                (ground (arith, there, rest)))
      ]
