-- ===== src/Rotation/Seating.antt =====
-- The seats that `start_session` stores.
use rolling_api.Prelude.{
  ℤ, ℕ, ◌+◌, ◌≡◌, refl, ap, Bool, ◌&&◌, none, some, List, [], ◌∷◌, arith, ◌==◌, get_elem?, find,
  count, count-append, count-none, IsDistinct, ok,
}
use rolling_api.Model.{Db, Planner, RotationSession, SeatAssignment}
use rolling_api.Rotation.{Seat, StartDraw, seat_rows, all_seat_rows, start_session}
use rolling_api.Rotation.Pairs.{all_seats}
use rolling_api.Rotation.Rounds.{is_pair, meets_once}
use rolling_api.Rotation.Start.{start_session-Started, males_of, females_of}

-- the seats of a session that bring these two together
abbrev pub seat_of : ℕ → ℕ → ℕ → SeatAssignment → Bool
seat_of session_id x y s =
    s.session_id == session_id && (s.participant_a_id == x && s.participant_b_id == y)

module _ (room_id : ℕ) (d : StartDraw) (x y : ℕ) where
  count-seat_rows :
      (r : ℕ) (seats : List Seat)
      → count (seat_of d.session_id x y) (seat_rows room_id d r seats) ≡ count (is_pair x y) seats
  unfolding seat_rows count
  count-seat_rows r [] = refl
  count-seat_rows r ((k, a, b) ∷ seats) = ground (arith, count-seat_rows r seats)

  count_nothing : count (seat_of d.session_id x y) [] ≡ count (is_pair x y) []
  unfolding count
  count_nothing = refl

  count-all_seat_rows :
      (r : ℕ) (rounds : List (List Seat))
      → count (seat_of d.session_id x y) (all_seat_rows room_id d r rounds)
        ≡ count (is_pair x y) (all_seats rounds)
  unfolding all_seat_rows
  count-all_seat_rows r [] = count_nothing
  count-all_seat_rows r (seats ∷ rounds) =
      let left =
        count-append (seat_of d.session_id x y) (seat_rows room_id d r seats)
          (all_seat_rows room_id d (r + 1) rounds) in
      let right = count-append (is_pair x y) seats (all_seats rounds) in
      let one = count-seat_rows r seats in
      let rest = count-all_seat_rows (r + 1) rounds in omega (arith, left, right, one, rest)

no_seat :
    (k x y : ℕ) (seats : List SeatAssignment)
    → find (λ (t : SeatAssignment). t.session_id == k) seats ≡ none
    → find (seat_of k x y) seats ≡ none
unfolding find
no_seat k x y [] e = refl
no_seat k x y (t ∷ seats) e = ground (arith, e, no_seat k x y seats)

-- After a start of a session under a new identifier, in a room where nobody is listed twice among
-- the checked-in men or women, every one of these men has exactly one seat with every one of these
-- women in the stored seats of the session.
pub everybody_meets :
    (db : Db) (planner : Planner) (room_id : ℕ) (duration : ℤ) (d : StartDraw) (s : RotationSession)
    (db' : Db) (a b x y : ℕ)
    → start_session db planner room_id duration d ≡ ok (s, db')
    → find (λ (t : SeatAssignment). t.session_id == d.session_id) db.seats ≡ none
    → IsDistinct (males_of db room_id)
    → IsDistinct (females_of db room_id)
    → get_elem? (males_of db room_id) a ≡ some x
    → get_elem? (females_of db room_id) b ≡ some y
    → (s.id ≡ d.session_id) × (count (seat_of s.id x y) db'.seats ≡ 1)
everybody_meets db planner room_id duration d s db' a b x y h new dm df ea eb =
    let st = start_session-Started db planner room_id duration d s db' h in
    let once =
      meets_once (males_of db room_id) (females_of db room_id) a b x y st.pairs st.balanced dm df ea
        eb st.paired in
    let before = count-none _ db.seats (no_seat d.session_id x y db.seats new) in
    let sum =
      count-append (seat_of d.session_id x y) db.seats (all_seat_rows room_id d 0 st.pairs) in
    let rows = count-all_seat_rows room_id d x y 0 st.pairs in
    let total : count (seat_of d.session_id x y) db'.seats ≡ 1 =
      rw st.seats_are (omega (arith, before, sum, rows, once)) in
    let id : s.id ≡ d.session_id = ap (λ (t : RotationSession). t.id) st.session_is in
    (id, rw id total)
