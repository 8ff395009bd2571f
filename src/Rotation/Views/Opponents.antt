-- ===== src/Rotation/Views/Opponents.antt =====
-- Two guests who sit opposite each other are told so, each of the other.
use rolling_api.Prelude.{
  ℕ, ◌≡◌, ◌⊎◌, refl, ap, ◌∙◌, inl, inr, true, some, List, arith, ◌==◌, find, find_matches,
  find-none, Member, Member-find, Option-cases, select, length, order_by, ok,
}
use rolling_api.Model.{Db, User, Profile, RotationSession, RotationRound, SeatAssignment}
use rolling_api.Rotation.{session_of, round_of}
use rolling_api.Rotation.Views.{
  MyCurrentRoundView, opponent_brief, my_seat, other_at, round_for, get_my_current_round, by_number,
}

-- Nobody sits at two seats of one round.
abbrev pub SeatedApart : List SeatAssignment → Type 0
SeatedApart seats =
    (s t : SeatAssignment) (rnd : RotationRound) (k : ℕ)
    → Member s seats
    → Member t seats
    → my_seat rnd k s ≡ true
    → my_seat rnd k t ≡ true
    → s ≡ t

-- the guests a and b sit at the seat, on whichever sides
abbrev pub SitTogether : SeatAssignment → ℕ → ℕ → Type 0
SitTogether s a b =
    ((s.participant_a_id ≡ a) × (s.participant_b_id ≡ b))
    ⊎ ((s.participant_a_id ≡ b) × (s.participant_b_id ≡ a))

-- the only seat of a guest in a round is the one that is found
seat_found :
    (seats : List SeatAssignment) (rnd : RotationRound) (k : ℕ) (s : SeatAssignment)
    → SeatedApart seats
    → Member s seats
    → my_seat rnd k s ≡ true
    → find (my_seat rnd k) seats ≡ some s
seat_found seats rnd k s apart inside mine = elim (Option-cases (find (my_seat rnd k) seats)) [
  | inl nowhere ↦ absurd (ground (arith, mine, find-none (my_seat rnd k) seats s nowhere inside))
  | inr (t, there) ↦
      there
      ∙ ap some (
          apart t s rnd k (Member-find (my_seat rnd k) seats t there) inside
            (find_matches (my_seat rnd k) seats t there) mine)
]

-- what a guest is shown who sits with another one
shown_to :
    (db : Db) (a b : ℕ) (session : RotationSession) (total : ℕ) (rnd : RotationRound)
    (s : SeatAssignment) (pb : Profile)
    → SeatedApart db.seats
    → Member s db.seats
    → s.round_id ≡ rnd.id
    → SitTogether s a b
    → find (λ (p : Profile). p.user_id == b) db.profiles ≡ some pb
    → ((round_for db a session total (some rnd)).opponent ≡ some (opponent_brief pb))
      × ((round_for db a session total (some rnd)).table_number ≡ some s.table_number)
unfolding round_for
shown_to db a b session total rnd s pb apart inside here sit theirs =
    let mine : my_seat rnd a s ≡ true = ground (arith, here, sit) in
    let found = seat_found db.seats rnd a s apart inside mine in
    let other : other_at s a ≡ b = ground (arith, sit) in
    (rw found (rw other (rw theirs refl)), rw found refl)

module _ (db : Db) (a b : User) (room_id : ℕ) (session : RotationSession) (rnd : RotationRound)
    (s : SeatAssignment) (pa pb : Profile) (apart : SeatedApart db.seats)
    (started : find (session_of room_id) db.sessions ≡ some session)
    (current : find
        (λ (r : RotationRound). r.round_number == session.current_round)
        (order_by by_number (select (round_of session) db.rounds))
      ≡ some rnd)
    (inside : Member s db.seats) (here : s.round_id ≡ rnd.id) (sit : SitTogether s a.id b.id)
    (profile_a : find (λ (p : Profile). p.user_id == a.id) db.profiles ≡ some pa)
    (profile_b : find (λ (p : Profile). p.user_id == b.id) db.profiles ≡ some pb) where
  -- Where nobody sits at two seats of one round, and two guests with profiles sit together in the
  -- current round of the room's session, each of them is shown the other as the opponent, at the
  -- table of their seat.
  pub opponents_agree :
      (va vb : MyCurrentRoundView) × (get_my_current_round db a room_id ≡ ok va)
      × (get_my_current_round db b room_id ≡ ok vb)
      × (va.opponent ≡ some (opponent_brief pb))
      × (vb.opponent ≡ some (opponent_brief pa))
      × (va.table_number ≡ some s.table_number)
      × (vb.table_number ≡ some s.table_number)
  unfolding get_my_current_round
  opponents_agree =
      let rounds = order_by by_number (select (round_of session) db.rounds) in
      let total = length rounds in
      let back : SitTogether s b.id a.id = elim sit [ inl x ↦ inr x | inr x ↦ inl x ] in
      let (oa, ta) = shown_to db a.id b.id session total rnd s pb apart inside here sit profile_b in
      let (ob, tb) =
        shown_to db b.id a.id session total rnd s pa apart inside here back profile_a in
      (
        round_for db a.id session total (some rnd),
        round_for db b.id session total (some rnd),
        rw (started, current) refl,
        rw (started, current) refl,
        oa,
        ob,
        ta,
        tb,
      )
