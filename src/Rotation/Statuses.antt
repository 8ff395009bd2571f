-- ===== src/Rotation/Statuses.antt =====
-- The statuses of a session's rounds follow its `current_round`.
use rolling_api.Prelude.{
  ℤ, ℕ, ◌+◌, ◌<◌, ◌≡◌, refl, sym, ap, ◌∙◌, ◌≢◌, ◌⊎◌, inl, inr, Option, none, some, List, [], ◌∷◌,
  arith, ltb, ◌==◌, if◌then◌else◌, find, find_matches, count, save, All, Member, Member-save_cases,
  Member-find, find-none, All-at, All-of_Member, ok,
}
use rolling_api.Model.{
  Db, Planner, RotationSession, RotationSessionStatus, RotationRound, RotationRoundStatus,
  round_row, session_row,
}
use rolling_api.Rotation.{
  later, session_of, round_of, round_numbered, complete_round, activate_round, next_round,
}

-- Rounds before the current one are COMPLETED, the current one is ACTIVE, later ones are PENDING.
abbrev pub expected : ℕ → ℕ → RotationRoundStatus
expected current number =
    if ltb number current
    then RotationRoundStatus.completed
    else if number == current
    then RotationRoundStatus.active
    else RotationRoundStatus.pending

-- The round belongs to another session, or has the status that the session's progress asks for.
abbrev pub OnSchedule : RotationSession → RotationRound → Type 0
OnSchedule s r = (r.session_id ≢ s.id) ⊎ (r.status ≡ expected s.current_round r.round_number)

-- Two rounds differ in their primary key, and in session or number (`uq_rotation_round_session_number`).
abbrev pub Apart : RotationRound → RotationRound → Type 0
Apart r r' = (r.id ≢ r'.id) × ((r.session_id ≢ r'.session_id) ⊎ (r.round_number ≢ r'.round_number))

abbrev pub UniqueRounds : List RotationRound → Type 0
UniqueRounds [] = Unit
UniqueRounds (r ∷ rs) = All (Apart r) rs × UniqueRounds rs

next_round_effect :
    (db : Db) (planner : Planner) (room_id now now' : ℕ) (s s' : RotationSession) (db' : Db)
    → find (session_of room_id) db.sessions ≡ some s
    → next_round db planner room_id now now' ≡ ok (s', db')
    → (s' ≡ record s { current_round = s.current_round + 1 })
      × (db'.sessions ≡ save s' db.sessions)
      × (db'.rounds
          ≡ activate_round
              (find (round_numbered s (s.current_round + 1)) db.rounds)
              now'
              s.round_duration_minutes
              (complete_round (find (round_numbered s s.current_round) db.rounds) now db.rounds))
      × (s.status ≡ RotationSessionStatus.running)
      × (s.current_round < count (round_of s) db.rounds)
unfolding next_round
next_round_effect db planner room_id now now' s s' db' e h = ground arith

abbrev NotNumbered : RotationSession → ℕ → RotationRound → Type 0
NotNumbered s j x = (x.session_id ≢ s.id) ⊎ (x.round_number ≢ j)

abbrev Unpicked : Option RotationRound → RotationRound → Type 0
Unpicked none x = Unit
Unpicked (some c) x = x.id ≢ c.id

unique_at :
    (xs : List RotationRound) (x y : RotationRound)
    → UniqueRounds xs
    → Member x xs
    → Member y xs
    → x.id ≢ y.id
    → (x.session_id ≢ y.session_id) ⊎ (x.round_number ≢ y.round_number)
unique_at (z ∷ xs) x y u (inl ex) (inl ey) ne = absurd (ne (ground arith))
unique_at (z ∷ xs) x y u (inl ex) (inr my) ne = ground (arith, All-at (Apart z) xs y u.0 my)
unique_at (z ∷ xs) x y u (inr mx) (inl ey) ne = ground (arith, All-at (Apart z) xs x u.0 mx)
unique_at (z ∷ xs) x y u (inr mx) (inr my) ne = unique_at xs x y u.1 mx my ne
unique_at [] x y u m m' ne = elim m [ ]

-- A primary key names one row.
pub same_row :
    (xs : List RotationRound) (x y : RotationRound)
    → UniqueRounds xs
    → Member x xs
    → Member y xs
    → x.id ≡ y.id
    → x ≡ y
same_row (z ∷ xs) x y u (inl ex) (inl ey) e = ex ∙ sym ey
same_row (z ∷ xs) x y u (inl ex) (inr my) e = ground (arith, All-at (Apart z) xs y u.0 my)
same_row (z ∷ xs) x y u (inr mx) (inl ey) e = ground (arith, All-at (Apart z) xs x u.0 mx)
same_row (z ∷ xs) x y u (inr mx) (inr my) e = same_row xs x y u.1 mx my e
same_row [] x y u m m' e = elim m [ ]

not_numbered :
    (s : RotationSession) (j : ℕ) (xs : List RotationRound) (o : Option RotationRound)
    (x : RotationRound)
    → UniqueRounds xs
    → find (round_numbered s j) xs ≡ o
    → Member x xs
    → Unpicked o x
    → NotNumbered s j x
not_numbered s j xs none x u e m h = ground (arith, find-none (round_numbered s j) xs x e m)
not_numbered s j xs (some c) x u e m h = ground (
  arith,
  unique_at xs x c u m (Member-find (round_numbered s j) xs c e) h,
  find_matches (round_numbered s j) xs c e,
)

-- A row of the table after the write to `current`.
complete_cases :
    (xs : List RotationRound) (o : Option RotationRound) (now : ℕ) (x : RotationRound)
    → Member x (complete_round o now xs)
    → ((c : RotationRound) × (o ≡ some c)
        × (x ≡ record c { status = RotationRoundStatus.completed; ends_at = some now }))
      ⊎ (Member x xs × Unpicked o x)
complete_cases xs none now x m = inr (m, tt)
complete_cases xs (some c) now x m =
    elim (Member-save_cases
      (record c { status = RotationRoundStatus.completed; ends_at = some now }) x xs m) [
        | inl e ↦ inl (c, refl, e)
        | inr old ↦ inr old
      ]

activate_cases :
    (xs : List RotationRound) (o : Option RotationRound) (now : ℕ) (duration : ℤ)
    (x : RotationRound)
    → Member x (activate_round o now duration xs)
    → ((c : RotationRound) × (o ≡ some c)
        × (x ≡ record c {
          status = RotationRoundStatus.active;
          starts_at = some now;
          ends_at = some (later now duration 1);
        }))
      ⊎ (Member x xs × Unpicked o x)
activate_cases xs none now duration x m = inr (m, tt)
activate_cases xs (some c) now duration x m =
    elim (Member-save_cases
      (record c {
        status = RotationRoundStatus.active;
        starts_at = some now;
        ends_at = some (later now duration 1);
      })
      x xs m) [ inl e ↦ inl (c, refl, e) | inr old ↦ inr old ]

module _ (s : RotationSession) (xs : List RotationRound) (u : UniqueRounds xs)
    (on : All (OnSchedule s) xs) (now now' : ℕ) (duration : ℤ) where
  abbrev cur : Option RotationRound
  cur = find (round_numbered s s.current_round) xs

  abbrev nxt : Option RotationRound
  nxt = find (round_numbered s (s.current_round + 1)) xs

  abbrev moved : RotationSession
  moved = record s { current_round = s.current_round + 1 }

  untouched :
      (x : RotationRound) → Member x xs → Unpicked cur x → Unpicked nxt x → OnSchedule moved x
  untouched x m uc un = ground (
    arith,
    All-at (OnSchedule s) xs x on m,
    not_numbered s s.current_round xs cur x u refl m uc,
    not_numbered s (s.current_round + 1) xs nxt x u refl m un,
  )

  advanced :
      (x : RotationRound)
      → Member x (activate_round nxt now' duration (complete_round cur now xs))
      → OnSchedule moved x
  advanced x m = elim (activate_cases (complete_round cur now xs) nxt now' duration x m) [
    | inl (c, e, ex) ↦
        rw ex (ground (arith, find_matches (round_numbered s (s.current_round + 1)) xs c e))
    | inr (m', un) ↦ elim (complete_cases xs cur now x m') [
      | inl (c, e, ex) ↦
          rw ex (ground (arith, find_matches (round_numbered s s.current_round) xs c e))
      | inr (m'', uc) ↦ untouched x m'' uc un
    ]
  ]

-- In a table of rounds within its constraints and on schedule for the room's session, a successful
-- `next_round` moves the session one round on, and keeps its rounds on schedule: those before the
-- new current round are COMPLETED, that one is ACTIVE, and later ones are PENDING.
pub next_round-OnSchedule :
    (db : Db) (planner : Planner) (room_id now now' : ℕ) (s s' : RotationSession) (db' : Db)
    → UniqueRounds db.rounds
    → find (session_of room_id) db.sessions ≡ some s
    → All (OnSchedule s) db.rounds
    → next_round db planner room_id now now' ≡ ok (s', db')
    → (s'.current_round ≡ s.current_round + 1) × All (OnSchedule s') db'.rounds
next_round-OnSchedule db planner room_id now now' s s' db' u e on h =
    let (es, et, er, _, _) = next_round_effect db planner room_id now now' s s' db' e h in
    (
      ap (λ (t : RotationSession). t.current_round) es,
      rw (es, er) (All-of_Member _ _ (advanced s db.rounds u on now now' s.round_duration_minutes)),
    )
