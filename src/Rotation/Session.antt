-- ===== src/Rotation/Session.antt =====
-- The life of a session: `start_session`, as many `next_round`s as there are rounds, `end_session`.
use rolling_api.Prelude.{
  ℤ, ℕ, ◌+◌, ◌≤◌, ◌<◌, ◌≡◌, refl, ◌∙◌, inl, inr, Bool, Option, none, some, List, [], ◌∷◌, arith,
  ◌==◌, ==_iff, find, find_matches, count, save, All, Member, Member-save_cases, Member-find, ok,
  err, Bool-cases, find-save, count-save, ErrorCode, api_error,
}
use rolling_api.Model.{
  Db, Planner, Room, RotationSession, RotationSessionStatus, RotationRound, RotationRoundStatus,
  round_row, session_row, room_row,
}
use rolling_api.Rotation.{
  later, session_of, round_of, round_numbered, complete_round, activate_round, next_round,
  owned_room,
}
use rolling_api.Rotation.Statuses.{Apart, UniqueRounds, same_row}

abbrev SameKeys : RotationRound → RotationRound → Type 0
SameKeys x y = (x.id ≡ y.id) × (x.session_id ≡ y.session_id) × (x.round_number ≡ y.round_number)

Apart-save :
    (z a : RotationRound) (xs : List RotationRound)
    → All (Apart z) xs
    → ((x : RotationRound) → Member x xs → x.id ≡ a.id → SameKeys x a)
    → All (Apart z) (save a xs)
unfolding save
Apart-save z a [] h c = tt
Apart-save z a (x ∷ xs) h c =
    let rest = Apart-save z a xs h.1 (λ y m. c y (inr m)) in
    elim (Bool-cases (x.id == a.id)) [
      | inl same ↦ rw same (ground (arith, c x (inl refl) ((==_iff x.id a.id).0 same)), rest)
      | inr other ↦ rw other (h.0, rest)
    ]

Apart-same :
    (a x : RotationRound) (xs : List RotationRound)
    → SameKeys x a
    → All (Apart x) xs
    → All (Apart a) xs
Apart-same a x [] k h = tt
Apart-same a x (y ∷ xs) k h = (ground arith, Apart-same a x xs k h.1)

-- A write that keeps the keys keeps the constraints.
UniqueRounds-save :
    (a : RotationRound) (xs : List RotationRound)
    → UniqueRounds xs
    → ((x : RotationRound) → Member x xs → x.id ≡ a.id → SameKeys x a)
    → UniqueRounds (save a xs)
unfolding save
UniqueRounds-save a [] u c = tt
UniqueRounds-save a (x ∷ xs) u c =
    let below = λ (y : RotationRound) (m : Member y xs). c y (inr m) in
    let rest = UniqueRounds-save a xs u.1 below in
    elim (Bool-cases (x.id == a.id)) [
      | inl same ↦ rw same (
        Apart-save a a xs (Apart-same a x xs (c x (inl refl) ((==_iff x.id a.id).0 same)) u.0)
            below,
        rest,
      )
      | inr other ↦ rw other (Apart-save x a xs u.0 below, rest)
    ]

-- Wherever the table has the primary key of `a`, it has its session and number.
abbrev Fits : List RotationRound → RotationRound → Type 0
Fits xs a = (x : RotationRound) → Member x xs → x.id ≡ a.id → SameKeys x a

Fits-member :
    (xs : List RotationRound) (c a : RotationRound)
    → UniqueRounds xs
    → Member c xs
    → SameKeys c a
    → Fits xs a
Fits-member xs c a u m k x mx e = ground (arith, same_row xs x c u mx m)

Fits-save :
    (xs : List RotationRound) (c b a : RotationRound)
    → Member c xs
    → SameKeys c b
    → Fits xs a
    → Fits (save b xs) a
Fits-save xs c b a m k f x mx e = elim (Member-save_cases b x xs mx) [
  | inl ex ↦ rw ex (ground (arith, f c m))
  | inr old ↦ f x old.0 e
]

count-rounds-save :
    (xs : List RotationRound) (a : RotationRound) (s : RotationSession)
    → Fits xs a
    → count (round_of s) (save a xs) ≡ count (round_of s) xs
count-rounds-save xs a s f = count-save (round_of s) a xs (λ x mx e. ground (arith, f x mx e))

-- what the two writes of `next_round` keep
record Keeps (s : RotationSession) (xs ys : List RotationRound) : Type 0 where
  unique : UniqueRounds ys
  total : count (round_of s) ys ≡ count (round_of s) xs

module _ (s : RotationSession) (xs : List RotationRound) (u : UniqueRounds xs) (now : ℕ) where
  complete-Keeps :
      (o : Option RotationRound)
      → ((c : RotationRound) → o ≡ some c → Member c xs)
      → Keeps s xs (complete_round o now xs)
  complete-Keeps none h = record { unique = u; total = refl }
  complete-Keeps (some c) h =
      let a : RotationRound = record c {
        status = RotationRoundStatus.completed;
        ends_at = some now;
      } in
      let f = Fits-member xs c a u (h c refl) (refl, refl, refl) in
      record { unique = UniqueRounds-save a xs u f; total = count-rounds-save xs a s f }

  complete-Fits :
      (o : Option RotationRound) (n : RotationRound)
      → ((c : RotationRound) → o ≡ some c → Member c xs)
      → Fits xs n
      → Fits (complete_round o now xs) n
  complete-Fits none n h f = f
  complete-Fits (some c) n h f =
      Fits-save xs c (record c { status = RotationRoundStatus.completed; ends_at = some now }) n
        (h c refl) (refl, refl, refl) f

activate-Keeps :
    (s : RotationSession) (ys : List RotationRound) (now : ℕ) (duration : ℤ)
    (o : Option RotationRound)
    → UniqueRounds ys
    → ((n : RotationRound) → o ≡ some n → Fits ys n)
    → Keeps s ys (activate_round o now duration ys)
activate-Keeps s ys now duration none u f = record { unique = u; total = refl }
activate-Keeps s ys now duration (some n) u f =
    let a : RotationRound = record n {
      status = RotationRoundStatus.active;
      starts_at = some now;
      ends_at = some (later now duration 1);
    } in
    record {
      unique = UniqueRounds-save a ys u (f n refl);
      total = count-rounds-save ys a s (f n refl);
    }

-- both writes together
moved-Keeps :
    (s : RotationSession) (xs : List RotationRound) (p q : RotationRound → Bool) (now now' : ℕ)
    (duration : ℤ)
    → UniqueRounds xs
    → Keeps s xs (activate_round (find q xs) now' duration (complete_round (find p xs) now xs))
moved-Keeps s xs p q now now' duration u =
    let found = λ (c : RotationRound) (e : find p xs ≡ some c). Member-find p xs c e in
    let first = complete-Keeps s xs u now (find p xs) found in
    let second =
      activate-Keeps s (complete_round (find p xs) now xs) now' duration (find q xs) first.unique
        (λ n e.
          complete-Fits s xs u now (find p xs) n found
            (Fits-member xs n n u (Member-find q xs n e) (refl, refl, refl))) in
    record { unique = second.unique; total = second.total ∙ first.total }

-- A room's session is running, under the planner who may advance it.
pub record IsLive (db : Db) (planner : Planner) (room_id : ℕ) (s : RotationSession) : Type 0 where
  pub room : Room
  pub owned : owned_room db planner room_id ≡ ok room
  pub session : find (session_of room_id) db.sessions ≡ some s
  pub running : s.status ≡ RotationSessionStatus.running
  pub unique : UniqueRounds db.rounds

module _ (planner : Planner) (room_id now now' : ℕ) where
  abbrev pub moved_session : RotationSession → RotationSession
  moved_session s = record s { current_round = s.current_round + 1 }

  abbrev pub moved_db : Db → RotationSession → Db
  moved_db db s = record db {
    rounds =
        activate_round (find (round_numbered s (s.current_round + 1)) db.rounds) now'
          s.round_duration_minutes
          (complete_round (find (round_numbered s s.current_round) db.rounds) now db.rounds);
    sessions = save (moved_session s) db.sessions;
  }

  pub next_round_moves :
      (db : Db) (s : RotationSession)
      → IsLive db planner room_id s
      → s.current_round < count (round_of s) db.rounds
      → next_round db planner room_id now now' ≡ ok (moved_session s, moved_db db s)
  unfolding next_round
  next_round_moves db s l h = ground (arith, l.owned, l.session, l.running)

  pub moved-IsLive :
      (db : Db) (s : RotationSession)
      → IsLive db planner room_id s
      → IsLive (moved_db db s) planner room_id (moved_session s)
  unfolding owned_room
  moved-IsLive db s l = record {
    room = l.room;
    owned = l.owned;
    session =
        find-save (session_of room_id) (moved_session s) s db.sessions l.session refl
          (find_matches (session_of room_id) db.sessions s l.session);
    running = l.running;
    unique = (moved-Keeps s db.rounds _ _ now now' s.round_duration_minutes l.unique).unique;
  }

  pub moved-count :
      (db : Db) (s : RotationSession)
      → IsLive db planner room_id s
      → count (round_of (moved_session s)) (moved_db db s).rounds ≡ count (round_of s) db.rounds
  moved-count db s l =
      (moved-Keeps s db.rounds _ _ now now' s.round_duration_minutes l.unique).total

  -- Once the last round is on, the session can only be ended.
  pub next_round_last :
      (db : Db) (s : RotationSession)
      → IsLive db planner room_id s
      → count (round_of s) db.rounds ≤ s.current_round
      → next_round db planner room_id now now' ≡ err (api_error ErrorCode.already_last_round 409)
  unfolding next_round
  next_round_last db s l h = ground (arith, l.owned, l.session, l.running)
