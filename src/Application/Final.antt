-- ===== src/Application/Final.antt =====
-- What a history of requests on applications keeps.
use rolling_api.Prelude.{
  ℕ, ◌≡◌, ◌≤◌, ◌⊎◌, inl, inr, refl, sym, Bool, true, false, none, some, List, [], ◌∷◌, ◌++◌, Member,
  arith, ◌==◌, ==_iff, Bool-cases, get, count, count-none, count-append, count-save, find,
  find-append_some, get-save_self, get-save_ne, Member-unique, UniqueKeys, ok,
}
use rolling_api.Model.{Db, User, RoomApplication, ApplicationStatus, application_row, user_row}
use rolling_api.Application.{application_of}
use rolling_api.Application.Operations.{Request, run, allowed, IsChanged, Effect, run-Effect}

-- The row `b` follows the row `a`: the same row, or one that a permitted change of status made.
pub record Follows (a b : RoomApplication) : Type 0 where
  pub move : (b ≡ a) ⊎ (allowed a.status b.status ≡ true)
  pub room : b.room_id ≡ a.room_id
  pub user : b.user_id ≡ a.user_id

Effect-Follows :
    (db : Db) (b : RoomApplication) (db' : Db) (k : ℕ) (a : RoomApplication)
    → Effect db b db'
    → get k db.applications ≡ some a
    → (c : RoomApplication) × (get k db'.applications ≡ some c) × Follows a c
unfolding get
Effect-Follows db b db' k a (inl e) h = (
  a,
  rw e.written (find-append_some _ db.applications _ a h),
  record { move = inl refl; room = refl; user = refl },
)
Effect-Follows db b db' k a (inr (old, e)) h = elim (Bool-cases (b.id == k)) [
  | inl same ↦
      let key = (==_iff b.id k).0 same in
      let there = get-save_self b db.applications old e.old in
      let wrote = e.written in
      let found = e.old in
      (
        b,
        ground (arith, key, there, wrote),
        record {
          move = inr (ground (arith, key, found, h, e.moved));
          room = ground (arith, key, found, h, e.room);
          user = ground (arith, key, found, h, e.user);
        },
      )
  | inr other ↦
      let apart = get-save_ne k b db.applications (λ e. ground (arith, other, e)) in
      let wrote = e.written in
      (a, ground (arith, apart, wrote, h), record { move = inl refl; room = refl; user = refl })
]

-- One request: it returned and was committed, which the primary key of the table allows only while
-- the keys differ, or it failed and the transaction was rolled back.
pub data Step : Db → Db → Type 0 where
  served :
      {db db' : Db} (user : User) (q : Request) (b : RoomApplication)
      → UniqueKeys db'.applications
      → run db user q ≡ ok (b, db')
      → Step db db'
  failed : {db : Db} → Step db db

pub data History : Db → Db → Type 0 where
  start : {db : Db} → History db db
  then_step : {db db' db'' : Db} → History db db' → Step db' db'' → History db db''

-- CONFIRMED and REJECTED
abbrev pub is_final : ApplicationStatus → Bool
is_final ApplicationStatus.confirmed = true
is_final ApplicationStatus.rejected = true
is_final _ = false

added_once :
    (room_id user_id : ℕ) (b : RoomApplication) (xs : List RoomApplication)
    → find (application_of b.room_id b.user_id) xs ≡ none
    → count (application_of room_id user_id) xs ≤ 1
    → count (application_of room_id user_id) (xs ++ b ∷ []) ≤ 1
unfolding count
added_once room_id user_id b xs first one =
    let sum = count-append (application_of room_id user_id) xs (b ∷ []) in
    elim (Bool-cases (application_of room_id user_id b)) [
      | inl same ↦
          let r : b.room_id ≡ room_id = ground (arith, same) in
          let v : b.user_id ≡ user_id = ground (arith, same) in
          let before : count (application_of room_id user_id) xs ≡ 0 =
            rw (sym r, sym v) (count-none _ _ first) in
          ground (arith, before, sum, same)
      | inr other ↦ ground (arith, sum, other, one)
    ]

same_pair :
    (db : Db) (a b : RoomApplication) (db' : Db) (room_id user_id : ℕ)
    → UniqueKeys db.applications
    → IsChanged db a b db'
    → (x : RoomApplication) → Member x db.applications
    → x.id ≡ b.id
    → application_of room_id user_id x ≡ application_of room_id user_id b
same_pair db a b db' room_id user_id u e x m k =
    let found : get x.id db.applications ≡ some a = rw k e.old in
    let same = Member-unique x a db.applications u m found in rw (same, e.room, e.user) refl

module _ (db : Db) (user : User) (q : Request) (b : RoomApplication) (db' : Db)
    (u : UniqueKeys db.applications) (h : run db user q ≡ ok (b, db')) where
  -- One request on applications, under unique identifiers, moves an application only along a
  -- permitted change of status, and never to another room or user.
  run-Follows :
      (k : ℕ) (a : RoomApplication)
      → get k db.applications ≡ some a
      → (c : RoomApplication) × (get k db'.applications ≡ some c) × Follows a c
  run-Follows k a g = Effect-Follows db b db' k a (run-Effect db user b db' q u h) g

  -- Under unique identifiers, a user has at most one application to a room after a request that
  -- returned if so before it.
  pub one_application_each :
      (room_id user_id : ℕ)
      → count (application_of room_id user_id) db.applications ≤ 1
      → count (application_of room_id user_id) db'.applications ≤ 1
  one_application_each room_id user_id one = elim (run-Effect db user b db' q u h) [
    | inl e ↦ rw e.written (added_once room_id user_id b db.applications e.first one)
    | inr (a, e) ↦
        let wrote = e.written in
        let kept =
          count-save (application_of room_id user_id) b db.applications
            (same_pair db a b db' room_id user_id u e) in
        ground (arith, wrote, kept, one)
  ]

-- the keys of the table stay apart along a history
history-UniqueKeys :
    (db db' : Db) → UniqueKeys db.applications → History db db' → UniqueKeys db'.applications
history-UniqueKeys db db' u start = u
history-UniqueKeys db db' u (then_step h (served user q b v r)) = v
history-UniqueKeys db db' u (then_step h failed) = history-UniqueKeys db db' u h

-- what one step keeps of a decided application
final-Step :
    (db db' : Db) (k : ℕ) (a : RoomApplication)
    → UniqueKeys db.applications
    → Step db db'
    → is_final a.status ≡ true
    → get k db.applications ≡ some a
    → get k db'.applications ≡ some a
final-Step db db' k a u failed f g = g
final-Step db db' k a u (served user q b v r) f g =
    let (c, there, e) = run-Follows db user q b db' u r k a g in
    let move = e.move in ground (arith, move, f, there)

-- From a table with unique identifiers, an application that is confirmed or rejected is the very
-- same row after any history of application requests, by anyone, in any order.
pub decided_is_final :
    (db db' : Db) (k : ℕ) (a : RoomApplication)
    → UniqueKeys db.applications
    → History db db'
    → is_final a.status ≡ true
    → get k db.applications ≡ some a
    → get k db'.applications ≡ some a
decided_is_final db db' k a u start f g = g
decided_is_final db db' k a u (then_step {db' = middle} h s) f g =
    final-Step middle db' k a (history-UniqueKeys db middle u h) s f
      (decided_is_final db middle k a u h f g)
