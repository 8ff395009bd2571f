-- ===== src/Lifecycle/Moves.antt =====
-- What each step does to the table of rooms.
use rolling_api.Prelude.{
  ℤ, ℕ, ◌≤◌, ◌≡◌, inl, inr, refl, ap, ◌∙◌, find, true, none, some, [], ◌∷◌, ◌++◌, arith, is_some,
  get, save, key-get, Option-cases, Bool-cases, ok, >>=-eq-ok,
}
use rolling_api.Model.{
  Db, User, Planner, Room, RoomStatus, RoomApplication, ApplicationStatus, RotationSession,
  room_row, application_row, planner_row,
}
use rolling_api.Credit.{PairDraw, issue_referral_pair}
use rolling_api.Credit.Issue.{rooms-viable_bonus}
use rolling_api.Viability.{PromoteDraw, maybe_promote_to_viable, viable_room}
use rolling_api.Host.{
  RoomCreate, is_valid_create, create_room, RoomUpdate, update_room, publish_room, host_room,
}
use rolling_api.Host.Edits.{updated_room, host_parts}
use rolling_api.Application.{mark_application_paid, maybe_emit_referral_bonus, owned_application}
use rolling_api.Admin.{Actor, assign_planner_to_room, log_action, is_assignable}
use rolling_api.Planner.{confirm_room, assigned_room}
use rolling_api.Rotation.{StartDraw, start_session, end_session, owned_room, session_of}
use rolling_api.Rotation.Start.{start_session-Started}
use rolling_api.Rotation.Begin.{owned_parts}
use rolling_api.Lifecycle.{RoomStep, rank, is_planned, lasts}
use rolling_api.Lifecycle.Machine.{Transition, phase, seen}
use rolling_api.Lifecycle.Transitions.{step_by, assign_step, promote_step}

-- The row `b` may follow the row `a`.
pub record IsMove (a b : Room) : Type 0 where
  pub id : b.id ≡ a.id
  pub host : b.host_user_id ≡ a.host_user_id
  pub up : rank a.status ≤ rank b.status
  pub times : lasts a ≡ true → lasts b ≡ true
  pub planned : is_planned a ≡ true → is_planned b ≡ true
  pub planner : is_some a.planner_id ≡ true → is_some b.planner_id ≡ true
  pub step : Transition (some (seen a)) (some (seen b))

pub data Touch (db db' : Db) : Type 0 where
  untouched : db'.rooms ≡ db.rooms → Touch db db'
  added :
      (b : Room)
      → lasts b ≡ true
      → is_planned b ≡ true
      → seen b ≡ phase b.host_user_id RoomStatus.draft none
      → db'.rooms ≡ db.rooms ++ b ∷ []
      → Touch db db'
  changed :
      (k : ℕ) (a b : Room)
      → get k db.rooms ≡ some a
      → IsMove a b
      → db'.rooms ≡ save b db.rooms
      → Touch db db'

module _ (db db' : Db) where
  create-Touch :
      (user : User) (body : RoomCreate) (id : ℕ) (b : Room)
      → is_valid_create body ≡ true
      → create_room db user body id ≡ ok (b, db')
      → Touch db db'
  unfolding create_room is_valid_create
  create-Touch user body id b v h =
      added b (ground arith) (ground arith) (ground arith) (ground arith)

  update-Touch :
      (user : User) (k : ℕ) (body : RoomUpdate) (b : Room)
      → update_room db user k body ≡ ok (b, db')
      → Touch db db'
  update-Touch user k body b h =
      let (a, e, editable, status, long) = updated_room db user k body b db' h in
      let host = e.host in
      let planner = e.planner in
      let key = e.key in
      let wrote = e.written in
      let old = key-get k db.rooms a e.old in
      changed k a b e.old
        (record {
          id = ground arith;
          host = host;
          up = ground arith;
          times = λ _. ground arith;
          planned = λ p. ground (arith, p);
          planner = λ p. ground (arith, p);
          step = step_by a b _ _ refl (ground (arith, host, planner, status)) Transition.stay;
        })
        (ground arith)

  publish-Touch :
      (user : User) (k : ℕ) (b : Room) → publish_room db user k ≡ ok (b, db') → Touch db db'
  unfolding publish_room
  publish-Touch user k b h =
      let (a, owned, rest) = >>=-eq-ok (host_room db user k) _ (b, db') h in
      let found = (host_parts db user k a owned).0 in
      changed k a b found
        (record {
          id = ground (arith, rest);
          host = ground (arith, rest);
          up = ground (arith, rest);
          times = λ t. ground (arith, rest, t);
          planned = λ p. ground (arith, rest, p);
          planner = λ p. ground (arith, rest, p);
          step =
              step_by a b (phase a.host_user_id RoomStatus.draft a.planner_id) _
                (ground (arith, rest)) (ground (arith, rest)) Transition.publish;
        })
        (ground (arith, rest))

  assigned_planner :
      (actor : Actor) (k q : ℕ) (b a : Room)
      → get k db.rooms ≡ some a
      → assign_planner_to_room db actor k q ≡ ok (b, db')
      → (p : Planner) × (is_assignable a.status ≡ true)
        × (seen b ≡ phase a.host_user_id RoomStatus.assigned (some p.id))
  unfolding assign_planner_to_room
  assigned_planner actor k q b a found h = elim (Option-cases (get q db.planners)) [
    | inl absent ↦ absurd (ground (arith, found, absent, h))
    | inr (p, there) ↦ (p, ground (arith, found, there, h), ground (arith, found, there, h))
  ]

  assign-Touch :
      (actor : Actor) (k q : ℕ) (b : Room)
      → assign_planner_to_room db actor k q ≡ ok (b, db')
      → Touch db db'
  unfolding assign_planner_to_room log_action
  assign-Touch actor k q b h = elim (Option-cases (get k db.rooms)) [
    | inl absent ↦ absurd (ground (arith, absent, h))
    | inr (a, found) ↦
        let (p, planner, written) = assigned_planner actor k q b a found h in
        changed k a b found
          (record {
            id = ground arith;
            host = ground arith;
            up = ground arith;
            times = λ t. ground (arith, t);
            planned = λ p. ground (arith, p);
            planner = λ p. ground (arith, p);
            step = assign_step a b p.id planner written;
          })
          (ground arith)
  ]

  assigned_parts :
      (planner : Planner) (k : ℕ) (a : Room)
      → assigned_room db planner k ≡ ok a
      → (get k db.rooms ≡ some a) × (a.planner_id ≡ some planner.id)
  unfolding assigned_room
  assigned_parts planner k a h = (ground arith, ground arith)

  confirm-Touch :
      (planner : Planner) (k : ℕ) (b : Room)
      → confirm_room db planner k ≡ ok (b, db')
      → Touch db db'
  unfolding confirm_room
  confirm-Touch planner k b h =
      let (a, owned, rest) = >>=-eq-ok (assigned_room db planner k) _ (b, db') h in
      let (found, mine) = assigned_parts planner k a owned in
      changed k a b found
        (record {
          id = ground (arith, rest);
          host = ground (arith, rest);
          up = ground (arith, rest);
          times = λ t. ground (arith, rest, t);
          planned = λ p. ground (arith, rest, mine);
          planner = λ p. ground (arith, rest, mine);
          step =
              step_by a b (phase a.host_user_id RoomStatus.assigned (some planner.id))
                (phase a.host_user_id RoomStatus.confirmed (some planner.id))
                (ground (arith, rest, mine)) (ground (arith, rest, mine)) Transition.confirm;
        })
        (ground (arith, rest))

  start-Touch :
      (planner : Planner) (k : ℕ) (duration : ℤ) (d : StartDraw) (s : RotationSession)
      → start_session db planner k duration d ≡ ok (s, db')
      → Touch db db'
  start-Touch planner k duration d s h =
      let st = start_session-Started db planner k duration d s db' h in
      let a = st.room in
      let (found, mine) = owned_parts db planner k a st.owned in
      let was = st.confirmed in
      changed k a (record a { status = RoomStatus.in_progress }) found
        (record {
          id = refl;
          host = refl;
          up = ground (arith, was);
          times = λ t. ground (arith, t);
          planned = λ p. ground (arith, mine);
          planner = λ p. p;
          step =
              step_by a (record a { status = RoomStatus.in_progress })
                (phase a.host_user_id RoomStatus.confirmed (some planner.id))
                (phase a.host_user_id RoomStatus.in_progress (some planner.id))
                (ground (arith, was, mine)) (ground (arith, mine)) Transition.start;
        })
        st.rooms_are

  end-Touch :
      (planner : Planner) (k now : ℕ) (s : RotationSession)
      → end_session db planner k now ≡ ok (s, db')
      → Touch db db'
  unfolding end_session
  end-Touch planner k now s h =
      let (a, owned, rest) = >>=-eq-ok (owned_room db planner k) _ (s, db') h in
      let (found, mine) = owned_parts db planner k a owned in
      elim (Option-cases (find (session_of k) db.sessions)) [
        | inl absent ↦ absurd (ground (arith, absent, rest))
        | inr (t, there) ↦
            changed k a (record a { status = RoomStatus.completed }) found
              (record {
                id = refl;
                host = refl;
                up = ground arith;
                times = λ t. ground (arith, t);
                planned = λ p. ground (arith, mine);
                planner = λ p. p;
                step =
                    step_by a (record a { status = RoomStatus.completed })
                      (phase a.host_user_id a.status (some planner.id))
                      (phase a.host_user_id RoomStatus.completed (some planner.id))
                      (ground (arith, mine)) (ground (arith, mine)) Transition.finish;
              })
              (ground (arith, there, rest))
      ]

-- the promotion's write
promote-Touch : (db : Db) (k : ℕ) (d : PromoteDraw) → Touch db (maybe_promote_to_viable db k d).1
unfolding maybe_promote_to_viable
promote-Touch db k d = elim (Option-cases (get k db.rooms)) [
  | inl absent ↦ untouched (ground (arith, absent))
  | inr (a, found) ↦ elim (Bool-cases (maybe_promote_to_viable db k d).0) [
    | inr stays ↦ untouched (ground (arith, found, stays))
    | inl promotes ↦
        let b = viable_room a d.viable_now in
        let kept =
          rooms-viable_bonus (record db { rooms = save b db.rooms }) a.host_user_id a.id d.bonus_id
            d.bonus_now in
        changed k a b found
          (record {
            id = refl;
            host = refl;
            up = ground (arith, found, promotes);
            times = λ t. ground (arith, t);
            planned = λ p. ground arith;
            planner = λ p. ground (arith, p);
            step = promote_step a b (ground (arith, found, promotes)) refl;
          })
          (ground (arith, found, promotes, kept))
  ]
]

rooms-emit :
    (db : Db) (user_id : ℕ) (d : PairDraw)
    → (maybe_emit_referral_bonus db user_id d).rooms ≡ db.rooms
unfolding maybe_emit_referral_bonus issue_referral_pair
rooms-emit db user_id d = ground arith

-- a step from tables of rooms that are the same
Touch-eq :
    (db db0 db1 db2 : Db)
    → db0.rooms ≡ db.rooms
    → db2.rooms ≡ db1.rooms
    → Touch db0 db1
    → Touch db db2
Touch-eq db db0 db1 db2 e e' (untouched r) = untouched (e' ∙ (r ∙ e))
Touch-eq db db0 db1 db2 e e' (added b l p f w) =
    added b l p f (e' ∙ (w ∙ ap (λ rs. rs ++ b ∷ []) e))
Touch-eq db db0 db1 db2 e e' (changed k a b g m w) =
    changed k a b (rw (← e) g) m (e' ∙ (w ∙ ap (save b) e))

pay-Touch :
    (db db' : Db) (user : User) (k : ℕ) (d : PromoteDraw) (e : PairDraw) (b : RoomApplication)
    → mark_application_paid db user k d e ≡ ok (b, db')
    → Touch db db'
unfolding mark_application_paid
pay-Touch db db' user k d e b h =
    let (a, owned, rest) = >>=-eq-ok (owned_application db user k) _ (b, db') h in
    let c = record a { status = ApplicationStatus.confirmed } in
    let flushed = record db { applications = save c db.applications } in
    let kept = rooms-emit (maybe_promote_to_viable flushed c.room_id d).1 c.user_id e in
    Touch-eq db flushed (maybe_promote_to_viable flushed c.room_id d).1 db' refl
      (ground (arith, rest, kept)) (promote-Touch flushed c.room_id d)

-- What a step has done to the table of rooms.
pub step-Touch : (db db' : Db) → RoomStep db db' → Touch db db'
step-Touch db db' (RoomStep.create user body id b v h) = create-Touch db db' user body id b v h
step-Touch db db' (RoomStep.update user k body b h) = update-Touch db db' user k body b h
step-Touch db db' (RoomStep.publish user k b h) = publish-Touch db db' user k b h
step-Touch db db' (RoomStep.pay user k d e a h) = pay-Touch db db' user k d e a h
step-Touch db db' (RoomStep.assign actor k q b h) = assign-Touch db db' actor k q b h
step-Touch db db' (RoomStep.confirm planner k b h) = confirm-Touch db db' planner k b h
step-Touch db db' (RoomStep.start planner k m d s h) = start-Touch db db' planner k m d s h
step-Touch db db' (RoomStep.end planner k now s h) = end-Touch db db' planner k now s h
step-Touch db db' (RoomStep.other r) = untouched r
