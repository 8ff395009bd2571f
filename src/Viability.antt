-- ===== src/Viability.antt =====
-- Capacity and viability in app/services/host_service.py (`get_capacity_summary` is written out once
-- more in app/services/room_service.py), and `maybe_promote_to_viable`.
pub mod Promotion
pub mod Confirmed
use rolling_api.Prelude.{
  ℕ, ◌+◌, ◌/◌, max, Bool, true, false, ◌&&◌, ◌||◌, Option, none, some, List, [], ◌∷◌, ltb, ◌==◌,
  if◌then◌else◌, count, get, save,
}
use rolling_api.Model.{
  Db, Profile, Room, RoomStatus, RoomApplication, ApplicationStatus, Gender, room_row,
}
use rolling_api.Credit.{issue_viable_host_bonus}

abbrev pub is_male : Gender → Bool
is_male Gender.male = true
is_male _ = false

abbrev pub is_female : Gender → Bool
is_female Gender.female = true
is_female _ = false

abbrev pub is_confirmed : ApplicationStatus → Bool
is_confirmed ApplicationStatus.confirmed = true
is_confirmed _ = false

abbrev pub is_paid : ApplicationStatus → Bool
is_paid ApplicationStatus.paid = true
is_paid _ = false

-- `sum(case((status_test, case((gender_test, 1), else_=0)), else_=0))` over the join of the room's
-- applications with the profiles of their users
unfoldable pub sum_case :
    List RoomApplication → List Profile → ℕ → (ApplicationStatus → Bool) → (Gender → Bool) → ℕ
sum_case [] profiles room_id status_test gender_test = 0
sum_case (a ∷ apps) profiles room_id status_test gender_test =
    let rest = sum_case apps profiles room_id status_test gender_test in
    if a.room_id == room_id && status_test a.status
    then count (λ (p : Profile). p.user_id == a.user_id && gender_test p.gender) profiles + rest
    else rest

pub record RoomCapacitySummary : Type 0 where
  pub male_capacity : ℕ
  pub female_capacity : ℕ
  pub male_confirmed : ℕ
  pub female_confirmed : ℕ
  pub male_paid : ℕ
  pub female_paid : ℕ

unfoldable pub get_capacity_summary : Db → ℕ → Room → RoomCapacitySummary
get_capacity_summary db room_id room = record {
  male_capacity = room.male_capacity;
  female_capacity = room.female_capacity;
  male_confirmed = sum_case db.applications db.profiles room_id is_confirmed is_male;
  female_confirmed = sum_case db.applications db.profiles room_id is_confirmed is_female;
  male_paid = sum_case db.applications db.profiles room_id is_paid is_male;
  female_paid = sum_case db.applications db.profiles room_id is_paid is_female;
}

-- `ceil(capacity * 0.5)`; halving a float is exact
abbrev pub half_up : ℕ → ℕ
half_up capacity = (capacity + 1) / 2

unfoldable pub viable_threshold_male : Room → ℕ
viable_threshold_male room = max 1 (half_up room.male_capacity)

unfoldable pub viable_threshold_female : Room → ℕ
viable_threshold_female room = max 1 (half_up room.female_capacity)

unfoldable pub viable_threshold : Room → ℕ
unfolding viable_threshold_male viable_threshold_female
viable_threshold room = viable_threshold_male room + viable_threshold_female room

-- `room.status in (PUBLISHED, RECRUITING)`
abbrev pub is_recruiting : RoomStatus → Bool
is_recruiting RoomStatus.published = true
is_recruiting RoomStatus.recruiting = true
is_recruiting _ = false

-- what a promotion draws: the time of `viable_at`, and the bonus's identifier and issue time
pub record PromoteDraw : Type 0 where
  pub viable_now : ℕ
  pub bonus_id : ℕ
  pub bonus_now : ℕ

abbrev pub viable_room : Room → ℕ → Room
viable_room room now = record room { status = RoomStatus.viable; viable_at = some now }

-- the writes of a promotion
abbrev pub promoted : Db → Room → PromoteDraw → Db
promoted db room d =
    (issue_viable_host_bonus (record db { rooms = save (viable_room room d.viable_now) db.rooms })
      room.host_user_id room.id d.bonus_id d.bonus_now).1

-- the three guards and the writes, for a room that was found
unfoldable pub promote_room : Db → ℕ → Room → PromoteDraw → Bool × Db
promote_room db room_id room d =
    if is_recruiting room.status
    then (let summary = get_capacity_summary db room_id room in
        if ltb summary.male_confirmed (viable_threshold_male room)
        then (false, db)
        else if ltb summary.female_confirmed (viable_threshold_female room)
        then (false, db)
        else (true, promoted db room d))
    else (false, db)

unfoldable pub maybe_promote_to_viable : Db → ℕ → PromoteDraw → Bool × Db
unfolding promote_room
maybe_promote_to_viable db room_id d = elim (get room_id db.rooms) [
  | none ↦ (false, db)
  | some room ↦ promote_room db room_id room d
]
