-- ===== src/Host.antt =====
-- The rooms of a host: app/services/host_service.py up to `publish_room`, and the bodies of
-- app/schemas/room.py that it takes. Writing a field of a room that the table does not allow to be
-- NULL fails when the change is flushed, with a server error.
pub mod Edits
use rolling_api.Prelude.{
  ℕ, ◌≤◌, String, Bool, true, false, ◌&&◌, Option, none, some, List, [], ◌∷◌, ◌++◌, ltb, leb, ◌==◌,
  if◌then◌else◌, get, save, Result, ok, err, ErrorCode, api_error, forbidden, not_found,
  invalid_state_transition, ◌>>=◌, ◌>>◌, require, raise_if, or_raise,
}
use rolling_api.Model.{Db, User, UserStatus, Room, RoomStatus, RoomType, RoomVisibility, room_row}

abbrev pub is_active : UserStatus → Bool
is_active UserStatus.active = true
is_active _ = false

-- HOST_EDITABLE_STATES
abbrev pub is_editable : RoomStatus → Bool
is_editable RoomStatus.draft = true
is_editable RoomStatus.published = true
is_editable RoomStatus.recruiting = true
is_editable _ = false

-- HOST_PUBLISH_FROM
abbrev pub is_publishable : RoomStatus → Bool
is_publishable RoomStatus.draft = true
is_publishable _ = false

-- `_get_owned_room`
unfoldable pub host_room : Db → User → ℕ → Result Room
host_room db user room_id = do
  room ← or_raise (get room_id db.rooms) (not_found ErrorCode.room_not_found)
  require (room.host_user_id == user.id) forbidden
  ok room

pub record RoomCreate : Type 0 where
  pub title : String
  pub subtitle : Option String
  pub description : Option String
  pub room_type : RoomType
  pub region : String
  pub venue_name : Option String
  pub venue_address : Option String
  pub starts_at : ℕ
  pub ends_at : ℕ
  pub min_age : Option ℕ
  pub max_age : Option ℕ
  pub male_capacity : ℕ
  pub female_capacity : ℕ
  pub price_amount : ℕ
  pub deposit_amount : ℕ
  pub currency : String
  pub application_deadline : Option ℕ
  pub visibility : RoomVisibility
  pub payment_instructions : Option String

-- `a is not None and b is not None and a > b`, denied
abbrev pub opt_le : Option ℕ → Option ℕ → Bool
opt_le (some a) (some b) = leb a b
opt_le _ _ = true

abbrev pub within : ℕ → ℕ → ℕ → Bool
within lo hi n = leb lo n && leb n hi

abbrev pub opt_within : ℕ → ℕ → Option ℕ → Bool
opt_within lo hi none = true
opt_within lo hi (some n) = within lo hi n

-- The bounds on the numbers and the validator `_check`; a body that fails is refused by the
-- framework before the service is called. The bounds on the lengths of the texts are left out.
unfoldable pub is_valid_create : RoomCreate → Bool
is_valid_create b =
    opt_within 18 99 b.min_age
    && (opt_within 18 99 b.max_age
        && (within 1 20 b.male_capacity
            && (within 1 20 b.female_capacity
                && (ltb b.starts_at b.ends_at
                    && (opt_le b.min_age b.max_age
                        && opt_le b.application_deadline (some b.starts_at))))))

abbrev pub new_room : User → RoomCreate → ℕ → Room
new_room user b id = record {
  id = id;
  host_user_id = user.id;
  planner_id = none;
  title = b.title;
  subtitle = b.subtitle;
  description = b.description;
  room_type = b.room_type;
  status = RoomStatus.draft;
  region = b.region;
  venue_name = b.venue_name;
  venue_address = b.venue_address;
  starts_at = b.starts_at;
  ends_at = b.ends_at;
  min_age = b.min_age;
  max_age = b.max_age;
  male_capacity = b.male_capacity;
  female_capacity = b.female_capacity;
  price_amount = b.price_amount;
  deposit_amount = b.deposit_amount;
  currency = b.currency;
  application_deadline = b.application_deadline;
  visibility = b.visibility;
  viable_at = none;
  payment_instructions = b.payment_instructions;
}

unfoldable pub create_room : Db → User → RoomCreate → ℕ → Result (Room × Db)
create_room db user body id = do
  require (is_active user.status) forbidden
  let room = new_room user body id
  ok (room, record db { rooms = db.rooms ++ room ∷ [] })

-- `body.model_dump(exclude_unset=True)`: `none` is a field that the request leaves out, `some none`
-- one that it sets to null
pub record RoomUpdate : Type 0 where
  pub title : Option (Option String)
  pub subtitle : Option (Option String)
  pub description : Option (Option String)
  pub region : Option (Option String)
  pub venue_name : Option (Option String)
  pub venue_address : Option (Option String)
  pub starts_at : Option (Option ℕ)
  pub ends_at : Option (Option ℕ)
  pub min_age : Option (Option ℕ)
  pub max_age : Option (Option ℕ)
  pub male_capacity : Option (Option ℕ)
  pub female_capacity : Option (Option ℕ)
  pub price_amount : Option (Option ℕ)
  pub deposit_amount : Option (Option ℕ)
  pub application_deadline : Option (Option ℕ)
  pub visibility : Option (Option RoomVisibility)
  pub payment_instructions : Option (Option String)

-- `setattr` of a nullable column
abbrev pub put {ℓ} : {A : Type ℓ} → Option (Option A) → Option A → Option A
put none old = old
put (some v) old = v

-- the loop's `continue` for a null `title` or `region`
abbrev pub put_or_keep {ℓ} : {A : Type ℓ} → Option (Option A) → A → A
put_or_keep (some (some v)) old = v
put_or_keep _ old = old

-- `setattr` of a column that must not be NULL; `none` is a null that the flush will refuse
abbrev pub put_required {ℓ} : {A : Type ℓ} → Option (Option A) → A → Option A
put_required none old = some old
put_required (some v) old = v

abbrev pub server_error : ErrorCode
server_error = ErrorCode.integrity_error

-- the room with the fields of the payload written
abbrev pub updated : RoomUpdate → Room → ℕ → ℕ → ℕ → ℕ → ℕ → ℕ → RoomVisibility → Room
updated b room starts ends males females price deposit visibility = record room {
  title = put_or_keep b.title room.title;
  subtitle = put b.subtitle room.subtitle;
  description = put b.description room.description;
  region = put_or_keep b.region room.region;
  venue_name = put b.venue_name room.venue_name;
  venue_address = put b.venue_address room.venue_address;
  starts_at = starts;
  ends_at = ends;
  min_age = put b.min_age room.min_age;
  max_age = put b.max_age room.max_age;
  male_capacity = males;
  female_capacity = females;
  price_amount = price;
  deposit_amount = deposit;
  application_deadline = put b.application_deadline room.application_deadline;
  visibility = visibility;
  payment_instructions = put b.payment_instructions room.payment_instructions;
}

-- The room that the loop of `setattr` leaves, from the values of the columns that must not be NULL.
-- Comparing with a null time is a `TypeError`, a server error like the refused flush.
unfoldable pub edited :
    RoomUpdate
    → Room
    → (starts ends males females price deposit : Option ℕ) → Option RoomVisibility
    → Result Room
edited b room starts ends males females price deposit visibility = do
  starts' ← or_raise starts (api_error server_error 500)
  ends' ← or_raise ends (api_error server_error 500)
  raise_if (leb ends' starts') (api_error ErrorCode.validation_error 422)
  males' ← or_raise males (api_error server_error 500)
  females' ← or_raise females (api_error server_error 500)
  price' ← or_raise price (api_error server_error 500)
  deposit' ← or_raise deposit (api_error server_error 500)
  visibility' ← or_raise visibility (api_error server_error 500)
  ok (updated b room starts' ends' males' females' price' deposit' visibility')

unfoldable pub edit : RoomUpdate → Room → Result Room
edit b room =
    edited b room (put_required b.starts_at room.starts_at) (put_required b.ends_at room.ends_at)
      (put_required b.male_capacity room.male_capacity)
      (put_required b.female_capacity room.female_capacity)
      (put_required b.price_amount room.price_amount)
      (put_required b.deposit_amount room.deposit_amount)
      (put_required b.visibility room.visibility)

unfoldable pub update_room : Db → User → ℕ → RoomUpdate → Result (Room × Db)
update_room db user room_id b = do
  room ← host_room db user room_id
  require (is_editable room.status) invalid_state_transition
  room' ← edit b room
  ok (room', record db { rooms = save room' db.rooms })

unfoldable pub publish_room : Db → User → ℕ → Result (Room × Db)
publish_room db user room_id = do
  room ← host_room db user room_id
  require (is_publishable room.status) invalid_state_transition
  let room' = record room { status = RoomStatus.published }
  ok (room', record db { rooms = save room' db.rooms })
