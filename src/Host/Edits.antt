-- ===== src/Host/Edits.antt =====
-- What creating and editing keep of a room.
use rolling_api.Prelude.{
  ℕ, ◌<◌, ◌≤◌, ◌≡◌, refl, ◌∙◌, true, Option, none, some, [], ◌∷◌, ◌++◌, arith, get, save, key-get,
  ok, >>=-eq-ok,
}
use rolling_api.Model.{Db, User, UserStatus, Room, RoomStatus, RoomVisibility, room_row}
use rolling_api.Host.{
  host_room, RoomCreate, is_valid_create, create_room, RoomUpdate, update_room, edited, edit,
  is_editable, opt_le, new_room,
}

-- What a room that was just created from a valid body satisfies.
pub record IsNewRoom (user : User) (room : Room) : Type 0 where
  pub host : room.host_user_id ≡ user.id
  pub status : room.status ≡ RoomStatus.draft
  pub unassigned : room.planner_id ≡ none
  pub lasts : room.starts_at < room.ends_at
  pub males : (1 ≤ room.male_capacity) × (room.male_capacity ≤ 20)
  pub females : (1 ≤ room.female_capacity) × (room.female_capacity ≤ 20)
  pub ages : opt_le room.min_age room.max_age ≡ true
  pub deadline : opt_le room.application_deadline (some room.starts_at) ≡ true

-- For a body that passes its validation and an active user, `create_room` returns a draft of his
-- without a planner, with times, ages, deadline and capacities in order, and appends it.
created_room :
    (db : Db) (user : User) (body : RoomCreate) (id : ℕ)
    → is_valid_create body ≡ true
    → user.status ≡ UserStatus.active
    → (room : Room) × (create_room db user body id
        ≡ ok (room, record db { rooms = db.rooms ++ room ∷ [] }))
      × IsNewRoom user room
unfolding create_room is_valid_create
created_room db user body id valid active = (
  new_room user body id,
  ground arith,
  record {
    host = refl;
    status = refl;
    unassigned = refl;
    lasts = ground arith;
    males = (ground arith, ground arith);
    females = (ground arith, ground arith);
    ages = ground arith;
    deadline = ground arith;
  },
)

-- the room that a call of the host names
pub host_parts :
    (db : Db) (user : User) (k : ℕ) (a : Room)
    → host_room db user k ≡ ok a
    → (get k db.rooms ≡ some a) × (a.host_user_id ≡ user.id)
unfolding host_room
host_parts db user k a h = (ground arith, ground arith)

-- How a call of the host has replaced the room `a` by `b`.
pub record IsEdited (db : Db) (user : User) (k : ℕ) (a b : Room) (db' : Db) : Type 0 where
  pub old : get k db.rooms ≡ some a
  pub key : b.id ≡ k
  pub hosted : a.host_user_id ≡ user.id
  pub host : b.host_user_id ≡ a.host_user_id
  pub planner : b.planner_id ≡ a.planner_id
  pub written : db' ≡ record db { rooms = save b db.rooms }

edited_lem :
    (u : RoomUpdate) (a b : Room) (s e m f p d : Option ℕ) (v : Option RoomVisibility)
    → edited u a s e m f p d v ≡ ok b
    → (b.id ≡ a.id)
      × (b.host_user_id ≡ a.host_user_id)
      × (b.planner_id ≡ a.planner_id)
      × (b.status ≡ a.status)
      × (b.starts_at < b.ends_at)
unfolding edited
edited_lem u a b (some s) (some e) (some m) (some f) (some p) (some d) (some v) h =
    (ground arith, ground arith, ground arith, ground arith, ground arith)
edited_lem u a b none e m f p d v h = absurd (ground (arith, h))
edited_lem u a b (some s) none m f p d v h = absurd (ground (arith, h))
edited_lem u a b (some s) (some e) none f p d v h = absurd (ground (arith, h))
edited_lem u a b (some s) (some e) (some m) none p d v h = absurd (ground (arith, h))
edited_lem u a b (some s) (some e) (some m) (some f) none d v h = absurd (ground (arith, h))
edited_lem u a b (some s) (some e) (some m) (some f) (some p) none v h = absurd (ground (arith, h))
edited_lem u a b (some s) (some e) (some m) (some f) (some p) (some d) none h =
    absurd (ground (arith, h))

edit_lem :
    (u : RoomUpdate) (a b : Room)
    → edit u a ≡ ok b
    → (b.id ≡ a.id)
      × (b.host_user_id ≡ a.host_user_id)
      × (b.planner_id ≡ a.planner_id)
      × (b.status ≡ a.status)
      × (b.starts_at < b.ends_at)
unfolding edit
edit_lem u a b h = edited_lem u a b _ _ _ _ _ _ _ h

-- what follows the lookup of the room
update_rest :
    (db : Db) (user : User) (k : ℕ) (body : RoomUpdate) (b : Room) (db' : Db)
    → update_room db user k body ≡ ok (b, db')
    → (a : Room) × (host_room db user k ≡ ok a)
      × (is_editable a.status ≡ true)
      × (edit body a ≡ ok b)
      × (db' ≡ record db { rooms = save b db.rooms })
unfolding update_room
update_rest db user k body b db' h =
    let (a, owned, rest) = >>=-eq-ok (host_room db user k) _ (b, db') h in
    (a, owned, ground (arith, rest), ground (arith, rest), ground (arith, rest))

-- An edit that returned was the host's own, of a room still in an editable status; it kept the
-- room's status, host and planner, left every other table alone, and the room still ends after it
-- starts.
pub updated_room :
    (db : Db) (user : User) (k : ℕ) (body : RoomUpdate) (b : Room) (db' : Db)
    → update_room db user k body ≡ ok (b, db')
    → (a : Room) × IsEdited db user k a b db'
      × (is_editable a.status ≡ true)
      × (b.status ≡ a.status)
      × (b.starts_at < b.ends_at)
updated_room db user k body b db' h =
    let (a, owned, editable, changed, wrote) = update_rest db user k body b db' h in
    let (found, mine) = host_parts db user k a owned in
    let (id, host, planner, status, lasts) = edit_lem body a b changed in
    (
      a,
      record {
        old = found;
        key = id ∙ key-get k db.rooms a found;
        hosted = mine;
        host = host;
        planner = planner;
        written = wrote;
      },
      editable,
      status,
      lasts,
    )
