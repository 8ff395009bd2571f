-- ===== src/Admin/Queue/Members.antt =====
-- Who waits in the queue, and that an assignment takes a room off it.
use rolling_api.Prelude.{
  ℕ, ◌≡◌, ◌≢◌, refl, sym, ap, ◌∙◌, inl, inr, Bool, true, false, ◌&&◌, Option, some, List, [], ◌∷◌,
  map, arith, ◌==◌, ==_iff, any, find, get, save, key-get, All, UniqueKeys, Bool-cases, any-map,
  any-outer_join, any-join, any-order_by, any-select, any-congr, any-and, ok, Option-cases,
}
use rolling_api.Model.{Db, User, Profile, Room, RoomStatus, room_row}
use rolling_api.Admin.{Actor, assign_planner_to_room, log_action}
use rolling_api.Admin.Queue.{
  AdminQueueItem, QueueRow, is_queued, queue_item, queue_rows, waits_longer,
}

abbrev pub is_item : ℕ → AdminQueueItem → Bool
is_item k i = i.id == k

-- the whole queue, of which a call of `list_queue` sends one page
abbrev pub whole_queue : Db → Bool → List AdminQueueItem
whole_queue db include_assigned = map (queue_item db) (queue_rows db include_assigned)

abbrev pub has_host : Db → Room → Bool
has_host db r = any (λ (u : User). u.id == r.host_user_id) db.users

abbrev pub waits : Db → Bool → ℕ → Room → Bool
waits db include_assigned k r =
    (is_queued include_assigned r.status && has_host db r) && (r.id == k)

item-id : (db : Db) (x : QueueRow) → (queue_item db x).id ≡ x.0.0.0.id
unfolding queue_item
item-id db (((r, host), profile), planner) = refl

-- A room is in the queue exactly if a row of the table with its identifier waits there.
queue-waits :
    (db : Db) (include_assigned : Bool) (k : ℕ)
    → any (is_item k) (whole_queue db include_assigned) ≡ any (waits db include_assigned k) db.rooms
unfolding queue_rows
queue-waits db include_assigned k =
    any-map (is_item k) (queue_item db) _
    ∙ any-congr _ (λ x. x.0.0.0.id == k) _ (λ x. ap (λ n. n == k) (item-id db x))
    ∙ any-outer_join (λ (x : (Room × User) × Option Profile). x.0.0.id == k) _ _ db.planners
    ∙ any-outer_join (λ (x : Room × User). x.0.id == k) _ _ db.profiles
    ∙ any-join (λ (x : Room × User). x.0.id == k) _ _ db.users
    ∙ any-order_by _ waits_longer _
    ∙ any-select _ (λ (r : Room). is_queued include_assigned r.status) db.rooms
    ∙ any-congr _ _ db.rooms (λ r.
      ap (λ b. is_queued include_assigned r.status && b) (any-and _ (r.id == k) db.users)
      ∙ ground arith)

any-save_other :
    (p : Room → Bool) (a : Room) (xs : List Room)
    → p a ≡ false
    → ((x : Room) → x.id ≡ a.id → p x ≡ false)
    → any p (save a xs) ≡ any p xs
unfolding any save
any-save_other p a [] h out = refl
any-save_other p a (x ∷ xs) h out = elim (Bool-cases (x.id == a.id)) [
  | inl same ↦
      let gone = out x ((==_iff x.id a.id).0 same) in
      rw same (ground (arith, h, gone, any-save_other p a xs h out))
  | inr other ↦ rw other (ground (arith, any-save_other p a xs h out))
]

any-save_absent :
    (p : Room → Bool) (a : Room) (xs : List Room)
    → ((x : Room) → x.id ≢ a.id → p x ≡ false)
    → (k : ℕ) → k ≡ a.id
    → All (λ (y : Room). k ≢ y.id) xs
    → any p (save a xs) ≡ false
unfolding any save
any-save_absent p a [] out k e h = refl
any-save_absent p a (x ∷ xs) out k e h =
    let apart : x.id ≢ a.id = λ same. h.0 (e ∙ sym same) in
    let no_key : (x.id == a.id) ≡ false = ground (arith, apart) in
    rw no_key (ground (arith, out x apart, any-save_absent p a xs out k e h.1))

any-save_self :
    (p : Room → Bool) (a old : Room) (xs : List Room)
    → UniqueKeys xs
    → ((x : Room) → x.id ≢ a.id → p x ≡ false)
    → get a.id xs ≡ some old
    → any p (save a xs) ≡ p a
unfolding any save get find
any-save_self p a old [] u out h = cc
any-save_self p a old (x ∷ xs) u out h = elim (Bool-cases (x.id == a.id)) [
  | inl same ↦
      rw same (ground (arith, any-save_absent p a xs out x.id ((==_iff x.id a.id).0 same) u.0))
  | inr other ↦
      let apart : x.id ≢ a.id = λ e. ground (arith, other, e) in
      rw other (ground (arith, out x apart, any-save_self p a old xs u.1 out (rw other at h)))
]

-- what an assignment that returned has written
assigned_parts :
    (db db' : Db) (actor : Actor) (k q : ℕ) (b : Room)
    → assign_planner_to_room db actor k q ≡ ok (b, db')
    → (old : Room) × (get k db.rooms ≡ some old)
      × (b.id ≡ k)
      × (b.status ≡ RoomStatus.assigned)
      × (db'.rooms ≡ save b db.rooms)
      × (db'.users ≡ db.users)
unfolding assign_planner_to_room log_action
assigned_parts db db' actor k q b h = elim (Option-cases (get k db.rooms)) [
  | inl absent ↦ absurd (ground (arith, absent, h))
  | inr (old, found) ↦ (
    old,
    found,
    ground (arith, found, h, key-get k db.rooms old found),
    ground (arith, found, h),
    ground (arith, found, h),
    ground (arith, found, h),
  )
]

module _ (db db' : Db) (include_assigned : Bool) (k : ℕ) (b : Room) where
  written_queue :
      (old : Room)
      → UniqueKeys db.rooms
      → b.id ≡ k
      → get b.id db.rooms ≡ some old
      → db'.rooms ≡ save b db.rooms
      → any (is_item k) (whole_queue db' include_assigned)
        ≡ is_queued include_assigned b.status && has_host db' b
  written_queue old u key found rooms =
      queue-waits db' include_assigned k
      ∙ ap (any (waits db' include_assigned k)) rooms
      ∙ any-save_self (waits db' include_assigned k) b old db.rooms u
          (λ x ne. ground (arith, key, ne)) found
      ∙ ground (arith, key)

  other_queue :
      b.id ≢ k
      → db'.rooms ≡ save b db.rooms
      → db'.users ≡ db.users
      → any (is_item k) (whole_queue db' include_assigned)
        ≡ any (is_item k) (whole_queue db include_assigned)
  other_queue ne rooms users =
      queue-waits db' include_assigned k
      ∙ ap (any (waits db' include_assigned k)) rooms
      ∙ any-save_other (waits db' include_assigned k) b db.rooms (ground (arith, ne))
          (λ x e. ground (arith, e, ne))
      ∙ any-congr (waits db' include_assigned k) (waits db include_assigned k) db.rooms (λ x.
        ap
          (λ us.
            (is_queued include_assigned x.status && any (λ (u : User). u.id == x.host_user_id) us)
            && (x.id == k))
          users)
      ∙ sym (queue-waits db include_assigned k)

-- After an assignment that returned, the room is no longer in the queue of rooms without a planner,
-- it is in the queue that includes the assigned rooms exactly if its host has an account, and of
-- every other room neither queue changes.
pub assignment_moves_room :
    (db db' : Db) (actor : Actor) (k q : ℕ) (b : Room)
    → UniqueKeys db.rooms
    → assign_planner_to_room db actor k q ≡ ok (b, db')
    → (any (is_item k) (whole_queue db' false) ≡ false)
      × (any (is_item k) (whole_queue db' true) ≡ has_host db b)
      × ((j : ℕ) (include_assigned : Bool)
          → j ≢ k
          → any (is_item j) (whole_queue db' include_assigned)
            ≡ any (is_item j) (whole_queue db include_assigned))
assignment_moves_room db db' actor k q b u h =
    let (old, found, key, status, rooms, users) = assigned_parts db db' actor k q b h in
    let found' : get b.id db.rooms ≡ some old = ground (arith, key, found) in
    (
      written_queue db db' false k b old u key found' rooms ∙ ground (arith, status),
      written_queue db db' true k b old u key found' rooms ∙ rw users (ground (arith, status)),
      λ j include_assigned ne.
          other_queue db db' include_assigned j b (λ e. ne (sym e ∙ key)) rooms users,
    )
