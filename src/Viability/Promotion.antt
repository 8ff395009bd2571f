-- ===== src/Viability/Promotion.antt =====
-- When a room becomes VIABLE, and what comes with it.
use rolling_api.Prelude.{
  ℕ, ◌*◌, ◌≤◌, ◌≡◌, ◌↔◌, ◌⊎◌, inl, inr, refl, max, true, false, some, arith, ltb, get, Bool-cases,
  save, key-get, get-save_self, find, is_some,
}
use rolling_api.Model.{Db, Room, RoomStatus, Gender, room_row}
use rolling_api.Credit.{viable_bonus_of}
use rolling_api.Credit.Issue.{viable_bonus_issued, rooms-viable_bonus}
use rolling_api.Viability.{
  viable_threshold_male, viable_threshold_female, half_up, is_recruiting, PromoteDraw, viable_room,
  promoted, maybe_promote_to_viable,
}
use rolling_api.Viability.Confirmed.{confirmed_guests, males-confirmed, females-confirmed}

-- at least one, and at least half of the places
pub record IsReached (confirmed capacity : ℕ) : Type 0 where
  pub one : 1 ≤ confirmed
  pub half : capacity ≤ 2 * confirmed

-- what a promotion needs of the room and its guests
pub record IsPromotable (db : Db) (k : ℕ) (room : Room) : Type 0 where
  pub recruiting : (room.status ≡ RoomStatus.published) ⊎ (room.status ≡ RoomStatus.recruiting)
  pub males : IsReached (confirmed_guests db k Gender.male) room.male_capacity
  pub females : IsReached (confirmed_guests db k Gender.female) room.female_capacity

recruiting_cases :
    (s : RoomStatus)
    → is_recruiting s ≡ true
    → (s ≡ RoomStatus.published) ⊎ (s ≡ RoomStatus.recruiting)
recruiting_cases RoomStatus.published h = inl refl
recruiting_cases RoomStatus.recruiting h = inr refl
recruiting_cases RoomStatus.draft h = cc
recruiting_cases RoomStatus.viable h = cc
recruiting_cases RoomStatus.assigned h = cc
recruiting_cases RoomStatus.confirmed h = cc
recruiting_cases RoomStatus.in_progress h = cc
recruiting_cases RoomStatus.completed h = cc
recruiting_cases RoomStatus.cancelled h = cc

-- the threshold that the code computes, as a pair of bounds
threshold-IsReached :
    (n capacity : ℕ) → ltb n (max 1 (half_up capacity)) ≡ false → IsReached n capacity
threshold-IsReached n capacity h = record { one = ground (arith, h); half = ground (arith, h) }

IsReached-threshold :
    (n capacity : ℕ) → IsReached n capacity → ltb n (max 1 (half_up capacity)) ≡ false
IsReached-threshold n capacity h = let one = h.one in let half = h.half in ground arith

module _ (db : Db) (k : ℕ) (room : Room) (d : PromoteDraw)
    (found : get k db.rooms ≡ some room) where
  promotes : IsPromotable db k room → maybe_promote_to_viable db k d ≡ (true, promoted db room d)
  unfolding maybe_promote_to_viable viable_threshold_male viable_threshold_female
  promotes h =
      let open_status = h.recruiting in
      let males = IsReached-threshold _ room.male_capacity h.males in
      let females = IsReached-threshold _ room.female_capacity h.females in
      ground (
        arith,
        found,
        open_status,
        males,
        females,
        males-confirmed db k room,
        females-confirmed db k room,
      )

  promotable : maybe_promote_to_viable db k d ≡ (true, promoted db room d) → IsPromotable db k room
  unfolding maybe_promote_to_viable viable_threshold_male viable_threshold_female
  promotable h = record {
    recruiting = recruiting_cases room.status (ground (arith, found, h));
    males =
        rw (← males-confirmed db k room)
          (threshold-IsReached _ room.male_capacity (ground (arith, found, h)));
    females =
        rw (← females-confirmed db k room)
          (threshold-IsReached _ room.female_capacity (ground (arith, found, h)));
  }

  promotes_or_not :
      (maybe_promote_to_viable db k d ≡ (true, promoted db room d))
      ⊎ (maybe_promote_to_viable db k d ≡ (false, db))
  unfolding maybe_promote_to_viable
  promotes_or_not = elim (Bool-cases (maybe_promote_to_viable db k d).0) [
    | inl done ↦ inl (ground (arith, found, done))
    | inr stays ↦ inr (ground (arith, found, stays))
  ]

  -- A room that exists is promoted exactly if it is PUBLISHED or RECRUITING and, for the men as for
  -- the women, at least one guest is confirmed and the confirmed ones are at least half of the
  -- places; and where it is not promoted, nothing changes.
  pub promotion_iff :
      ((maybe_promote_to_viable db k d ≡ (true, promoted db room d)) ↔ IsPromotable db k room)
      × ((maybe_promote_to_viable db k d ≡ (true, promoted db room d))
          ⊎ (maybe_promote_to_viable db k d ≡ (false, db)))
  promotion_iff = ((promotable, promotes), promotes_or_not)

promotion_true :
    (db : Db) (room_id : ℕ) (room : Room) (d : PromoteDraw)
    → get room_id db.rooms ≡ some room
    → (maybe_promote_to_viable db room_id d).0 ≡ true
    → (maybe_promote_to_viable db room_id d).1 ≡ promoted db room d
unfolding maybe_promote_to_viable
promotion_true db room_id room d g h = ground arith

viable_saved :
    (db : Db) (room_id : ℕ) (room : Room) (now : ℕ)
    → get room_id db.rooms ≡ some room
    → get room_id (save (viable_room room now) db.rooms) ≡ some (viable_room room now)
viable_saved db room_id room now g =
    ground (
      arith,
      g,
      key-get room_id db.rooms room g,
      get-save_self (viable_room room now) db.rooms room,
    )

viable_stays :
    (db : Db) (room_id : ℕ) (room : Room) (d : PromoteDraw)
    → get room_id db.rooms ≡ some room
    → room.status ≡ RoomStatus.viable
    → maybe_promote_to_viable db room_id d ≡ (false, db)
unfolding maybe_promote_to_viable
viable_stays db room_id room d g e = ground arith

-- A promotion makes the room VIABLE and leaves its host with the bonus for the room; it happens
-- once, since a further call finds nothing to do.
pub promotion_effect :
    (db : Db) (room_id : ℕ) (room : Room) (d d' : PromoteDraw)
    → get room_id db.rooms ≡ some room
    → (maybe_promote_to_viable db room_id d).0 ≡ true
    → let db' = (maybe_promote_to_viable db room_id d).1 in
      (get room_id db'.rooms ≡ some (viable_room room d.viable_now))
      × (is_some (find (viable_bonus_of room.host_user_id room.id) db'.credits) ≡ true)
      × (maybe_promote_to_viable db' room_id d' ≡ (false, db'))
promotion_effect db room_id room d d' g h =
    let saved = viable_saved db room_id room d.viable_now g in
    let base = record db { rooms = save (viable_room room d.viable_now) db.rooms } in
    let kept = rooms-viable_bonus base room.host_user_id room.id d.bonus_id d.bonus_now in
    let found : get room_id (promoted db room d).rooms ≡ some (viable_room room d.viable_now) =
      rw kept saved in
    rw (promotion_true db room_id room d g h) (
      found,
      viable_bonus_issued base room.host_user_id room.id d.bonus_id d.bonus_now,
      viable_stays (promoted db room d) room_id (viable_room room d.viable_now) d' found refl,
    )
