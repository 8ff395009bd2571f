-- ===== src/Checkin/Presence.antt =====
-- The states of a check-in, and what a confirmed one is good for.
use rolling_api.Prelude.{
  ℕ, ◌≡◌, ◌↔◌, ◌⊎◌, refl, true, some, List, arith, is_some, found_iff, find, get, save, key-get,
  get-save_self, Member, Member-find, Member-save_self, Option-cases, inl, inr, ok, err,
  invalid_state_transition,
}
use rolling_api.Model.{Db, Planner, Room, CheckIn, CheckInStatus, room_row, checkin_row}
use rolling_api.Checkin.{confirm_checkin_by_id, mark_no_show, operates, may_arrive}
use rolling_api.Guest.{presence_of}

abbrev pub arrived : CheckIn → ℕ → CheckIn
arrived c now = record c { status = CheckInStatus.checked_in; checked_in_at = some now }

Member-get : (k : ℕ) (xs : List CheckIn) (c : CheckIn) → get k xs ≡ some c → Member c xs
unfolding get
Member-get k xs c h = Member-find _ xs c h

-- the planner runs the room of a check-in
abbrev pub RunBy : Db → CheckIn → Planner → Type 0
RunBy db c planner =
    (room : Room) × (get c.room_id db.rooms ≡ some room) × (room.planner_id ≡ some planner.id)

-- the guest is awaited, or was taken to be missing
abbrev pub IsAwaited : CheckIn → Type 0
IsAwaited c = (c.status ≡ CheckInStatus.opened) ⊎ (c.status ≡ CheckInStatus.no_show)

RunBy-iff :
    (db : Db) (c : CheckIn) (planner : Planner)
    → (operates (get c.room_id db.rooms) planner ≡ true) ↔ RunBy db c planner
RunBy-iff db c planner = elim (Option-cases (get c.room_id db.rooms)) [
  | inl absent ↦
      (λ h. absurd (ground (arith, absent, h)), λ h. absurd (ground (arith, absent, h.1)))
  | inr (room, found) ↦
      (λ h. (room, found, ground (arith, found, h)), λ h. ground (arith, h.1, h.2))
]

IsAwaited-iff : (c : CheckIn) → (may_arrive c.status ≡ true) ↔ IsAwaited c
IsAwaited-iff c = (λ h. by_status c.status h, λ h. ground (arith, h))
  where
    by_status :
        (s : CheckInStatus)
        → may_arrive s ≡ true
        → (s ≡ CheckInStatus.opened) ⊎ (s ≡ CheckInStatus.no_show)
    by_status CheckInStatus.opened h = inl refl
    by_status CheckInStatus.no_show h = inr refl
    by_status CheckInStatus.not_open h = cc
    by_status CheckInStatus.checked_in h = cc

abbrev pub arrived_in : Db → CheckIn → ℕ → Db
arrived_in db c now = record db { check_ins = save (arrived c now) db.check_ins }

-- what holds right after an arrival
after_arrival :
    (db : Db) (planner : Planner) (k now now' : ℕ) (c : CheckIn)
    → get k db.check_ins ≡ some c
    → operates (get c.room_id db.rooms) planner ≡ true
    → (is_some (find (presence_of c.room_id c.user_id) (arrived_in db c now).check_ins) ≡ true)
      × (confirm_checkin_by_id (arrived_in db c now) planner k now' ≡ err invalid_state_transition)
      × ((d : CheckIn) × (db'' : Db) × (mark_no_show (arrived_in db c now) planner k ≡ ok (d, db''))
          × (d.status ≡ CheckInStatus.no_show))
unfolding confirm_checkin_by_id mark_no_show
after_arrival db planner k now now' c found mine =
    let key = key-get k db.check_ins c found in
    let at_key : get c.id db.check_ins ≡ some c = ground (arith, key, found) in
    let there = get-save_self (arrived c now) db.check_ins c at_key in
    let saved : get k (save (arrived c now) db.check_ins) ≡ some (arrived c now) =
      ground (arith, key, there) in
    let m =
      Member-save_self (arrived c now) c db.check_ins (Member-get k db.check_ins c found) refl in
    let gone = record (arrived c now) { status = CheckInStatus.no_show } in
    (
      (found_iff (presence_of c.room_id c.user_id) _).1 (arrived c now, m, ground arith),
      ground (arith, saved, mine),
      (
        gone,
        record db { check_ins = save gone (save (arrived c now) db.check_ins) },
        ground (arith, saved, mine),
        refl,
      ),
    )

-- The confirmation of a check-in that exists succeeds exactly if its room is the planner's and the
-- check-in is OPEN or NO_SHOW, and it then writes the arrival. Right after it the guest counts as
-- present in the room, confirming once more is refused, and marking as a no-show is accepted.
pub arrival_lem :
    (db : Db) (planner : Planner) (k now now' : ℕ) (c : CheckIn)
    → get k db.check_ins ≡ some c
    → ((confirm_checkin_by_id db planner k now ≡ ok (arrived c now, arrived_in db c now))
        ↔ (RunBy db c planner × IsAwaited c))
      × (RunBy db c planner
          → (is_some (find (presence_of c.room_id c.user_id) (arrived_in db c now).check_ins)
              ≡ true)
            × (confirm_checkin_by_id (arrived_in db c now) planner k now'
                ≡ err invalid_state_transition)
            × ((d : CheckIn) × (db'' : Db) × (mark_no_show (arrived_in db c now) planner k
                  ≡ ok (d, db''))
                × (d.status ≡ CheckInStatus.no_show)))
unfolding confirm_checkin_by_id
arrival_lem db planner k now now' c found =
    let (runs, back) = RunBy-iff db c planner in
    let (awaited, back') = IsAwaited-iff c in
    (
      (
        λ h. (runs (ground (arith, h, found)), awaited (ground (arith, h, found))),
        λ h. ground (arith, found, back h.0, back' h.1),
      ),
      λ run. after_arrival db planner k now now' c found (back run),
    )
