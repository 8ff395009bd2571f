-- ===== src/Lifecycle/Order.antt =====
-- What any history of requests keeps of every room.
use rolling_api.Prelude.{
  ℕ, ◌≤◌, ◌≡◌, inl, inr, refl, ◌∙◌, Bool, true, not, ◌||◌, ◌&&◌, some, List, arith, is_some, ◌==◌,
  ==_iff, get, save, key-get, find-append_some, get-save_self, get-save_ne, Member,
  Member-save_cases, Member-find, All, All-append, All-of_Member, All-at, Bool-cases,
}
use rolling_api.Model.{Db, Room, room_row}
use rolling_api.Lifecycle.{RoomHistory, rank, is_planned, lasts}
use rolling_api.Lifecycle.Moves.{IsMove, Touch, step-Touch}

-- A well-formed room: it ends after it starts, and from ASSIGNED on it has a planner.
abbrev pub is_sound : Room → Bool
is_sound room = lasts room && is_planned room

abbrev pub IsSound : Room → Type 0
IsSound room = is_sound room ≡ true

Member-get : (k : ℕ) (rooms : List Room) (a : Room) → get k rooms ≡ some a → Member a rooms
unfolding get
Member-get k rooms a h = Member-find _ rooms a h

Touch-Sound : (db db' : Db) → Touch db db' → All IsSound db.rooms → All IsSound db'.rooms
Touch-Sound db db' (Touch.untouched e) s = rw e s
Touch-Sound db db' (Touch.added b l p f e) s =
    rw e (All-append IsSound db.rooms b s (ground (arith, l, p)))
Touch-Sound db db' (Touch.changed k a b g m e) s =
    let old = All-at IsSound db.rooms a s (Member-get k db.rooms a g) in
    let long = m.times (ground (arith, old)) in
    let planned = m.planned (ground (arith, old)) in
    rw e (
      All-of_Member IsSound (save b db.rooms) λ x there.
        elim (Member-save_cases b x db.rooms there) [
          | inl same ↦ rw same (ground (arith, long, planned))
          | inr (here, _) ↦ All-at IsSound db.rooms x s here
        ])

-- If every room ends after it starts and has a planner from ASSIGNED on, then so after any
-- history of requests, whoever makes them and in whatever order.
pub rooms_stay-IsSound :
    (db db' : Db) → RoomHistory db db' → All IsSound db.rooms → All IsSound db'.rooms
rooms_stay-IsSound db db' RoomHistory.begin s = s
rooms_stay-IsSound db db' (RoomHistory.and_then {db' = middle} h t) s =
    Touch-Sound middle db' (step-Touch middle db' t) (rooms_stay-IsSound db middle h s)

-- `p` implies `q`, as a test
abbrev pub implies : Bool → Bool → Bool
implies p q = not p || q

-- How the row `c` of a room stands to an earlier row `a` of it: it has the same host, its status
-- has not gone back, and if it had a planner it has one.
pub record IsLater (a c : Room) : Type 0 where
  pub host : c.host_user_id ≡ a.host_user_id
  pub up : rank a.status ≤ rank c.status
  pub planner : implies (is_some a.planner_id) (is_some c.planner_id) ≡ true

Touch-Later :
    (db db' : Db) (k : ℕ) (a : Room)
    → Touch db db'
    → get k db.rooms ≡ some a
    → (c : Room) × (get k db'.rooms ≡ some c) × IsLater a c
unfolding get
Touch-Later db db' k a (Touch.untouched e) g =
    (a, rw e g, record { host = refl; up = omega arith; planner = ground arith })
Touch-Later db db' k a (Touch.added b l p f e) g = (
  a,
  rw e (find-append_some _ db.rooms _ a g),
  record { host = refl; up = omega arith; planner = ground arith },
)
Touch-Later db db' k a (Touch.changed j old b found m e) g = elim (Bool-cases (j == k)) [
  | inl same ↦
      let jk = (==_iff j k).0 same in
      let key = key-get j db.rooms old found in
      let id = m.id in
      let at_id : get b.id db.rooms ≡ some old = ground (arith, id, key, found) in
      let there = get-save_self b db.rooms old at_id in
      let was : old ≡ a = ground (arith, jk, found, g) in
      (
        b,
        ground (arith, e, id, key, jk, there),
        rw (← was) (record { host = m.host; up = m.up; planner = later_planner old b m }),
      )
  | inr differs ↦
      let key = key-get j db.rooms old found in
      let id = m.id in
      let apart = get-save_ne k b db.rooms (λ q. ground (arith, differs, id, key, q)) in
      (
        a,
        ground (arith, apart, e, g),
        record { host = refl; up = omega arith; planner = ground arith },
      )
]
  where
    later_planner :
        (a b : Room) → IsMove a b → implies (is_some a.planner_id) (is_some b.planner_id) ≡ true
    later_planner a b m = elim (Bool-cases (is_some a.planner_id)) [
      | inl has ↦ let kept = m.planner has in ground (arith, kept)
      | inr lacks ↦ ground (arith, lacks)
    ]

-- Along any history of requests a room is never lost, keeps its host, never goes back to an
-- earlier status, and never loses its planner.
pub room_goes_on :
    (db db' : Db) (k : ℕ) (a : Room)
    → RoomHistory db db'
    → get k db.rooms ≡ some a
    → (c : Room) × (get k db'.rooms ≡ some c) × IsLater a c
room_goes_on db db' k a RoomHistory.begin g =
    (a, g, record { host = refl; up = omega arith; planner = ground arith })
room_goes_on db db' k a (RoomHistory.and_then {db' = middle} h t) g =
    let (b, there, m) = room_goes_on db middle k a h g in
    let (c, found, n) = Touch-Later middle db' k b (step-Touch middle db' t) there in
    let up1 = m.up in
    let up2 = n.up in
    let planner1 = m.planner in
    let planner2 = n.planner in
    (
      c,
      found,
      record {
        host = n.host ∙ m.host;
        up = omega (arith, up1, up2);
        planner = ground (arith, planner1, planner2);
      },
    )
