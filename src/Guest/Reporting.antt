-- ===== src/Guest/Reporting.antt =====
-- Who may report whom.
use rolling_api.Prelude.{
  ℕ, ◌≡◌, ◌≢◌, ◌↔◌, ◌⊎◌, refl, inl, inr, Bool, true, false, ◌||◌, ◌&&◌, not, Option, none, some, [],
  ◌∷◌, ◌++◌, arith, is_some, get, Member, found_iff, ok,
}
use rolling_api.Model.{
  Db, User, Room, CheckIn, CheckInStatus, RoomApplication, ApplicationStatus, room_row, user_row,
}
use rolling_api.Guest.{
  ReportCreate, submit_report, check_room, check_reported, is_self, is_guest, took_part, new_report,
  known_user, check_in_of, presence_of, applied, is_accepted,
}

-- the user has a check-in in the room, or has applied to it
pub data TookPart (db : Db) (k user_id : ℕ) : Type 0 where
  by_check_in :
      (c : CheckIn)
      → Member c db.check_ins
      → c.room_id ≡ k
      → c.user_id ≡ user_id
      → TookPart db k user_id
  by_application :
      (a : RoomApplication)
      → Member a db.applications
      → a.room_id ≡ k
      → a.user_id ≡ user_id
      → TookPart db k user_id

-- an application that the host has accepted
abbrev pub IsAccepted : RoomApplication → Type 0
IsAccepted a =
    (a.status ≡ ApplicationStatus.confirmed)
    ⊎ ((a.status ≡ ApplicationStatus.paid) ⊎ (a.status ≡ ApplicationStatus.approved))

-- the user is checked in in the room, or has an accepted application to it
pub data IsGuestOf (db : Db) (k user_id : ℕ) : Type 0 where
  checked_in :
      (c : CheckIn)
      → Member c db.check_ins
      → c.room_id ≡ k
      → c.user_id ≡ user_id
      → c.status ≡ CheckInStatus.checked_in
      → IsGuestOf db k user_id
  accepted :
      (a : RoomApplication)
      → Member a db.applications
      → a.room_id ≡ k
      → a.user_id ≡ user_id
      → IsAccepted a
      → IsGuestOf db k user_id

accepted_cases :
    (s : ApplicationStatus)
    → is_accepted s ≡ true
    → (s ≡ ApplicationStatus.confirmed)
      ⊎ ((s ≡ ApplicationStatus.paid) ⊎ (s ≡ ApplicationStatus.approved))
accepted_cases ApplicationStatus.confirmed h = inl refl
accepted_cases ApplicationStatus.paid h = inr (inl refl)
accepted_cases ApplicationStatus.approved h = inr (inr refl)
accepted_cases ApplicationStatus.submitted h = cc
accepted_cases ApplicationStatus.rejected h = cc
accepted_cases ApplicationStatus.waitlisted h = cc
accepted_cases ApplicationStatus.payment_pending h = cc
accepted_cases ApplicationStatus.cancelled h = cc

or_cases : (p q : Bool) → p || q ≡ true → (p ≡ true) ⊎ (q ≡ true)
or_cases true q h = inl refl
or_cases false q h = inr h

module _ (db : Db) (k user_id : ℕ) where
  took_part_iff : (took_part db k user_id ≡ true) ↔ TookPart db k user_id
  unfolding took_part
  took_part_iff =
      let (seen, back) = found_iff (check_in_of k user_id) db.check_ins in
      let (wrote, back') = found_iff (applied k user_id) db.applications in
      (
        λ h. elim (or_cases _ _ h) [
          | inl here ↦
              let (c, m, t) = seen here in
              TookPart.by_check_in c m (ground (arith, t)) (ground (arith, t))
          | inr here ↦
              let (a, m, t) = wrote here in
              TookPart.by_application a m (ground (arith, t)) (ground (arith, t))
        ],
        λ t. elim t [
          | TookPart.by_check_in c m room mine ↦
              let there = back (c, m, ground (arith, room, mine)) in ground (arith, there)
          | TookPart.by_application a m room mine ↦
              let there = back' (a, m, ground (arith, room, mine)) in ground (arith, there)
        ],
      )

  is_guest_iff : (is_guest db k user_id ≡ true) ↔ IsGuestOf db k user_id
  unfolding is_guest
  is_guest_iff =
      let (seen, back) = found_iff (presence_of k user_id) db.check_ins in
      let (wrote, back') =
        found_iff (λ (a : RoomApplication). applied k user_id a && is_accepted a.status)
          db.applications in
      (
        λ h. elim (or_cases _ _ h) [
          | inl here ↦
              let (c, m, t) = seen here in
              IsGuestOf.checked_in c m (ground (arith, t)) (ground (arith, t)) (ground (arith, t))
          | inr here ↦
              let (a, m, t) = wrote here in
              IsGuestOf.accepted a m (ground (arith, t)) (ground (arith, t))
                (accepted_cases a.status (ground (arith, t)))
        ],
        λ t. elim t [
          | IsGuestOf.checked_in c m room mine status ↦
              let there = back (c, m, ground (arith, room, mine, status)) in ground (arith, there)
          | IsGuestOf.accepted a m room mine status ↦
              let there = back' (a, m, ground (arith, room, mine, status)) in ground (arith, there)
        ],
      )

-- what a report of a user in a room must fulfil, where both may be left out
pub record MayReport (db : Db) (user : User) (reported room : Option ℕ) : Type 0 where
  pub other : reported ≢ some user.id
  pub known : (j : ℕ) → reported ≡ some j → (u : User) × (get j db.users ≡ some u)
  pub there : (k : ℕ) → room ≡ some k → (r : Room) × (get k db.rooms ≡ some r)
  pub took_part : (k : ℕ) → room ≡ some k → TookPart db k user.id
  pub guest : (k j : ℕ) → room ≡ some k → reported ≡ some j → IsGuestOf db k j

-- the code's own tests
abbrev names_guest : Db → ℕ → Option ℕ → Bool
names_guest db k none = true
names_guest db k (some j) = is_guest db k j

abbrev room_fits : Db → User → Option ℕ → Option ℕ → Bool
room_fits db user reported none = true
room_fits db user reported (some k) =
    is_some (get k db.rooms) && (took_part db k user.id && names_guest db k reported)

abbrev passes : Db → User → Option ℕ → Option ℕ → Bool
passes db user reported room =
    not (is_self reported user) && (room_fits db user reported room && known_user db reported)

some_iff : {A : Type 0} (o : Option A) → (is_some o ≡ true) ↔ ((a : A) × (o ≡ some a))
some_iff none = (λ h. absurd (ground (arith, h)), λ h. absurd (ground (arith, h.1)))
some_iff (some a) = (λ h. (a, refl), λ h. refl)

module _ (db : Db) (user : User) where
  passes-MayReport :
      (reported room : Option ℕ)
      → passes db user reported room ≡ true
      → MayReport db user reported room
  passes-MayReport reported room h = record {
    other = λ e. ground (arith, h, e);
    known = λ j e. (some_iff (get j db.users)).0 (ground (arith, h, e));
    there = λ k e. (some_iff (get k db.rooms)).0 (ground (arith, h, e));
    took_part = λ k e. (took_part_iff db k user.id).0 (ground (arith, h, e));
    guest = λ k j e e'. (is_guest_iff db k j).0 (ground (arith, h, e, e'));
  }

  MayReport-passes :
      (reported room : Option ℕ)
      → MayReport db user reported room
      → passes db user reported room ≡ true
  MayReport-passes none none m = refl
  MayReport-passes none (some k) m =
      let there = (some_iff (get k db.rooms)).1 (m.there k refl) in
      let took = (took_part_iff db k user.id).1 (m.took_part k refl) in ground (arith, there, took)
  MayReport-passes (some j) none m =
      let known = (some_iff (get j db.users)).1 (m.known j refl) in
      let other = m.other in ground (arith, known, other)
  MayReport-passes (some j) (some k) m =
      let known = (some_iff (get j db.users)).1 (m.known j refl) in
      let there = (some_iff (get k db.rooms)).1 (m.there k refl) in
      let took = (took_part_iff db k user.id).1 (m.took_part k refl) in
      let guest = (is_guest_iff db k j).1 (m.guest k j refl refl) in
      let other = m.other in ground (arith, known, there, took, guest, other)

submit_iff :
    (db : Db) (user : User) (body : ReportCreate) (id : ℕ)
    → let r = new_report user body id in
      (submit_report db user body id ≡ ok (r, record db { reports = db.reports ++ r ∷ [] }))
      ↔ (passes db user body.reported_user_id body.room_id ≡ true)
unfolding submit_report check_room check_reported
submit_iff db user body id = (λ h. ground (arith, h), λ h. ground (arith, h))

-- A report is stored, as OPEN, exactly if it fulfils all of this: it does not name the reporter; a
-- user it names has an account; a room it names exists, and the reporter has applied to it or has a
-- check-in there; and where it names both, the user is checked in in the room or has an application
-- to it that is CONFIRMED, PAID or APPROVED.
pub report_iff :
    (db : Db) (user : User) (body : ReportCreate) (id : ℕ)
    → let r = new_report user body id in
      (submit_report db user body id ≡ ok (r, record db { reports = db.reports ++ r ∷ [] }))
      ↔ MayReport db user body.reported_user_id body.room_id
report_iff db user body id =
    let (there, back) = submit_iff db user body id in
    (
      λ h. passes-MayReport db user body.reported_user_id body.room_id (there h),
      λ m. back (MayReport-passes db user body.reported_user_id body.room_id m),
    )
