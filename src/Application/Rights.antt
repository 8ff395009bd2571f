-- ===== src/Application/Rights.antt =====
-- Who may change an application, and which requests an application's status allows.
use rolling_api.Prelude.{
  ℕ, ◌≡◌, ◌↔◌, inl, inr, Option-cases, Bool, true, false, ◌&&◌, Option, none, some, arith, get,
  Result, ok, err,
}
use rolling_api.Model.{
  Db, User, Room, RoomApplication, ApplicationStatus, application_row, room_row,
}
use rolling_api.Application.{
  owned_application, is_host, cancel_my_application, approve_application, reject_application,
  waitlist_application, mark_application_paid,
}
use rolling_api.Application.Operations.{Request, run}

-- the application that a request names, and the test of its status; applying names none
abbrev pub target : Request → Option ℕ
target (Request.apply room text now id) = none
target (Request.cancel k now) = some k
target (Request.approve k text now) = some k
target (Request.reject k text now) = some k
target (Request.waitlist k text) = some k
target (Request.pay k d e) = some k

-- what may be done to an application in each status
abbrev pub permits : Request → ApplicationStatus → Bool
permits (Request.cancel k now) ApplicationStatus.submitted = true
permits (Request.cancel k now) ApplicationStatus.waitlisted = true
permits (Request.cancel k now) ApplicationStatus.approved = true
permits (Request.cancel k now) ApplicationStatus.payment_pending = true
permits (Request.approve k text now) ApplicationStatus.submitted = true
permits (Request.approve k text now) ApplicationStatus.waitlisted = true
permits (Request.reject k text now) ApplicationStatus.submitted = true
permits (Request.reject k text now) ApplicationStatus.waitlisted = true
permits (Request.reject k text now) ApplicationStatus.approved = true
permits (Request.reject k text now) ApplicationStatus.payment_pending = true
permits (Request.waitlist k text) ApplicationStatus.submitted = true
permits (Request.pay k d e) ApplicationStatus.approved = true
permits (Request.pay k d e) ApplicationStatus.payment_pending = true
permits (Request.pay k d e) ApplicationStatus.paid = true
permits q s = false

-- the user is the host of the room of an application
abbrev pub Hosts : Db → User → RoomApplication → Type 0
Hosts db user a =
    (room : Room) × (get a.room_id db.rooms ≡ some room) × (room.host_user_id ≡ user.id)

-- the applicant may cancel, and the host of the room may do all else
abbrev pub HasRight : Db → User → Request → RoomApplication → Type 0
HasRight db user (Request.cancel k now) a = a.user_id ≡ user.id
HasRight db user q a = Hosts db user a

abbrev pub is_ok {ℓ} : {A : Type ℓ} → Result A → Bool
is_ok (ok a) = true
is_ok (err e) = false

Hosts-iff :
    (db : Db) (user : User) (a : RoomApplication)
    → (is_host (get a.room_id db.rooms) user ≡ true) ↔ Hosts db user a
Hosts-iff db user a = elim (Option-cases (get a.room_id db.rooms)) [
  | inl absent ↦
      (λ h. absurd (ground (arith, absent, h)), λ h. absurd (ground (arith, absent, h.1)))
  | inr (room, found) ↦
      (λ h. (room, found, ground (arith, found, h)), λ h. ground (arith, h.1, h.2))
]

-- the decisions of the host, once his right and the permission of the status are known
by_host :
    (db : Db) (user : User) (a : RoomApplication) (b c : Bool)
    → b ≡ (is_host (get a.room_id db.rooms) user && c)
    → (b ≡ true) ↔ (Hosts db user a × (c ≡ true))
by_host db user a b c e =
    let (there, back) = Hosts-iff db user a in
    (
      λ h. (there (ground (arith, e, h)), ground (arith, e, h)),
      λ h. ground (arith, e, back h.0, h.1),
    )

-- A request on an application that exists succeeds exactly where the caller has the right to it and
-- the status permits it. The right to cancel is the applicant's, and all other rights are those of the
-- host of the room. The statuses that permit a request are SUBMITTED, WAITLISTED, APPROVED and
-- PAYMENT_PENDING for a cancellation and for a rejection, SUBMITTED and WAITLISTED for an approval,
-- SUBMITTED for the waiting list, and APPROVED, PAYMENT_PENDING and PAID for marking as paid.
pub run_succeeds_iff :
    (db : Db) (user : User) (q : Request) (k : ℕ) (a : RoomApplication)
    → target q ≡ some k
    → get k db.applications ≡ some a
    → (is_ok (run db user q) ≡ true) ↔ (HasRight db user q a × (permits q a.status ≡ true))
unfolding run cancel_my_application approve_application reject_application waitlist_application
    mark_application_paid owned_application
run_succeeds_iff db user (Request.apply room text now id) k a t g = absurd (ground (arith, t))
run_succeeds_iff db user (Request.cancel j now) k a t g =
    (λ h. (ground (arith, h, t, g), ground (arith, h, t, g)), λ h. ground (arith, h.0, h.1, t, g))
run_succeeds_iff db user (Request.approve j text now) k a t g =
    by_host db user a _ (permits (Request.approve j text now) a.status) (ground (arith, t, g))
run_succeeds_iff db user (Request.reject j text now) k a t g =
    by_host db user a _ (permits (Request.reject j text now) a.status) (ground (arith, t, g))
run_succeeds_iff db user (Request.waitlist j text) k a t g =
    by_host db user a _ (permits (Request.waitlist j text) a.status) (ground (arith, t, g))
run_succeeds_iff db user (Request.pay j d e) k a t g =
    by_host db user a _ (permits (Request.pay j d e) a.status) (ground (arith, t, g))
