-- ===== src/Application/Operations.antt =====
-- The requests that change an application, as one step.
use rolling_api.Prelude.{
  ℕ, ◌≡◌, ◌⊎◌, inl, inr, String, Bool, true, false, Option, none, some, [], ◌∷◌, ◌++◌, arith, find,
  get, save, get-of_Member, UniqueKeys, Member-find, key-get, Option-cases, Result, ok, >>=-eq-ok,
}
use rolling_api.Model.{Db, User, RoomApplication, ApplicationStatus, room_row, application_row}
use rolling_api.Credit.{PairDraw, issue_viable_host_bonus, issue_referral_pair}
use rolling_api.Viability.{PromoteDraw, maybe_promote_to_viable}
use rolling_api.Application.{
  apply_to_room, cancel_my_application, approve_application, reject_application,
  waitlist_application, mark_application_paid, maybe_emit_referral_bonus, owned_application,
  application_of, is_host,
}

pub data Request : Type 0 where
  apply : ℕ → Option String → ℕ → ℕ → Request
  cancel : ℕ → ℕ → Request
  approve reject : ℕ → Option String → ℕ → Request
  waitlist : ℕ → Option String → Request
  pay : ℕ → PromoteDraw → PairDraw → Request

unfoldable pub run : Db → User → Request → Result (RoomApplication × Db)
run db user (apply room message now id) = apply_to_room db user room message now id
run db user (cancel k now) = cancel_my_application db user k now
run db user (approve k text now) = approve_application db user k text now
run db user (reject k text now) = reject_application db user k text now
run db user (waitlist k text) = waitlist_application db user k text
run db user (pay k d e) = mark_application_paid db user k d e

-- Neither the promotion nor the referral bonus touches an application.
applications-promote :
    (db : Db) (room_id : ℕ) (d : PromoteDraw)
    → (maybe_promote_to_viable db room_id d).1.applications ≡ db.applications
unfolding maybe_promote_to_viable issue_viable_host_bonus
applications-promote db room_id d = ground arith

applications-emit :
    (db : Db) (user_id : ℕ) (d : PairDraw)
    → (maybe_emit_referral_bonus db user_id d).applications ≡ db.applications
unfolding maybe_emit_referral_bonus issue_referral_pair
applications-emit db user_id d = ground arith

-- The changes of status that the README's table of applications and the service guards allow.
abbrev pub allowed : ApplicationStatus → ApplicationStatus → Bool
allowed ApplicationStatus.submitted ApplicationStatus.approved = true
allowed ApplicationStatus.submitted ApplicationStatus.waitlisted = true
allowed ApplicationStatus.submitted ApplicationStatus.rejected = true
allowed ApplicationStatus.submitted ApplicationStatus.cancelled = true
allowed ApplicationStatus.waitlisted ApplicationStatus.approved = true
allowed ApplicationStatus.waitlisted ApplicationStatus.rejected = true
allowed ApplicationStatus.waitlisted ApplicationStatus.cancelled = true
allowed ApplicationStatus.approved ApplicationStatus.confirmed = true
allowed ApplicationStatus.approved ApplicationStatus.rejected = true
allowed ApplicationStatus.approved ApplicationStatus.cancelled = true
allowed ApplicationStatus.payment_pending ApplicationStatus.confirmed = true
allowed ApplicationStatus.payment_pending ApplicationStatus.rejected = true
allowed ApplicationStatus.payment_pending ApplicationStatus.cancelled = true
allowed ApplicationStatus.paid ApplicationStatus.confirmed = true
allowed ApplicationStatus.cancelled ApplicationStatus.submitted = true
allowed _ _ = false

-- The request has added `b`, the first application of its user to its room.
pub record IsAdded (db : Db) (b : RoomApplication) (db' : Db) : Type 0 where
  pub first : find (application_of b.room_id b.user_id) db.applications ≡ none
  pub status : b.status ≡ ApplicationStatus.submitted
  pub written : db'.applications ≡ db.applications ++ b ∷ []

-- The request has replaced the row `a` by `b`.
pub record IsChanged (db : Db) (a b : RoomApplication) (db' : Db) : Type 0 where
  pub old : get b.id db.applications ≡ some a
  pub moved : allowed a.status b.status ≡ true
  pub room : b.room_id ≡ a.room_id
  pub user : b.user_id ≡ a.user_id
  pub written : db'.applications ≡ save b db.applications

abbrev pub Effect : Db → RoomApplication → Db → Type 0
Effect db b db' = IsAdded db b db' ⊎ ((a : RoomApplication) × IsChanged db a b db')

module _ (db : Db) (user : User) (b : RoomApplication) (db' : Db) where
  -- the application that a request of the host names
  owned_parts :
      (k : ℕ) (a : RoomApplication)
      → owned_application db user k ≡ ok a
      → (get k db.applications ≡ some a) × (is_host (get a.room_id db.rooms) user ≡ true)
  unfolding owned_application
  owned_parts k a h = (ground arith, ground arith)

  approve-Changed :
      (k : ℕ) (text : Option String) (now : ℕ)
      → approve_application db user k text now ≡ ok (b, db')
      → (a : RoomApplication) × IsChanged db a b db'
  unfolding approve_application
  approve-Changed k text now h =
      let (a, owned, _) = >>=-eq-ok (owned_application db user k) _ (b, db') h in
      let found = (owned_parts k a owned).0 in
      let same = key-get k db.applications a found in
      (
        a,
        record {
          old = ground arith;
          moved = ground arith;
          room = ground arith;
          user = ground arith;
          written = ground arith;
        },
      )

  reject-Changed :
      (k : ℕ) (text : Option String) (now : ℕ)
      → reject_application db user k text now ≡ ok (b, db')
      → (a : RoomApplication) × IsChanged db a b db'
  unfolding reject_application
  reject-Changed k text now h =
      let (a, owned, _) = >>=-eq-ok (owned_application db user k) _ (b, db') h in
      let found = (owned_parts k a owned).0 in
      let same = key-get k db.applications a found in
      (
        a,
        record {
          old = ground arith;
          moved = ground arith;
          room = ground arith;
          user = ground arith;
          written = ground arith;
        },
      )

  waitlist-Changed :
      (k : ℕ) (text : Option String)
      → waitlist_application db user k text ≡ ok (b, db')
      → (a : RoomApplication) × IsChanged db a b db'
  unfolding waitlist_application
  waitlist-Changed k text h =
      let (a, owned, _) = >>=-eq-ok (owned_application db user k) _ (b, db') h in
      let found = (owned_parts k a owned).0 in
      let same = key-get k db.applications a found in
      (
        a,
        record {
          old = ground arith;
          moved = ground arith;
          room = ground arith;
          user = ground arith;
          written = ground arith;
        },
      )

  pay-Changed :
      (k : ℕ) (d : PromoteDraw) (e : PairDraw)
      → mark_application_paid db user k d e ≡ ok (b, db')
      → (a : RoomApplication) × IsChanged db a b db'
  unfolding mark_application_paid
  pay-Changed k d e h =
      let (a, owned, _) = >>=-eq-ok (owned_application db user k) _ (b, db') h in
      let found = (owned_parts k a owned).0 in
      let same = key-get k db.applications a found in
      let c = record a { status = ApplicationStatus.confirmed } in
      let flushed = record db { applications = save c db.applications } in
      let kept1 = applications-promote flushed c.room_id d in
      let kept2 = applications-emit (maybe_promote_to_viable flushed c.room_id d).1 c.user_id e in
      (
        a,
        record {
          old = ground arith;
          moved = ground arith;
          room = ground arith;
          user = ground arith;
          written = ground arith;
        },
      )

  cancel-Changed :
      (k now : ℕ)
      → cancel_my_application db user k now ≡ ok (b, db')
      → (a : RoomApplication) × IsChanged db a b db'
  unfolding cancel_my_application
  cancel-Changed k now h = elim (Option-cases (get k db.applications)) [
    | inl absent ↦ absurd (ground (arith, absent, h))
    | inr (a, found) ↦
        let same = key-get k db.applications a found in
        (
          a,
          record {
            old = ground arith;
            moved = ground arith;
            room = ground arith;
            user = ground arith;
            written = ground arith;
          },
        )
  ]

  apply-Effect :
      (room_id : ℕ) (message : Option String) (now id : ℕ)
      → UniqueKeys db.applications
      → apply_to_room db user room_id message now id ≡ ok (b, db')
      → Effect db b db'
  unfolding apply_to_room
  apply-Effect room_id message now id u h =
      elim (Option-cases (find (application_of room_id user.id) db.applications)) [
        | inl absent ↦
            inl (record { first = ground arith; status = ground arith; written = ground arith })
        | inr (a, found) ↦
            let m = Member-find (application_of room_id user.id) db.applications a found in
            let got = get-of_Member a db.applications u m in
            inr (
              a,
              record {
                old = ground arith;
                moved = ground arith;
                room = ground arith;
                user = ground arith;
                written = ground arith;
              },
            )
      ]

  -- What a request that returned has done to the table of applications.
  pub run-Effect :
      (q : Request) → UniqueKeys db.applications → run db user q ≡ ok (b, db') → Effect db b db'
  unfolding run
  run-Effect (apply room message now id) u h = apply-Effect room message now id u h
  run-Effect (cancel k now) u h = inr (cancel-Changed k now h)
  run-Effect (approve k text now) u h = inr (approve-Changed k text now h)
  run-Effect (reject k text now) u h = inr (reject-Changed k text now h)
  run-Effect (waitlist k text) u h = inr (waitlist-Changed k text h)
  run-Effect (pay k d e) u h = inr (pay-Changed k d e h)
