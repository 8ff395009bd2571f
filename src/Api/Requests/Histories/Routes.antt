-- ===== src/Api/Requests/Histories/Routes.antt =====
-- What each route of guests and hosts does to rooms.
use rolling_api.Prelude.{ℕ, String, ◌≡◌, refl, Bool, true, false, arith}
use rolling_api.Model.{Db, User, room_row}
use rolling_api.Host.{is_valid_create, RoomCreate}
use rolling_api.Auth.{Crypto}
use rolling_api.Lifecycle.{RoomStep}
use rolling_api.Lifecycle.Others
use rolling_api.Api.{validated, Http, ip_of}
use rolling_api.Api.Accounts
use rolling_api.Api.Guests
use rolling_api.Api.Hosts
use rolling_api.Api.Requests.{Open, Own, done, serve_open, serve_own}
use rolling_api.Api.Requests.Histories.Rules.{
  Keeps, routes, Keeps-bind, Keeps-call, Keeps-write, logout-Steps, credits-Steps,
}

module _ (crypto : Crypto) (expire_days : ℕ) (name_le : String → String → Bool) (start : Db)
    (http : Http) where
  pub open_Keeps : (q : Open) → Keeps start (serve_open crypto expire_days name_le http q)
  unfolding serve_open Accounts.register Accounts.login Accounts.refresh Guests.list_rooms
      Guests.get_room
  open_Keeps (Open.register body d) =
      Keeps-write
        (λ db db' u h. RoomStep.other (Others.rooms-register db db' crypto expire_days body d u h))
        λ u. search routes
  open_Keeps (Open.login email password now d) =
      Keeps-write
        (λ db db' out h. RoomStep.other (
          Others.rooms-login db db' crypto expire_days email password http.ua (ip_of http) now d out
            h))
        λ out. search routes
  open_Keeps (Open.refresh token now now' now'' d) =
      Keeps-write
        (λ db db' out h. RoomStep.other (
          Others.rooms-refresh db db' crypto expire_days token http.ua (ip_of http) now now' now'' d
            out h))
        λ out. search routes
  open_Keeps (Open.list_rooms rank q limit offset) = search routes
  open_Keeps (Open.get_room k) = search routes

  create_Keeps :
      (user : User) (body : RoomCreate) (id : ℕ) (valid : Bool)
      → is_valid_create body ≡ valid
      → Keeps start (validated valid (done (Hosts.create_room user body id)))
  unfolding Hosts.create_room
  create_Keeps user body id true v =
      Keeps-write (λ db db' b h. RoomStep.create user body id b v h) λ b. search routes
  create_Keeps user body id false v = search routes

  pub own_Keeps :
      (user : User) (q : Own) → Keeps start (serve_own crypto expire_days name_le http user q)
  unfolding serve_own Accounts.logout Accounts.me Guests.apply_room Guests.my_applications
      Guests.cancel_application Guests.my_credits Guests.my_confirmed_rooms Guests.get_me
      Guests.upsert_me Guests.submit_feedback Guests.submit_report Guests.list_choice_targets
      Guests.submit_choices Guests.my_matches Guests.propose_after_date Guests.my_checkin
      Guests.my_current_round Hosts.list_my_rooms Hosts.get_my_room Hosts.update_my_room
      Hosts.publish_my_room Hosts.list_room_applications Hosts.approve_application
      Hosts.reject_application Hosts.waitlist_application Hosts.mark_application_paid
  own_Keeps user (Own.logout now) =
      Keeps-bind (Keeps-call (logout-Steps user now)) λ _. search routes
  own_Keeps user Own.me = search routes
  own_Keeps user (Own.apply_room k message now id) =
      Keeps-write
        (λ db db' a h. RoomStep.other (Others.rooms-apply db db' user k message now id a h))
        λ a. search routes
  own_Keeps user Own.my_applications = search routes
  own_Keeps user (Own.cancel_application k now) =
      Keeps-write (λ db db' a h. RoomStep.other (Others.rooms-cancel db db' user k now a h))
        λ a. search routes
  own_Keeps user (Own.my_credits now) = Keeps-write (credits-Steps user now) λ cs. search routes
  own_Keeps user Own.my_confirmed_rooms = search routes
  own_Keeps user Own.get_me = search routes
  own_Keeps user (Own.upsert_me body id) =
      Keeps-write
        (λ db db' p h. RoomStep.other (ground (arith, h, Others.rooms-profile db user body id)))
        λ p. search routes
  own_Keeps user (Own.submit_feedback k body id) =
      Keeps-write (λ db db' f h. RoomStep.other (Others.rooms-feedback db db' user k body id f h))
        λ f. search routes
  own_Keeps user (Own.submit_report body id) =
      Keeps-write (λ db db' r h. RoomStep.other (Others.rooms-report db db' user body id r h))
        λ r. search routes
  own_Keeps user (Own.list_choice_targets k) = search routes
  own_Keeps user (Own.submit_choices k items) =
      Keeps-write (λ db db' n h. RoomStep.other (Others.rooms-choices db db' user k items n h))
        λ n. search routes
  own_Keeps user (Own.my_matches k now) = search routes
  own_Keeps user (Own.propose_after_date k date place id) =
      Keeps-write
        (λ db db' p h. RoomStep.other (Others.rooms-propose db db' user k date place id p h))
        λ p. search routes
  own_Keeps user (Own.my_checkin k) = search routes
  own_Keeps user (Own.my_current_round k) = search routes
  own_Keeps user Own.list_my_rooms = search routes
  own_Keeps user (Own.create_room body id) = create_Keeps user body id (is_valid_create body) refl
  own_Keeps user (Own.get_my_room k) = search routes
  own_Keeps user (Own.update_my_room k body) =
      Keeps-write (λ db db' b h. RoomStep.update user k body b h) λ b. search routes
  own_Keeps user (Own.publish_my_room k) =
      Keeps-write (λ db db' b h. RoomStep.publish user k b h) λ b. search routes
  own_Keeps user (Own.list_room_applications k) = search routes
  own_Keeps user (Own.approve_application k text now) =
      Keeps-write (λ db db' a h. RoomStep.other (Others.rooms-approve db db' user k text now a h))
        λ a. search routes
  own_Keeps user (Own.reject_application k text now) =
      Keeps-write (λ db db' a h. RoomStep.other (Others.rooms-reject db db' user k text now a h))
        λ a. search routes
  own_Keeps user (Own.waitlist_application k text) =
      Keeps-write (λ db db' a h. RoomStep.other (Others.rooms-waitlist db db' user k text a h))
        λ a. search routes
  own_Keeps user (Own.mark_application_paid k d e) =
      Keeps-write (λ db db' a h. RoomStep.pay user k d e a h) λ a. search routes
