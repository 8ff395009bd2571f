-- ===== src/Tests/Api.antt =====
-- Runs of requests, with a stand-in for the third-party functions: whoever sends a token is the
-- account 9, the administrator.
use text.Mathlib.Text.{◌==◌ as str_eq}
use rolling_api.Prelude.{
  String, ◌≡◌, refl, inl, Bool, true, none, some, List, [], ◌∷◌, arith, find, any, forbidden, page,
  outer_join, get, save, ok, err,
}
use rolling_api.Model.{Db, Room, RoomStatus, User, UserStatus, room_row, user_row}
use rolling_api.Auth.{Crypto, token_user, get_current_user}
use rolling_api.Headers.{extract_bearer, after_prefix, strip, lstrip, rstrip}
use rolling_api.Lifecycle.Machine.{Life, phase_in}
use rolling_api.Lifecycle.Order.{IsLater}
use rolling_api.Admin.{set_user_status, log_action}
use rolling_api.Admin.Lists.{AdminUserItem, list_users, user_item}
use rolling_api.Api.{
  Http, run, current_user, require_roles, ◌>>=◌, query, read, call, commit, return,
}
use rolling_api.Api.Admins.{block_user, list_rooms}
use rolling_api.Api.Hosts.{publish_my_room}
use rolling_api.Host.{publish_room, host_room}
use rolling_api.Api.Admins.Answers.{block_answers_newest}
use rolling_api.Api.Requests.{Request, Order, Own, serve, serve_order, serve_own, serve_all}
use rolling_api.Api.Requests.Denied.{Entitled, serve-Entitled}
use rolling_api.Api.Requests.Histories.{requests_refine-Life, served_room_goes_on}
use rolling_api.Api.Requests.Rollback.{error_changes_nothing}
use rolling_api.Tests.Data.{host, anna, ben, operator, chief, room_in, db_with}

-- every token is an access token of the account 9
abbrev gate : Crypto
gate = record {
  hash_password = λ p salt. p;
  verify_password = λ p hashed. str_eq p hashed;
  encode = λ p now jti. "token";
  decode = λ token now. some (record { type = some "access"; sub = some "nine" });
  sha256 = λ t. t;
  uuid_text = λ k. "nine";
  uuid_of = λ t. some 9;
}

abbrev anyway : String → String → Bool
anyway a b = true

abbrev http : Http
http = record {
  authorization = some "Bearer token";
  client_host = none;
  forwarded = none;
  ua = none;
  now = 1_000;
  log_id = 900;
}

abbrev db : Db
db = db_with (room_in RoomStatus.draft none)

-- the administrator lists rooms
abbrev looks : Request
looks = Request.for_admin (Order.list_all_rooms none 10 0)

serve-Entitled_example : Entitled gate 30 http db looks
unfolding serve serve_order current_user require_roles extract_bearer after_prefix strip lstrip
    rstrip get_current_user token_user get find any ◌>>=◌ query read return list_rooms
serve-Entitled_example = serve-Entitled gate 30 anyway http db looks (inl refl)

-- the administrator hosts a room, publishes it, and assigns a planner before it is viable, in vain
abbrev own_room : Room
own_room = record (room_in RoomStatus.draft none) { host_user_id = 9 }

abbrev own_db : Db
own_db = db_with own_room

abbrev traffic : List (Http × Request)
traffic =
    (http, Request.for_account (Own.publish_my_room 10))
    ∷ (http, Request.for_admin (Order.assign_planner 10 7))
    ∷ []

requests_refine-Life_example :
    Life (phase_in own_db 10) (phase_in (serve_all gate 30 anyway traffic own_db) 10)
requests_refine-Life_example = requests_refine-Life gate 30 anyway traffic own_db 10

there : get 10 own_db.rooms ≡ some own_room
unfolding get find
there = refl

served_room_goes_on_example :
    (later : Room) × (get 10 (serve_all gate 30 anyway traffic own_db).rooms ≡ some later)
    × IsLater own_room later
served_room_goes_on_example = served_room_goes_on gate 30 anyway traffic own_db 10 own_room there

-- the administrator is not the host of the room
abbrev refused : Request
refused = Request.for_account (Own.publish_my_room 10)

is_refused : (run (serve gate 30 anyway http refused) db).0 ≡ err forbidden
unfolding serve serve_own current_user extract_bearer after_prefix strip lstrip rstrip
    get_current_user token_user get find ◌>>=◌ query call commit return publish_my_room publish_room
    host_room
is_refused = refl

error_changes_nothing_example : (run (serve gate 30 anyway http refused) db).1 ≡ db
error_changes_nothing_example =
    error_changes_nothing gate 30 anyway http refused db forbidden refl is_refused

abbrev blocked_item : AdminUserItem
blocked_item = user_item (chief, none)

answered : (run (block_user http chief 2) db).0 ≡ ok blocked_item
unfolding block_user set_user_status log_action list_users get find save page outer_join ◌>>=◌ query
    read call commit
answered = refl

block_answers_newest_example :
    (blocked_item.id ≡ chief.id)
    × (blocked_item.status ≡ chief.status)
    × ((u : User) × (get 2 (run (block_user http chief 2) db).1.users ≡ some u)
        × (u.status ≡ UserStatus.blocked))
block_answers_newest_example =
    block_answers_newest http chief 2 db (host ∷ anna ∷ ben ∷ operator ∷ []) chief blocked_item refl
      (λ e. ground (arith, e)) answered
