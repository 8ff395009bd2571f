-- ===== src/Tests/Accounts.antt =====
-- Runs of the accounts, with a stand-in for the third-party functions, and of the rate limit.
use Prim.Native.String.{◌++◌ as str_append}
use text.Mathlib.Text.{◌==◌ as str_eq}
use rolling_api.Prelude.{
  ℕ, ◌+◌, ◌≤◌, ◌≡◌, refl, String, false, none, some, [], ◌∷◌, arith, find, get, save, count,
  if◌then◌else◌, ◌==◌, ok, err, unauthorized_error, inl,
}
use rolling_api.Model.{Db, User, UserRole, RoomStatus, user_row, token_row}
use rolling_api.Auth.{
  Crypto, PairDraw, RegisterDraw, RegisterRequest, TokenPair, register, login, refresh, logout,
  issue_token_pair, token_user, generate_code, resolve_referrer, has_email, has_code, has_hash,
  is_storable, is_admin,
}
use rolling_api.Auth.Accounts.{registered_logs_in, registration_is_safe}
use rolling_api.Auth.Tokens.{refresh_is_single_use, logout_ends_all, issued_pair_refreshes}
use rolling_api.RateLimit.{admit, prune, Outcome}
use rolling_api.RateLimit.Window.{in_window, passes, window_is_kept}
use rolling_api.RateLimit.Retry.{retry_passes}
use rolling_api.Tests.Data.{value_or, room_in, db_with, user}

-- a password is hashed by a mark, and there are two refresh tokens, of the account 11
abbrev toy : Crypto
toy = record {
  hash_password = λ p salt. str_append p "#";
  verify_password = λ p hashed. str_eq (str_append p "#") hashed;
  encode = λ p now jti. if jti == 0 then "first" else "second";
  decode = λ token now. some (record { type = some "refresh"; sub = some "eleven" });
  sha256 = λ t. t;
  uuid_text = λ k. "eleven";
  uuid_of = λ t. some 11;
}

abbrev start : Db
start = db_with (room_in RoomStatus.draft none)

abbrev request : RegisterRequest
request = record {
  email = "cleo";
  password = "secret";
  role = UserRole.participant;
  referral_code = none;
  referral_code_normal = "";
}

abbrev register_draw : RegisterDraw
register_draw = record { code = λ k. "ABC123"; salt = 5; user_id = 11 }

abbrev joined : User × Db
joined =
    value_or (user 0 "" UserRole.admin none, start) (register toy 30 start request register_draw)

registers : register toy 30 start request register_draw ≡ ok joined
unfolding register generate_code resolve_referrer find
registers = refl

abbrev pair_draw : ℕ → PairDraw
pair_draw jti = record {
  access_jti = jti;
  refresh_jti = jti;
  token_id = 800 + jti;
  access_now = 1_000;
  refresh_now = 1_000;
  row_now = 1_000;
}

no_hash_yet : find (has_hash "first") start.tokens ≡ none
unfolding find
no_hash_yet = refl

registered_logs_in_example :
    (pair : TokenPair) × (db'' : Db) × (login toy 30 joined.1 "cleo" "secret" none none 2_000
        (pair_draw 0)
      ≡ ok ((record joined.0 { last_login_at = some 2_000 }, pair), db''))
registered_logs_in_example =
    registered_logs_in toy 30 start request register_draw joined.0 joined.1 none none 2_000
      (pair_draw 0) refl refl refl no_hash_yet registers

registration_is_safe_example :
    (count (has_email "cleo") joined.1.users ≡ 1)
    × (is_admin joined.0.role ≡ false)
    × ((code : String) × (joined.0.referral_code ≡ some code)
        × (find (has_code code) start.users ≡ none))
registration_is_safe_example =
    registration_is_safe toy 30 start request register_draw joined.0 joined.1 registers

abbrev issued : TokenPair × Db
issued =
    value_or (record { access_token = ""; refresh_token = "" }, start)
      (issue_token_pair toy 30 joined.1 joined.0 none none (pair_draw 0))

there : get 11 joined.1.users ≡ some joined.0
unfolding register generate_code resolve_referrer find get
there = refl

abbrev renewed : TokenPair × Db
renewed =
    value_or issued (refresh toy 30 issued.1 "first" none none 3_000 3_000 3_000 (pair_draw 1))

renews : refresh toy 30 issued.1 "first" none none 3_000 3_000 3_000 (pair_draw 1) ≡ ok renewed
unfolding register generate_code resolve_referrer refresh token_user issue_token_pair is_storable
    find get save
renews = refl

refresh_is_single_use_example :
    refresh toy 30 renewed.1 "first" none none 4_000 4_000 4_000 (pair_draw 2)
    ≡ err unauthorized_error
refresh_is_single_use_example =
    refresh_is_single_use toy 30 issued.1 "first" none none none none 3_000 3_000 3_000 4_000 4_000
      4_000 (pair_draw 1) (pair_draw 2) renewed.0 renewed.1 (inl refl) renews

names : token_user toy 30 "refresh" "second" 5_000 ≡ ok 11
unfolding token_user
names = refl

logout_ends_all_example :
    refresh toy 30 (logout renewed.1 11 4_500) "second" none none 5_000 5_000 5_000 (pair_draw 3)
    ≡ err unauthorized_error
logout_ends_all_example =
    logout_ends_all toy 30 renewed.1 11 4_500 "second" none none 5_000 5_000 5_000 (pair_draw 3)
      names

abbrev cleo : User
cleo = record (user 11 "cleo" UserRole.participant none) { password_hash = some "secret#" }

abbrev home : Db
home = record start { users = cleo ∷ [] }

cleo_there : get 11 home.users ≡ some cleo
unfolding get find
cleo_there = refl

abbrev at_home : TokenPair × Db
at_home = value_or issued (issue_token_pair toy 30 home cleo none none (pair_draw 0))

issues : issue_token_pair toy 30 home cleo none none (pair_draw 0) ≡ ok at_home
unfolding issue_token_pair is_storable find
issues = refl

decodes :
    toy.decode at_home.0.refresh_token 3_000
    ≡ some (record { type = some "refresh"; sub = some "eleven" })
decodes = refl

second_unused : find (has_hash "second") at_home.1.tokens ≡ none
unfolding issue_token_pair is_storable find
second_unused = refl

issued_pair_refreshes_example :
    (next : TokenPair) × (db'' : Db) × (refresh toy 30 at_home.1 at_home.0.refresh_token none none
        3_000 3_000 3_000
        (pair_draw 1)
      ≡ ok (next, db''))
issued_pair_refreshes_example =
    issued_pair_refreshes toy 30 home cleo none none none none (pair_draw 0) (pair_draw 1) 3_000
      3_000 3_000 at_home.0 at_home.1 issues decodes refl refl cleo_there refl (omega arith) refl
      refl second_unused

window_is_kept_example : count (in_window 60 10) (passes 2 60 [] (10 ∷ 20 ∷ 30 ∷ 75 ∷ [])) ≤ 2
window_is_kept_example =
    window_is_kept 2 60 10 (10 ∷ 20 ∷ 30 ∷ 75 ∷ [])
      (omega arith, (omega arith, (omega arith, (omega arith, tt))))

refused : (admit 2 60 30 (10 ∷ 20 ∷ [])).0 ≡ Outcome.limited 40
unfolding admit prune
refused = refl

retry_passes_example : (admit 2 60 1_000_030 (admit 2 60 30 (10 ∷ 20 ∷ [])).1).0 ≡ Outcome.passed
retry_passes_example =
    retry_passes 2 60 30 40 1_000_030 (10 ∷ 20 ∷ []) (omega arith) (omega arith, (omega arith, tt))
      refused (omega arith)
