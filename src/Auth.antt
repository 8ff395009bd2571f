-- ===== src/Auth.antt =====
-- app/services/auth_service.py, the tokens of app/core/security.py and the guard of app/api/deps.py.
-- Hashing and signing are third-party: they are the record `Crypto`, a parameter.
pub mod Accounts
pub mod Tokens
use text.Mathlib.Text.{◌==◌ as str_eq}
use rolling_api.Prelude.{
  ℕ, zero, suc, ◌+◌, ◌*◌, String, Bool, true, false, ◌&&◌, ◌||◌, not, Option, none, some, List, [],
  ◌∷◌, ◌++◌, map, leb, ◌==◌, if◌then◌else◌, is_some, find, get, save, Result, ok, err, ApiError,
  ErrorCode, api_error, conflict, forbidden, unauthorized_error, ◌>>=◌, ◌>>◌, require, raise_if,
  or_raise,
}
use rolling_api.Model.{Db, User, UserRole, UserStatus, RefreshToken, user_row, token_row}

-- the claims of a token that the services read
pub record Payload : Type 0 where
  pub type : Option String
  pub sub : Option String

-- passlib, hashlib, jose and `uuid.UUID`. Encoding takes the claims, the clock and the draw of
-- `jti`; hashing a password takes the draw of its salt; decoding takes the clock, for the expiry.
pub record Crypto : Type 0 where
  pub hash_password : String → ℕ → String
  pub verify_password : String → String → Bool
  pub encode : Payload → ℕ → ℕ → String
  pub decode : String → ℕ → Option Payload
  pub sha256 : String → String
  pub uuid_text : ℕ → String
  pub uuid_of : String → Option ℕ

-- `column == text` on a nullable column
abbrev pub text_is : Option String → String → Bool
text_is none t = false
text_is (some s) t = str_eq s t

abbrev pub is_active : UserStatus → Bool
is_active UserStatus.active = true
is_active _ = false

abbrev pub is_admin : UserRole → Bool
is_admin UserRole.admin = true
is_admin _ = false

abbrev pub has_email : String → User → Bool
has_email email u = text_is u.email email

abbrev pub has_code : String → User → Bool
has_code code u = text_is u.referral_code code

-- `REFRESH_TOKEN_EXPIRE_DAYS` days, in microseconds
abbrev pub days : ℕ → ℕ
days n = n * 86_400_000_000

pub record TokenPair : Type 0 where
  pub access_token : String
  pub refresh_token : String

-- what issuing a pair draws: two values of `jti`, the row's identifier and three clock readings
pub record PairDraw : Type 0 where
  pub access_jti : ℕ
  pub refresh_jti : ℕ
  pub token_id : ℕ
  pub access_now : ℕ
  pub refresh_now : ℕ
  pub row_now : ℕ

-- what a registration draws: the codes of the attempts, the salt and the identifier
pub record RegisterDraw : Type 0 where
  pub code : ℕ → String
  pub salt : ℕ
  pub user_id : ℕ

-- `referral_code_normal` is what `.upper().strip()` makes of the code
pub record RegisterRequest : Type 0 where
  pub email : String
  pub password : String
  pub role : UserRole
  pub referral_code : Option String
  pub referral_code_normal : String

-- `_generate_referral_code`, with `k` attempts to go
unfoldable pub generate_code : List User → (ℕ → String) → ℕ → Result String
generate_code users code zero = err (api_error ErrorCode.no_unique_code 500)
generate_code users code (suc k) =
    let rest = generate_code users code k in
    if is_some (find (has_code (code k)) users) then rest else ok (code k)

-- `if body.referral_code:`, and the look-up of the referrer
unfoldable pub resolve_referrer : List User → Option String → String → Result (Option User)
resolve_referrer users none code = ok none
resolve_referrer users (some raw) code =
    if str_eq raw "" then ok none else elim (find (has_code code) users) [
      | none ↦ err (api_error ErrorCode.invalid_referral_code 409)
      | some u ↦ ok (some u)
    ]

abbrev pub id_of : Option User → Option ℕ
id_of none = none
id_of (some u) = some u.id

-- `_extract_bearer` has taken the token off the header
abbrev pub is_type : Payload → String → Bool
is_type p t = text_is p.type t

-- `if not sub`, else the text
abbrev pub subject : Payload → Result String
subject p = elim p.sub [
  | none ↦ err unauthorized_error
  | some s ↦ if str_eq s "" then err unauthorized_error else ok s
]

abbrev pub token_of : ℕ → String → RefreshToken → Bool
token_of user_id hash t = t.user_id == user_id && str_eq t.token_hash hash

abbrev pub revoked_token : RefreshToken → ℕ → RefreshToken
revoked_token t now = record t { revoked = true; revoked_at = some now }

-- the body of the loop of `logout`, over the rows that its query selects
abbrev pub revoke_of : ℕ → ℕ → RefreshToken → RefreshToken
revoke_of user_id now t = if t.user_id == user_id && not t.revoked then revoked_token t now else t

unfoldable pub logout : Db → ℕ → ℕ → Db
logout db user_id now = record db { tokens = map (revoke_of user_id now) db.tokens }

-- the number of characters of a text
unfoldable pub text_length : String → ℕ
text_length String.[] = 0
text_length (String.◌∷◌ c s) = suc (text_length s)

-- a value of a column `String(n)` that may be NULL
abbrev pub fits_column : ℕ → Option String → Bool
fits_column n none = true
fits_column n (some s) = leb (text_length s) n

abbrev pub has_hash : String → RefreshToken → Bool
has_hash hash t = str_eq t.token_hash hash

-- the columns `user_agent` and `ip_address` of the table, and its unique `token_hash`
unfoldable pub is_storable : List RefreshToken → RefreshToken → Bool
unfolding text_length
is_storable tokens t =
    (fits_column 255 t.user_agent && fits_column 100 t.ip_address)
    && not (is_some (find (has_hash t.token_hash) tokens))

module _ (crypto : Crypto) (expire_days : ℕ) where
  abbrev pub refresh_payload : ℕ → Payload
  refresh_payload user_id = record { type = some "refresh"; sub = some (crypto.uuid_text user_id) }

  abbrev pub access_payload : ℕ → Payload
  access_payload user_id = record { type = some "access"; sub = some (crypto.uuid_text user_id) }

  abbrev pub new_token : ℕ → String → Option String → Option String → PairDraw → RefreshToken
  new_token user_id refresh user_agent ip_address d = record {
    id = d.token_id;
    user_id = user_id;
    token_hash = crypto.sha256 refresh;
    expires_at = d.row_now + days expire_days;
    revoked = false;
    revoked_at = none;
    user_agent = user_agent;
    ip_address = ip_address;
  }

  -- the refresh token that is issued to a user
  abbrev pub refresh_for : ℕ → PairDraw → String
  refresh_for user_id d = crypto.encode (refresh_payload user_id) d.refresh_now d.refresh_jti

  -- `_issue_token_pair`; the flush fails where the row breaks a constraint of its table
  unfoldable pub issue_token_pair :
      Db → User → Option String → Option String → PairDraw → Result (TokenPair × Db)
  issue_token_pair db user user_agent ip_address d = do
    let access = crypto.encode (access_payload user.id) d.access_now d.access_jti
    let refresh = refresh_for user.id d
    let row = new_token user.id refresh user_agent ip_address d
    require (is_storable db.tokens row) (api_error ErrorCode.integrity_error 500)
    ok (
      record { access_token = access; refresh_token = refresh },
      record db { tokens = db.tokens ++ row ∷ [] },
    )

  abbrev pub new_user : RegisterRequest → Option User → String → RegisterDraw → User
  new_user body referred_by code d = record {
    id = d.user_id;
    email = some body.email;
    phone = none;
    password_hash = some (crypto.hash_password body.password d.salt);
    role = body.role;
    status = UserStatus.active;
    last_login_at = none;
    referral_code = some code;
    referred_by_user_id = id_of referred_by;
    referral_bonus_emitted = false;
  }

  unfoldable pub register : Db → RegisterRequest → RegisterDraw → Result (User × Db)
  register db body d = do
    raise_if (is_some (find (has_email body.email) db.users))
        (conflict ErrorCode.email_already_exists)
    raise_if (is_admin body.role) (conflict ErrorCode.invalid_role)
    referred_by ← resolve_referrer db.users body.referral_code body.referral_code_normal
    code ← generate_code db.users d.code 8
    let user = new_user body referred_by code d
    ok (user, record db { users = db.users ++ user ∷ [] })

  -- `user.password_hash is None or not verify_password(...)`, denied
  abbrev pub password_fits : Option String → String → Bool
  password_fits none password = false
  password_fits (some hashed) password = crypto.verify_password password hashed

  unfoldable pub login :
      Db
      → String
      → String
      → Option String
      → Option String
      → ℕ
      → PairDraw
      → Result ((User × TokenPair) × Db)
  login db email password user_agent ip_address now d = do
    user ← or_raise (find (has_email email) db.users) unauthorized_error
    require (password_fits user.password_hash password) unauthorized_error
    require (is_active user.status) unauthorized_error
    let user' = record user { last_login_at = some now }
    let logged = record db { users = save user' db.users }
    (pair, issued) ← issue_token_pair logged user' user_agent ip_address d
    ok ((user', pair), issued)

  -- the checks on the token alone: it decodes, is of the type, and names a user
  unfoldable pub token_user : String → String → ℕ → Result ℕ
  token_user type token now = do
    payload ← or_raise (crypto.decode token now) unauthorized_error
    require (is_type payload type) unauthorized_error
    sub ← subject payload
    or_raise (crypto.uuid_of sub) unauthorized_error

  -- `now` is read by the decoding, `now'` by the test of the expiry, `now''` by the revocation
  unfoldable pub refresh :
      Db → String → Option String → Option String → ℕ → ℕ → ℕ → PairDraw → Result (TokenPair × Db)
  refresh db token user_agent ip_address now now' now'' d = do
    user_id ← token_user "refresh" token now
    stored ← or_raise (find (token_of user_id (crypto.sha256 token)) db.tokens) unauthorized_error
    raise_if stored.revoked unauthorized_error
    raise_if (leb stored.expires_at now') unauthorized_error
    user ← or_raise (get user_id db.users) unauthorized_error
    require (is_active user.status) unauthorized_error
    let rotated = record db { tokens = save (revoked_token stored now'') db.tokens }
    issue_token_pair rotated user user_agent ip_address d

  -- `get_current_user`, from the bearer token
  unfoldable pub get_current_user : Db → String → ℕ → Result User
  get_current_user db token now = do
    user_id ← token_user "access" token now
    user ← or_raise (get user_id db.users) unauthorized_error
    require (is_active user.status) forbidden
    ok user
