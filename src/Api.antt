-- ===== src/Api.antt =====
-- The routes of app/api/v1 and what they share: the transaction of a request over the session of
-- app/core/database.py, and the guards of app/api/deps.py. A route is a chain of service calls on
-- what the session sees, with `commit` where the code commits; at the end, or when an error is
-- raised, the session is closed and what was not committed is lost.
pub mod Accounts
pub mod Guests
pub mod Hosts
pub mod Planners
pub mod Admins
pub mod Requests
use rolling_api.Prelude.{
  ℕ, String, Bool, true, false, Option, none, some, List, [], ◌∷◌, any, Result, ok, err, ApiError,
  forbidden, if◌then◌else◌, ErrorCode, api_error,
}
use rolling_api.Model.{Db, User, UserRole, AuditAction, EntityType, Snapshot}
use rolling_api.Auth.{Crypto, get_current_user}
use rolling_api.Admin.{Actor, log_action}
use rolling_api.Headers.{extract_bearer, client_ip}

-- the committed database, and the database as the session sees it
pub record Conn : Type 0 where
  pub stored : Db
  pub working : Db

abbrev pub Tx : Type 0 → Type 0
Tx A = Conn → Result A × Conn

abbrev pub proceed : {A B : Type 0} → Result A × Conn → (A → Tx B) → Result B × Conn
proceed (ok a, c) rest = rest a c
proceed (err e, c) rest = (err e, c)

infixl 5 ◌>>=◌ ◌>>◌
unfoldable pub ◌>>=◌ : {A B : Type 0} → Tx A → (A → Tx B) → Tx B
◌>>=◌ m rest c = proceed (m c) rest

abbrev pub ◌>>◌ : {B : Type 0} → Tx (Unit {0}) → Tx B → Tx B
m >> rest = m >>= λ _. rest

unfoldable pub return : {A : Type 0} → A → Tx A
return a c = (ok a, c)

unfoldable pub raise : {A : Type 0} → ApiError → Tx A
raise e c = (err e, c)

-- a service that only reads
unfoldable pub query : {A : Type 0} → (Db → Result A) → Tx A
query service c = (service c.working, c)

unfoldable pub read : {A : Type 0} → (Db → A) → Tx A
read service c = (ok (service c.working), c)

abbrev pub settled : {A : Type 0} → Conn → Result (A × Db) → Result A × Conn
settled c (ok (a, db)) = (ok a, record c { working = db })
settled c (err e) = (err e, c)

-- a service that writes
unfoldable pub call : {A : Type 0} → (Db → Result (A × Db)) → Tx A
call service c = settled c (service c.working)

-- `await db.commit()`
unfoldable pub commit : Tx (Unit {0})
commit c = (ok tt, record c { stored = c.working })

-- the validation of a request's body, which is answered by 422 where it fails
abbrev pub validated : {A : Type 0} → Bool → Tx A → Tx A
validated true route = route
validated false route = raise (api_error ErrorCode.validation_error 422)

-- what a request comes with: its headers and address, the clock at the decoding of the token, and the
-- identifier that its audit row draws
pub record Http : Type 0 where
  pub authorization : Option String
  pub client_host : Option String
  pub forwarded : Option String
  pub ua : Option String
  pub now : ℕ
  pub log_id : ℕ

-- `_client_meta`
abbrev pub ip_of : Http → Option String
ip_of http = client_ip http.client_host http.forwarded

abbrev pub actor_of : Http → User → Actor
actor_of http user = record { user = user; ip = ip_of http; ua = http.ua; log_id = http.log_id }

-- `audit_service.log_action` in a route, which gives no value `before`
abbrev pub log : Http → User → AuditAction → EntityType → ℕ → Option Snapshot → Tx (Unit {0})
log http user action entity entity_id after =
    call (λ db. ok (tt, log_action db (actor_of http user) action entity entity_id none after))

abbrev pub same_role : UserRole → UserRole → Bool
same_role UserRole.participant UserRole.participant = true
same_role UserRole.planner UserRole.planner = true
same_role UserRole.admin UserRole.admin = true
same_role _ _ = false

module _ (crypto : Crypto) (expire_days : ℕ) where
  -- `get_current_user`, from the header on
  unfoldable pub current_user : Http → Db → Result User
  current_user http db = elim (extract_bearer http.authorization) [
    | ok token ↦ get_current_user crypto expire_days db token http.now
    | err e ↦ err e
  ]

  -- the dependency `Depends(get_current_user)` of a route
  abbrev pub as_user : {A : Type 0} → Http → (User → Tx A) → Tx A
  as_user http route = query (current_user http) >>= route

  -- `require_roles(role)`
  unfoldable pub require_roles : List UserRole → Http → Db → Result User
  unfolding current_user
  require_roles allowed http db = elim (current_user http db) [
    | ok user ↦ if any (same_role user.role) allowed then ok user else err forbidden
    | err e ↦ err e
  ]

  -- `PlannerUser` and `AdminUser`
  abbrev pub as_role : {A : Type 0} → UserRole → Http → (User → Tx A) → Tx A
  as_role role http route = query (require_roles (role ∷ []) http) >>= route

abbrev pub ended : {A : Type 0} → Result A × Conn → Result A × Db
ended (answer, c) = (answer, c.stored)

-- a request from its beginning to its end: the answer, and what is committed
abbrev pub run : {A : Type 0} → Tx A → Db → Result A × Db
run route db = ended (route (record { stored = db; working = db }))
