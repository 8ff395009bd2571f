-- ===== src/Api/Requests/Denied.antt =====
-- A request that returns, or that changes the database, has a caller who is entitled to it.
use rolling_api.Prelude.{
  ℕ, String, ◌≡◌, ◌≢◌, ◌⊎◌, inl, inr, refl, sym, ap, ◌∙◌, Bool, true, some, [], ◌∷◌, arith, ◌==◌,
  any, find, get, key-get, Bool-cases, Result, ok, err, ApiError, Result-cases, >>=-eq-ok, or_raise,
}
use rolling_api.Model.{Db, User, UserRole, UserStatus, Planner, PlannerStatus, user_row}
use rolling_api.Auth.{Crypto, token_user, get_current_user}
use rolling_api.Planner.{get_planner_for_user}
use rolling_api.Headers.{extract_bearer}
use rolling_api.Api.{
  Tx, Http, current_user, require_roles, same_role, run, as_user, as_role, ◌>>=◌, query,
}
use rolling_api.Api.Planners
use rolling_api.Api.Requests.{
  Request, Operation, serve, serve_operation, serve_order, open_to_all, for_account, for_planner,
  for_admin,
}

-- The request returned, or it committed a change.
abbrev pub TookEffect : Result (Unit {0}) × Db → Db → Type 0
TookEffect (answer, after) db = (answer ≡ ok tt) ⊎ (after ≢ db)

module _ (crypto : Crypto) (expire_days : ℕ) where
  -- The bearer token of the request names the user, whose account exists and is active.
  pub record IsCaller (http : Http) (db : Db) (user : User) : Type 0 where
    pub token : String
    pub bearer : extract_bearer http.authorization ≡ ok token
    pub named : token_user crypto expire_days "access" token http.now ≡ ok user.id
    pub found : get user.id db.users ≡ some user
    pub active : user.status ≡ UserStatus.active

  caller :
      (http : Http) (db : Db) (user : User)
      → current_user crypto expire_days http db ≡ ok user
      → IsCaller http db user
  unfolding current_user get_current_user
  caller http db user h = elim (Result-cases (extract_bearer http.authorization)) [
    | inr (e, refused) ↦ absurd (ground (arith, h, refused))
    | inl (token, bearer) ↦
        let rest : get_current_user crypto expire_days db token http.now ≡ ok user =
          ground (arith, h, bearer) in
        let (user_id, named, r1) =
          >>=-eq-ok (token_user crypto expire_days "access" token http.now) _ user rest in
        let (u, there, r2) = >>=-eq-ok (or_raise (get user_id db.users) _) _ user r1 in
        let found : get user_id db.users ≡ some u = ground (arith, there) in
        let key = key-get user_id db.users u found in
        let same : u ≡ user = ground (arith, r2) in
        record {
          token = token;
          bearer = bearer;
          named = ground (arith, named, key, same);
          found = ground (arith, found, key, same);
          active = ground (arith, r2);
        }
  ]

-- The account of the planner is approved.
pub record IsApproved (db : Db) (user : User) : Type 0 where
  pub planner : Planner
  pub found : find (λ (p : Planner). p.user_id == user.id) db.planners ≡ some planner
  pub approved : planner.status ≡ PlannerStatus.approved

approved :
    (db : Db) (user : User) (planner : Planner)
    → get_planner_for_user db user ≡ ok planner
    → IsApproved db user
unfolding get_planner_for_user
approved db user planner h =
    let (p, there, rest) =
      >>=-eq-ok (or_raise (find (λ (p : Planner). p.user_id == user.id) db.planners) _) _ planner
        h in
    let found : find (λ (p : Planner). p.user_id == user.id) db.planners ≡ some p =
      ground (arith, there) in
    record { planner = p; found = found; approved = ground (arith, rest) }

-- what a request needs of its caller
abbrev pub Entitled : Crypto → ℕ → Http → Db → Request → Type 0
Entitled crypto expire_days http db (open_to_all q) = Unit
Entitled crypto expire_days http db (for_account q) =
    (u : User) × IsCaller crypto expire_days http db u
Entitled crypto expire_days http db (for_planner q) =
    (u : User) × IsCaller crypto expire_days http db u
    × (u.role ≡ UserRole.planner)
    × IsApproved db u
Entitled crypto expire_days http db (for_admin q) =
    (u : User) × IsCaller crypto expire_days http db u × (u.role ≡ UserRole.admin)

-- an error before any commit
abbrev Fails : Tx (Unit {0}) → Db → Type 0
Fails route db = (e : ApiError) × (run route db ≡ (err e, db))

no_effect : (route : Tx (Unit {0})) (db : Db) → Fails route db → TookEffect (run route db) db → ⊥
no_effect route db (e, fails) (inl returned) = cc
no_effect route db (e, fails) (inr changed) = changed (ap (λ x. x.1) fails)

same_role_eq : (r s : UserRole) → same_role r s ≡ true → r ≡ s
same_role_eq r s h = ground (arith, h)

module _ (crypto : Crypto) (expire_days : ℕ) (name_le : String → String → Bool) (http : Http)
    (db : Db) where
  role_parts :
      (role : UserRole) (user : User)
      → require_roles crypto expire_days (role ∷ []) http db ≡ ok user
      → (current_user crypto expire_days http db ≡ ok user) × (user.role ≡ role)
  unfolding require_roles any
  role_parts role user h = elim (Result-cases (current_user crypto expire_days http db)) [
    | inr (e, refused) ↦ absurd (ground (arith, h, refused))
    | inl (u, there) ↦ elim (Bool-cases (same_role u.role role)) [
      | inr other ↦ absurd (ground (arith, h, there, other))
      | inl same ↦
          let e : u ≡ user = ground (arith, h, there, same) in
          (there ∙ ap ok e, sym (ap (λ (x : User). x.role) e) ∙ same_role_eq u.role role same)
    ]
  ]

  operation_needs_planner :
      (user : User) (q : Operation) (e : ApiError)
      → get_planner_for_user db user ≡ err e
      → Fails (serve_operation crypto expire_days name_le http user q) db
  unfolding ◌>>=◌ query serve_operation Planners.dashboard Planners.list_assigned
      Planners.get_assigned_room Planners.confirm_assigned_room Planners.open_room_checkin
      Planners.list_room_checkins Planners.confirm_checkin Planners.mark_checkin_no_show
      Planners.start_rotation Planners.advance_rotation Planners.finish_rotation
      Planners.get_rotation
  operation_needs_planner user (Operation.dashboard now) e h = (e, rw h refl)
  operation_needs_planner user Operation.list_assigned e h = (e, rw h refl)
  operation_needs_planner user (Operation.get_assigned_room k) e h = (e, rw h refl)
  operation_needs_planner user (Operation.confirm_assigned_room k) e h = (e, rw h refl)
  operation_needs_planner user (Operation.open_room_checkin k d) e h = (e, rw h refl)
  operation_needs_planner user (Operation.list_room_checkins k) e h = (e, rw h refl)
  operation_needs_planner user (Operation.confirm_checkin k now) e h = (e, rw h refl)
  operation_needs_planner user (Operation.mark_checkin_no_show k) e h = (e, rw h refl)
  operation_needs_planner user (Operation.start_rotation k minutes d) e h = (e, rw h refl)
  operation_needs_planner user (Operation.advance_rotation k now now') e h = (e, rw h refl)
  operation_needs_planner user (Operation.finish_rotation k now) e h = (e, rw h refl)
  operation_needs_planner user (Operation.get_rotation k) e h = (e, rw h refl)

  -- the guard of a route that needs an account, and of one that needs a role

  user_or_fails :
      (route : User → Tx (Unit {0}))
      → TookEffect (run (as_user crypto expire_days http route) db) db
      → (u : User) × IsCaller crypto expire_days http db u
  unfolding ◌>>=◌ query
  user_or_fails route took = elim (Result-cases (current_user crypto expire_days http db)) [
    | inl (u, there) ↦ (u, caller crypto expire_days http db u there)
    | inr (e, refused) ↦
        absurd (no_effect (as_user crypto expire_days http route) db (e, rw refused refl) took)
  ]

  role_or_fails :
      (role : UserRole) (route : User → Tx (Unit {0}))
      → TookEffect (run (as_role crypto expire_days role http route) db) db
      → (u : User) × IsCaller crypto expire_days http db u
        × (u.role ≡ role)
        × TookEffect (run (route u) db) db
  unfolding ◌>>=◌ query
  role_or_fails role route took =
      elim (Result-cases (require_roles crypto expire_days (role ∷ []) http db)) [
        | inl (u, there) ↦
            let (known, has) = role_parts role u there in
            (u, caller crypto expire_days http db u known, has, rw there at took)
        | inr (e, refused) ↦
            absurd
              (no_effect (as_role crypto expire_days role http route) db (e, rw refused refl) took)
      ]

-- Whoever makes a request that returns or that commits a change is entitled to it: apart from the
-- requests that are open to all, the bearer token names the caller, whose account exists and is
-- active; for a planner's request the account also has the role of a planner and its planner is
-- approved, and for an administrator's request the role of an administrator.
pub serve-Entitled :
    (crypto : Crypto) (expire_days : ℕ) (name_le : String → String → Bool) (http : Http) (db : Db)
    (q : Request)
    → TookEffect (run (serve crypto expire_days name_le http q) db) db
    → Entitled crypto expire_days http db q
unfolding serve
serve-Entitled crypto expire_days name_le http db (open_to_all q) took = tt
serve-Entitled crypto expire_days name_le http db (for_account q) took =
    user_or_fails crypto expire_days name_le http db _ took
serve-Entitled crypto expire_days name_le http db (for_planner q) took =
    let (u, who, role, effect) =
      role_or_fails crypto expire_days name_le http db UserRole.planner
        (λ user. serve_operation crypto expire_days name_le http user q) took in
    elim (Result-cases (get_planner_for_user db u)) [
      | inl (planner, there) ↦ (u, who, role, approved db u planner there)
      | inr (e, refused) ↦ absurd (
          no_effect (serve_operation crypto expire_days name_le http u q) db
            (operation_needs_planner crypto expire_days name_le http db u q e refused) effect)
    ]
serve-Entitled crypto expire_days name_le http db (for_admin q) took =
    let (u, who, role, effect) =
      role_or_fails crypto expire_days name_le http db UserRole.admin
        (λ user. serve_order crypto expire_days name_le http user q) took in
    (u, who, role)
