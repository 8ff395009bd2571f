-- ===== src/Auth/Accounts.antt =====
-- Registration: unique accounts that can log in, and the referrer.
use text.Mathlib.TextPositions.{eq_refl}
use rolling_api.Prelude.{
  find_one, count_one, save, ◌∙◌, ℕ, zero, suc, String, ◌≡◌, inl, inr, refl, true, false, Option,
  none, some, List, [], ◌∷◌, ◌++◌, arith, find, find-append, count, count-append, count-none,
  Option-cases, ok, Result-cases,
}
use rolling_api.Model.{Db, User, user_row}
use rolling_api.Auth.{
  Crypto, RegisterRequest, RegisterDraw, PairDraw, TokenPair, register, login, generate_code,
  resolve_referrer, new_user, has_email, has_code, is_admin, issue_token_pair, refresh_for,
  access_payload, new_token, has_hash, fits_column, is_storable,
}

-- A code that is handed out belongs to nobody yet.
code_is_new :
    (users : List User) (code : ℕ → String) (k : ℕ) (c : String)
    → generate_code users code k ≡ ok c
    → find (has_code c) users ≡ none
unfolding generate_code
code_is_new users code zero c h = absurd (ground (arith, h))
code_is_new users code (suc k) c h = elim (Option-cases (find (has_code (code k)) users)) [
  | inl free ↦ let same : code k ≡ c = ground (arith, free, h) in rw (← same) free
  | inr (u, used) ↦ code_is_new users code k c (ground (arith, used, h))
]

-- What a registration that returned has checked and written.
pub record IsRegistered (crypto : Crypto) (expire : ℕ) (db : Db) (body : RegisterRequest)
    (d : RegisterDraw) (user : User) (db' : Db) : Type 0 where
  pub code : String
  pub referrer : Option User
  pub resolved :
      resolve_referrer db.users body.referral_code body.referral_code_normal ≡ ok referrer
  pub user_is : user ≡ new_user crypto expire body referrer code d
  pub email_new : find (has_email body.email) db.users ≡ none
  pub code_new : find (has_code code) db.users ≡ none
  pub not_admin : is_admin user.role ≡ false
  pub written : db' ≡ record db { users = db.users ++ user ∷ [] }

module _ (crypto : Crypto) (expire : ℕ) (db : Db) (body : RegisterRequest) (d : RegisterDraw) where
  IsRegistered-with :
      (user : User) (db' : Db) (referrer : Option User) (code : String)
      → resolve_referrer db.users body.referral_code body.referral_code_normal ≡ ok referrer
      → generate_code db.users d.code 8 ≡ ok code
      → register crypto expire db body d ≡ ok (user, db')
      → IsRegistered crypto expire db body d user db'
  unfolding register
  IsRegistered-with user db' referrer code r g h = record {
    code = code;
    referrer = referrer;
    resolved = r;
    user_is = ground (arith, r, g, h);
    email_new = ground (arith, h);
    code_new = code_is_new db.users d.code 8 code g;
    not_admin = ground (arith, r, g, h);
    written = ground (arith, r, g, h);
  }

  register-IsRegistered :
      (user : User) (db' : Db)
      → register crypto expire db body d ≡ ok (user, db')
      → IsRegistered crypto expire db body d user db'
  unfolding register
  register-IsRegistered user db' h =
      elim (Result-cases (resolve_referrer db.users body.referral_code body.referral_code_normal)) [
        | inr (e, bad) ↦ absurd (ground (arith, bad, h))
        | inl (referrer, r) ↦ elim (Result-cases (generate_code db.users d.code 8)) [
          | inr (e, bad) ↦ absurd (ground (arith, r, bad, h))
          | inl (code, g) ↦ IsRegistered-with user db' referrer code r g h
        ]
      ]

find_registered :
    (crypto : Crypto) (expire : ℕ) (db : Db) (body : RegisterRequest) (d : RegisterDraw)
    (user : User) (db' : Db)
    → IsRegistered crypto expire db body d user db'
    → find (has_email body.email) db'.users ≡ some user
find_registered crypto expire db body d user db' r =
    let wrote = r.written in
    let same = eq_refl body.email in
    let skip = find-append (has_email body.email) db.users (user ∷ []) r.email_new in
    let last = find_one (has_email body.email) user (rw r.user_is same) in rw wrote (skip ∙ last)

-- Where `verify_password` accepts a password against its own hash, the User-Agent and the address
-- of the login fit their columns, and no stored refresh token has the hash of the one that the login
-- issues, an account that was just registered logs in with the address and the password of its
-- registration, and is given tokens.
pub registered_logs_in :
    (crypto : Crypto) (expire : ℕ) (db : Db) (body : RegisterRequest) (d : RegisterDraw)
    (user : User) (db' : Db) (user_agent ip_address : Option String) (now : ℕ) (e : PairDraw)
    → crypto.verify_password body.password (crypto.hash_password body.password d.salt) ≡ true
    → fits_column 255 user_agent ≡ true
    → fits_column 100 ip_address ≡ true
    → find (has_hash (crypto.sha256 (refresh_for crypto expire user.id e))) db.tokens ≡ none
    → register crypto expire db body d ≡ ok (user, db')
    → (pair : TokenPair) × (db'' : Db) × (login crypto expire db' body.email body.password
          user_agent ip_address now e
        ≡ ok ((record user { last_login_at = some now }, pair), db''))
unfolding login issue_token_pair is_storable
registered_logs_in crypto expire db body d user db' user_agent ip_address now e verified short
      short' new h =
    let r = register-IsRegistered crypto expire db body d user db' h in
    let found = find_registered crypto expire db body d user db' r in
    let is = r.user_is in
    let wrote = r.written in
    let unused : find (has_hash (crypto.sha256 (refresh_for crypto expire user.id e))) db'.tokens
        ≡ none =
      rw wrote new in
    let refresh = refresh_for crypto expire user.id e in
    let user' = record user { last_login_at = some now } in
    (
      record {
        access_token =
            crypto.encode (access_payload crypto expire user.id) e.access_now e.access_jti;
        refresh_token = refresh;
      },
      record db' {
        users = save user' db'.users;
        tokens = db'.tokens ++ new_token crypto expire user.id refresh user_agent ip_address e ∷ [];
      },
      ground (arith, found, is, verified, short, short', unused),
    )

-- A registration that returns leaves exactly one account with its address, does not make an
-- administrator, and gives out a referral code that no account had.
pub registration_is_safe :
    (crypto : Crypto) (expire : ℕ) (db : Db) (body : RegisterRequest) (d : RegisterDraw)
    (user : User) (db' : Db)
    → register crypto expire db body d ≡ ok (user, db')
    → (count (has_email body.email) db'.users ≡ 1)
      × (is_admin user.role ≡ false)
      × ((code : String) × (user.referral_code ≡ some code)
          × (find (has_code code) db.users ≡ none))
registration_is_safe crypto expire db body d user db' h =
    let r = register-IsRegistered crypto expire db body d user db' h in
    let is = r.user_is in
    let none_there = count-none (has_email body.email) db.users r.email_new in
    let sum = count-append (has_email body.email) db.users (user ∷ []) in
    let one = count_one (has_email body.email) user in
    let mine : has_email body.email user ≡ true = rw is (eq_refl body.email) in
    (
      rw r.written (ground (arith, none_there, sum, one, mine)),
      r.not_admin,
      (r.code, rw is refl, r.code_new),
    )
