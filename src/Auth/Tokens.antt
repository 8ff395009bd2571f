-- ===== src/Auth/Tokens.antt =====
-- Refresh tokens are good once, and none is after a logout.
use text.Mathlib.Text.{◌==◌ as str_eq}
use text.Mathlib.TextPositions.{eq_refl}
use rolling_api.Prelude.{
  ℕ, String, ◌≡◌, ◌⊎◌, inl, inr, refl, ◌∙◌, Bool, true, false, Option, none, some, List, [], ◌∷◌,
  ◌++◌, arith, map, find, find_one, find-append, find-none, ◌+◌, ◌<◌, find-append_some, find-save,
  find_matches, get, save, All, All-at, Member-find, Option-cases, ok, err, unauthorized_error,
  >>=-eq-ok,
}
use rolling_api.Model.{Db, User, UserStatus, RefreshToken, user_row, token_row}
use rolling_api.Auth.{
  Crypto, PairDraw, TokenPair, token_user, token_of, refresh, logout, revoke_of, revoked_token,
  issue_token_pair, new_token, days, refresh_payload, access_payload, refresh_for, has_hash,
  fits_column, is_storable,
}

module _ (crypto : Crypto) (expire : ℕ) where
  -- the row that a token stands for, revoked
  refresh-revoked :
      (db : Db) (token : String) (ua ip : Option String) (now now' now'' : ℕ) (d : PairDraw)
      (user_id : ℕ) (t : RefreshToken)
      → token_user crypto expire "refresh" token now ≡ ok user_id
      → find (token_of user_id (crypto.sha256 token)) db.tokens ≡ some t
      → t.revoked ≡ true
      → refresh crypto expire db token ua ip now now' now'' d ≡ err unauthorized_error
  unfolding refresh
  refresh-revoked db token ua ip now now' now'' d user_id t u f r = ground arith

  refresh-unknown :
      (db : Db) (token : String) (ua ip : Option String) (now now' now'' : ℕ) (d : PairDraw)
      (user_id : ℕ)
      → token_user crypto expire "refresh" token now ≡ ok user_id
      → find (token_of user_id (crypto.sha256 token)) db.tokens ≡ none
      → refresh crypto expire db token ua ip now now' now'' d ≡ err unauthorized_error
  unfolding refresh
  refresh-unknown db token ua ip now now' now'' d user_id u f = ground arith

  token_user-same :
      (token : String) (now later user_id : ℕ)
      → crypto.decode token later ≡ crypto.decode token now
      → token_user crypto expire "refresh" token now ≡ ok user_id
      → token_user crypto expire "refresh" token later ≡ ok user_id
  unfolding token_user
  token_user-same token now later user_id e h = rw e h

  refresh-undecoded :
      (db : Db) (token : String) (ua ip : Option String) (now now' now'' : ℕ) (d : PairDraw)
      → crypto.decode token now ≡ none
      → refresh crypto expire db token ua ip now now' now'' d ≡ err unauthorized_error
  unfolding refresh token_user
  refresh-undecoded db token ua ip now now' now'' d e = ground arith

  -- what a refresh that returned has found and written
  refresh_parts :
      (db : Db) (token : String) (ua ip : Option String) (now now' now'' : ℕ) (d : PairDraw)
      (pair : TokenPair) (db' : Db)
      → refresh crypto expire db token ua ip now now' now'' d ≡ ok (pair, db')
      → (user_id : ℕ) × (t : RefreshToken) × (new : RefreshToken) × (token_user crypto expire
            "refresh" token now
          ≡ ok user_id)
        × (find (token_of user_id (crypto.sha256 token)) db.tokens ≡ some t)
        × (db'.tokens ≡ save (revoked_token t now'') db.tokens ++ new ∷ [])
  unfolding refresh issue_token_pair
  refresh_parts db token ua ip now now' now'' d pair db' h =
      let (k, named, rest) =
        >>=-eq-ok (token_user crypto expire "refresh" token now) _ (pair, db') h in
      elim (Option-cases (find (token_of k (crypto.sha256 token)) db.tokens)) [
        | inl absent ↦ absurd (ground (arith, absent, rest))
        | inr (t, found) ↦ elim (Option-cases (get k db.users)) [
          | inl absent ↦ absurd (ground (arith, found, absent, rest))
          | inr (user, there) ↦ (
            k,
            t,
            new_token crypto expire user.id
                (crypto.encode (refresh_payload crypto expire user.id) d.refresh_now d.refresh_jti)
                ua ip d,
            named,
            found,
            ground (arith, found, there, rest),
          )
        ]
      ]

  -- A refresh token is good once: after a refresh that returned, the same token is refused
  -- whatever else the requests draw, if it still decodes as it did or no longer decodes.
  pub refresh_is_single_use :
      (db : Db) (token : String) (ua ip ua' ip' : Option String)
      (now now' now'' later later' later'' : ℕ) (d d' : PairDraw) (pair : TokenPair) (db' : Db)
      → (crypto.decode token later ≡ crypto.decode token now) ⊎ (crypto.decode token later ≡ none)
      → refresh crypto expire db token ua ip now now' now'' d ≡ ok (pair, db')
      → refresh crypto expire db' token ua' ip' later later' later'' d' ≡ err unauthorized_error
  refresh_is_single_use db token ua ip ua' ip' now now' now'' later later' later'' d d' pair db'
        (inr gone) h =
      refresh-undecoded db' token ua' ip' later later' later'' d' gone
  refresh_is_single_use db token ua ip ua' ip' now now' now'' later later' later'' d d' pair db'
        (inl same) h =
      let (k, t, new, named, found, wrote) =
        refresh_parts db token ua ip now now' now'' d pair db' h in
      let p = token_of k (crypto.sha256 token) in
      let there =
        find-save p (revoked_token t now'') t db.tokens found refl
          (find_matches p db.tokens t found) in
      let found' = find-append_some p (save (revoked_token t now'') db.tokens) (new ∷ []) _ there in
      refresh-revoked db' token ua' ip' later later' later'' d' k (revoked_token t now'')
        (token_user-same token now later k same named) (rw wrote found') refl

revoked-map :
    (user_id now : ℕ) (ts : List RefreshToken)
    → All
        (λ (t : RefreshToken). t.user_id ≡ user_id → t.revoked ≡ true)
        (map (revoke_of user_id now) ts)
revoked-map user_id now [] = tt
revoked-map user_id now (t ∷ ts) = (λ e. ground (arith, e), revoked-map user_id now ts)

module _ (crypto : Crypto) (expire : ℕ) where
  -- After a logout no refresh token of the user is good any more: each is refused with 401.
  pub logout_ends_all :
      (db : Db) (user_id left : ℕ) (token : String) (ua ip : Option String) (now now' now'' : ℕ)
      (d : PairDraw)
      → token_user crypto expire "refresh" token now ≡ ok user_id
      → refresh crypto expire (logout db user_id left) token ua ip now now' now'' d
        ≡ err unauthorized_error
  unfolding logout
  logout_ends_all db user_id left token ua ip now now' now'' d named =
      let p = token_of user_id (crypto.sha256 token) in
      let db' = logout db user_id left in
      elim (Option-cases (find p db'.tokens)) [
        | inl absent ↦
            refresh-unknown crypto expire db' token ua ip now now' now'' d user_id named absent
        | inr (t, found) ↦
            let mine : t.user_id ≡ user_id = ground (arith, find_matches p db'.tokens t found) in
            let ended =
              All-at _ db'.tokens t (revoked-map user_id left db.tokens)
                (Member-find p db'.tokens t found) in
            refresh-revoked crypto expire db' token ua ip now now' now'' d user_id t named found
              (ended mine)
      ]

  -- a row of the user with the hash is a row with the hash
  no_token :
      (user_id : ℕ) (hash : String) (ts : List RefreshToken)
      → find (has_hash hash) ts ≡ none
      → find (token_of user_id hash) ts ≡ none
  unfolding find
  no_token user_id hash [] h = refl
  no_token user_id hash (t ∷ ts) h = ground (arith, h, no_token user_id hash ts)

  no_saved :
      (p : RefreshToken → Bool) (t : RefreshToken) (ts : List RefreshToken)
      → find p ts ≡ none
      → p t ≡ false
      → find p (save t ts) ≡ none
  unfolding find save
  no_saved p t [] h out = refl
  no_saved p t (u ∷ ts) h out = ground (arith, h, out, no_saved p t ts)

  -- what an issue that returned has checked and written
  issued_parts :
      (db : Db) (user : User) (ua ip : Option String) (d : PairDraw) (pair : TokenPair) (db' : Db)
      → issue_token_pair crypto expire db user ua ip d ≡ ok (pair, db')
      → let row = new_token crypto expire user.id pair.refresh_token ua ip d in
        (pair.refresh_token ≡ refresh_for crypto expire user.id d)
        × (find (has_hash (crypto.sha256 pair.refresh_token)) db.tokens ≡ none)
        × (db' ≡ record db { tokens = db.tokens ++ row ∷ [] })
  unfolding issue_token_pair is_storable
  issued_parts db user ua ip d pair db' h =
      (ground (arith, h), ground (arith, h), ground (arith, h))

  -- A pair that was issued to an active user, whose account is stored as it is, can be refreshed
  -- before the row expires, where its refresh token decodes to the claims it was made of, the
  -- identifier is written as a text that is not empty and reads back as it, the User-Agent and the
  -- address of the refresh fit their columns, and no stored row has the hash of the next token.
  pub issued_pair_refreshes :
      (db : Db) (user : User) (ua ip ua' ip' : Option String) (d d' : PairDraw) (now now' now'' : ℕ)
      (pair : TokenPair) (db' : Db)
      → issue_token_pair crypto expire db user ua ip d ≡ ok (pair, db')
      → crypto.decode pair.refresh_token now ≡ some (refresh_payload crypto expire user.id)
      → crypto.uuid_of (crypto.uuid_text user.id) ≡ some user.id
      → str_eq (crypto.uuid_text user.id) "" ≡ false
      → get user.id db.users ≡ some user
      → user.status ≡ UserStatus.active
      → now' < d.row_now + days expire
      → fits_column 255 ua' ≡ true
      → fits_column 100 ip' ≡ true
      → find (has_hash (crypto.sha256 (refresh_for crypto expire user.id d'))) db'.tokens ≡ none
      → (next : TokenPair) × (db'' : Db) × (refresh crypto expire db' pair.refresh_token ua' ip' now
            now' now'' d'
          ≡ ok (next, db''))
  unfolding refresh token_user issue_token_pair is_storable
  issued_pair_refreshes db user ua ip ua' ip' d d' now now' now'' pair db' issues decodes reads
        named there active soon short short' new =
      let (same, unused, wrote) = issued_parts db user ua ip d pair db' issues in
      let row = new_token crypto expire user.id pair.refresh_token ua ip d in
      let p = token_of user.id (crypto.sha256 pair.refresh_token) in
      let hash = eq_refl (crypto.sha256 pair.refresh_token) in
      let mine : p row ≡ true = ground (arith, hash) in
      let found' : find p (db.tokens ++ row ∷ []) ≡ some row =
        find-append p db.tokens (row ∷ [])
          (no_token user.id (crypto.sha256 pair.refresh_token) db.tokens unused)
        ∙ find_one p row mine in
      let found : find p db'.tokens ≡ some row = rw wrote found' in
      let here : get user.id db'.users ≡ some user = rw wrote there in
      let q = has_hash (crypto.sha256 (refresh_for crypto expire user.id d')) in
      let apart : q row ≡ false =
        ground (arith, find-none q db'.tokens row new (Member-find p db'.tokens row found)) in
      let free = no_saved q (revoked_token row now'') db'.tokens new apart in
      let typed = eq_refl "refresh" in
      (
        record {
          access_token =
              crypto.encode (access_payload crypto expire user.id) d'.access_now d'.access_jti;
          refresh_token = refresh_for crypto expire user.id d';
        },
        record db' {
          tokens =
              save (revoked_token row now'') db'.tokens
              ++ new_token crypto expire user.id (refresh_for crypto expire user.id d') ua' ip' d'
                ∷ [];
        },
        ground
            (arith, decodes, reads, named, found, here, active, soon, typed, short, short', free),
      )
