-- ===== src/Api/Accounts.antt =====
-- app/api/v1/auth.py.
use rolling_api.Prelude.{ℕ, String, ok}
use rolling_api.Model.{User}
use rolling_api.Auth.{Crypto, TokenPair, PairDraw, RegisterRequest, RegisterDraw}
use rolling_api.Auth
use rolling_api.Api.{Tx, ◌>>=◌, ◌>>◌, return, call, commit, Http, ip_of}

module _ (crypto : Crypto) (expire_days : ℕ) where
  unfoldable pub register : RegisterRequest → RegisterDraw → Tx User
  register body d = do
    user ← call (λ db. Auth.register crypto expire_days db body d)
    commit
    return user

  -- `now` is the login's clock reading
  unfoldable pub login : Http → String → String → ℕ → PairDraw → Tx TokenPair
  login http email password now d = do
    (_, pair) ←
        call (λ db. Auth.login crypto expire_days db email password http.ua (ip_of http) now d)
    commit
    return pair

  -- the clock is read by the decoding, the test of the expiry and the revocation
  unfoldable pub refresh : Http → String → ℕ → ℕ → ℕ → PairDraw → Tx TokenPair
  refresh http token now now' now'' d = do
    pair ←
        call (λ db. Auth.refresh crypto expire_days db token http.ua (ip_of http) now now' now'' d)
    commit
    return pair

unfoldable pub logout : User → ℕ → Tx (Unit {0})
logout user now = do call (λ db. ok (tt, Auth.logout db user.id now)); commit; return tt

unfoldable pub me : User → Tx User
me user = return user
